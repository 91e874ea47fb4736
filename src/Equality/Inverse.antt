-- ===== src/Equality/Inverse.antt =====
-- What a successful type assertion, or a test of equality that passed, says of its operands.
use temporal_determinizer.Prelude.{ℕ, Bool, true, ◌≡◌, List, Option, arith}
use temporal_determinizer.Word.{IntKind}
use temporal_determinizer.Types.{FloatKind, ComplexKind, GoType}
use temporal_determinizer.Types.Identity.{int_index-injective}
use temporal_determinizer.Value.{Value, ok}
use temporal_determinizer.Equality.{
  option_eq, assert_bool, assert_integer, assert_float, assert_complex, assert_string,
  assert_pointer, assert_chan, assert_iface, assert_rtype, assert_structure, assert_array,
}

pub assert_bool_inv : (y : Value) {b : Bool} → assert_bool y ≡ ok b → y ≡ Value.boolean b
assert_bool_inv (Value.boolean c) h = cc
assert_bool_inv _ h = cc

pub assert_integer_inv :
    (k : IntKind) (y : Value) {b : ℕ} → assert_integer k y ≡ ok b → y ≡ Value.integer k b
assert_integer_inv k (Value.integer j c) h = ground (arith, int_index-injective k j)
assert_integer_inv k _ h = cc

pub assert_float_inv :
    (k : FloatKind) (y : Value) {b : ℕ} → assert_float k y ≡ ok b → y ≡ Value.float k b
assert_float_inv k (Value.float j c) h = ground arith
assert_float_inv k _ h = cc

pub assert_complex_inv :
    (k : ComplexKind) (y : Value) {a b : ℕ}
    → assert_complex k y ≡ ok (a, b)
    → y ≡ Value.complex k a b
assert_complex_inv k (Value.complex j c d) h = ground arith
assert_complex_inv k _ h = cc

pub assert_string_inv : (y : Value) {s : List ℕ} → assert_string y ≡ ok s → y ≡ Value.string s
assert_string_inv (Value.string t) h = cc
assert_string_inv _ h = cc

pub assert_pointer_inv : (y : Value) {p : Option ℕ} → assert_pointer y ≡ ok p → y ≡ Value.pointer p
assert_pointer_inv (Value.pointer q) h = cc
assert_pointer_inv _ h = cc

pub assert_chan_inv : (y : Value) {p : Option ℕ} → assert_chan y ≡ ok p → y ≡ Value.chan p
assert_chan_inv (Value.chan q) h = cc
assert_chan_inv _ h = cc

pub assert_iface_inv :
    (y : Value) {t : Option GoType} {v : Value} → assert_iface y ≡ ok (t, v) → y ≡ Value.iface t v
assert_iface_inv (Value.iface s w) h = ground arith
assert_iface_inv _ h = cc

pub assert_rtype_inv : (y : Value) {t : Option GoType} → assert_rtype y ≡ ok t → y ≡ Value.rtype t
assert_rtype_inv (Value.rtype s) h = cc
assert_rtype_inv _ h = cc

pub assert_structure_inv :
    (y : Value) {b n : ℕ} → assert_structure y ≡ ok (b, n) → y ≡ Value.structure b n
assert_structure_inv (Value.structure c k) h = ground arith
assert_structure_inv _ h = cc

pub assert_array_inv : (y : Value) {b n : ℕ} → assert_array y ≡ ok (b, n) → y ≡ Value.array b n
assert_array_inv (Value.array c k) h = ground arith
assert_array_inv _ h = cc

pub ok_true : {b : Bool} → ok b ≡ ok true → b ≡ true
ok_true h = cc

pub option_eq→eq : (p q : Option ℕ) → option_eq p q ≡ true → p ≡ q
option_eq→eq p q h = ground arith
