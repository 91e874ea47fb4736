-- ===== src/Ops.antt =====
-- The operators of interpreter/internal/interp/ops.go: binop with one function for each operator of
-- its switch, eqnil, unop, and the readings of a value as an int or a uint64.
-- An arithmetic operator asserts that its right operand has the dynamic type of the left one.
pub mod Laws
pub mod Closures
use temporal_determinizer.Prelude.{
  ℕ, suc, bit_and, bit_or, bit_xor, Bool, true, false, not, List, [], ◌∷◌, ◌++◌, ◌&&◌, ◌||◌, Option,
  none, some, ◌==◌, ltb, if◌then◌else◌,
}
use temporal_determinizer.Word
use temporal_determinizer.Word.{IntKind, int, uint64, is_signed}
use temporal_determinizer.Token.{Token}
use temporal_determinizer.Types.{GoType, ComplexKind, underlying}
use temporal_determinizer.Types.Identity.{bool_eq}
use temporal_determinizer.Float.{Arithmetic, plus, minus, times, divide}
use temporal_determinizer.Value.{
  Value, Header, Result, ok, panics, fail, fault, ◌>>=◌, type_assertion, divide_by_zero,
  invalid_binary_op, illegal_dynamic_type, cannot_convert_to_int, cannot_convert_to_uint64,
}
use temporal_determinizer.Equality.{
  Machine, assert_integer, assert_float, assert_complex, assert_string, equals,
}

-- an int, for an index or a size
unfoldable pub as_int : Value → Result ℕ
as_int (Value.integer k a) = ok (Word.convert int k a)
as_int _ = fail cannot_convert_to_int

-- a shift count, which must be of an unsigned type
unfoldable pub as_uint64 : Value → Result ℕ
as_uint64 (Value.integer k a) =
    if is_signed k then fail cannot_convert_to_uint64 else ok (Word.convert uint64 k a)
as_uint64 _ = fail cannot_convert_to_uint64

-- Go orders strings byte by byte
unfoldable pub bytes_less : List ℕ → List ℕ → Bool
bytes_less s [] = false
bytes_less [] (b ∷ t) = true
bytes_less (a ∷ s) (b ∷ t) = ltb a b || ((a == b) && bytes_less s t)

module _ (m : Machine) where
  -- one arithmetic operator on the two parts of complex numbers
  complex_op : Arithmetic → ComplexKind → ℕ → ℕ → Value → Result Value
  complex_op o k a a' y = do
    (b, b') ← assert_complex k y
    ok (Value.complex k (m.floats.complex_re o k a a' b b') (m.floats.complex_im o k a a' b b'))

  unfoldable pub binop_add : Value → Value → Result Value
  unfolding complex_op
  binop_add (Value.integer k a) y = do b ← assert_integer k y; ok (Value.integer k (Word.add k a b))
  binop_add (Value.float k a) y = do
    b ← assert_float k y
    ok (Value.float k (m.floats.arith plus k a b))
  binop_add (Value.complex k a a') y = complex_op plus k a a' y
  binop_add (Value.string s) y = do t ← assert_string y; ok (Value.string (s ++ t))
  binop_add x y = fail invalid_binary_op

  unfoldable pub binop_sub : Value → Value → Result Value
  unfolding complex_op
  binop_sub (Value.integer k a) y = do b ← assert_integer k y; ok (Value.integer k (Word.sub k a b))
  binop_sub (Value.float k a) y = do
    b ← assert_float k y
    ok (Value.float k (m.floats.arith minus k a b))
  binop_sub (Value.complex k a a') y = complex_op minus k a a' y
  binop_sub x y = fail invalid_binary_op

  unfoldable pub binop_mul : Value → Value → Result Value
  unfolding complex_op
  binop_mul (Value.integer k a) y = do b ← assert_integer k y; ok (Value.integer k (Word.mul k a b))
  binop_mul (Value.float k a) y = do
    b ← assert_float k y
    ok (Value.float k (m.floats.arith times k a b))
  binop_mul (Value.complex k a a') y = complex_op times k a a' y
  binop_mul x y = fail invalid_binary_op

  unfoldable pub binop_quo : Value → Value → Result Value
  unfolding complex_op
  binop_quo (Value.integer k a) y = do
    b ← assert_integer k y
    if b == 0 then fault divide_by_zero else ok (Value.integer k (Word.quo k a b))
  binop_quo (Value.float k a) y = do
    b ← assert_float k y
    ok (Value.float k (m.floats.arith divide k a b))
  binop_quo (Value.complex k a a') y = complex_op divide k a a' y
  binop_quo x y = fail invalid_binary_op

  unfoldable pub binop_rem : Value → Value → Result Value
  binop_rem (Value.integer k a) y = do
    b ← assert_integer k y
    if b == 0 then fault divide_by_zero else ok (Value.integer k (Word.rem k a b))
  binop_rem x y = fail invalid_binary_op

  unfoldable pub binop_lss : Value → Value → Result Value
  binop_lss (Value.integer k a) y = do b ← assert_integer k y; ok (Value.boolean (Word.less k a b))
  binop_lss (Value.float k a) y = do b ← assert_float k y; ok (Value.boolean (m.floats.less k a b))
  binop_lss (Value.string s) y = do t ← assert_string y; ok (Value.boolean (bytes_less s t))
  binop_lss x y = fail invalid_binary_op

  unfoldable pub binop_leq : Value → Value → Result Value
  binop_leq (Value.integer k a) y = do
    b ← assert_integer k y
    ok (Value.boolean (not (Word.less k b a)))
  binop_leq (Value.float k a) y = do
    b ← assert_float k y
    ok (Value.boolean (m.floats.less_equal k a b))
  binop_leq (Value.string s) y = do t ← assert_string y; ok (Value.boolean (not (bytes_less t s)))
  binop_leq x y = fail invalid_binary_op

  unfoldable pub binop_gtr : Value → Value → Result Value
  binop_gtr (Value.integer k a) y = do b ← assert_integer k y; ok (Value.boolean (Word.less k b a))
  binop_gtr (Value.float k a) y = do b ← assert_float k y; ok (Value.boolean (m.floats.less k b a))
  binop_gtr (Value.string s) y = do t ← assert_string y; ok (Value.boolean (bytes_less t s))
  binop_gtr x y = fail invalid_binary_op

  unfoldable pub binop_geq : Value → Value → Result Value
  binop_geq (Value.integer k a) y = do
    b ← assert_integer k y
    ok (Value.boolean (not (Word.less k a b)))
  binop_geq (Value.float k a) y = do
    b ← assert_float k y
    ok (Value.boolean (m.floats.less_equal k b a))
  binop_geq (Value.string s) y = do t ← assert_string y; ok (Value.boolean (not (bytes_less s t)))
  binop_geq x y = fail invalid_binary_op

unfoldable pub binop_and : Value → Value → Result Value
binop_and (Value.integer k a) y = do b ← assert_integer k y; ok (Value.integer k (bit_and a b))
binop_and x y = fail invalid_binary_op

unfoldable pub binop_or : Value → Value → Result Value
binop_or (Value.integer k a) y = do b ← assert_integer k y; ok (Value.integer k (bit_or a b))
binop_or x y = fail invalid_binary_op

unfoldable pub binop_xor : Value → Value → Result Value
binop_xor (Value.integer k a) y = do b ← assert_integer k y; ok (Value.integer k (bit_xor a b))
binop_xor x y = fail invalid_binary_op

unfoldable pub binop_and_not : Value → Value → Result Value
binop_and_not (Value.integer k a) y = do
  b ← assert_integer k y
  ok (Value.integer k (Word.and_not k a b))
binop_and_not x y = fail invalid_binary_op

-- the count is read before the left operand is looked at
unfoldable pub binop_shl : Value → Value → Result Value
unfolding as_uint64
binop_shl x y = do
  n ← as_uint64 y
  elim x [ Value.integer k a ↦ ok (Value.integer k (Word.shl k a n)) | _ ↦ fail invalid_binary_op ]

unfoldable pub binop_shr : Value → Value → Result Value
unfolding as_uint64
binop_shr x y = do
  n ← as_uint64 y
  elim x [ Value.integer k a ↦ ok (Value.integer k (Word.shr k a n)) | _ ↦ fail invalid_binary_op ]

-- x != nil
abbrev pub is_some {ℓ} : {A : Type ℓ} → Option A → Bool
is_some none = false
is_some (some a) = true

abbrev assert_hash_map : Value → Result (Option ℕ)
assert_hash_map (Value.hash_map p) = ok p
assert_hash_map _ = fault type_assertion

abbrev assert_builtin_map : Value → Result (Option ℕ)
assert_builtin_map (Value.builtin_map p) = ok p
assert_builtin_map _ = fault type_assertion

abbrev assert_function : Value → Result (Option ℕ)
assert_function (Value.function p) = ok p
assert_function _ = fault type_assertion

abbrev pub assert_slice : Value → Result (Option Header)
assert_slice (Value.slice p) = ok p
assert_slice _ = fault type_assertion

-- maps, functions and slices, of which one operand is a literal nil
unfoldable pub nil_eq : Value → Value → Result Bool
nil_eq (Value.hash_map p) y = do q ← assert_hash_map y; ok (bool_eq (is_some p) (is_some q))
nil_eq (Value.builtin_map p) y = do q ← assert_builtin_map y; ok (bool_eq (is_some p) (is_some q))
nil_eq (Value.function p) (Value.function q) = ok (bool_eq (is_some p) (is_some q))
nil_eq (Value.function p) (Value.closure f env) = ok true
nil_eq (Value.closure f env) y = do q ← assert_function y; ok (bool_eq true (is_some q))
nil_eq (Value.slice p) y = do q ← assert_slice y; ok (bool_eq (is_some p) (is_some q))
nil_eq _ _ = fail illegal_dynamic_type

module _ (m : Machine) (c : ℕ → Value) where
  unfoldable pub eqnil : ℕ → GoType → Value → Value → Result Bool
  unfolding underlying nil_eq
  eqnil f t x y = elim (underlying t) [
    | GoType.map k e ↦ nil_eq x y
    | GoType.signature ps rs v ↦ nil_eq x y
    | GoType.slice e ↦ nil_eq x y
    | _ ↦ equals m c f t x y
  ]

  -- the switch on the operator
  unfoldable pub binop : ℕ → Token → GoType → Value → Value → Result Value
  unfolding binop_add binop_sub binop_mul binop_quo binop_rem binop_and binop_or binop_xor
      binop_and_not binop_shl binop_shr binop_lss binop_leq binop_gtr binop_geq eqnil
  binop f Token.add t x y = binop_add m x y
  binop f Token.sub t x y = binop_sub m x y
  binop f Token.mul t x y = binop_mul m x y
  binop f Token.quo t x y = binop_quo m x y
  binop f Token.rem t x y = binop_rem m x y
  binop f Token.and t x y = binop_and x y
  binop f Token.or t x y = binop_or x y
  binop f Token.xor t x y = binop_xor x y
  binop f Token.and_not t x y = binop_and_not x y
  binop f Token.shl t x y = binop_shl x y
  binop f Token.shr t x y = binop_shr x y
  binop f Token.lss t x y = binop_lss m x y
  binop f Token.leq t x y = binop_leq m x y
  binop f Token.eql t x y = do b ← eqnil f t x y; ok (Value.boolean b)
  binop f Token.neq t x y = do b ← eqnil f t x y; ok (Value.boolean (not b))
  binop f Token.gtr t x y = binop_gtr m x y
  binop f Token.geq t x y = binop_geq m x y
  binop f Token.arrow t x y = fail invalid_binary_op
  binop f Token.not t x y = fail invalid_binary_op
