-- ===== src/Equality.antt =====
-- Go's == on boxed values and the hash that goes with it: equals, hash and the eq and hash methods
-- of value.go.
-- Both follow the static type into structures and arrays, and the dynamic type into interfaces.
-- Interfaces may nest without a bound, so the functions run on fuel, one for each interface entered.
pub mod Shape
pub mod Inverse
pub mod Embedded
use temporal_determinizer.Prelude.{
  ℕ, zero, suc, ◌+◌, ◌-◌, ◌*◌, ◌%◌, ◌^◌, bit_xor, Bool, true, false, ◌&&◌, List, [], ◌∷◌, Option,
  none, some, ◌==◌, if◌then◌else◌,
}
use temporal_determinizer.Word.{IntKind}
use temporal_determinizer.Word
use temporal_determinizer.Types.{FloatKind, ComplexKind, GoType, Fields, end, field}
use temporal_determinizer.Types.Identity.{
  int_index, float_index, complex_index, bool_eq, ids_eq, identical, same_type,
}
use temporal_determinizer.Float.{Floats}
use temporal_determinizer.Value.{
  Value, Result, ok, panics, fail, fault, ◌>>=◌, exhausted, type_assertion, index_out_of_range,
  comparing_uncomparable, unhashable,
}

-- the machine that the interpreter runs on: float arithmetic, the hash of a type by typeutil.Hasher,
-- and the addresses of cells and channels
pub record Machine : Type 0 where
  pub floats : Floats
  pub hash_type : Option GoType → Result ℕ
  pub cell_address : ℕ → ℕ
  pub chan_address : ℕ → ℕ

abbrev pub option_eq : Option ℕ → Option ℕ → Bool
option_eq none none = true
option_eq (some a) (some b) = a == b
option_eq _ _ = false

-- x.(T) == y.(T) for the dynamic types that Go itself compares
abbrev pub assert_bool : Value → Result Bool
assert_bool (Value.boolean b) = ok b
assert_bool _ = fault type_assertion

abbrev pub assert_integer : IntKind → Value → Result ℕ
assert_integer k (Value.integer j b) =
    if int_index k == int_index j then ok b else fault type_assertion
assert_integer k _ = fault type_assertion

abbrev pub assert_float : FloatKind → Value → Result ℕ
assert_float k (Value.float j b) =
    if float_index k == float_index j then ok b else fault type_assertion
assert_float k _ = fault type_assertion

abbrev pub assert_complex : ComplexKind → Value → Result (ℕ × ℕ)
assert_complex k (Value.complex j a b) =
    if complex_index k == complex_index j then ok (a, b) else fault type_assertion
assert_complex k _ = fault type_assertion

abbrev pub assert_string : Value → Result (List ℕ)
assert_string (Value.string s) = ok s
assert_string _ = fault type_assertion

abbrev pub assert_pointer : Value → Result (Option ℕ)
assert_pointer (Value.pointer p) = ok p
assert_pointer _ = fault type_assertion

abbrev pub assert_chan : Value → Result (Option ℕ)
assert_chan (Value.chan p) = ok p
assert_chan _ = fault type_assertion

abbrev pub assert_iface : Value → Result (Option GoType × Value)
assert_iface (Value.iface t v) = ok (t, v)
assert_iface _ = fault type_assertion

abbrev pub assert_rtype : Value → Result (Option GoType)
assert_rtype (Value.rtype t) = ok t
assert_rtype _ = fault type_assertion

abbrev pub assert_structure : Value → Result (ℕ × ℕ)
assert_structure (Value.structure b n) = ok (b, n)
assert_structure _ = fault type_assertion

abbrev pub assert_array : Value → Result (ℕ × ℕ)
assert_array (Value.array b n) = ok (b, n)
assert_array _ = fault type_assertion

-- the float type of the parts of a complex number
abbrev pub part : ComplexKind → FloatKind
part ComplexKind.complex64 = FloatKind.float32
part ComplexKind.complex128 = FloatKind.float64

abbrev pub Compare : Type 0
Compare = Value → Value → Result Bool

-- a test, and if it passes the rest
abbrev pub and_then : Result Bool → Result Bool → Result Bool
and_then m rest = m >>= elim [ true ↦ rest | false ↦ ok false ]

-- the types agree, and the contents too unless both are nil
abbrev pub iface_eq : (GoType → Compare) → Option GoType → Option GoType → Compare
iface_eq rec none s x y = ok (same_type none s)
iface_eq rec (some t) s x y = if same_type (some t) s then rec t x y else ok false

module _ (m : Machine) (c : ℕ → Value) where
  -- the dynamic types that need no static type
  unfoldable pub equals_leaf : (GoType → Compare) → Compare
  unfolding same_type
  equals_leaf rec (Value.boolean a) y = do b ← assert_bool y; ok (bool_eq a b)
  equals_leaf rec (Value.integer k a) y = do b ← assert_integer k y; ok (a == b)
  equals_leaf rec (Value.float k a) y = do b ← assert_float k y; ok (m.floats.equal k a b)
  equals_leaf rec (Value.complex k a a') y = do
    (b, b') ← assert_complex k y
    ok (m.floats.equal (part k) a b && m.floats.equal (part k) a' b')
  equals_leaf rec (Value.string s) y = do t ← assert_string y; ok (ids_eq s t)
  equals_leaf rec (Value.pointer p) y = do q ← assert_pointer y; ok (option_eq p q)
  equals_leaf rec (Value.chan p) y = do q ← assert_chan y; ok (option_eq p q)
  equals_leaf rec (Value.structure b n) y = fault type_assertion
  equals_leaf rec (Value.array b n) y = fault type_assertion
  equals_leaf rec (Value.iface t v) y = do (s, w) ← assert_iface y; iface_eq rec t s v w
  equals_leaf rec (Value.rtype t) y = do s ← assert_rtype y; ok (same_type t s)
  equals_leaf rec _ y = fail comparing_uncomparable

  -- for i, xi := range x: compares with y[i]; x has n elements, y has k
  unfoldable pub eq_elems : Compare → ℕ → ℕ → ℕ → ℕ → Result Bool
  eq_elems e zero k p q = ok true
  eq_elems e (suc n) zero p q = fault index_out_of_range
  eq_elems e (suc n) (suc k) p q =
      let rest = eq_elems e n k (suc p) (suc q) in and_then (e (c p) (c q)) rest

  unfoldable mutual
    unfolding equals_leaf eq_elems

    pub equals_at : (GoType → Compare) → GoType → Compare
    equals_at rec (GoType.named n u) x y = equals_at rec u x y
    equals_at rec (GoType.struct fs) (Value.structure b n) y = do
      (d, k) ← assert_structure y
      eq_fields rec fs n k b d
    equals_at rec (GoType.array i e) (Value.array b n) y = do
      (d, k) ← assert_array y
      eq_elems (equals_at rec e) n k b d
    equals_at rec _ x y = equals_leaf rec x y

    -- embedded fields are passed over
    pub eq_fields : (GoType → Compare) → Fields → ℕ → ℕ → ℕ → ℕ → Result Bool
    eq_fields rec end n k p q = ok true
    eq_fields rec (field i true t r) n k p q = eq_fields rec r (n - 1) (k - 1) (suc p) (suc q)
    eq_fields rec (field i false t r) zero k p q = fault index_out_of_range
    eq_fields rec (field i false t r) (suc n) zero p q = fault index_out_of_range
    eq_fields rec (field i false t r) (suc n) (suc k) p q =
        let rest = eq_fields rec r n k (suc p) (suc q) in
        and_then (equals_at rec t (c p) (c q)) rest

  unfoldable pub equals : ℕ → GoType → Compare
  unfolding equals_at
  equals zero = equals_at (λ t x y. panics exhausted)
  equals (suc f) = equals_at (equals f)
