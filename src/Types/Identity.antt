-- ===== src/Types/Identity.antt =====
-- types.Identical: two named types are identical if they come from one declaration, which has one
-- underlying type; any other two if they are built alike from identical types.
use temporal_determinizer.Prelude.{
  ℕ, Bool, true, false, List, [], ◌∷◌, ◌&&◌, ◌==◌, ◌≡◌, refl, ap, ==_iff, arith, Option, none, some,
}
use mathlib.Core.Path.{ap₂}
use temporal_determinizer.Word.{IntKind}
use temporal_determinizer.Types.{
  FloatKind, ComplexKind, BasicKind, ChanDir, GoType, Fields, Types, end, field, nil, cons,
}

abbrev pub int_index : IntKind → ℕ
int_index IntKind.int = 0
int_index IntKind.int8 = 1
int_index IntKind.int16 = 2
int_index IntKind.int32 = 3
int_index IntKind.int64 = 4
int_index IntKind.uint = 5
int_index IntKind.uint8 = 6
int_index IntKind.uint16 = 7
int_index IntKind.uint32 = 8
int_index IntKind.uint64 = 9
int_index IntKind.uintptr = 10

abbrev pub float_index : FloatKind → ℕ
float_index FloatKind.float32 = 11
float_index FloatKind.float64 = 12

abbrev pub complex_index : ComplexKind → ℕ
complex_index ComplexKind.complex64 = 13
complex_index ComplexKind.complex128 = 14

abbrev pub basic_index : BasicKind → ℕ
basic_index (BasicKind.integer k) = int_index k
basic_index (BasicKind.float k) = float_index k
basic_index (BasicKind.complex k) = complex_index k
basic_index BasicKind.boolean = 15
basic_index BasicKind.string = 16
basic_index BasicKind.unsafe_pointer = 17
basic_index BasicKind.untyped_bool = 18
basic_index BasicKind.untyped_int = 19
basic_index BasicKind.untyped_rune = 20
basic_index BasicKind.untyped_float = 21
basic_index BasicKind.untyped_complex = 22
basic_index BasicKind.untyped_string = 23
basic_index BasicKind.untyped_nil = 24

abbrev dir_index : ChanDir → ℕ
dir_index ChanDir.send_recv = 0
dir_index ChanDir.send_only = 1
dir_index ChanDir.recv_only = 2

abbrev pub bool_eq : Bool → Bool → Bool
bool_eq true b = b
bool_eq false true = false
bool_eq false false = true

abbrev pub ids_eq : List ℕ → List ℕ → Bool
ids_eq [] [] = true
ids_eq (a ∷ as') (b ∷ bs) = a == b && ids_eq as' bs
ids_eq _ _ = false

unfoldable mutual
  pub identical : GoType → GoType → Bool
  identical (GoType.basic a) (GoType.basic b) = basic_index a == basic_index b
  identical (GoType.pointer a) (GoType.pointer b) = identical a b
  identical (GoType.array m a) (GoType.array n b) = m == n && identical a b
  identical (GoType.slice a) (GoType.slice b) = identical a b
  identical (GoType.struct a) (GoType.struct b) = identical_fields a b
  identical (GoType.map a c) (GoType.map b d) = identical a b && identical c d
  identical (GoType.chan d a) (GoType.chan e b) = dir_index d == dir_index e && identical a b
  identical (GoType.interface a) (GoType.interface b) = ids_eq a b
  identical (GoType.signature a c v) (GoType.signature b d w) =
      bool_eq v w && identical_types a b && identical_types c d
  identical (GoType.tuple a) (GoType.tuple b) = identical_types a b
  identical (GoType.named m a) (GoType.named n b) = m == n && identical a b
  identical _ _ = false

  pub identical_fields : Fields → Fields → Bool
  identical_fields end end = true
  identical_fields (field m e a as') (field n f b bs) =
      m == n && bool_eq e f && identical a b && identical_fields as' bs
  identical_fields _ _ = false

  pub identical_types : Types → Types → Bool
  identical_types nil nil = true
  identical_types (cons a as') (cons b bs) = identical a b && identical_types as' bs
  identical_types _ _ = false

-- the nil-tolerant variant
unfoldable pub same_type : Option GoType → Option GoType → Bool
same_type none none = true
same_type (some x) (some y) = identical x y
same_type _ _ = false

pub ids_eq_self : (a : List ℕ) → ids_eq a a ≡ true
ids_eq_self [] = refl
ids_eq_self (x ∷ r) = ground (arith, ids_eq_self r)

mutual
  unfolding identical

  pub identical_self : (t : GoType) → identical t t ≡ true
  identical_self (GoType.basic a) = ground arith
  identical_self (GoType.pointer a) = identical_self a
  identical_self (GoType.array m a) = ground (arith, identical_self a)
  identical_self (GoType.slice a) = identical_self a
  identical_self (GoType.struct a) = identical_fields_self a
  identical_self (GoType.map a c) = ground (arith, identical_self a, identical_self c)
  identical_self (GoType.chan d a) = ground (arith, identical_self a)
  identical_self (GoType.interface a) = ids_eq_self a
  identical_self (GoType.signature a c v) =
      ground (arith, identical_types_self a, identical_types_self c)
  identical_self (GoType.tuple a) = identical_types_self a
  identical_self (GoType.named m a) = ground (arith, identical_self a)

  identical_fields_self : (t : Fields) → identical_fields t t ≡ true
  identical_fields_self end = refl
  identical_fields_self (field m e a r) = ground (arith, identical_self a, identical_fields_self r)

  identical_types_self : (t : Types) → identical_types t t ≡ true
  identical_types_self nil = refl
  identical_types_self (cons a r) = ground (arith, identical_self a, identical_types_self r)

-- identical types are one type
pub int_index-injective : (a b : IntKind) → int_index a ≡ int_index b → a ≡ b
int_index-injective a b h = ground arith

basic_index-injective : (a b : BasicKind) → basic_index a ≡ basic_index b → a ≡ b
basic_index-injective a b h = ground arith

dir_index-injective : (a b : ChanDir) → dir_index a ≡ dir_index b → a ≡ b
dir_index-injective a b h = ground arith

pub bool_eq→eq : (a b : Bool) → bool_eq a b ≡ true → a ≡ b
bool_eq→eq a b h = ground arith

pub ids_eq→eq : (a b : List ℕ) → ids_eq a b ≡ true → a ≡ b
ids_eq→eq [] [] h = refl
ids_eq→eq (x ∷ r) (y ∷ s) h = ground (arith, ids_eq→eq r s)
ids_eq→eq _ _ h = cc

and_parts : (a b : Bool) → (a && b) ≡ true → (a ≡ true) × (b ≡ true)
and_parts a b h = ground arith

mutual
  unfolding identical

  pub identical→eq : (a b : GoType) → identical a b ≡ true → a ≡ b
  identical→eq (GoType.basic a) (GoType.basic b) h =
      ap GoType.basic (basic_index-injective a b ((==_iff _ _).0 h))
  identical→eq (GoType.pointer a) (GoType.pointer b) h = ap GoType.pointer (identical→eq a b h)
  identical→eq (GoType.array m a) (GoType.array n b) h =
      let (e, g) = and_parts (m == n) _ h in
      ap₂ GoType.array ((==_iff m n).0 e) (identical→eq a b g)
  identical→eq (GoType.slice a) (GoType.slice b) h = ap GoType.slice (identical→eq a b h)
  identical→eq (GoType.struct a) (GoType.struct b) h = ap GoType.struct (fields→eq a b h)
  identical→eq (GoType.map a c) (GoType.map b d) h =
      let (e, g) = and_parts _ _ h in ap₂ GoType.map (identical→eq a b e) (identical→eq c d g)
  identical→eq (GoType.chan d a) (GoType.chan e b) h =
      let (i, g) = and_parts _ _ h in
      ap₂ GoType.chan (dir_index-injective d e ((==_iff _ _).0 i)) (identical→eq a b g)
  identical→eq (GoType.interface a) (GoType.interface b) h = ap GoType.interface (ids_eq→eq a b h)
  identical→eq (GoType.signature a c v) (GoType.signature b d w) h =
      let (i, k) = and_parts (bool_eq v w && identical_types a b) (identical_types c d) h in
      let (e, g) = and_parts (bool_eq v w) (identical_types a b) i in
      cc (bool_eq→eq v w e, types→eq a b g, types→eq c d k)
  identical→eq (GoType.tuple a) (GoType.tuple b) h = ap GoType.tuple (types→eq a b h)
  identical→eq (GoType.named m a) (GoType.named n b) h =
      let (e, g) = and_parts (m == n) _ h in
      ap₂ GoType.named ((==_iff m n).0 e) (identical→eq a b g)
  identical→eq _ _ h = cc

  fields→eq : (a b : Fields) → identical_fields a b ≡ true → a ≡ b
  fields→eq end end h = refl
  fields→eq (field m e a r) (field n f b s) h =
      let (i, k) = and_parts ((m == n) && bool_eq e f && identical a b) (identical_fields r s) h in
      let (j, g) = and_parts ((m == n) && bool_eq e f) (identical a b) i in
      let (x, y) = and_parts (m == n) (bool_eq e f) j in
      cc ((==_iff m n).0 x, bool_eq→eq e f y, identical→eq a b g, fields→eq r s k)
  fields→eq _ _ h = cc

  types→eq : (a b : Types) → identical_types a b ≡ true → a ≡ b
  types→eq nil nil h = refl
  types→eq (cons a r) (cons b s) h =
      let (e, g) = and_parts (identical a b) _ h in cc (identical→eq a b e, types→eq r s g)
  types→eq _ _ h = cc

pub same_type→eq : (s t : Option GoType) → same_type s t ≡ true → s ≡ t
unfolding same_type
same_type→eq none none h = refl
same_type→eq (some s) (some t) h = ap some (identical→eq s t h)
same_type→eq none (some t) h = cc
same_type→eq (some s) none h = cc
