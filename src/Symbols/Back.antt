-- ===== src/Symbols/Back.antt =====
-- From a reflect.Type back to the type that findReflectType of
-- interpreter/internal/dynreflect/symreflect/package.go was given.
use temporal_determinizer.Prelude.{
  ℕ, Bool, false, ◌≡◌, refl, ap, ◌∙◌, Option, ◌⊎◌, inl, inr, Bool-cases,
}
use mathlib.Core.Path.{ap₂}
use temporal_determinizer.Types.{BasicKind, GoType, Types, nil, cons}
use temporal_determinizer.Value.{Result, ok, fail, ◌>>=◌, refused_by_reflect}
use temporal_determinizer.Symbols.{
  Kind, Rtype, Rtypes, bool, string, unsafe_pointer, integer, float, complex, of_kind, array_of,
  chan_of, map_of, ptr_to, slice_of, func_of, loaded, none_left, more, find_reflect_type,
  find_reflect_types, made, basic_zero,
}

-- a type without named types, structs, interfaces and untyped kinds
unfoldable mutual
  pub IsPlain : GoType → Type 0
  IsPlain (GoType.basic (BasicKind.untyped_bool)) = ⊥
  IsPlain (GoType.basic (BasicKind.untyped_int)) = ⊥
  IsPlain (GoType.basic (BasicKind.untyped_rune)) = ⊥
  IsPlain (GoType.basic (BasicKind.untyped_float)) = ⊥
  IsPlain (GoType.basic (BasicKind.untyped_complex)) = ⊥
  IsPlain (GoType.basic (BasicKind.untyped_string)) = ⊥
  IsPlain (GoType.basic (BasicKind.untyped_nil)) = ⊥
  IsPlain (GoType.basic _) = Unit
  IsPlain (GoType.array n e) = IsPlain e
  IsPlain (GoType.chan d e) = IsPlain e
  IsPlain (GoType.map k e) = IsPlain k × IsPlain e
  IsPlain (GoType.named n u) = ⊥
  IsPlain (GoType.pointer e) = IsPlain e
  IsPlain (GoType.signature ps rs v) = ArePlain ps × ArePlain rs
  IsPlain (GoType.slice e) = IsPlain e
  IsPlain (GoType.struct fs) = ⊥
  IsPlain (GoType.interface ms) = ⊥
  IsPlain (GoType.tuple ts) = ⊥

  pub ArePlain : Types → Type 0
  ArePlain nil = Unit
  ArePlain (cons t ts) = IsPlain t × ArePlain ts

abbrev kind_back : Kind → BasicKind
kind_back bool = BasicKind.boolean
kind_back string = BasicKind.string
kind_back unsafe_pointer = BasicKind.unsafe_pointer
kind_back (integer k) = BasicKind.integer k
kind_back (float k) = BasicKind.float k
kind_back (complex k) = BasicKind.complex k

-- the type that a reflect.Type stands for; a type of the table is read back as no type of its own
unfoldable mutual
  pub type_back : Rtype → GoType
  type_back (of_kind k) = GoType.basic (kind_back k)
  type_back (array_of n r) = GoType.array n (type_back r)
  type_back (chan_of d r) = GoType.chan d (type_back r)
  type_back (map_of r s) = GoType.map (type_back r) (type_back s)
  type_back (ptr_to r) = GoType.pointer (type_back r)
  type_back (slice_of r) = GoType.slice (type_back r)
  type_back (func_of ps rs v) = GoType.signature (types_back ps) (types_back rs) v
  type_back (loaded n) = GoType.tuple nil

  pub types_back : Rtypes → Types
  types_back none_left = nil
  types_back (more r rs) = cons (type_back r) (types_back rs)

module _ (makes : Rtype → Bool) where
  -- a reflect.Type from which t is read back, or the panic of a constructor that refuses a type
  abbrev pub Found : GoType → Result Rtype → Type 0
  Found t q =
      ((r : Rtype) × (q ≡ ok r) × (type_back r ≡ t))
      ⊎ ((q ≡ fail refused_by_reflect) × (r : Rtype) × (makes r ≡ false))

  abbrev FoundAll : Types → Result Rtypes → Type 0
  FoundAll ts q =
      ((rs : Rtypes) × (q ≡ ok rs) × (types_back rs ≡ ts))
      ⊎ ((q ≡ fail refused_by_reflect) × (r : Rtype) × (makes r ≡ false))

  Found-made : (r : Rtype) (t : GoType) → type_back r ≡ t → Found t (made makes r)
  Found-made r t e = elim (Bool-cases (makes r)) [
    | inl m ↦ inl (r, rw m refl, e)
    | inr m ↦ inr (rw m refl, r, m)
  ]

  -- a constructor of one type
  Found-one :
      (c : Rtype → Rtype) (g : GoType → GoType)
      → ((r : Rtype) → type_back (c r) ≡ g (type_back r))
      → (t : GoType) (q : Result Rtype) → Found t q
      → Found (g t) (q >>= λ r. made makes (c r))
  Found-one c g back t q (inl (r, h, k)) = rw h (Found-made (c r) (g t) (back r ∙ ap g k))
  Found-one c g back t q (inr (h, x, f)) = inr (rw h refl, x, f)

  mutual
    unfolding IsPlain type_back find_reflect_type basic_zero

    Found-type :
        (all : ℕ → Option ℕ) (t : GoType) → IsPlain t → Found t (find_reflect_type makes all t)
    Found-type all (GoType.basic (BasicKind.boolean)) p = inl (_, refl, refl)
    Found-type all (GoType.basic (BasicKind.string)) p = inl (_, refl, refl)
    Found-type all (GoType.basic (BasicKind.unsafe_pointer)) p = inl (_, refl, refl)
    Found-type all (GoType.basic (BasicKind.integer k)) p = inl (_, refl, refl)
    Found-type all (GoType.basic (BasicKind.float k)) p = inl (_, refl, refl)
    Found-type all (GoType.basic (BasicKind.complex k)) p = inl (_, refl, refl)
    Found-type all (GoType.basic _) p = absurd p
    Found-type all (GoType.array n e) p =
        Found-one (array_of n) (GoType.array n) (λ r. refl) e _ (Found-type all e p)
    Found-type all (GoType.chan d e) p =
        Found-one (chan_of d) (GoType.chan d) (λ r. refl) e _ (Found-type all e p)
    Found-type all (GoType.pointer e) p =
        Found-one ptr_to GoType.pointer (λ r. refl) e _ (Found-type all e p)
    Found-type all (GoType.slice e) p =
        Found-one slice_of GoType.slice (λ r. refl) e _ (Found-type all e p)
    Found-type all (GoType.map t e) (p, q) = elim (Found-type all t p) [
      | inl (r, h, k) ↦ rw h (
          Found-one (map_of r) (GoType.map t) (λ s. ap (λ x. GoType.map x (type_back s)) k) e _
            (Found-type all e q))
      | inr (h, x, f) ↦ inr (rw h refl, x, f)
    ]
    Found-type all (GoType.signature ps rs v) (p, q) = elim (FoundAll-types all ps p) [
      | inl (a, h, k) ↦ elim (FoundAll-types all rs q) [
        | inl (b, i, j) ↦
            rw (h, i)
              (Found-made (func_of a b v) (GoType.signature ps rs v)
                (ap₂ (λ x y. GoType.signature x y v) k j))
        | inr (i, x, f) ↦ inr (rw (h, i) refl, x, f)
      ]
      | inr (h, x, f) ↦ inr (rw h refl, x, f)
    ]
    Found-type all (GoType.named n u) p = absurd p
    Found-type all (GoType.struct fs) p = absurd p
    Found-type all (GoType.interface ms) p = absurd p
    Found-type all (GoType.tuple ts) p = absurd p

    FoundAll-types :
        (all : ℕ → Option ℕ) (ts : Types)
        → ArePlain ts
        → FoundAll ts (find_reflect_types makes all ts)
    FoundAll-types all nil p = inl (none_left, refl, refl)
    FoundAll-types all (cons t ts) (p, q) = elim (Found-type all t p) [
      | inl (r, h, k) ↦ elim (FoundAll-types all ts q) [
        | inl (s, i, j) ↦ inl (more r s, rw (h, i) refl, ap₂ cons k j)
        | inr (i, x, f) ↦ inr (rw (h, i) refl, x, f)
      ]
      | inr (h, x, f) ↦ inr (rw h refl, x, f)
    ]

  -- For a type without named types, structs, interfaces and untyped kinds, findReflectType either gives
  -- a reflect.Type from which the same type is read back, so that no two of these types have one
  -- reflect.Type, or it panics in a constructor of package reflect, which makes no such type.
  pub find_reflect_type-back :
      (all : ℕ → Option ℕ) (t : GoType) → IsPlain t → Found t (find_reflect_type makes all t)
  find_reflect_type-back all t p = Found-type all t p
