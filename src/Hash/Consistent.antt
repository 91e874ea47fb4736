-- ===== src/Hash/Consistent.antt =====
-- Values that are equal have the same hash.
use temporal_determinizer.Prelude.{
  ℕ, zero, suc, ◌≡◌, refl, Bool, true, false, ◌&&◌, Option, none, some, ==_iff, arith, sym, ◌∙◌,
  ◌-◌, Bool-cases, inl, inr,
}
use mathlib.Core.Path.{subst}
use mathlib.Core.Bool.{false≢true}
use temporal_determinizer.Equality.Shape.{IsShapedLeaf, AllCells, IsShapedAt, AreShaped, IsShaped}
use temporal_determinizer.Word.{int}
use temporal_determinizer.Types.{GoType, Fields, end, field}
use temporal_determinizer.Types.Identity.{
  identical, bool_eq→eq, ids_eq→eq, identical→eq, same_type, same_type→eq,
}
use temporal_determinizer.Float.{AgreesOnEqual}
use temporal_determinizer.Value.{Value, Result, ok, panics, exhausted, ◌>>=◌, >>=-eq-ok}
use temporal_determinizer.Equality.{
  Machine, Compare, part, assert_bool, assert_integer, assert_float, assert_complex, assert_string,
  assert_pointer, assert_chan, assert_iface, assert_rtype, assert_structure, assert_array, and_then,
  iface_eq, equals_leaf, eq_elems, equals_at, eq_fields, equals,
}
use temporal_determinizer.Equality.Inverse.{
  assert_bool_inv, assert_integer_inv, assert_float_inv, assert_complex_inv, assert_string_inv,
  assert_pointer_inv, assert_chan_inv, assert_iface_inv, assert_rtype_inv, assert_structure_inv,
  assert_array_inv, ok_true, option_eq→eq,
}
use temporal_determinizer.Hash.{Hasher, hash_leaf, hash_elems, hash_at, hash_fields, hash}

and_parts : (a b : Bool) → (a && b) ≡ true → (a ≡ true) × (b ≡ true)
and_parts a b h = ground arith

and_then-true :
    (t rest : Result Bool) → and_then t rest ≡ ok true → (t ≡ ok true) × (rest ≡ ok true)
and_then-true (ok true) rest h = (refl, h)
and_then-true (ok false) rest h = cc
and_then-true (panics e) rest h = cc

>>=-congr : (t : Result ℕ) {f g : ℕ → Result ℕ} → ((x : ℕ) → f x ≡ g x) → (t >>= f) ≡ (t >>= g)
>>=-congr (ok x) h = h x
>>=-congr (panics e) h = refl

-- equal values have one hash
abbrev Respects : (Value → Type 0) → Compare → Hasher → Type 0
Respects P e g = (x y : Value) → P x → P y → e x y ≡ ok true → g x ≡ g y

module _ (m : Machine) (c : ℕ → Value) (fl : AgreesOnEqual m.floats) where
  module _ (rec : GoType → Compare) (rec' : GoType → Hasher) (P : GoType → Value → Type 0)
      (ih : (t : GoType) → Respects (P t) (rec t) (rec' t)) where
    contents_Respects :
        (t s : Option GoType) (v w : Value)
        → IsShapedLeaf P (Value.iface t v)
        → IsShapedLeaf P (Value.iface s w)
        → iface_eq rec t s v w ≡ ok true
        → hash_leaf m c rec' (Value.iface t v) ≡ hash_leaf m c rec' (Value.iface s w)
    unfolding same_type hash_leaf
    contents_Respects none none v w p q h = refl
    contents_Respects none (some s) v w p q h = cc
    contents_Respects (some t) none v w p q h = cc
    contents_Respects (some t) (some s) v w p q h = elim (Bool-cases (identical t s)) [
      | inl e ↦
          let k : (t ≡ s) = identical→eq t s e in
          rw (← k, ih t v w p (subst (λ z. P z w) (sym k) q) (rw e at h))
      | inr e ↦ absurd (false≢true (ok_true (rw e at h)))
    ]

    leaf_Respects : Respects (IsShapedLeaf P) (equals_leaf m c rec) (hash_leaf m c rec')
    unfolding equals_leaf hash_leaf
    leaf_Respects (Value.boolean a) y s₁ s₂ h =
        let (b, e, g) = >>=-eq-ok (assert_bool y) _ h in
        rw (assert_bool_inv y e, bool_eq→eq a b (ok_true g))
    leaf_Respects (Value.integer k a) y s₁ s₂ h =
        let (b, e, g) = >>=-eq-ok (assert_integer k y) _ h in
        rw (assert_integer_inv k y e, (==_iff a b).0 (ok_true g))
    leaf_Respects (Value.float k a) y s₁ s₂ h =
        let (b, e, g) = >>=-eq-ok (assert_float k y) _ h in
        rw (assert_float_inv k y e, fl.to_int-equal k int a b (ok_true g))
    leaf_Respects (Value.complex k a a') y s₁ s₂ h =
        let ((b, b'), e, g) = >>=-eq-ok (assert_complex k y) _ h in
        rw
          (assert_complex_inv k y e, fl.to_int-equal (part k) int a b (and_parts _ _ (ok_true g)).0)
    leaf_Respects (Value.string s) y s₁ s₂ h =
        let (t, e, g) = >>=-eq-ok (assert_string y) _ h in
        rw (assert_string_inv y e, ids_eq→eq s t (ok_true g))
    leaf_Respects (Value.pointer p) y s₁ s₂ h =
        let (q, e, g) = >>=-eq-ok (assert_pointer y) _ h in
        rw (assert_pointer_inv y e, option_eq→eq p q (ok_true g))
    leaf_Respects (Value.chan p) y s₁ s₂ h =
        let (q, e, g) = >>=-eq-ok (assert_chan y) _ h in
        rw (assert_chan_inv y e, option_eq→eq p q (ok_true g))
    leaf_Respects (Value.iface t v) y s₁ s₂ h =
        let ((s, w), e, g) = >>=-eq-ok (assert_iface y) _ h in
        rw (assert_iface_inv y e)
          (contents_Respects t s v w s₁ (subst (IsShapedLeaf P) (assert_iface_inv y e) s₂) g)
    leaf_Respects (Value.rtype t) y s₁ s₂ h =
        let (s, e, g) = >>=-eq-ok (assert_rtype y) _ h in
        rw (assert_rtype_inv y e, same_type→eq t s (ok_true g))
    leaf_Respects _ y s₁ s₂ h = cc

    elems_Respects :
        (e : Compare) (g : Hasher) (Q : Value → Type 0)
        → Respects Q e g
        → (n p q a : ℕ) → AllCells c Q n p
        → AllCells c Q n q
        → eq_elems m c e n n p q ≡ ok true
        → hash_elems m c g a n p ≡ hash_elems m c g a n q
    unfolding eq_elems hash_elems
    elems_Respects e g Q r zero p q a s₁ s₂ h = refl
    elems_Respects e g Q r (suc n) p q a (s₁, t₁) (s₂, t₂) h =
        let (i, j) = and_then-true (e (c p) (c q)) _ h in
        rw (r (c p) (c q) s₁ s₂ i)
          (>>=-congr (g (c q)) λ x. elems_Respects e g Q r n (suc p) (suc q) _ t₁ t₂ j)

    array_Respects :
        (e : Compare) (g : Hasher) (Q : Value → Type 0)
        → Respects Q e g
        → (n k i p q a : ℕ) → n ≡ i
        → k ≡ i
        → AllCells c Q n p
        → AllCells c Q k q
        → eq_elems m c e n k p q ≡ ok true
        → hash_elems m c g a n p ≡ hash_elems m c g a k q
    array_Respects e g Q r n k i p q a u v s₁ s₂ h =
        subst
          (λ z.
            AllCells c Q z q
            → eq_elems m c e n z p q ≡ ok true
            → hash_elems m c g a n p ≡ hash_elems m c g a z q)
          (u ∙ sym v) (λ s₂ h. elems_Respects e g Q r n p q a s₁ s₂ h) s₂ h

    not_structure :
        (x : Value) (b n : ℕ) → equals_leaf m c rec x (Value.structure b n) ≡ ok true → ⊥
    unfolding equals_leaf
    not_structure (Value.boolean a) b n h = cc
    not_structure _ b n h = cc

    not_array : (x : Value) (b n : ℕ) → equals_leaf m c rec x (Value.array b n) ≡ ok true → ⊥
    unfolding equals_leaf
    not_array (Value.boolean a) b n h = cc
    not_array _ b n h = cc

    mutual
      unfolding equals_at hash_at IsShapedAt

      at_Respects :
          (t : GoType) → Respects (IsShapedAt c P t) (equals_at m c rec t) (hash_at m c rec' t)
      at_Respects (GoType.named n u) x y s₁ s₂ h = at_Respects u x y s₁ s₂ h
      at_Respects (GoType.struct fs) (Value.structure b n) y s₁ s₂ h =
          let ((d, k), e, g) = >>=-eq-ok (assert_structure y) _ h in
          let i = assert_structure_inv y e in
          let s = subst (IsShapedAt c P (GoType.struct fs)) i s₂ in
          rw i (fields_Respects fs n k b d 0 s₁ s g)
      at_Respects (GoType.array i t) (Value.array b n) y (e₁, s₁) s₂ h =
          let ((d, k), e, g) = >>=-eq-ok (assert_array y) _ h in
          let j = assert_array_inv y e in
          let s = subst (IsShapedAt c P (GoType.array i t)) j s₂ in
          rw j (
            array_Respects (equals_at m c rec t) (hash_at m c rec' t) (IsShapedAt c P t)
              (at_Respects t) n k i b d 0 e₁ s.0 s₁ s.1 g)
      at_Respects (GoType.struct fs) x (Value.structure d k) s₁ s₂ h =
          absurd (not_structure x d k h)
      at_Respects (GoType.array i t) x (Value.array d k) s₁ s₂ h = absurd (not_array x d k h)
      at_Respects _ x y s₁ s₂ h = leaf_Respects x y s₁ s₂ h

      fields_Respects :
          (fs : Fields) (n k p q a : ℕ)
          → AreShaped c P fs p
          → AreShaped c P fs q
          → eq_fields m c rec fs n k p q ≡ ok true
          → hash_fields m c rec' fs a n p ≡ hash_fields m c rec' fs a k q
      fields_Respects end n k p q a s₁ s₂ h = refl
      fields_Respects (field i true t r) n k p q a s₁ s₂ h =
          fields_Respects r (n - 1) (k - 1) (suc p) (suc q) a s₁ s₂ h
      fields_Respects (field i false t r) zero k p q a s₁ s₂ h = cc
      fields_Respects (field i false t r) (suc n) zero p q a s₁ s₂ h = cc
      fields_Respects (field i false t r) (suc n) (suc k) p q a (s₁, t₁) (s₂, t₂) h =
          let (i, j) = and_then-true (equals_at m c rec t (c p) (c q)) _ h in
          rw (at_Respects t (c p) (c q) s₁ s₂ i) (
            >>=-congr (hash_at m c rec' t (c q))
              λ x. fields_Respects r n k (suc p) (suc q) _ t₁ t₂ j)

  -- If == holds of two values of one type, whose arrays have the lengths that their types state,
  -- then hash gives one result for both, whatever the bound on nested interfaces.
  pub equals-hash :
      (f : ℕ) (t : GoType) (x y : Value)
      → IsShaped c f t x
      → IsShaped c f t y
      → equals m c f t x y ≡ ok true
      → hash m c f t x ≡ hash m c f t y
  unfolding equals hash IsShaped
  equals-hash zero t x y s₁ s₂ h =
      at_Respects (λ _ _ _. panics exhausted) (λ _ _. panics exhausted) (λ _ _. Unit)
        (λ _ _ _ _ _ _. refl) t x y s₁ s₂ h
  equals-hash (suc f) t x y s₁ s₂ h =
      at_Respects (equals m c f) (hash m c f) (IsShaped c f) (equals-hash f) t x y s₁ s₂ h
