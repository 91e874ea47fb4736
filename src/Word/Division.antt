-- ===== src/Word/Division.antt =====
-- Truncated division: the quotient times the divisor plus the remainder is the dividend.
use temporal_determinizer.Prelude.{
  ℕ, ◌*◌, ◌/◌, ◌%◌, ◌<◌, ◌≤◌, ◌≡◌, Bool, true, false, xor, arith, refl, ◌∙◌, Bool-cases, inl, inr,
  ◌+◌,
}
use native.Mathlib.Nat.{mod-eq_of_lt, div-add-mod', div-le_self, mod-le, le_trans}
use mathlib.Core.Path.{subst}
use temporal_determinizer.Word.{IntKind, modulus, is_neg, magnitude, add, mul, quo, rem}
use temporal_determinizer.Word.Congruence.{
  Stands, Stands-unique, Stands-mod, Stands-with_sign, Stands-add, Stands-mul,
}

xor-xor : (s t : Bool) → xor (xor s t) t ≡ s
unfolding xor
xor-xor false false = refl
xor-xor false true = refl
xor-xor true false = refl
xor-xor true true = refl

module _ (k : IntKind) where
  magnitude-le : (a : ℕ) → a < modulus k → magnitude k a ≤ modulus k
  magnitude-le a h = ground arith

  -- a pattern stands for its magnitude with its sign
  Stands-self : (a : ℕ) → a < modulus k → Stands (modulus k) (is_neg k a) (magnitude k a) a
  Stands-self a h = elim (Bool-cases (is_neg k a)) [
    | inl e ↦ rw e (0, 1, omega arith)
    | inr e ↦ rw e (0, 0, refl)
  ]

  module _ (a b : ℕ) (ha : a < modulus k) (hb : b < modulus k) where
    Stands-quo :
        Stands
          (modulus k)
          (xor (is_neg k a) (is_neg k b))
          (magnitude k a / magnitude k b)
          (quo k a b)
    unfolding quo
    Stands-quo = Stands-with_sign (modulus k) _ _ (le_trans (div-le_self _ _) (magnitude-le a ha))

    Stands-rem : Stands (modulus k) (is_neg k a) (magnitude k a % magnitude k b) (rem k a b)
    unfolding rem
    Stands-rem = Stands-with_sign (modulus k) _ _ (le_trans (mod-le _ _) (magnitude-le a ha))

    -- the law by which the language defines division: (x / y) * y + x % y is x
    pub quo-rem : add k (mul k (quo k a b) b) (rem k a b) ≡ a
    unfolding add mul
    quo-rem =
        let w = modulus k in
        let product = Stands-mul w _ _ _ _ _ _ Stands-quo (Stands-self b hb) in
        let q = magnitude k a / magnitude k b * magnitude k b in
        let v = quo k a b * b % w in
        let reduced =
          subst (λ s. Stands w s q v) (xor-xor (is_neg k a) (is_neg k b))
            (Stands-mod w _ _ _ product) in
        let total = Stands-add w (is_neg k a) q _ v _ reduced Stands-rem in
        let whole = subst (λ n. Stands w (is_neg k a) n (v + rem k a b)) (div-add-mod' _ _) total in
        Stands-unique w (is_neg k a) _ _ _ whole (Stands-self a ha) ∙ mod-eq_of_lt ha
