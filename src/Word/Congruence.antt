-- ===== src/Word/Congruence.antt =====
-- Patterns that stand for a number with a sign, up to multiples of the modulus.
use temporal_determinizer.Prelude.{
  ℕ, ◌+◌, ◌-◌, ◌*◌, ◌/◌, ◌%◌, ◌≤◌, ◌≡◌, ap, Bool, true, false, xor, arith, if◌then◌else◌, refl, ◌∙◌,
  sym,
}
use native.Mathlib.Nat.{add-mul-mod_self_left, mod-add-div}

-- `v` stands for `x` or for `- x`
abbrev pub Stands : ℕ → Bool → ℕ → ℕ → Type 0
Stands w false x v = (m : ℕ) × (n : ℕ) × (v + w * m ≡ x + w * n)
Stands w true x v = (m : ℕ) × (n : ℕ) × (v + x + w * m ≡ w * n)

mod_cancel : (w a b m n : ℕ) → a + w * m ≡ b + w * n → a % w ≡ b % w
mod_cancel w a b m n e = sym (add-mul-mod_self_left a w m) ∙ rw e (add-mul-mod_self_left b w n)

pub Stands-unique : (w : ℕ) (s : Bool) (x u v : ℕ) → Stands w s x u → Stands w s x v → u % w ≡ v % w
Stands-unique w false x u v (m, n, e) (p, q, f) = mod_cancel w u v (m + q) (n + p) (omega arith)
Stands-unique w true x u v (m, n, e) (p, q, f) = mod_cancel w u v (m + q) (n + p) (omega arith)

pub Stands-mod : (w : ℕ) (s : Bool) (x v : ℕ) → Stands w s x v → Stands w s x (v % w)
Stands-mod w false x v (m, n, e) = (m + v / w, n, omega (arith, mod-add-div v w))
Stands-mod w true x v (m, n, e) = (m + v / w, n, omega (arith, mod-add-div v w))

pub Stands-with_sign :
    (w : ℕ) (s : Bool) (x : ℕ) → x ≤ w → Stands w s x (if s then (w - x) % w else x % w)
Stands-with_sign w false x h = Stands-mod w false x x (0, 0, refl)
Stands-with_sign w true x h = Stands-mod w true x (w - x) (0, 1, omega arith)

pub Stands-add :
    (w : ℕ) (s : Bool) (x y u v : ℕ) → Stands w s x u → Stands w s y v → Stands w s (x + y) (u + v)
Stands-add w false x y u v (m, n, e) (p, q, f) = (m + p, n + q, omega arith)
Stands-add w true x y u v (m, n, e) (p, q, f) = (m + p, n + q, omega arith)

pub Stands-mul :
    (w : ℕ) (s t : Bool) (x y u v : ℕ)
    → Stands w s x u
    → Stands w t y v
    → Stands w (xor s t) (x * y) (u * v)
unfolding xor
Stands-mul w false false x y u v (m, n, e) (p, q, f) =
    (m * v + x * p, x * q + n * v, omega (arith, ap (λ (z : ℕ). z * v) e, ap (λ (z : ℕ). x * z) f))
Stands-mul w false true x y u v (m, n, e) (p, q, f) =
    (m * v + x * p, x * q + n * v, omega (arith, ap (λ (z : ℕ). z * v) e, ap (λ (z : ℕ). x * z) f))
Stands-mul w true false x y u v (m, n, e) (p, q, f) =
    (m * v + x * q, n * v + x * p, omega (arith, ap (λ (z : ℕ). z * v) e, ap (λ (z : ℕ). x * z) f))
Stands-mul w true true x y u v (m, n, e) (p, q, f) =
    (m * v + x * q, n * v + x * p, omega (arith, ap (λ (z : ℕ). z * v) e, ap (λ (z : ℕ). x * z) f))
