-- ===== src/Word/Signed.antt =====
-- What the wrapped operations mean for the integers that the patterns stand for.
use temporal_determinizer.Prelude.{ℕ, ◌+◌, ◌<◌, ◌≤◌, if◌then◌else◌, ◌≡◌, arith}
use temporal_determinizer.Prelude.Int.{ℤ, pos_part, neg_part}
use temporal_determinizer.Word.{
  IntKind, int, modulus, half, is_signed, signed_value, add, sub, neg, complement,
}

-- `z` is a + b, as integers.
abbrev pub IsSum : ℤ → ℤ → ℤ → Type 0
IsSum a b z = pos_part a + pos_part b + neg_part z ≡ neg_part a + neg_part b + pos_part z

-- `z` is a value of the type
abbrev pub Fits : IntKind → ℤ → Type 0
Fits k z =
    (pos_part z < (if is_signed k then half k else modulus k))
    × (neg_part z ≤ (if is_signed k then half k else 0))

-- the sum is off by a multiple of the modulus, one or none
pub add_signed :
    (k : IntKind) (a b : ℕ)
    → a < modulus k
    → b < modulus k
    → (z : ℤ) → IsSum (signed_value k a) (signed_value k b) z
    → Fits k z
    → signed_value k (add k a b) ≡ z
unfolding add
add_signed int a b ha hb z s p = ground arith
add_signed _ a b ha hb z s p = ground arith

pub sub-add : (k : IntKind) (a b : ℕ) → a < modulus k → b < modulus k → sub k (add k a b) b ≡ a
unfolding add sub
sub-add int a b ha hb = omega arith
sub-add _ a b ha hb = omega arith

pub add-neg : (k : IntKind) (a : ℕ) → a < modulus k → add k a (neg k a) ≡ 0
unfolding add neg
add-neg int a ha = omega arith
add-neg _ a ha = omega arith

pub sub-eq-add-neg :
    (k : IntKind) (a b : ℕ) → a < modulus k → b < modulus k → sub k a b ≡ add k a (neg k b)
unfolding add sub neg
sub-eq-add-neg int a b ha hb = omega arith
sub-eq-add-neg _ a b ha hb = omega arith

pub complement-eq : (k : IntKind) (a : ℕ) → a < modulus k → complement k a ≡ sub k (neg k a) 1
unfolding complement sub neg
complement-eq int a ha = omega arith
complement-eq _ a ha = omega arith
