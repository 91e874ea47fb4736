-- ===== src/Word/Order.antt =====
-- The order of two patterns of one type, by the integers that they stand for.
use temporal_determinizer.Prelude.{ℕ, ◌<◌, ◌≡◌, ◌⊎◌, true, false, ◌==◌, arith}
use temporal_determinizer.Word.{IntKind, int, modulus, less}

pub less_cases :
    (k : IntKind) (a b : ℕ)
    → a < modulus k
    → b < modulus k
    → ((less k a b ≡ true) × (a == b ≡ false) × (less k b a ≡ false))
      ⊎ ((less k a b ≡ false) × (a == b ≡ true) × (less k b a ≡ false))
      ⊎ ((less k a b ≡ false) × (a == b ≡ false) × (less k b a ≡ true))
unfolding less
less_cases int a b ha hb = ground arith
less_cases _ a b ha hb = ground arith
