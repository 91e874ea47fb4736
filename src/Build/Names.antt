-- ===== src/Build/Names.antt =====
-- Full names of functions.
use temporal_determinizer.Prelude.{ℕ, ◌≡◌, ◌≢◌, refl, List, [], ◌∷◌, ◌++◌, none, some, arith}
use temporal_determinizer.Build.{split_last}

abbrev pub NoDot : List ℕ → Type 0
NoDot [] = Unit
NoDot (a ∷ s) = (a ≢ 46) × NoDot s

split_last-none : (n : List ℕ) → NoDot n → split_last n ≡ none
unfolding split_last
split_last-none [] h = refl
split_last-none (a ∷ s) (k, h) = rw (split_last-none s h) (ground arith)

-- The full name of a function is split at its last dot: joining a path, which may have dots, and a
-- name without a dot and splitting again gives both back.
pub split_last-join : (p n : List ℕ) → NoDot n → split_last (p ++ (46 ∷ n)) ≡ some (p, n)
unfolding split_last
split_last-join [] n h = rw (split_last-none n h) refl
split_last-join (a ∷ s) n h = rw (split_last-join s n h) refl
