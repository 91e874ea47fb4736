-- ===== src/Slices/Reslice.antt =====
-- Slicing what was sliced.
use temporal_determinizer.Prelude.{ℕ, ◌+◌, ◌-◌, ◌^◌, ◌≤◌, ◌<◌, ◌≡◌, refl, ap, arith, some, true}
use temporal_determinizer.Value.{Value, Header, ok, ◌>>=◌}
use temporal_determinizer.Slices.{reslice, ordered, as_slice}

-- bounds that a slice of the capacity admits
pub record IsBounds (l h m cap : ℕ) : Type 0 where
  pub low : l ≤ h
  pub high : h ≤ m
  pub fits : m ≤ cap
  pub small : m < 2 ^ 63

ordered-IsBounds : (l h m cap : ℕ) → IsBounds l h m cap → ordered l h m cap ≡ true
ordered-IsBounds l h m cap b = ground (arith, b.low, b.high, b.fits, b.small)

header_congr :
    {a a' n n' c c' : ℕ}
    → a ≡ a'
    → n ≡ n'
    → c ≡ c'
    → Value.slice (some (record { base = a; len = n; cap = c }))
      ≡ Value.slice (some (record { base = a'; len = n'; cap = c' }))
header_congr p q r = rw (p, q, r) refl

moved :
    {l h m a b c cap : ℕ}
    → IsBounds l h m cap
    → IsBounds a b c (m - l)
    → IsBounds (l + a) (l + b) (l + c) cap
moved p q = record {
  low = omega (arith, q.low);
  high = omega (arith, q.high);
  fits = omega (arith, p.low, p.high, p.fits, q.fits, q.low, q.high);
  small = omega (arith, p.low, p.high, p.small, q.fits, q.low, q.high);
}

-- Slicing within the bounds and slicing the result within its bounds is slicing once, with the
-- bounds of the second moved by the lower bound of the first.
pub reslice-reslice :
    (x : Header) (l h m a b c : ℕ)
    → IsBounds l h m x.cap
    → IsBounds a b c (m - l)
    → (do v ← reslice (some x) l h m; y ← as_slice v; reslice y a b c)
      ≡ reslice (some x) (l + a) (l + b) (l + c)
unfolding reslice
reslice-reslice x l h m a b c p q =
    rw
      (
        ordered-IsBounds l h m x.cap p,
        ◌>>=◌,
        reslice,
        ordered-IsBounds a b c (m - l) q,
        ordered-IsBounds (l + a) (l + b) (l + c) x.cap (moved p q),
      )
      (ap ok (header_congr (omega arith) (omega arith) (omega arith)))
