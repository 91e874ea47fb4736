-- ===== src/Hashmap/Iter.antt =====
-- hashmapIter of interpreter/internal/interp/value.go, over a hashmap that does not change meanwhile: what
-- is left of the bucket at hand, and the buckets to come, in the order in which Go ranges over the
-- table.
pub mod Walk
use temporal_determinizer.Prelude.{ℕ, zero, suc, List, [], ◌∷◌, Option, none, some}
use temporal_determinizer.Hashmap.{Bucket, Hashmap}

pub record HashIter (K V : Type 0) : Type 0 where
  pub cur : Bucket K V
  pub buckets : List (Bucket K V)

module _ {K V : Type 0} where
  -- m.entries(), which is nil for a nil map
  unfoldable pub entries : Option (Hashmap K V) → List (ℕ × Bucket K V)
  entries none = []
  entries (some m) = m.table

  abbrev pub all_buckets : List (ℕ × Bucket K V) → List (Bucket K V)
  all_buckets [] = []
  all_buckets ((j, b) ∷ t) = b ∷ all_buckets t

  -- the buckets of a table, from the first
  unfoldable pub iter_of : List (ℕ × Bucket K V) → HashIter K V
  iter_of t = record { cur = []; buckets = all_buckets t }

  -- the loop of next: the entry, and what is left
  unfoldable pub next_entry : Bucket K V → List (Bucket K V) → Option (K × V) × HashIter K V
  next_entry (e ∷ b) bs = (some e, record { cur = b; buckets = bs })
  next_entry [] [] = (none, record { cur = []; buckets = [] })
  next_entry [] (b ∷ bs) = next_entry b bs

  unfoldable pub next : HashIter K V → Option (K × V) × HashIter K V
  unfolding next_entry
  next it = next_entry it.cur it.buckets
