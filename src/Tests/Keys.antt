-- ===== src/Tests/Keys.antt =====
-- A map whose keys are numbers, equal when they have one parity, all with one hash.
use mathlib.Core.List.{Perm, Permᴰ}
use temporal_determinizer.Prelude.{ℕ, List, ◌≡◌, [], ◌∷◌, refl, arith, ◌%◌, ◌==◌, some, none}
use temporal_determinizer.Value.{Returns, ok}
use temporal_determinizer.Hashmap.{Hashable, Hashmap, insert, delete, make_map, bucket, Bucket}
use temporal_determinizer.Hashmap.Buckets.{IsLawful, IsBucket, at}
use temporal_determinizer.Hashmap.Laws.{
  Writes, IsValid, total, make_map-IsValid, insert-Writes, delete-Writes,
}
use temporal_determinizer.Hashmap.Iter.{iter_of, next, entries}
use temporal_determinizer.Hashmap.Iter.Walk.{walk, all_some, entries_of, walk-entries}

instance unfoldable pub parity : Hashable ℕ
parity = record { hash = λ a. ok 5; eq = λ a b. ok (a % 2 == b % 2) }

parity-IsLawful : IsLawful parity
unfolding parity
parity-IsLawful = record {
  same = λ a b. a % 2 == b % 2;
  code = λ a. 5;
  eq_same = λ a b. refl;
  hash_code = λ a. refl;
  same_refl = λ a. ground arith;
  same_symm = λ a b. ground arith;
  same_trans = λ a b c. ground arith;
  code-same = λ a b h. refl;
}

abbrev empty_map : Hashmap ℕ ℕ
empty_map = make_map

insert-Writes_example :
    Returns (insert (some empty_map) 4 9) (Writes parity-IsLawful empty_map 4 (some 9))
insert-Writes_example =
    insert-Writes parity-IsLawful empty_map (make_map-IsValid parity-IsLawful) 4 9

delete-Writes_example :
    Returns (delete (some empty_map) 4) (Writes parity-IsLawful empty_map 4 none)
delete-Writes_example = delete-Writes parity-IsLawful empty_map (make_map-IsValid parity-IsLawful) 4

-- a map with 1 and 2 in one bucket, behind an empty one
abbrev two_keys : Hashmap ℕ ℕ
two_keys = record { table = (5, (2, 20) ∷ (1, 10) ∷ []) ∷ (6, []) ∷ []; length = 2 }

two_keys-buckets : (j : ℕ) → IsBucket parity-IsLawful j (bucket j two_keys.table)
unfolding bucket at parity-IsLawful
two_keys-buckets j = ground arith

two_keys-IsValid : IsValid parity-IsLawful two_keys
unfolding total
two_keys-IsValid = record { buckets = two_keys-buckets; counted = refl }

-- its table in the other order
abbrev turned : List (ℕ × Bucket ℕ ℕ)
turned = (6, []) ∷ (5, (2, 20) ∷ (1, 10) ∷ []) ∷ []

walk-entries_example :
    ((walk two_keys.length (iter_of turned)).0 ≡ all_some (entries_of turned))
    × ((next (walk two_keys.length (iter_of turned)).1).0 ≡ none)
    × Perm (entries_of turned) (entries_of two_keys.table)
unfolding entries
walk-entries_example =
    walk-entries parity-IsLawful two_keys two_keys-IsValid turned (Permᴰ.swap refl refl)
