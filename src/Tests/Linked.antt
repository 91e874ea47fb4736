-- ===== src/Tests/Linked.antt =====
-- A map with the keys of parity as linked entries.
use temporal_determinizer.Prelude.{
  ℕ, zero, suc, List, Option, length, ◌≡◌, ◌<◌, [], ◌∷◌, refl, arith, ◌==◌, leb, some, none,
  if◌then◌else◌, Bool-cases, inl, inr,
}
use temporal_determinizer.Value.{ok}
use temporal_determinizer.Hashmap.{Hashmap, insert, delete, bucket}
use temporal_determinizer.Hashmap.Linked.{
  Entries, LinkedMap, next_linked, unlink_linked, delete_in, insert_in,
}
use temporal_determinizer.Hashmap.Linked.Chain.{AreDistinct, IsChain, contents}
use temporal_determinizer.Hashmap.Linked.Delete.{next_linked-deleted}
use temporal_determinizer.Hashmap.Linked.Table.{IsTable, MapsAs, delete_in-MapsAs, insert_in-MapsAs}
use temporal_determinizer.Tests.Keys.{parity}

-- 1 at the address 0, linked to 2 at the address 1
abbrev cells : Entries ℕ ℕ
cells zero = record { key = 1; value = 10; next = some 1 }
cells (suc i) = record { key = 2; value = 20; next = none }

abbrev both : List ℕ
both = 0 ∷ 1 ∷ []

both-AreDistinct : AreDistinct both
both-AreDistinct = ((λ h. omega arith, tt), (tt, tt))

both-IsChain : IsChain cells (some 0) both
both-IsChain = (refl, (refl, refl))

-- the iterator had given the first and come to the second
next_linked-deleted_example :
    (q : Option ℕ) × (d : Entries ℕ ℕ) × (js : List ℕ) × (unlink_linked 3 4 cells (some 0)
      ≡ ok (some (q, d)))
    × IsChain d q js
    × (contents d js ≡ (1, 10) ∷ [])
    × ((next_linked d (λ h. none) (record { cur = some 1; hashes = [] })).0 ≡ some (2, 20))
unfolding parity
next_linked-deleted_example =
    next_linked-deleted 3 4 cells (some 0) (0 ∷ []) 1 [] (omega arith) both-AreDistinct both-IsChain
      (refl, tt) refl (λ h. none) []

-- them as the bucket of the hash 5, which is that of all keys
abbrev linked_map : LinkedMap ℕ ℕ
linked_map = record { cells = cells; table = λ j. if j == 5 then some 0 else none; length = 2 }

abbrev listed_map : Hashmap ℕ ℕ
listed_map = record { table = (5, (1, 10) ∷ (2, 20) ∷ []) ∷ []; length = 2 }

abbrev chains : ℕ → List ℕ
chains j = if j == 5 then both else []

abbrev owner : ℕ → ℕ
owner x = if leb x 1 then 6 else 0

linked_map-IsTable : IsTable linked_map listed_map chains owner
unfolding bucket
linked_map-IsTable = record {
  linked = λ j. elim (Bool-cases (j == 5)) [ inl e ↦ rw e both-IsChain | inr e ↦ rw e refl ];
  same = λ j. elim (Bool-cases (j == 5)) [ inl e ↦ ground (arith, e) | inr e ↦ ground (arith, e) ];
  distinct = λ j. elim (Bool-cases (j == 5)) [ inl e ↦ rw e both-AreDistinct | inr e ↦ rw e tt ];
  owned = λ j x o. elim (Bool-cases (j == 5)) [
    | inl e ↦ rw e ((λ h. ground (arith, h, e, o)), ((λ h. ground (arith, h, e, o)), tt))
    | inr e ↦ rw e tt
  ];
  counted = refl;
}

chains_low : (j : ℕ) → length (chains j) < 3
chains_low j = elim (Bool-cases (j == 5)) [
  | inl e ↦ rw e (omega arith)
  | inr e ↦ rw e (omega arith)
]

delete_in-MapsAs_example : MapsAs (delete (some listed_map) 4) (delete_in 3 (some linked_map) 4)
delete_in-MapsAs_example = delete_in-MapsAs linked_map-IsTable 3 chains_low 4

insert_in-MapsAs_example :
    MapsAs (insert (some listed_map) 3 99) (insert_in 3 7 (some linked_map) 3 99)
insert_in-MapsAs_example = insert_in-MapsAs linked_map-IsTable 3 chains_low 3 99 7 refl
