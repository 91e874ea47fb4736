-- ===== src/Hashmap.antt =====
-- The hashtable of interpreter/internal/interp/map.go, for keys whose equality is not Go's ==.
-- A bucket holds the entries of one hash value, the newest first; the built-in map from hash values
-- to buckets is an association list, in which an absent hash value means the nil bucket.
pub mod Buckets
pub mod Laws
pub mod Iter
pub mod Linked
use temporal_determinizer.Prelude.{
  ℕ, suc, ◌+◌, ◌-◌, Bool, true, false, List, [], ◌∷◌, Option, none, some, ◌==◌, if◌then◌else◌,
}
use temporal_determinizer.Value.{Result, ok, panics, ◌>>=◌, fault, nil_dereference}

-- the hash and eq methods of a key, at the key type of the map
pub record Hashable (K : Type 0) : Type 0 where
  pub hash : K → Result ℕ
  pub eq : K → K → Result Bool

abbrev pub Bucket : Type 0 → Type 0 → Type 0
Bucket K V = List (K × V)

pub record Hashmap (K V : Type 0) : Type 0 where
  pub table : List (ℕ × Bucket K V)
  pub length : ℕ

-- if the comparison holds, the first, else the second
abbrev pub when : {A : Type 0} → Result Bool → Result A → Result A → Result A
when (ok true) a b = a
when (ok false) a b = b
when (panics e) a b = panics e

-- the changed rest of a bucket, if it changed, behind its first entry
abbrev pub behind : {A : Type 0} → A → Result (Option (List A)) → Result (Option (List A))
behind e (ok none) = ok none
behind e (ok (some b)) = ok (some (e ∷ b))
behind e (panics p) = panics p

module _ {K V : Type 0} where
  -- m.table[hash], and an assignment to it
  unfoldable pub bucket : ℕ → List (ℕ × Bucket K V) → Bucket K V
  bucket h [] = []
  bucket h ((j, b) ∷ t) = if j == h then b else bucket h t

  unfoldable pub set_bucket : ℕ → Bucket K V → List (ℕ × Bucket K V) → List (ℕ × Bucket K V)
  set_bucket h b [] = (h, b) ∷ []
  set_bucket h b ((j, d) ∷ t) = if j == h then (j, b) ∷ t else (j, d) ∷ set_bucket h b t

  unfoldable pub make_map : Hashmap K V
  make_map = record { table = []; length = 0 }

module _ {K V : Type 0} ⦃key : Hashable K⦄ where
  -- the first entry whose key is equal to k
  unfoldable pub find : K → Bucket K V → Result (Option V)
  find k [] = ok none
  find k ((q, v) ∷ b) = when (key.eq k q) (ok (some v)) (find k b)

  -- the bucket without its first entry whose key is equal to k, if there is one
  unfoldable pub unlink : K → Bucket K V → Result (Option (Bucket K V))
  unlink k [] = ok none
  unlink k ((q, v) ∷ b) = when (key.eq k q) (ok (some b)) (behind (q, v) (unlink k b))

  -- e.value = v at the first entry whose key is equal to k, if there is one; the key stays
  unfoldable pub overwrite : K → V → Bucket K V → Result (Option (Bucket K V))
  overwrite k v [] = ok none
  overwrite k v ((q, w) ∷ b) =
      when (key.eq k q) (ok (some ((q, v) ∷ b))) (behind (q, w) (overwrite k v b))

  -- a nil map has no entries
  unfoldable pub lookup : Option (Hashmap K V) → K → Result (Option V)
  unfolding find
  lookup none k = ok none
  lookup (some m) k = do h ← key.hash k; find k (bucket h m.table)

  unfoldable pub delete : Option (Hashmap K V) → K → Result (Option (Hashmap K V))
  unfolding unlink
  delete none k = ok none
  delete (some m) k = do
    h ← key.hash k
    found ← unlink k (bucket h m.table)
    elim found [
      | none ↦ ok (some m)
      | some b ↦ ok (some (record { table = set_bucket h b m.table; length = m.length - 1 }))
    ]

  unfoldable pub insert : Option (Hashmap K V) → K → V → Result (Option (Hashmap K V))
  unfolding overwrite
  insert none k v = fault nil_dereference
  insert (some m) k v = do
    h ← key.hash k
    let old = bucket h m.table
    found ← overwrite k v old
    elim found [
      | some b ↦ ok (some (record m { table = set_bucket h b m.table }))
      | none ↦
          ok (some (record { table = set_bucket h ((k, v) ∷ old) m.table; length = m.length + 1 }))
    ]

-- the number of associations
unfoldable pub len : {K V : Type 0} → Option (Hashmap K V) → ℕ
len none = 0
len (some m) = m.length
