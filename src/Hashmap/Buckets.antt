-- ===== src/Hashmap/Buckets.antt =====
-- One bucket, for keys that can be compared: the pure functions that the walks along it compute.
use temporal_determinizer.Prelude.{
  ℕ, ◌+◌, ◌≡◌, refl, Bool, true, [], ◌∷◌, Option, none, some, length, if◌then◌else◌, arith,
  Bool-cases, inl, inr,
}
use temporal_determinizer.Value.{ok}
use temporal_determinizer.Hashmap.{Hashable, Bucket, find, unlink, overwrite}

-- Keys whose hash and eq do not panic, eq an equivalence that hash respects.
pub record IsLawful {K : Type 0} (key : Hashable K) : Type 0 where
  pub same : K → K → Bool
  pub code : K → ℕ
  pub eq_same : (a b : K) → key.eq a b ≡ ok (same a b)
  pub hash_code : (a : K) → key.hash a ≡ ok (code a)
  pub same_refl : (a : K) → same a a ≡ true
  pub same_symm : (a b : K) → same a b ≡ same b a
  pub same_trans : (a b c : K) → same a b ≡ true → same b c ≡ true → same a c ≡ true
  pub code-same : (a b : K) → same a b ≡ true → code a ≡ code b

module _ {K V : Type 0} ⦃key : Hashable K⦄ (law : IsLawful key) where
  open law use {same, code, eq_same, same_refl, same_symm, same_trans}

  -- the value at a key, and the two ways to change a bucket there
  unfoldable pub at : K → Bucket K V → Option V
  at k [] = none
  at k ((q, v) ∷ b) = if same k q then some v else at k b

  unfoldable pub replaced : K → V → Bucket K V → Bucket K V
  replaced k v [] = []
  replaced k v ((q, w) ∷ b) = if same k q then (q, v) ∷ b else (q, w) ∷ replaced k v b

  unfoldable pub removed : K → Bucket K V → Bucket K V
  removed k [] = []
  removed k ((q, w) ∷ b) = if same k q then b else (q, w) ∷ removed k b

  -- the entries of the hash value j, under keys of which no two are equal
  abbrev pub IsBucket : ℕ → Bucket K V → Type 0
  IsBucket j [] = Unit
  IsBucket j ((q, v) ∷ b) = (code q ≡ j) × (at q b ≡ none) × IsBucket j b

  pub find-at : (k : K) (b : Bucket K V) → find k b ≡ ok (at k b)
  unfolding find at
  find-at k [] = refl
  find-at k ((q, v) ∷ b) = rw (eq_same k q, find-at k b) (ground arith)

  pub at_congr : (a k : K) (b : Bucket K V) → same a k ≡ true → at a b ≡ at k b
  unfolding at
  at_congr a k [] h = refl
  at_congr a k ((q, v) ∷ b) h =
      ground (arith, at_congr a k b, same_symm a k, same_trans a k q, same_trans k a q)

  -- what a walk finds to change
  abbrev pub changed : Option V → Bucket K V → Option (Bucket K V)
  changed none b = none
  changed (some w) b = some b

  pub overwrite-replaced :
      (k : K) (v : V) (b : Bucket K V) → overwrite k v b ≡ ok (changed (at k b) (replaced k v b))
  unfolding overwrite at replaced
  overwrite-replaced k v [] = refl
  overwrite-replaced k v ((q, w) ∷ b) = rw (eq_same k q, overwrite-replaced k v b) (ground arith)

  pub unlink-removed : (k : K) (b : Bucket K V) → unlink k b ≡ ok (changed (at k b) (removed k b))
  unfolding unlink at removed
  unlink-removed k [] = refl
  unlink-removed k ((q, w) ∷ b) = rw (eq_same k q, unlink-removed k b) (ground arith)

  pub at-replaced :
      (k q : K) (v w : V) (b : Bucket K V)
      → at k b ≡ some w
      → at q (replaced k v b) ≡ (if same q k then some v else at q b)
  unfolding at replaced
  at-replaced k q v w [] h = cc
  at-replaced k q v w ((i, x) ∷ b) h = ground (
    arith,
    at-replaced k q v w b,
    same_symm k i,
    same_symm q k,
    same_trans q k i,
    same_trans q i k,
    same_trans k q i,
  )

  pub at-removed :
      (k q : K) (j : ℕ) (b : Bucket K V)
      → IsBucket j b
      → at q (removed k b) ≡ (if same q k then none else at q b)
  unfolding at removed
  at-removed k q j [] h = ground arith
  at-removed k q j ((i, x) ∷ b) h = ground (
    arith,
    at-removed k q j b,
    at_congr q i b,
    at_congr k i b,
    same_symm k i,
    same_symm q k,
    same_trans q k i,
    same_trans q i k,
    same_trans k q i,
  )

  pub replaced-IsBucket :
      (k : K) (v w : V) (j : ℕ) (b : Bucket K V)
      → at k b ≡ some w
      → IsBucket j b
      → IsBucket j (replaced k v b)
  unfolding at replaced
  replaced-IsBucket k v w j [] e h = tt
  replaced-IsBucket k v w j ((i, x) ∷ b) e h = elim (Bool-cases (same k i)) [
    | inl y ↦ rw y h
    | inr n ↦ rw n (
      h.0,
      ground (arith, at-replaced k i v w b, same_symm k i),
      replaced-IsBucket k v w j b (ground arith) h.2,
    )
  ]

  pub removed-IsBucket : (k : K) (j : ℕ) (b : Bucket K V) → IsBucket j b → IsBucket j (removed k b)
  unfolding at removed
  removed-IsBucket k j [] h = tt
  removed-IsBucket k j ((i, x) ∷ b) h = elim (Bool-cases (same k i)) [
    | inl y ↦ rw y h.2
    | inr n ↦
        rw n (h.0, ground (arith, at-removed k i j b, same_symm k i), removed-IsBucket k j b h.2)
  ]

  pub length-replaced : (k : K) (v : V) (b : Bucket K V) → length (replaced k v b) ≡ length b
  unfolding replaced
  length-replaced k v [] = refl
  length-replaced k v ((i, x) ∷ b) = ground (arith, length-replaced k v b)

  pub length-removed :
      (k : K) (w : V) (b : Bucket K V) → at k b ≡ some w → length (removed k b) + 1 ≡ length b
  unfolding at removed
  length-removed k w [] h = cc
  length-removed k w ((i, x) ∷ b) h = ground (arith, length-removed k w b)
