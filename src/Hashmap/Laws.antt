-- ===== src/Hashmap/Laws.antt =====
-- The table as a map: its entries counted once, a view by key, and what each method does to it.
use temporal_determinizer.Prelude.{
  ℕ, ◌+◌, ◌-◌, ◌≡◌, refl, true, List, [], ◌∷◌, Option, none, some, length, ◌==◌, if◌then◌else◌,
  arith, Bool-cases, Option-cases, inl, inr, ==_iff, ◌∙◌, sym,
}
use mathlib.Core.Path.{subst}
use temporal_determinizer.Value.{ok, ◌>>=◌, Returns}
use temporal_determinizer.Hashmap.{
  Hashable, Hashmap, Bucket, bucket, set_bucket, lookup, delete, insert, make_map,
}
use temporal_determinizer.Hashmap.Buckets.{
  IsLawful, IsBucket, at, replaced, removed, find-at, at_congr, overwrite-replaced, unlink-removed,
  at-replaced, at-removed, replaced-IsBucket, removed-IsBucket, length-replaced, length-removed,
}

abbrev pub Table : Type 0 → Type 0 → Type 0
Table K V = List (ℕ × Bucket K V)

-- the entries of all buckets
unfoldable pub total : {K V : Type 0} → Table K V → ℕ
total [] = 0
total ((j, b) ∷ t) = length b + total t

abbrev pub found : {V : Type 0} → Option V → ℕ
found none = 0
found (some v) = 1

module _ {K V : Type 0} where
  pub bucket-set_bucket :
      (h j : ℕ) (b : Bucket K V) (t : Table K V)
      → bucket j (set_bucket h b t) ≡ (if j == h then b else bucket j t)
  unfolding bucket set_bucket
  bucket-set_bucket h j b [] = ground arith
  bucket-set_bucket h j b ((i, d) ∷ t) = ground (arith, bucket-set_bucket h j b t)

  total-set_bucket :
      (h : ℕ) (b : Bucket K V) (t : Table K V)
      → total (set_bucket h b t) + length (bucket h t) ≡ total t + length b
  unfolding bucket set_bucket total
  total-set_bucket h b [] = omega arith
  total-set_bucket h b ((i, d) ∷ t) = ground (arith, total-set_bucket h b t)

module _ {K V : Type 0} ⦃key : Hashable K⦄ (law : IsLawful key) where
  open law use {same, code, hash_code, same_refl, same_symm, code-same}

  -- each bucket holds keys of its hash value, no two of them equal, and length counts the entries
  pub record IsValid (m : Hashmap K V) : Type 0 where
    pub buckets : (j : ℕ) → IsBucket law j (bucket j m.table)
    pub counted : m.length ≡ total m.table

  -- the abstract map
  unfoldable pub view : Hashmap K V → K → Option V
  view m q = at law q (bucket (code q) m.table)

  pub make_map-IsValid : IsValid make_map
  unfolding make_map bucket total
  make_map-IsValid = record { buckets = λ j. tt; counted = refl }

  -- A lookup of any key returns what the abstract map holds there.
  pub lookup-view : (m : Hashmap K V) (k : K) → lookup (some m) k ≡ ok (view m k)
  unfolding lookup view
  lookup-view m k = rw (hash_code k, ◌>>=◌) (find-at law k _)

  -- a new bucket for the hash value of k
  module _ (m : Hashmap K V) (valid : IsValid m) (k : K) (b : Bucket K V) where
    set_buckets :
        IsBucket law (code k) b
        → (j : ℕ) → IsBucket law j (bucket j (set_bucket (code k) b m.table))
    set_buckets h j = elim (Bool-cases (j == code k)) [
      | inl e ↦
          rw (bucket-set_bucket (code k) j b m.table, e)
            (subst (λ i. IsBucket law i b) (sym ((==_iff _ _).0 e)) h)
      | inr e ↦ rw (bucket-set_bucket (code k) j b m.table, e) (valid.buckets j)
    ]

    -- its view, if the bucket was changed at k only
    view-set_bucket :
        (n : ℕ) (o : Option V)
        → ((q : K) → at law q b ≡ (if same q k then o else at law q (bucket (code k) m.table)))
        → (q : K)
        → view (record { table = set_bucket (code k) b m.table; length = n }) q
          ≡ (if same q k then o else view m q)
    unfolding view
    view-set_bucket n o h q =
        rw (bucket-set_bucket (code k) (code q) b m.table)
          (ground (arith, h q, code-same q k, ==_iff (code q) (code k)))

  -- what a method that wrote `o` at `k` has done to the map
  pub record Writes (m : Hashmap K V) (k : K) (o : Option V) (r : Option (Hashmap K V))
      : Type 0 where
    pub new : Hashmap K V
    pub result : r ≡ some new
    pub valid : IsValid new
    pub reads : (q : K) → view new q ≡ (if same q k then o else view m q)
    pub size : new.length + found (view m k) ≡ m.length + found o

  module _ (m : Hashmap K V) (ok_map : IsValid m) (k : K) where
    -- what the bucket of k becomes, with its view, makes the map that a method returns
    written :
        (o : Option V) (b : Bucket K V) (n : ℕ)
        → IsBucket law (code k) b
        → ((q : K) → at law q b ≡ (if same q k then o else at law q (bucket (code k) m.table)))
        → length b + found (view m k) ≡ length (bucket (code k) m.table) + found o
        → n + found (view m k) ≡ m.length + found o
        → Writes m k o (some (record { table = set_bucket (code k) b m.table; length = n }))
    written o b n h reads shift size = record {
      new = _;
      result = refl;
      valid = record {
        buckets = set_buckets m ok_map k b h;
        counted = omega (arith, ok_map.counted, total-set_bucket (code k) b m.table);
      };
      reads = view-set_bucket m ok_map k b n o reads;
      size = size;
    }

    absent : at law k (bucket (code k) m.table) ≡ none → (q : K) → same q k ≡ true → view m q ≡ none
    unfolding view
    absent e q h = rw (code-same q k h) (at_congr law q k (bucket (code k) m.table) h ∙ e)

    -- Inserting a value does not fail; the map then reads it under every key equal to k, reads as
    -- before under the others, is valid, and is longer by one exactly if k was absent.
    pub insert-Writes : (v : V) → Returns (insert (some m) k v) (Writes m k (some v))
    unfolding insert view
    insert-Writes v =
        let old = bucket (code k) m.table in
        let good = ok_map.buckets (code k) in
        elim (Option-cases (at law k old)) [
          | inl e ↦ (
            _,
            rw (hash_code k, ◌>>=◌, overwrite-replaced law k v old, e),
            written (some v) ((k, v) ∷ old) (m.length + 1) (refl, e, good) (λ q. unfold at in refl)
                (rw e (omega arith)) (rw e (omega arith)),
          )
          | inr (w, e) ↦ (
            _,
            rw (hash_code k, ◌>>=◌, overwrite-replaced law k v old, e),
            written (some v) (replaced law k v old) m.length
                (replaced-IsBucket law k v w (code k) old e good)
                (λ q. at-replaced law k q v w old e)
                (rw e (omega (arith, length-replaced law k v old))) (rw e refl),
          )
        ]

    -- Deleting a key does not fail; the map then has nothing under the keys equal to k, reads as
    -- before under the others, is valid, and is shorter by one exactly if k was present.
    pub delete-Writes : Returns (delete (some m) k) (Writes m k none)
    unfolding delete view
    delete-Writes =
        let old = bucket (code k) m.table in
        let good = ok_map.buckets (code k) in
        elim (Option-cases (at law k old)) [
          | inl e ↦ (
            some m,
            rw (hash_code k, ◌>>=◌, unlink-removed law k old, e),
            record {
              new = m;
              result = refl;
              valid = ok_map;
              reads = λ q. ground (arith, absent e q);
              size = rw e refl;
            },
          )
          | inr (w, e) ↦ (
            _,
            rw (hash_code k, ◌>>=◌, unlink-removed law k old, e),
            written none (removed law k old) (m.length - 1)
                (removed-IsBucket law k (code k) old good)
                (λ q. at-removed law k q (code k) old good)
                (rw e (omega (arith, length-removed law k w old e)))
                (rw e (
                  omega (
                    arith,
                    ok_map.counted,
                    total-set_bucket (code k) [] m.table,
                    length-removed law k w old e,
                  ))),
          )
        ]
