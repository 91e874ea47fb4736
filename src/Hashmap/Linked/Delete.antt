-- ===== src/Hashmap/Linked/Delete.antt =====
-- lookup and delete of interpreter/internal/interp/map.go on linked entries, and hashmapIter of value.go at an
-- entry that is deleted.
use mathlib.Core.Path.{subst}
use temporal_determinizer.Prelude.{
  ℕ, zero, suc, ◌<◌, ◌≡◌, refl, ap, arith, Bool, true, false, List, [], ◌∷◌, ◌++◌, Option, none,
  some, length,
}
use temporal_determinizer.Value.{Result, ok, panics}
use temporal_determinizer.Hashmap.{Bucket, Hashable, when, behind, find, unlink}
use temporal_determinizer.Hashmap.Linked.{
  Entries, next_linked, find_linked, unlink_after, with_head, unlink_linked,
}
use temporal_determinizer.Hashmap.Linked.Chain.{
  Avoids, AreDistinct, IsChain, contents, Keeps, Represents, After, unlink_after-After,
}

module _ {K V : Type 0} ⦃key : Hashable K⦄ where
  -- what delete does to a linked bucket, by what unlink does to its list
  abbrev pub Unlinked :
      Entries K V
      → List ℕ
      → Result (Option (Bucket K V))
      → Result (Option (Option ℕ × Entries K V))
      → Type 0
  Unlinked c is (panics p) r = r ≡ panics p
  Unlinked c is (ok none) r = r ≡ ok none
  Unlinked c is (ok (some b)) r =
      (p : Option ℕ) × (d : Entries K V) × (js : List ℕ) × (r ≡ ok (some (p, d)))
      × Keeps c d is
      × Represents c d is p b js

  Unlinked-head :
      (c : Entries K V) (i : ℕ) (is : List ℕ) (rest : Result (Option (Bucket K V)))
      (r : Result (Option (Entries K V)))
      → Avoids i is
      → After c i is rest r
      → Unlinked c (i ∷ is) (behind ((c i).key, (c i).value) rest) (with_head i r)
  Unlinked-head c i is (panics p) r a h = rw h refl
  Unlinked-head c i is (ok none) r a h = rw h refl
  Unlinked-head c i is (ok (some b)) r a (d, js, e, keeps, rep) = (
    some i,
    d,
    i ∷ js,
    rw e refl,
    keeps,
    record {
      chain = (refl, rep.chain);
      same = cc (keeps.keys i, keeps.values i, rep.same);
      distinct = (rep.within i a, rep.distinct);
      within = λ x (n, m). (n, rep.within x m);
    },
  )

  Unlinked-bucket :
      (q : Result Bool) (c : Entries K V) (i : ℕ) (is : List ℕ)
      → AreDistinct (i ∷ is)
      → IsChain c (c i).next is
      → (rest : Result (Option (Bucket K V))) (r : Result (Option (Entries K V)))
      → After c i is rest r
      → Unlinked c
          (i ∷ is)
          (when q (ok (some (contents c is))) (behind ((c i).key, (c i).value) rest))
          (when q (ok (some ((c i).next, c))) (with_head i r))
  Unlinked-bucket (panics p) c i is d t rest r h = refl
  Unlinked-bucket (ok true) c i is (a, d) t rest r h = (
    (c i).next,
    c,
    is,
    refl,
    record { keys = λ x. refl; values = λ x. refl; others = λ x m. refl },
    record { chain = t; same = refl; distinct = d; within = λ x (n, m). m },
  )
  Unlinked-bucket (ok false) c i is (a, d) t rest r h = Unlinked-head c i is rest r a h

  -- On a bucket of distinct linked entries, with fuel for each of them, delete does what unlink does to
  -- their list: it panics as that does, finds no entry, or leaves linked the entries that are left,
  -- still distinct. It changes no key, no value and no entry of another bucket.
  pub unlink_linked-Unlinked :
      (n : ℕ) (k : K) (c : Entries K V) (p : Option ℕ) (is : List ℕ)
      → length is < n
      → AreDistinct is
      → IsChain c p is
      → Unlinked c is (unlink k (contents c is)) (unlink_linked n k c p)
  unfolding unlink_linked unlink
  unlink_linked-Unlinked n k c p [] low d h = rw h refl
  unlink_linked-Unlinked n k c p (i ∷ is) low (a, d) (h, t) = rw h (
      Unlinked-bucket (key.eq k (c i).key) c i is (a, d) t (unlink k (contents c is))
        (unlink_after n k c i (c i).next)
        (unlink_after-After n k c i is (c i).next (omega arith) a d t refl))

  -- lookup on linked entries is find on their list
  pub find_linked-find :
      (n : ℕ) (k : K) (c : Entries K V) (p : Option ℕ) (is : List ℕ)
      → length is < n
      → IsChain c p is
      → find_linked n k c p ≡ find k (contents c is)
  unfolding find_linked find
  find_linked-find zero k c p is low h = absurd (omega arith)
  find_linked-find (suc n) k c p [] low h = rw h refl
  find_linked-find (suc n) k c p (i ∷ is) low (h, t) = rw h (
      ap (when (key.eq k (c i).key) (ok (some (c i).value)))
        (find_linked-find n k c (c i).next is (omega arith) t))

  -- no key of the entries is equal to k
  abbrev pub Differ : K → Entries K V → List ℕ → Type 0
  Differ k c [] = Unit
  Differ k c (i ∷ is) = (key.eq k (c i).key ≡ ok false) × Differ k c is

  unlink-first :
      (k : K) (c : Entries K V) (before : List ℕ) (j : ℕ) (after : List ℕ)
      → Differ k c before
      → key.eq k (c j).key ≡ ok true
      → unlink k (contents c (before ++ j ∷ after)) ≡ ok (some (contents c (before ++ after)))
  unfolding unlink
  unlink-first k c [] j after d e = rw e refl
  unlink-first k c (i ∷ before) j after (x, d) e =
      rw x (ap (behind ((c i).key, (c i).value)) (unlink-first k c before j after d e))

  -- In a bucket of distinct linked entries, let j be the first whose key is equal to k. delete of k leaves
  -- the other entries linked, in their order. An iterator that had come to j before gives the key and
  -- the value of j nevertheless, whatever the table is then.
  pub next_linked-deleted :
      (n : ℕ) (k : K) (c : Entries K V) (p : Option ℕ) (before : List ℕ) (j : ℕ) (after : List ℕ)
      → length (before ++ j ∷ after) < n
      → AreDistinct (before ++ j ∷ after)
      → IsChain c p (before ++ j ∷ after)
      → Differ k c before
      → key.eq k (c j).key ≡ ok true
      → (table : ℕ → Option ℕ) (hashes : List ℕ)
      → (q : Option ℕ) × (d : Entries K V) × (js : List ℕ) × (unlink_linked n k c p
          ≡ ok (some (q, d)))
        × IsChain d q js
        × (contents d js ≡ contents c (before ++ after))
        × ((next_linked d table (record { cur = some j; hashes = hashes })).0
            ≡ some ((c j).key, (c j).value))
  unfolding next_linked
  next_linked-deleted n k c p before j after low dist h differ e table hashes =
      let (q, d, js, run, keeps, rep) =
        subst (λ r. Unlinked c (before ++ j ∷ after) r (unlink_linked n k c p))
          (unlink-first k c before j after differ e)
          (unlink_linked-Unlinked n k c p (before ++ j ∷ after) low dist h) in
      (q, d, js, run, rep.chain, rep.same, cc (keeps.keys j, keeps.values j))
