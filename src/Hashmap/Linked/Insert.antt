-- ===== src/Hashmap/Linked/Insert.antt =====
-- insert of interpreter/internal/interp/map.go on the linked entries of a bucket, and hashmapIter of value.go
-- at an entry of a bucket into which the walk inserts.
use temporal_determinizer.Prelude.{
  ℕ, zero, suc, ◌<◌, ◌≢◌, ◌≡◌, refl, sym, ap, arith, Bool, true, false, List, [], ◌∷◌, Option, none,
  some, length,
}
use temporal_determinizer.Value.{Result, ok, panics}
use temporal_determinizer.Hashmap.{Bucket, Hashable, when, behind, overwrite}
use temporal_determinizer.Hashmap.Linked.{
  Entry, Entries, assign_value, new_entry, overwrite_linked, with_new, insert_linked,
}
use temporal_determinizer.Hashmap.Linked.Chain.{Avoids, AreDistinct, IsChain, contents}
use temporal_determinizer.Hashmap.Linked.Write.{
  assign_value-other, assign_value-value, assign_value-key, assign_value-next, new_entry-other,
  new_entry-same, IsChain-linked, contents-other,
}

module _ {K V : Type 0} where
  -- the entries after an assignment to one of those at the addresses: only a value has changed
  pub record Assigned (c d : Entries K V) (is : List ℕ) (b : Bucket K V) : Type 0 where
    pub same : contents d is ≡ b
    pub keys : (x : ℕ) → (d x).key ≡ (c x).key
    pub links : (x : ℕ) → (d x).next ≡ (c x).next
    pub others : (x : ℕ) → Avoids x is → d x ≡ c x

  -- the bucket after insert, which may have used the address a: the entries at js, from q on, are those
  -- of the list b, and no entry that was there has another key or another link
  pub record Inserted (c : Entries K V) (a : ℕ) (is : List ℕ) (b : Bucket K V) (d : Entries K V)
      (q : Option ℕ) (js : List ℕ) : Type 0 where
    pub chain : IsChain d q js
    pub same : contents d js ≡ b
    pub distinct : AreDistinct js
    pub keys : (x : ℕ) → a ≢ x → (d x).key ≡ (c x).key
    pub links : (x : ℕ) → a ≢ x → (d x).next ≡ (c x).next
    pub others : (x : ℕ) → a ≢ x → Avoids x is → d x ≡ c x

module _ {K V : Type 0} ⦃key : Hashable K⦄ where
  -- the loop of insert does to linked entries what overwrite does to a bucket
  abbrev Over :
      Entries K V → List ℕ → Result (Option (Bucket K V)) → Result (Option (Entries K V)) → Type 0
  Over c is (panics p) r = r ≡ panics p
  Over c is (ok none) r = r ≡ ok none
  Over c is (ok (some b)) r = (d : Entries K V) × (r ≡ ok (some d)) × Assigned c d is b

  Assigned-here :
      (c : Entries K V) (v : V) (i : ℕ) (is : List ℕ)
      → Avoids i is
      → Assigned c (assign_value c i v) (i ∷ is) (((c i).key, v) ∷ contents c is)
  Assigned-here c v i is a = record {
    same = cc (
      assign_value-key c i i v,
      assign_value-value c i v,
      contents-other c (assign_value c i v) i is (λ x n. assign_value-other c i x v n) a,
    );
    keys = λ x. assign_value-key c i x v;
    links = λ x. assign_value-next c i x v;
    others = λ x (n, m). assign_value-other c i x v (λ h. n (sym h));
  }

  Assigned-behind :
      (c : Entries K V) (i : ℕ) (is : List ℕ)
      → Avoids i is
      → (rest : Result (Option (Bucket K V))) (r : Result (Option (Entries K V))) → Over c is rest r
      → Over c (i ∷ is) (behind ((c i).key, (c i).value) rest) r
  Assigned-behind c i is a (panics p) r h = h
  Assigned-behind c i is a (ok none) r h = h
  Assigned-behind c i is a (ok (some b)) r (d, e, s) = (
    d,
    e,
    record {
      same = cc (s.others i a, s.same);
      keys = s.keys;
      links = s.links;
      others = λ x (n, m). s.others x m;
    },
  )

  Over-step :
      (q : Result Bool) (c : Entries K V) (v : V) (i : ℕ) (is : List ℕ)
      → Avoids i is
      → (rest : Result (Option (Bucket K V))) (r : Result (Option (Entries K V))) → Over c is rest r
      → Over c
          (i ∷ is)
          (when q
            (ok (some (((c i).key, v) ∷ contents c is)))
            (behind ((c i).key, (c i).value) rest))
          (when q (ok (some (assign_value c i v))) r)
  Over-step (panics p) c v i is a rest r h = refl
  Over-step (ok true) c v i is a rest r h = (assign_value c i v, refl, Assigned-here c v i is a)
  Over-step (ok false) c v i is a rest r h = Assigned-behind c i is a rest r h

  overwrite_linked-Over :
      (n : ℕ) (k : K) (v : V) (c : Entries K V) (p : Option ℕ) (is : List ℕ)
      → length is < n
      → AreDistinct is
      → IsChain c p is
      → Over c is (overwrite k v (contents c is)) (overwrite_linked n k v c p)
  unfolding overwrite_linked overwrite
  overwrite_linked-Over zero k v c p is low d h = absurd (omega arith)
  overwrite_linked-Over (suc n) k v c p [] low d h = rw h refl
  overwrite_linked-Over (suc n) k v c p (i ∷ is) low (a, d) (h, t) = rw h (
      Over-step (key.eq k (c i).key) c v i is a (overwrite k v (contents c is))
        (overwrite_linked n k v c (c i).next)
        (overwrite_linked-Over n k v c (c i).next is (omega arith) d t))

  -- what insert does to a linked bucket, by what overwrite does to its list
  abbrev pub InsertsAs :
      Entries K V
      → Option ℕ
      → List ℕ
      → ℕ
      → K
      → V
      → Result (Option (Bucket K V))
      → Result (Option ℕ × Entries K V × Bool)
      → Type 0
  InsertsAs c p is a k v (panics x) r = r ≡ panics x
  InsertsAs c p is a k v (ok (some b)) r =
      (d : Entries K V) × (r ≡ ok (p, d, false)) × Inserted c a is b d p is
  InsertsAs c p is a k v (ok none) r =
      (d : Entries K V) × (r ≡ ok (some a, d, true))
      × Inserted c a is ((k, v) ∷ contents c is) d (some a) (a ∷ is)

  Inserted-new :
      (c : Entries K V) (p : Option ℕ) (is : List ℕ) (a : ℕ) (k : K) (v : V)
      → Avoids a is
      → AreDistinct is
      → IsChain c p is
      → Inserted c a is
          ((k, v) ∷ contents c is)
          (new_entry c a (record { key = k; value = v; next = p }))
          (some a)
          (a ∷ is)
  Inserted-new c p is a k v m d t =
      let e : Entry K V = record { key = k; value = v; next = p } in
      let d' : Entries K V = new_entry c a e in
      let other : (x : ℕ) → a ≢ x → d' x ≡ c x = λ x n. new_entry-other c a x e n in
      record {
        chain = (
          refl,
          rw (new_entry-same c a e)
              (IsChain-linked c d' a p is (λ x n. ap (λ z. z.next) (other x n)) m t),
        );
        same = cc (new_entry-same c a e, contents-other c d' a is other m);
        distinct = (m, d);
        keys = λ x n. ap (λ z. z.key) (other x n);
        links = λ x n. ap (λ z. z.next) (other x n);
        others = λ x n l. other x n;
      }

  with_new-InsertsAs :
      (c : Entries K V) (p : Option ℕ) (is : List ℕ) (a : ℕ) (k : K) (v : V)
      → Avoids a is
      → AreDistinct is
      → IsChain c p is
      → (b : Result (Option (Bucket K V))) (r : Result (Option (Entries K V))) → Over c is b r
      → InsertsAs c p is a k v b (with_new k v c p a r)
  with_new-InsertsAs c p is a k v m d t (panics x) r h = rw h refl
  with_new-InsertsAs c p is a k v m d t (ok none) r h = rw h (
    new_entry c a (record { key = k; value = v; next = p }),
    refl,
    Inserted-new c p is a k v m d t,
  )
  with_new-InsertsAs c p is a k v m d t (ok (some b)) r (e, h, s) = (
    e,
    rw h refl,
    record {
      chain = IsChain-linked c e a p is (λ x n. s.links x) m t;
      same = s.same;
      distinct = d;
      keys = λ x n. s.keys x;
      links = λ x n. s.links x;
      others = λ x n. s.others x;
    },
  )

  -- On a bucket of distinct linked entries, with fuel for each of them and the address of a new one,
  -- insert does what overwrite does to their list: it panics as that does, or leaves the entries linked
  -- where they were, with the value assigned, or, if overwrite finds no key, links the new entry before
  -- them. No entry that was there has another key or another link afterwards, so that an iterator at it
  -- goes on as before, and entries of other buckets stay.
  pub insert_linked-InsertsAs :
      (n : ℕ) (k : K) (v : V) (c : Entries K V) (p : Option ℕ) (is : List ℕ) (a : ℕ)
      → length is < n
      → Avoids a is
      → AreDistinct is
      → IsChain c p is
      → InsertsAs c p is a k v (overwrite k v (contents c is)) (insert_linked n k v c p a)
  unfolding insert_linked
  insert_linked-InsertsAs n k v c p is a low m d t =
      with_new-InsertsAs c p is a k v m d t (overwrite k v (contents c is))
        (overwrite_linked n k v c p) (overwrite_linked-Over n k v c p is low d t)
