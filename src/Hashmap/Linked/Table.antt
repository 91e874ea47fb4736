-- ===== src/Hashmap/Linked/Table.antt =====
-- The methods lookup, delete and insert of interpreter/internal/interp/map.go on a table of the heads of linked
-- entries, as those on lists of entries. An owner says to which hash an address belongs: 0 to none,
-- and j + 1 to j.
use temporal_determinizer.Prelude.{
  ℕ, suc, ◌+◌, ◌-◌, ◌<◌, ◌≢◌, ◌≡◌, refl, sym, ap, ◌∙◌, arith, Bool, false, List, [], ◌∷◌, Option,
  none, some, length, ◌==◌, if◌then◌else◌, Bool-cases, inl, inr,
}
use mathlib.Core.Path.{subst}
use temporal_determinizer.Value.{Result, ok, panics, ◌>>=◌}
use temporal_determinizer.Hashmap.{
  Hashable, Hashmap, Bucket, bucket, set_bucket, find, unlink, overwrite, lookup, delete, insert,
}
use temporal_determinizer.Hashmap.Laws.{bucket-set_bucket}
use temporal_determinizer.Hashmap.Linked.{
  Entries, unlink_linked, insert_linked, LinkedMap, set_head, lookup_in, delete_in, insert_in,
}
use temporal_determinizer.Hashmap.Linked.Chain.{Avoids, AreDistinct, IsChain, contents}
use temporal_determinizer.Hashmap.Linked.Delete.{Unlinked, unlink_linked-Unlinked, find_linked-find}
use temporal_determinizer.Hashmap.Linked.Insert.{InsertsAs, insert_linked-InsertsAs}

module _ {K V : Type 0} where
  -- the linked entries of each hash are those of the bucket, at the addresses that belong to the hash
  pub record IsTable (m : LinkedMap K V) (l : Hashmap K V) (chains : ℕ → List ℕ) (owner : ℕ → ℕ)
      : Type 0 where
    pub linked : (j : ℕ) → IsChain m.cells (m.table j) (chains j)
    pub same : (j : ℕ) → contents m.cells (chains j) ≡ bucket j l.table
    pub distinct : (j : ℕ) → AreDistinct (chains j)
    pub owned : (j x : ℕ) → owner x ≢ suc j → Avoids x (chains j)
    pub counted : m.length ≡ l.length

  -- entries at addresses of j, which did not change
  IsChain-owned :
      (c d : Entries K V) (owner : ℕ → ℕ) (j : ℕ) (p : Option ℕ) (is : List ℕ)
      → ((x : ℕ) → owner x ≢ suc j → Avoids x is)
      → ((x : ℕ) → owner x ≡ suc j → d x ≡ c x)
      → IsChain c p is
      → IsChain d p is × (contents d is ≡ contents c is)
  IsChain-owned c d owner j p [] f g h = (h, refl)
  IsChain-owned c d owner j p (i ∷ is) f g (h, t) = elim (Bool-cases (owner i == suc j)) [
    | inl e ↦
        let same = g i (ground (arith, e)) in
        let (u, w) = IsChain-owned c d owner j (c i).next is (λ x n. (f x n).1) g t in
        ((h, subst (λ q. IsChain d q is) (ap (λ z. z.next) (sym same)) u), cc (same, w))
    | inr e ↦ absurd ((f i (ground (arith, e))).0 refl)
  ]

  -- one bucket has changed, and no entry of another one
  IsTable-set :
      {m : LinkedMap K V} {l : Hashmap K V} {chains : ℕ → List ℕ} {owner : ℕ → ℕ}
      → IsTable m l chains owner
      → (h : ℕ) (p : Option ℕ) (d : Entries K V) (js : List ℕ) (b : Bucket K V) (owner' : ℕ → ℕ)
      → IsChain d p js
      → contents d js ≡ b
      → AreDistinct js
      → ((x : ℕ) → owner' x ≢ suc h → Avoids x js)
      → ((j x : ℕ) → j ≢ h → owner' x ≢ suc j → owner x ≢ suc j)
      → ((j x : ℕ) → j ≢ h → owner x ≡ suc j → d x ≡ m.cells x)
      → (n : ℕ)
      → IsTable
          (record { cells = d; table = set_head h p m.table; length = n })
          (record { table = set_bucket h b l.table; length = n })
          (set_head h js chains)
          owner'
  IsTable-set {m} {l} {chains} {owner} rep h p d js b owner' t s dist own moved kept n =
      let other : (j : ℕ)
          → (j == h) ≡ false
          → IsChain d (m.table j) (chains j)
            × (contents d (chains j) ≡ contents m.cells (chains j)) =
        λ j e.
          IsChain-owned m.cells d owner j (m.table j) (chains j) (rep.owned j)
            (λ x. kept j x (ground (arith, e))) (rep.linked j) in
      record {
        linked = λ j. elim (Bool-cases (j == h)) [ inl e ↦ rw e t | inr e ↦ rw e ((other j e).0) ];
        same = λ j. elim (Bool-cases (j == h)) [
          | inl e ↦ rw (bucket-set_bucket h j b l.table, e) s
          | inr e ↦ rw (bucket-set_bucket h j b l.table, e) ((other j e).1 ∙ rep.same j)
        ];
        distinct =
            λ j. elim (Bool-cases (j == h)) [ inl e ↦ rw e dist | inr e ↦ rw e (rep.distinct j) ];
        owned = λ j x o. elim (Bool-cases (j == h)) [
          | inl e ↦ rw e (own x (ground (arith, e, o)))
          | inr e ↦ rw e (rep.owned j x (moved j x (ground (arith, e)) o))
        ];
        counted = refl;
      }

  -- a result of a method on linked entries stands for that on lists: both panic alike, both have no map,
  -- or both have one, of the same entries
  abbrev pub MapsAs : Result (Option (Hashmap K V)) → Result (Option (LinkedMap K V)) → Type 0
  MapsAs (panics x) r = r ≡ panics x
  MapsAs (ok none) r = r ≡ ok none
  MapsAs (ok (some l)) r =
      (m : LinkedMap K V) × (chains : ℕ → List ℕ) × (owner : ℕ → ℕ) × (r ≡ ok (some m))
      × IsTable m l chains owner

  MapsAs-bind :
      (q : Result ℕ) (f : ℕ → Result (Option (Hashmap K V)))
      (g : ℕ → Result (Option (LinkedMap K V)))
      → ((h : ℕ) → MapsAs (f h) (g h))
      → MapsAs (q >>= f) (q >>= g)
  MapsAs-bind (ok h) f g t = t h
  MapsAs-bind (panics x) f g t = refl

module _ {K V : Type 0} ⦃key : Hashable K⦄ {m : LinkedMap K V} {l : Hashmap K V}
    {chains : ℕ → List ℕ} {owner : ℕ → ℕ} (rep : IsTable m l chains owner) (n : ℕ)
    (low : (j : ℕ) → length (chains j) < n) (k : K) where
  -- lookup on linked entries gives what it gives on lists
  pub lookup_in-lookup : lookup_in n (some m) k ≡ lookup (some l) k
  unfolding lookup_in lookup
  lookup_in-lookup =
      ap (λ f. key.hash k >>= f)
        (λ i h.
          (find_linked-find n k m.cells (m.table h) (chains h) (low h) (rep.linked h)
              ∙ ap (find k) (rep.same h))
            i)

  delete_bucket :
      (h : ℕ) (u : Result (Option (Bucket K V))) (r : Result (Option (Option ℕ × Entries K V)))
      → Unlinked m.cells (chains h) u r
      → MapsAs
          (u >>= λ found. elim found [
            | none ↦ ok (some l)
            | some b ↦ ok (some (record { table = set_bucket h b l.table; length = l.length - 1 }))
          ])
          (r >>= λ found. elim found [
            | none ↦ ok (some m)
            | some (p, d) ↦
                ok
                  (some (record { cells = d; table = set_head h p m.table; length = m.length - 1 }))
          ])
  delete_bucket h (panics x) r t = rw t refl
  delete_bucket h (ok none) r t = (m, chains, owner, rw t refl, rep)
  delete_bucket h (ok (some b)) r (p, d, js, e, keeps, new) = (
    record { cells = d; table = set_head h p m.table; length = m.length - 1 },
    set_head h js chains,
    owner,
    rw e refl,
    rw rep.counted (
        IsTable-set rep h p d js b owner new.chain new.same new.distinct
          (λ x o. new.within x (rep.owned h x o)) (λ j x c o. o)
          (λ j x c o. keeps.others x (rep.owned h x (ground (arith, c, o)))) (l.length - 1)),
  )

  -- If linked entries and lists are one table, with fuel for each bucket, delete on the linked entries
  -- stands for delete on the lists: it panics as that does, or leaves linked entries and lists that are
  -- one table, with one length.
  pub delete_in-MapsAs : MapsAs (delete (some l) k) (delete_in n (some m) k)
  unfolding delete_in delete
  delete_in-MapsAs = MapsAs-bind (key.hash k) _ _ (λ h.
      delete_bucket h (unlink k (bucket h l.table)) (unlink_linked n k m.cells (m.table h)) (
        subst
          (λ b. Unlinked m.cells (chains h) (unlink k b) (unlink_linked n k m.cells (m.table h)))
          (rep.same h)
          (unlink_linked-Unlinked n k m.cells (m.table h) (chains h) (low h) (rep.distinct h)
            (rep.linked h))))

  module _ (v : V) (a : ℕ) (fresh : owner a ≡ 0) where
    insert_bucket :
        (h : ℕ) (u : Result (Option (Bucket K V))) (r : Result (Option ℕ × Entries K V × Bool))
        → InsertsAs m.cells (m.table h) (chains h) a k v u r
        → MapsAs
            (u >>= λ found. elim found [
              | some b ↦ ok (some (record l { table = set_bucket h b l.table }))
              | none ↦ ok (
                  some (record {
                    table = set_bucket h ((k, v) ∷ bucket h l.table) l.table;
                    length = l.length + 1;
                  }))
            ])
            (r >>= λ (p, d, more). ok (
              some (record {
                cells = d;
                table = set_head h p m.table;
                length = if more then m.length + 1 else m.length;
              })))
    insert_bucket h (panics x) r t = rw t refl
    insert_bucket h (ok none) r (d, e, new) = (
      record { cells = d; table = set_head h (some a) m.table; length = m.length + 1 },
      set_head h (a ∷ chains h) chains,
      set_head a (suc h) owner,
      rw e refl,
      rw rep.counted (
          IsTable-set rep h (some a) d (a ∷ chains h) ((k, v) ∷ bucket h l.table)
            (set_head a (suc h) owner) new.chain (new.same ∙ ap (λ b. (k, v) ∷ b) (rep.same h))
            new.distinct (λ x o. (ground (arith, o), rep.owned h x (ground (arith, o, fresh))))
            (λ j x c o. ground (arith, c, o, fresh))
            (λ j x c o.
              new.others x (ground (arith, o, fresh)) (rep.owned h x (ground (arith, c, o))))
            (l.length + 1)),
    )
    insert_bucket h (ok (some b)) r (d, e, new) = (
      record { cells = d; table = set_head h (m.table h) m.table; length = m.length },
      set_head h (chains h) chains,
      owner,
      rw e refl,
      rw rep.counted (
          IsTable-set rep h (m.table h) d (chains h) b owner new.chain new.same new.distinct
            (rep.owned h) (λ j x c o. o)
            (λ j x c o.
              new.others x (ground (arith, o, fresh)) (rep.owned h x (ground (arith, c, o))))
            l.length),
    )

    -- If linked entries and lists are one table, with fuel for each bucket, and a belongs to no hash,
    -- insert on the linked entries, with a for a new one, stands for insert on the lists: it panics as
    -- that does, or leaves linked entries and lists that are one table, with one length.
    pub insert_in-MapsAs : MapsAs (insert (some l) k v) (insert_in n a (some m) k v)
    unfolding insert_in insert
    insert_in-MapsAs = MapsAs-bind (key.hash k) _ _ (λ h.
        insert_bucket h (overwrite k v (bucket h l.table))
          (insert_linked n k v m.cells (m.table h) a)
          (subst
            (λ b.
              InsertsAs m.cells (m.table h) (chains h) a k v (overwrite k v b)
                (insert_linked n k v m.cells (m.table h) a))
            (rep.same h)
            (insert_linked-InsertsAs n k v m.cells (m.table h) (chains h) a (low h)
              (rep.owned h a (ground (arith, fresh))) (rep.distinct h) (rep.linked h))))
