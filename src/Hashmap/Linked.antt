-- ===== src/Hashmap/Linked.antt =====
-- The entries of interpreter/internal/interp/map.go as the cells that the pointers of a bucket link, the loops
-- over them in lookup, delete and insert, and hashmapIter of value.go, which keeps such a pointer between
-- two calls of next.
-- A loop has fuel, one for each entry of the bucket and one for its end.
pub mod Chain
pub mod Delete
pub mod Write
pub mod Insert
pub mod Table
use temporal_determinizer.Prelude.{
  Bool, true, false, ℕ, zero, suc, List, [], ◌∷◌, Option, none, some, ◌+◌, ◌-◌, ◌==◌, if◌then◌else◌,
}
use temporal_determinizer.Value.{Result, ok, panics, exhausted, ◌>>=◌, fault, nil_dereference}
use temporal_determinizer.Hashmap.{Hashable, when}

pub record Entry (K V : Type 0) : Type 0 where
  pub key : K
  pub value : V
  pub next : Option ℕ

-- the entries at their addresses
abbrev pub Entries : Type 0 → Type 0 → Type 0
Entries K V = ℕ → Entry K V

-- what hashmapIter has: the entry to come in the bucket at hand, and the hashes that the iterator over
-- the built-in map has to give yet
pub record LinkedIter : Type 0 where
  pub cur : Option ℕ
  pub hashes : List ℕ

-- the table, with the entries that its pointers reach
pub record LinkedMap (K V : Type 0) : Type 0 where
  pub cells : Entries K V
  pub table : ℕ → Option ℕ
  pub length : ℕ

-- m.table[hash] = head
abbrev pub set_head : {A : Type 0} → ℕ → A → (ℕ → A) → ℕ → A
set_head h p table j = if j == h then p else table j

module _ {K V : Type 0} where
  -- prev.next = e
  abbrev pub relink : Entries K V → ℕ → Option ℕ → Entries K V
  relink c prev e i = if prev == i then record (c i) { next = e } else c i

  -- e.value = v
  abbrev pub assign_value : Entries K V → ℕ → V → Entries K V
  assign_value c e v i = if e == i then record (c i) { value = v } else c i

  -- a new entry
  abbrev pub new_entry : Entries K V → ℕ → Entry K V → Entries K V
  new_entry c a e i = if a == i then e else c i

  -- the loop of next, on the table as it is at the call
  unfoldable pub give :
      Entries K V → (ℕ → Option ℕ) → Option ℕ → List ℕ → Option (K × V) × LinkedIter
  give c table (some i) hs =
      (some ((c i).key, (c i).value), record { cur = (c i).next; hashes = hs })
  give c table none [] = (none, record { cur = none; hashes = [] })
  give c table none (h ∷ hs) = give c table (table h) hs

  unfoldable pub next_linked :
      Entries K V → (ℕ → Option ℕ) → LinkedIter → Option (K × V) × LinkedIter
  unfolding give
  next_linked c table it = give c table it.cur it.hashes

module _ {K V : Type 0} ⦃key : Hashable K⦄ where
  -- the value of the first entry from e on whose key is equal to k
  unfoldable pub find_linked : ℕ → K → Entries K V → Option ℕ → Result (Option V)
  find_linked zero k c e = panics exhausted
  find_linked (suc n) k c none = ok none
  find_linked (suc n) k c (some i) =
      when (key.eq k (c i).key) (ok (some (c i).value)) (find_linked n k c (c i).next)

  -- the loop of delete from e on, which follows prev: the entries if one was unlinked
  unfoldable pub unlink_after : ℕ → K → Entries K V → ℕ → Option ℕ → Result (Option (Entries K V))
  unlink_after zero k c prev e = panics exhausted
  unlink_after (suc n) k c prev none = ok none
  unlink_after (suc n) k c prev (some i) =
      when (key.eq k (c i).key) (ok (some (relink c prev (c i).next)))
        (unlink_after n k c i (c i).next)

  abbrev pub with_head :
      ℕ → Result (Option (Entries K V)) → Result (Option (Option ℕ × Entries K V))
  with_head i (ok none) = ok none
  with_head i (ok (some c)) = ok (some (some i, c))
  with_head i (panics p) = panics p

  -- delete in the bucket with the head p: the new head and the entries, if one was unlinked
  unfoldable pub unlink_linked :
      ℕ → K → Entries K V → Option ℕ → Result (Option (Option ℕ × Entries K V))
  unfolding unlink_after
  unlink_linked n k c none = ok none
  unlink_linked n k c (some i) =
      when (key.eq k (c i).key) (ok (some ((c i).next, c)))
        (with_head i (unlink_after n k c i (c i).next))

  -- the loop of insert from e on: the entries if a value was assigned
  unfoldable pub overwrite_linked :
      ℕ → K → V → Entries K V → Option ℕ → Result (Option (Entries K V))
  overwrite_linked zero k v c e = panics exhausted
  overwrite_linked (suc n) k v c none = ok none
  overwrite_linked (suc n) k v c (some i) =
      when (key.eq k (c i).key) (ok (some (assign_value c i v)))
        (overwrite_linked n k v c (c i).next)

  -- insert in the bucket with the head p, where a is the address of the entry that it may make: the new
  -- head, the entries, and whether there is one entry more
  abbrev pub with_new :
      K
      → V
      → Entries K V
      → Option ℕ
      → ℕ
      → Result (Option (Entries K V))
      → Result (Option ℕ × Entries K V × Bool)
  with_new k v c p a (ok (some d)) = ok (p, d, false)
  with_new k v c p a (ok none) =
      ok (some a, new_entry c a (record { key = k; value = v; next = p }), true)
  with_new k v c p a (panics x) = panics x

  unfoldable pub insert_linked :
      ℕ → K → V → Entries K V → Option ℕ → ℕ → Result (Option ℕ × Entries K V × Bool)
  unfolding overwrite_linked
  insert_linked n k v c p a = with_new k v c p a (overwrite_linked n k v c p)

  -- the methods, with fuel for each bucket
  unfoldable pub lookup_in : ℕ → Option (LinkedMap K V) → K → Result (Option V)
  unfolding find_linked
  lookup_in n none k = ok none
  lookup_in n (some m) k = do h ← key.hash k; find_linked n k m.cells (m.table h)

  unfoldable pub delete_in : ℕ → Option (LinkedMap K V) → K → Result (Option (LinkedMap K V))
  unfolding unlink_linked
  delete_in n none k = ok none
  delete_in n (some m) k = do
    h ← key.hash k
    found ← unlink_linked n k m.cells (m.table h)
    elim found [
      | none ↦ ok (some m)
      | some (p, d) ↦
          ok (some (record { cells = d; table = set_head h p m.table; length = m.length - 1 }))
    ]

  -- a is the address of a new entry
  unfoldable pub insert_in :
      ℕ → ℕ → Option (LinkedMap K V) → K → V → Result (Option (LinkedMap K V))
  unfolding insert_linked
  insert_in n a none k v = fault nil_dereference
  insert_in n a (some m) k v = do
    h ← key.hash k
    (p, d, more) ← insert_linked n k v m.cells (m.table h) a
    ok (
        some (record {
          cells = d;
          table = set_head h p m.table;
          length = if more then m.length + 1 else m.length;
        }))
