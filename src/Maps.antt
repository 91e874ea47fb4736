-- ===== src/Maps.antt =====
-- Maps and iterators: makeMap of interpreter/internal/interp/map.go, lookup and rangeIter of ops.go,
-- MapUpdate of interp.go, and the iterators of value.go. The order in which Go's maps give their
-- entries is a parameter.
pub mod Texts
use temporal_determinizer.Prelude.{
  ℕ, suc, ◌+◌, Bool, true, false, List, [], ◌∷◌, Option, none, some, if◌then◌else◌, get_elem?,
}
use temporal_determinizer.Word.{IntKind}
use temporal_determinizer.Types.{GoType}
use temporal_determinizer.Utf8.{decode}
use temporal_determinizer.Value.{
  Value, Values, Result, ok, fault, message, runtime, index_out_of_range, type_assertion,
  nil_map_write, nil_dereference, lookup_unexpected, illegal_map, cannot_range,
}
use temporal_determinizer.Memory.{zero, uses_builtin_map}
use temporal_determinizer.Equality.{Machine}
use temporal_determinizer.Hashmap
use temporal_determinizer.Hashmap.{Hashmap, Hashable}
use temporal_determinizer.Slices.{drop}
use temporal_determinizer.Ops.{as_int}
use temporal_determinizer.Store.{
  Iter, S, gives, pure, throw, ◌>>=◌, pure_of, on_heap, put, entry, set_entry, remove_entry, key_of,
}

-- a tuple of two and of three
abbrev pub pair : Value → Value → Value
pair a b = Value.tuple (Values.cons a (Values.cons b Values.nil))

abbrev pub triple : Value → Value → Value → Value
triple a b c = Value.tuple (Values.cons a (Values.cons b (Values.cons c Values.nil)))

-- makeMap, for keys of the type t
unfoldable pub make_map : GoType → S Value
unfolding uses_builtin_map
make_map t = do
  native ← pure_of (uses_builtin_map t)
  λ s.
      let a = s.next_map in
      elim native [
        | true ↦
            gives (Value.builtin_map (some a))
              (record s { next_map = suc a; builtin = put s.builtin a [] })
        | false ↦
            gives (Value.hash_map (some a))
              (record s { next_map = suc a; hashed = put s.hashed a (t, Hashmap.make_map) })
      ]

-- v.(hashable): the dynamic types with the methods hash and eq
unfoldable pub as_hashable : Value → Result Value
as_hashable (Value.structure b n) = ok (Value.structure b n)
as_hashable (Value.array b n) = ok (Value.array b n)
as_hashable (Value.iface t v) = ok (Value.iface t v)
as_hashable (Value.rtype t) = ok (Value.rtype t)
as_hashable _ = fault type_assertion

-- the hashmap at an address, with the methods of its keys
abbrev pub with_table :
    {A : Type 0} → Machine → ℕ → ℕ → (Hashable Value → Hashmap Value Value → Result A) → S A
with_table m depth a f s = let (t, h) = s.hashed a in pure_of (f (key_of m depth s.heap.cell t) h) s

abbrev pub set_table : ℕ → Option (Hashmap Value Value) → S (Unit {0})
set_table a none s = gives tt s
set_table a (some h) s = gives tt (record s { hashed = put s.hashed a ((s.hashed a).0, h) })

-- ok = v != nil
abbrev pub present : Option Value → Option Value
present (some Value.nil_value) = none
present v = v

module _ (m : Machine) (depth : ℕ) where
  -- v, ok = x[idx], before the zero value stands in for an absent one
  unfoldable pub look_up : Value → Value → S (Option Value)
  unfolding entry as_hashable
  look_up (Value.builtin_map none) k = pure none
  look_up (Value.builtin_map (some a)) k = λ s. gives (entry m (s.builtin a) k) s
  look_up (Value.hash_map p) k = do
    j ← pure_of (as_hashable k)
    found ← elim p [
      | none ↦ pure none
      | some a ↦ with_table m depth a λ key h. Hashmap.lookup ⦃key = key⦄ (some h) j
    ]
    pure (present found)
  look_up _ k = throw (message lookup_unexpected)

  -- e is the type of the elements, b whether the instruction is of the comma-ok form
  unfoldable pub lookup : GoType → Bool → Value → Value → S Value
  unfolding look_up as_int
  lookup e b (Value.string s) k = do
    i ← pure_of (as_int k)
    elim (get_elem? s i) [
      | some c ↦ pure (Value.integer IntKind.uint8 c)
      | none ↦ throw (runtime index_out_of_range)
    ]
  lookup e b x k = do
    found ← look_up x k
    elim found [
      | some v ↦ pure (if b then pair v (Value.boolean true) else v)
      | none ↦ on_heap (zero e) >>= λ v. pure (if b then pair v (Value.boolean false) else v)
    ]

  -- case *ssa.MapUpdate
  unfoldable pub map_update : Value → Value → Value → S (Unit {0})
  unfolding set_entry as_hashable
  map_update (Value.builtin_map none) k v = throw (runtime nil_map_write)
  map_update (Value.builtin_map (some a)) k v =
      λ s. gives tt (record s { builtin = put s.builtin a (set_entry m (s.builtin a) k v) })
  map_update (Value.hash_map p) k v = do
    j ← pure_of (as_hashable k)
    elim p [
      | none ↦ throw (runtime nil_dereference)
      | some a ↦
          with_table m depth a (λ key h. Hashmap.insert ⦃key = key⦄ (some h) j v) >>= set_table a
    ]
  map_update _ k v = throw (message illegal_map)

  -- the built-in delete
  unfoldable pub map_delete : Value → Value → S (Unit {0})
  unfolding remove_entry as_hashable
  map_delete (Value.builtin_map none) k = pure tt
  map_delete (Value.builtin_map (some a)) k =
      λ s. gives tt (record s { builtin = put s.builtin a (remove_entry m (s.builtin a) k) })
  map_delete (Value.hash_map p) k = do
    j ← pure_of (as_hashable k)
    elim p [
      | none ↦ pure tt
      | some a ↦
          with_table m depth a (λ key h. Hashmap.delete ⦃key = key⦄ (some h) j) >>= set_table a
    ]
  map_delete _ k = throw (message illegal_map)

abbrev new_iter : Iter → S Value
new_iter i s =
    gives (Value.iter s.next_iter)
      (record s { next_iter = suc s.next_iter; iters = put s.iters s.next_iter i })

unfoldable pub range_iter : Value → S Value
range_iter (Value.builtin_map p) = new_iter (Iter.entries (Value.builtin_map p) 0)
range_iter (Value.hash_map p) = new_iter (Iter.entries (Value.hash_map p) 0)
range_iter (Value.string t) = new_iter (Iter.text t 0)
range_iter _ = throw (message cannot_range)

abbrev int : ℕ → Value
int a = Value.integer IntKind.int a

-- whether there is a next one, its offset and the rune; an iterator over the rest of a string
unfoldable pub next_text : List ℕ → ℕ → Value × Iter
unfolding decode drop
next_text [] i = (triple (Value.boolean false) Value.nil_value Value.nil_value, Iter.text [] i)
next_text (b ∷ t) i =
    let (r, n) = decode b t in
    (
      triple (Value.boolean true) (int i) (Value.integer IntKind.int32 r),
      Iter.text (drop (b ∷ t) n) (i + n),
    )

-- one step of the iterator a; `order` is the entry that a map gives after some
unfoldable pub advance : (Value → ℕ → S (Option (Value × Value))) → ℕ → Iter → S Value
unfolding next_text
advance order a (Iter.text t i) =
    let (v, j) = next_text t i in λ s. gives v (record s { iters = put s.iters a j })
advance order a (Iter.entries x n) = do
  e ← order x n
  elim e [
    | none ↦ pure (triple (Value.boolean false) Value.nil_value Value.nil_value)
    | some (k, v) ↦ λ s.
        gives (triple (Value.boolean true) k v)
          (record s { iters = put s.iters a (Iter.entries x (suc n)) })
  ]

-- v.(iter).next()
unfoldable pub next : (Value → ℕ → S (Option (Value × Value))) → Value → S Value
unfolding advance
next order (Value.iter a) s = advance order a (s.iters a) s
next order _ s = throw (runtime type_assertion) s
