-- ===== src/Store.antt =====
-- The store of the interpreter: the heap, the maps and the iterators, and computations over it.
-- A built-in map is an association list without two equal keys, a hashmap stands with its key type.
-- The types of keys that usesBuiltinMap admits are basic, channel and pointer types.
use temporal_determinizer.Prelude.{
  ℕ, Bool, false, List, [], ◌∷◌, Option, none, some, ◌==◌, ◌&&◌, if◌then◌else◌,
}
use temporal_determinizer.Types.{GoType}
use temporal_determinizer.Types.Identity.{int_index, float_index, complex_index, bool_eq, ids_eq}
use temporal_determinizer.Value.{Value, Panic, Result, ok, panics}
use temporal_determinizer.Heap
use temporal_determinizer.Heap.{Heap, M}
use temporal_determinizer.Equality.{Machine, part, option_eq, equals}
use temporal_determinizer.Hash.{hash}
use temporal_determinizer.Hashmap.{Hashmap, Hashable}

-- a string iterator with the bytes left and their offset, or one over a map that has given some
-- entries
pub data Iter : Type 0 where
  text : List ℕ → ℕ → Iter
  entries : Value → ℕ → Iter

-- the values that wait in a channel, the oldest first
pub record Channel : Type 0 where
  pub capacity : ℕ
  pub queue : List Value
  pub closed : Bool

abbrev pub Entries : Type 0
Entries = List (Value × Value)

pub record Store : Type 0 where
  pub heap : Heap
  pub next_map : ℕ
  pub builtin : ℕ → Entries
  pub hashed : ℕ → GoType × Hashmap Value Value
  pub next_iter : ℕ
  pub iters : ℕ → Iter
  pub next_chan : ℕ
  pub chans : ℕ → Channel

pub data Ended (A : Type 0) : Type 0 where
  gives : A → Store → Ended A
  throws : Panic → Store → Ended A

abbrev pub S : Type 0 → Type 0
S A = Store → Ended A

abbrev pub pure : {A : Type 0} → A → S A
pure a s = gives a s

abbrev pub throw : {A : Type 0} → Panic → S A
throw p s = throws p s

infixl 5 ◌>>=◌ ◌>>◌
abbrev pub ◌>>=◌ : {A B : Type 0} → S A → (A → S B) → S B
◌>>=◌ m f s = elim (m s) [ gives a t ↦ f a t | throws p t ↦ throws p t ]

abbrev pub ◌>>◌ : {B : Type 0} → S (Unit {0}) → S B → S B
m >> k = m >>= λ _. k

abbrev pub pure_of : {A : Type 0} → Result A → S A
pure_of (ok a) s = gives a s
pure_of (panics p) s = throws p s

-- a computation over the heap
abbrev pub on_heap : {A : Type 0} → M A → S A
on_heap m s = elim (m s.heap) [
  | Heap.Outcome.returns a h ↦ gives a (record s { heap = h })
  | Heap.Outcome.raises p h ↦ throws p (record s { heap = h })
]

abbrev pub put {ℓ} : {A : Type ℓ} → (ℕ → A) → ℕ → A → ℕ → A
put f a v b = if a == b then v else f b

module _ (m : Machine) where
  -- == of two keys of a built-in map, which is equality of dynamic types and of the contents
  unfoldable pub key_eq : Value → Value → Bool
  key_eq (Value.boolean a) (Value.boolean b) = bool_eq a b
  key_eq (Value.integer k a) (Value.integer j b) = int_index k == int_index j && a == b
  key_eq (Value.float k a) (Value.float j b) =
      float_index k == float_index j && m.floats.equal k a b
  key_eq (Value.complex k a a') (Value.complex j b b') =
      complex_index k == complex_index j
      && (m.floats.equal (part k) a b && m.floats.equal (part k) a' b')
  key_eq (Value.string a) (Value.string b) = ids_eq a b
  key_eq (Value.chan a) (Value.chan b) = option_eq a b
  key_eq (Value.pointer a) (Value.pointer b) = option_eq a b
  key_eq (Value.unsafe_pointer a) (Value.unsafe_pointer b) = option_eq a b
  key_eq _ _ = false

  -- m[k], m[k] = v and delete(m, k)
  unfoldable pub entry : Entries → Value → Option Value
  entry [] k = none
  entry ((j, v) ∷ es) k = if key_eq j k then some v else entry es k

  unfoldable pub set_entry : Entries → Value → Value → Entries
  set_entry [] k v = (k, v) ∷ []
  set_entry ((j, w) ∷ es) k v = if key_eq j k then (j, v) ∷ es else (j, w) ∷ set_entry es k v

  unfoldable pub remove_entry : Entries → Value → Entries
  remove_entry [] k = []
  remove_entry ((j, w) ∷ es) k = if key_eq j k then es else (j, w) ∷ remove_entry es k

  -- the hash and eq methods of the keys of a hashmap; `depth` bounds the nesting of interfaces
  abbrev pub key_of : ℕ → (ℕ → Value) → GoType → Hashable Value
  key_of depth c t = record { hash = λ k. hash m c depth t k; eq = λ a b. equals m c depth t a b }
