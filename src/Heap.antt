-- ===== src/Heap.antt =====
-- Memory: cells that hold values, and computations over it. A panic keeps the memory as it was when
-- it was raised.
use temporal_determinizer.Prelude.{ℕ, ◌+◌, Option, none, some, ◌==◌, if◌then◌else◌, ltb}
use temporal_determinizer.Value.{
  Value, nil_value, Panic, runtime, nil_dereference, Result, ok, panics,
}

-- `next` is the first cell that was never allocated.
pub record Heap : Type 0 where
  pub next : ℕ
  pub cell : ℕ → Value

pub data Outcome (A : Type 0) : Type 0 where
  returns : A → Heap → Outcome A
  raises : Panic → Heap → Outcome A

abbrev pub M : Type 0 → Type 0
M A = Heap → Outcome A

abbrev pub pure : {A : Type 0} → A → M A
pure a h = returns a h

abbrev pub raise : {A : Type 0} → Panic → M A
raise p h = raises p h

infixl 5 ◌>>=◌ ◌>>◌
abbrev pub ◌>>=◌ : {A B : Type 0} → M A → (A → M B) → M B
◌>>=◌ m f h = elim (m h) [ returns a h' ↦ f a h' | raises p h' ↦ raises p h' ]

abbrev pub ◌>>◌ : {B : Type 0} → M (Unit {0}) → M B → M B
m >> k = m >>= λ _. k

abbrev pub lift : {A : Type 0} → Result A → M A
lift (ok a) h = returns a h
lift (panics p) h = raises p h

abbrev pub update : (ℕ → Value) → ℕ → Value → ℕ → Value
update f p v q = if p == q then v else f q

-- *addr and *addr = v, for an address that is not nil
unfoldable pub read : ℕ → M Value
read a h = returns (h.cell a) h

unfoldable pub write : ℕ → Value → M (Unit {0})
write a v h = returns tt (record h { cell = update h.cell a v })

-- a pointer that may be nil
unfoldable pub address : Option ℕ → M ℕ
address none h = raises (runtime nil_dereference) h
address (some a) h = returns a h

-- a cell that was never allocated holds the nil of the empty interface
abbrev pub below : ℕ → (ℕ → Value) → ℕ → Value
below n f q = if ltb q n then f q else nil_value

-- n fresh cells; their first address
unfoldable pub alloc : ℕ → M ℕ
alloc n h = returns h.next (record { next = h.next + n; cell = below h.next h.cell })
