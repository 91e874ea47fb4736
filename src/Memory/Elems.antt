-- ===== src/Memory/Elems.antt =====
-- The elements of an array in a row of cells, and memory with room for them.
use temporal_determinizer.Prelude.{ℕ, ◌+◌, ◌≤◌, arith}
use temporal_determinizer.Types.{GoType}
use temporal_determinizer.Value.{Value}
use temporal_determinizer.Heap.{Heap, update, below}
use temporal_determinizer.Memory.Layout.{Trees, Cells, view, view_elems, Laid, LaidElems, Agree}

abbrev pub ElemsLaid : GoType → ℕ → Cells → ℕ → ℕ → ℕ → Type 0
ElemsLaid t n c p lo hi = LaidElems (Laid t c) c n p lo hi

abbrev pub elems_view : GoType → ℕ → Cells → ℕ → Trees
elems_view t n c p = view_elems (view t c) c n p

abbrev pub wrote : Heap → ℕ → Value → Heap
wrote h a v = record h { cell = update h.cell a v }

abbrev pub with_room : Heap → ℕ → Heap
with_room h n = record { next = h.next + n; cell = below h.next h.cell }

pub room_agrees : (h : Heap) (lo hi : ℕ) → hi ≤ h.next → Agree h.cell (below h.next h.cell) lo hi
room_agrees h lo hi k p a b = ground arith
