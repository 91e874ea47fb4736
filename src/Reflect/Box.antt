-- ===== src/Reflect/Box.antt =====
-- The two cells of a reflect.Value, as makeReflectValue, rV2T and rV2V of
-- interpreter/internal/interp/reflect.go write and read them.
use temporal_determinizer.Prelude.{ℕ, suc, ◌+◌, ◌≡◌, refl, arith, Option}
use temporal_determinizer.Types.{GoType}
use temporal_determinizer.Value.{Value}
use temporal_determinizer.Heap.{Heap, returns, update, below, read, write, alloc}
use temporal_determinizer.Memory.Layout.{Cells, Agree}
use temporal_determinizer.Slices.{write_all}
use temporal_determinizer.Store.{Store, gives}
use temporal_determinizer.Reflect.{new_structure, make_reflect_value, rv2t, rv2v}

-- the value is a reflect.Value with these parts
abbrev pub Holds : Option GoType → Value → Cells → Value → Type 0
Holds t v c rv = (a : ℕ) × (rv ≡ Value.structure a 2) × (c a ≡ Value.rtype t) × (c (suc a) ≡ v)

-- the memory with a reflect.Value in two fresh cells
abbrev pub boxed : Option GoType → Value → Heap → Heap
boxed t v h = record {
  next = h.next + 2;
  cell = update (update (below h.next h.cell) h.next (Value.rtype t)) (suc h.next) v;
}

pub make_reflect_value_lem :
    (t : Option GoType) (v : Value) (h : Heap)
    → make_reflect_value t v h ≡ returns (Value.structure h.next 2) (boxed t v h)
unfolding make_reflect_value new_structure write_all alloc write
make_reflect_value_lem t v h = refl

pub boxed-Holds :
    (t : Option GoType) (v : Value) (h : Heap)
    → Holds t v (boxed t v h).cell (Value.structure h.next 2)
boxed-Holds t v h = (h.next, refl, ground arith, ground arith)

pub boxed-Agree :
    (t : Option GoType) (v : Value) (h : Heap) → Agree h.cell (boxed t v h).cell 0 h.next
boxed-Agree t v h p a b = ground arith

pub rv2t-Holds :
    (t : Option GoType) (v rv : Value) (s : Store)
    → Holds t v s.heap.cell rv
    → rv2t rv s ≡ gives t s
unfolding rv2t read
rv2t-Holds t v rv s (a, e, f, g) =
    let z : (s.heap.cell (a + 0) ≡ Value.rtype t) = ground arith in rw (e, z) refl

pub rv2v-Holds :
    (t : Option GoType) (v rv : Value) (s : Store)
    → Holds t v s.heap.cell rv
    → rv2v rv s ≡ gives v s
unfolding rv2v read
rv2v-Holds t v rv s (a, e, f, g) =
    let z : (s.heap.cell (a + 1) ≡ v) = ground arith in rw (e, z) refl
