-- ===== src/Reflect/New.antt =====
-- New and Elem of reflect.Value in interpreter/internal/interp/reflect.go.
use temporal_determinizer.Prelude.{ℕ, ◌+◌, ◌≡◌, refl, ap, sym, ◌∙◌, arith, Option, some, [], ◌∷◌}
use temporal_determinizer.Types.{GoType}
use temporal_determinizer.Value.{Value}
use temporal_determinizer.Heap.{Heap, update, below, alloc, write, read, address}
use temporal_determinizer.Memory
use temporal_determinizer.Memory.Layout.{Agree, view, Agree-narrow, Laid-Frame}
use temporal_determinizer.Memory.Trees.{IsStorable, zero_tree}
use temporal_determinizer.Memory.Zero.{zero-IsZero}
use temporal_determinizer.Store.{Store, gives, ◌>>=◌, on_heap}
use temporal_determinizer.Reflect.Values.{new_of}
use temporal_determinizer.Reflect.Access.{value_elem}
use temporal_determinizer.Reflect.Box.{
  Holds, boxed, make_reflect_value_lem, boxed-Holds, rv2t-Holds, rv2v-Holds,
}

abbrev with_heap : Store → Heap → Store
with_heap s h = record s { heap = h }

-- the memory with a value in one fresh cell
abbrev cell_of : Value → Heap → Heap
cell_of v h = record { next = h.next + 1; cell = update (below h.next h.cell) h.next v }

-- A pointer in a reflect.Value of a pointer type leads to what its cell holds.
pub value_elem-pointer :
    (t : GoType) (c : ℕ) (rv : Value) (s : Store)
    → Holds (some (GoType.pointer t)) (Value.pointer (some c)) s.heap.cell rv
    → value_elem (rv ∷ []) s
      ≡ gives (Value.structure s.heap.next 2) (with_heap s (boxed (some t) (s.heap.cell c) s.heap))
unfolding value_elem read address
value_elem-pointer t c rv s h =
    let pt = some (GoType.pointer t) in
    rw (rv2v-Holds pt _ rv s h, ◌>>=◌)
      (rw (rv2t-Holds pt _ rv s h, ◌>>=◌)
        (rw (make_reflect_value_lem (some t) (s.heap.cell c) s.heap, on_heap) refl))

-- For a type t of a variable, Elem of reflect.New(t) is a value of the type t that shows the zero
-- value of the type, and all cells from before are kept.
pub new_of-elem :
    (t : GoType)
    → IsStorable t
    → (i : Option GoType) (s : Store)
    → (p : Value) × (s' : Store) × (rv : Value) × (s'' : Store) × (v : Value) × (new_of
          (Value.iface i (Value.rtype (some t)) ∷ [])
          s
        ≡ gives p s')
      × (value_elem (p ∷ []) s' ≡ gives rv s'')
      × Holds (some t) v s''.heap.cell rv
      × (view t s''.heap.cell v ≡ zero_tree t)
      × Agree s.heap.cell s''.heap.cell 0 s.heap.next
unfolding new_of alloc write
new_of-elem t st i s =
    let (v, h, z, zero) = zero-IsZero t st s.heap in
    let c = h.next in
    let h1 = cell_of v h in
    let pt = some (GoType.pointer t) in
    let h2 = boxed pt (Value.pointer (some c)) h1 in
    let s' = with_heap s h2 in
    let w = h2.cell c in
    let h3 = boxed (some t) w h2 in
    let zeroed : (on_heap (Memory.zero t) s ≡ gives v (with_heap s h)) = rw (z, on_heap) refl in
    let same : (w ≡ v) = ground arith in
    let kept : Agree h.cell h3.cell 0 h.next = (λ p a b. ground arith) in
    (
      Value.structure h1.next 2,
      s',
      Value.structure h2.next 2,
      with_heap s h3,
      w,
      rw (zeroed, ◌>>=◌) (rw (make_reflect_value_lem pt (Value.pointer (some c)) h1, on_heap) refl),
      value_elem-pointer t c _ s' (boxed-Holds pt (Value.pointer (some c)) h1),
      boxed-Holds (some t) w h2,
      ap (view t h3.cell) same
          ∙ (sym
                (Laid-Frame t h.cell h3.cell v s.heap.next c
                  (Agree-narrow s.heap.next c kept (omega arith) (omega arith)) zero.laid).1
              ∙ zero.same),
      λ q a b. zero.keeps q a b ∙ kept q a (omega (arith, zero.grows, b)),
    )
