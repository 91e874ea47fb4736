-- ===== src/Reflect/Nil.antt =====
-- Zero, New, Elem, Kind and IsNil of reflect.Value in interpreter/internal/interp/reflect.go: what a zero
-- value answers.
use temporal_determinizer.Prelude.{
  ℕ, Bool, true, false, ◌≡◌, refl, ap, ◌∙◌, arith, Option, some, [], ◌∷◌,
}
use temporal_determinizer.Word.{IntKind}
use temporal_determinizer.Types.{BasicKind, GoType}
use temporal_determinizer.Value.{Value, Result, ok, fail, not_nilable}
use temporal_determinizer.Heap.{Heap}
use temporal_determinizer.Memory
use temporal_determinizer.Memory.{zero_basic}
use temporal_determinizer.Memory.Layout.{leaf, Cells, Laid, view}
use temporal_determinizer.Memory.Trees.{IsStorable, zero_tree, map_leaf}
use temporal_determinizer.Memory.Zero.{zero-IsZero}
use temporal_determinizer.Store.{Store, gives, ◌>>=◌, on_heap, pure_of}
use temporal_determinizer.Reflect.Kinds.{ReflectKind, basic_kind, reflect_kind, kind_number}
use temporal_determinizer.Reflect.Values.{zero_of, value_kind}
use temporal_determinizer.Reflect.Access.{nil_test, value_is_nil}
use temporal_determinizer.Reflect.Box.{
  boxed, make_reflect_value_lem, boxed-Holds, rv2t-Holds, rv2v-Holds,
}

-- the kinds that IsNil of package reflect is for, but for that of unsafe pointers
abbrev pub is_nilable : ReflectKind → Bool
is_nilable ReflectKind.chan = true
is_nilable ReflectKind.func = true
is_nilable ReflectKind.interface = true
is_nilable ReflectKind.map = true
is_nilable ReflectKind.ptr = true
is_nilable ReflectKind.slice = true
is_nilable _ = false

abbrev pub nil_answer : Bool → Result Value
nil_answer true = ok (Value.boolean true)
nil_answer false = fail not_nilable

leaf-injective : {v w : Value} → leaf v ≡ leaf w → v ≡ w
leaf-injective e = cc

nil_test-basic :
    (b : BasicKind) (k : ReflectKind)
    → basic_kind b ≡ ok k
    → (v : Value) → leaf v ≡ zero_tree (GoType.basic b)
    → nil_test v ≡ nil_answer (is_nilable k)
unfolding zero_tree zero_basic basic_kind nil_test
nil_test-basic BasicKind.boolean k e v w = ground arith
nil_test-basic (BasicKind.integer i) k e v w = ground arith
nil_test-basic (BasicKind.float f) k e v w = ground arith
nil_test-basic (BasicKind.complex f) k e v w = ground arith
nil_test-basic BasicKind.string k e v w = ground arith
nil_test-basic BasicKind.unsafe_pointer k e v w = ground arith
nil_test-basic _ k e v w = cc

nil_test-zero :
    (t : GoType)
    → IsStorable t
    → (k : ReflectKind) → reflect_kind t ≡ ok k
    → (c : Cells) (v : Value) (lo hi : ℕ) → Laid t c v lo hi
    → view t c v ≡ zero_tree t
    → nil_test v ≡ nil_answer (is_nilable k)
unfolding IsStorable zero_tree Laid view reflect_kind nil_test
nil_test-zero (GoType.named n u) st k e c v lo hi l w = nil_test-zero u st k e c v lo hi l w
nil_test-zero (GoType.struct fs) st k e c v lo hi (l, r) w = rw l (ground arith)
nil_test-zero (GoType.array n u) st k e c v lo hi (l, r) w = rw l (ground arith)
nil_test-zero (GoType.basic b) st k e c v lo hi l w = nil_test-basic b k e v w
nil_test-zero (GoType.map a b) (true, u, x) k e c v lo hi l w =
    rw (leaf-injective (w ∙ ap map_leaf u)) (ground arith)
nil_test-zero (GoType.map a b) (false, u, x) k e c v lo hi l w =
    rw (leaf-injective (w ∙ ap map_leaf u)) (ground arith)
nil_test-zero (GoType.tuple ts) st k e c v lo hi l w = absurd st
nil_test-zero (GoType.pointer u) st k e c v lo hi l w = ground arith
nil_test-zero (GoType.slice u) st k e c v lo hi l w = ground arith
nil_test-zero (GoType.chan d u) st k e c v lo hi l w = ground arith
nil_test-zero (GoType.interface ms) st k e c v lo hi l w = ground arith
nil_test-zero (GoType.signature ps rs b) st k e c v lo hi l w = ground arith

-- nothing but the reflect.Value is new
abbrev with_heap : Store → Heap → Store
with_heap s h = record s { heap = h }

-- For a type of a variable that has a kind, reflect.Zero gives a value of that kind. Its IsNil is true if
-- the kind is one of channels, functions, interfaces, maps, pointers and slices, and else a panic.
pub zero_of-is_nil :
    (t : GoType)
    → IsStorable t
    → (k : ReflectKind) → reflect_kind t ≡ ok k
    → (i : Option GoType) (s : Store)
    → (rv : Value) × (s' : Store) × (zero_of (Value.iface i (Value.rtype (some t)) ∷ []) s
        ≡ gives rv s')
      × (value_kind (rv ∷ []) s' ≡ gives (Value.integer IntKind.uint (kind_number k)) s')
      × (value_is_nil (rv ∷ []) s' ≡ pure_of (nil_answer (is_nilable k)) s')
unfolding zero_of value_kind value_is_nil
zero_of-is_nil t st k e i s =
    let (v, h, z, zero) = zero-IsZero t st s.heap in
    let s' = with_heap s (boxed (some t) v h) in
    let zeroed : (on_heap (Memory.zero t) s ≡ gives v (with_heap s h)) = rw (z, on_heap) refl in
    let held = boxed-Holds (some t) v h in
    (
      Value.structure h.next 2,
      s',
      rw (zeroed, ◌>>=◌) (rw (make_reflect_value_lem (some t) v h, on_heap) refl),
      rw (rv2t-Holds (some t) v _ s' held, ◌>>=◌) (rw e refl),
      rw (rv2v-Holds (some t) v _ s' held, ◌>>=◌)
          (rw (nil_test-zero t st k e h.cell v s.heap.next h.next zero.laid zero.same) refl),
    )
