-- ===== src/Reflect/RoundTrip.antt =====
-- reflect.ValueOf, reflect.New and reflect.Zero of interpreter/internal/interp/reflect.go with the methods
-- that take apart what they make.
use temporal_determinizer.Prelude.{◌≡◌, refl, Option, [], ◌∷◌}
use temporal_determinizer.Types.{GoType}
use temporal_determinizer.Value.{Value}
use temporal_determinizer.Memory.Layout.{Agree}
use temporal_determinizer.Store.{Store, gives, ◌>>=◌, on_heap}
use temporal_determinizer.Program.{Program}
use temporal_determinizer.Reflect.{make_reflect_type, type_of}
use temporal_determinizer.Reflect.Values.{value_of, value_type}
use temporal_determinizer.Reflect.Access.{value_interface}
use temporal_determinizer.Reflect.Box.{
  Holds, boxed, make_reflect_value_lem, boxed-Holds, boxed-Agree, rv2t-Holds, rv2v-Holds,
}

-- Interface gives the parts of a reflect.Value back, and Type the first of them.
pub value_interface-Holds :
    (t : Option GoType) (v rv : Value) (s : Store)
    → Holds t v s.heap.cell rv
    → value_interface (rv ∷ []) s ≡ gives (Value.iface t v) s
unfolding value_interface
value_interface-Holds t v rv s h =
    rw (rv2t-Holds t v rv s h, ◌>>=◌) (rw (rv2v-Holds t v rv s h, ◌>>=◌) refl)

pub value_type-Holds :
    (prog : Program) (t : Option GoType) (v rv : Value) (s : Store)
    → Holds t v s.heap.cell rv
    → value_type prog (rv ∷ []) s ≡ gives (make_reflect_type prog t) s
unfolding value_type
value_type-Holds prog t v rv s h = rw (rv2t-Holds t v rv s h, ◌>>=◌) refl

-- For every interface value x, also the nil one, ValueOf(x) is a fresh value from which Interface gives x
-- back and Type what TypeOf(x) gives, and the old cells are kept.
pub value_of-interface :
    (prog : Program) (t : Option GoType) (v : Value) (s : Store)
    → (rv : Value) × (s' : Store) × (value_of (Value.iface t v ∷ []) s ≡ gives rv s')
      × (value_interface (rv ∷ []) s' ≡ gives (Value.iface t v) s')
      × (value_type prog (rv ∷ []) s' ≡ type_of prog (Value.iface t v ∷ []) s')
      × Agree s.heap.cell s'.heap.cell 0 s.heap.next
unfolding value_of type_of
value_of-interface prog t v s = (
  Value.structure s.heap.next 2,
  record s { heap = boxed t v s.heap },
  rw (make_reflect_value_lem t v s.heap, on_heap) refl,
  value_interface-Holds t v _ _ (boxed-Holds t v s.heap),
  value_type-Holds prog t v _ _ (boxed-Holds t v s.heap),
  boxed-Agree t v s.heap,
)
