-- ===== src/Tests/Reflection.antt =====
-- Values and types of the emulated package reflect.
use Prim.Native.String.{String}
use text.Mathlib.Text.{◌==◌ as str_eq}
use temporal_determinizer.Externals.Table.{with_externals, find_external}
use temporal_determinizer.Prelude.{
  if◌then◌else◌, arith, true, ℕ, zero, suc, ◌≡◌, refl, none, some, [], ◌∷◌,
}
use temporal_determinizer.Word.{IntKind}
use temporal_determinizer.Types.{GoType, BasicKind, underlying}
use temporal_determinizer.Value.{Value}
use temporal_determinizer.Memory.Layout.{Agree, view}
use temporal_determinizer.Memory.Trees.{IsStorable, zero_tree}
use temporal_determinizer.Store.{Store, gives, pure_of, key_eq}
use temporal_determinizer.World.{lift}
use temporal_determinizer.Prepare.{resolve}
use temporal_determinizer.Program.{Host}
use temporal_determinizer.Calls.{call}
use temporal_determinizer.Maps.{look_up}
use temporal_determinizer.Symbols.{ptr_to, of_kind, integer, find_reflect_type}
use temporal_determinizer.Symbols.Kinds.{kind_of, unless_loaded, find_reflect_type-kind}
use temporal_determinizer.Reflect.{type_of, rtype_kind}
use temporal_determinizer.Reflect.Kinds.{ReflectKind, reflect_kind, kind_number}
use temporal_determinizer.Reflect.Values.{
  value_of, zero_of, new_of, value_kind, value_type, value_map_index,
}
use temporal_determinizer.Reflect.Access.{value_interface, value_is_nil, value_elem}
use temporal_determinizer.Reflect.Box.{Holds}
use temporal_determinizer.Reflect.RoundTrip.{value_of-interface}
use temporal_determinizer.Reflect.Nil.{is_nilable, nil_answer, zero_of-is_nil}
use temporal_determinizer.Reflect.New.{new_of-elem}
use temporal_determinizer.Reflect.Index.{value_map_index-interface}
use temporal_determinizer.Reflect.Init.{init_reflect}
use temporal_determinizer.Reflect.Dispatch.{init_reflect-call}
use temporal_determinizer.Tests.Hosts.{int, host, program, empty_world}

abbrev start : Store
start = empty_world.store

abbrev seven : Value
seven = Value.integer IntKind.int 7

value_of-interface_example :
    (rv : Value) × (s' : Store) × (value_of (Value.iface (some int) seven ∷ []) start ≡ gives rv s')
    × (value_interface (rv ∷ []) s' ≡ gives (Value.iface (some int) seven) s')
    × (value_type program (rv ∷ []) s' ≡ type_of program (Value.iface (some int) seven ∷ []) s')
    × Agree start.heap.cell s'.heap.cell 0 start.heap.next
value_of-interface_example = value_of-interface program (some int) seven start

abbrev pointer : GoType
pointer = GoType.pointer int

zero_of-is_nil_example :
    (rv : Value) × (s' : Store) × (zero_of
        (Value.iface none (Value.rtype (some pointer)) ∷ [])
        start
      ≡ gives rv s')
    × (value_kind (rv ∷ []) s'
        ≡ gives (Value.integer IntKind.uint (kind_number ReflectKind.ptr)) s')
    × (value_is_nil (rv ∷ []) s' ≡ pure_of (nil_answer (is_nilable ReflectKind.ptr)) s')
unfolding IsStorable reflect_kind
zero_of-is_nil_example = zero_of-is_nil pointer tt ReflectKind.ptr refl none start

new_of-elem_example :
    (p : Value) × (s' : Store) × (rv : Value) × (s'' : Store) × (v : Value) × (new_of
        (Value.iface none (Value.rtype (some pointer)) ∷ [])
        start
      ≡ gives p s')
    × (value_elem (p ∷ []) s' ≡ gives rv s'')
    × Holds (some pointer) v s''.heap.cell rv
    × (view pointer s''.heap.cell v ≡ zero_tree pointer)
    × Agree start.heap.cell s''.heap.cell 0 start.heap.next
unfolding IsStorable
new_of-elem_example = new_of-elem pointer tt none start

-- a map from ints to strings with the entry 7: "", in a reflect.Value at 0, and a 7 in one at 2
abbrev table : GoType
table = GoType.map int (GoType.basic BasicKind.string)

abbrev cells : ℕ → Value
cells zero = Value.rtype (some table)
cells (suc zero) = Value.builtin_map (some 0)
cells (suc (suc zero)) = Value.rtype (some int)
cells (suc (suc (suc n))) = seven

abbrev filled : Store
filled = record start {
  heap = record { next = 4; cell = cells };
  builtin = λ a. (seven, Value.string []) ∷ [];
}

value_map_index-interface_example :
    (r : Value) × (s'' : Store) × (value_map_index host
        (Value.structure 0 2 ∷ Value.structure 2 2 ∷ [])
        filled
      ≡ gives r s'')
    × (value_interface (r ∷ []) s'' ≡ gives (Value.iface (some int) (Value.string [])) s'')
unfolding underlying look_up key_eq
value_map_index-interface_example =
    value_map_index-interface host table int (GoType.basic BasicKind.string) refl
      (Value.builtin_map (some 0)) seven (some int) (Value.structure 0 2) (Value.structure 2 2)
      filled (0, refl, refl, refl) (2, refl, refl, refl) (some (Value.string [])) filled refl

find_reflect_type-kind_example :
    kind_of (ptr_to (of_kind (integer IntKind.int))) ≡ unless_loaded ReflectKind.ptr
unfolding find_reflect_type reflect_kind
find_reflect_type-kind_example =
    find_reflect_type-kind (λ r. true) (λ n. none) pointer (ptr_to (of_kind (integer IntKind.int)))
      ReflectKind.ptr refl refl

-- Kind is the only external
abbrev kinds_host : Host
kinds_host = with_externals (("(reflect.rtype).Kind", rtype_kind) ∷ []) host

-- 1 stands for the name Kind
abbrev id : String → ℕ
id k = if str_eq k "Kind" then 1 else 0

init_reflect-call_example :
    (resolve
        (init_reflect id 9 none program)
        (some 1)
        (Value.iface (some int) (Value.rtype (some pointer)))
        start
      ≡ gives (Value.function (some 14), Value.rtype (some pointer) ∷ []) start)
    × (call kinds_host
          (init_reflect id 9 none program)
          3
          (Value.function (some 14))
          (Value.rtype (some pointer) ∷ [])
          empty_world
        ≡ lift (rtype_kind (Value.rtype (some pointer) ∷ [])) empty_world)
unfolding with_externals find_external
init_reflect-call_example =
    init_reflect-call kinds_host program id 9 ("Bits" ∷ "Elem" ∷ "Field" ∷ "In" ∷ []) "Kind"
      ("NumField" ∷ "NumIn" ∷ "NumMethod" ∷ "NumOut" ∷ "Out" ∷ "Size" ∷ "String" ∷ []) refl
      (
        λ h. omega arith,
        (
          λ h. omega arith,
          (
            λ h. omega arith,
            (λ h. omega arith, (λ h. omega arith, (λ h. omega arith, (λ h. omega arith, tt)))),
          ),
        ),
      )
      none rtype_kind refl (some pointer) start 2 (Value.rtype (some pointer) ∷ []) empty_world
