-- ===== src/Reflect/Access.antt =====
-- The methods of reflect.Value in interpreter/internal/interp/reflect.go that reach its elements, and those
-- that test it or give it back.
use temporal_determinizer.Prelude.{ℕ, Bool, true, false, List, Option, none, some}
use temporal_determinizer.Types.{FloatKind, GoType, underlying}
use temporal_determinizer.Value.{
  Value, nil_value, Result, ok, fail, fault, type_assertion, not_indexed, no_element, not_a_float,
  not_nilable,
}
use temporal_determinizer.Float.{Floats}
use temporal_determinizer.Heap.{address, read}
use temporal_determinizer.Memory.{as_structure}
use temporal_determinizer.Equality.{assert_bool}
use temporal_determinizer.Elements.{read_element, header_cells}
use temporal_determinizer.Store.{S, pure, ◌>>=◌, pure_of, on_heap}
use temporal_determinizer.Builtins.{arg}
use temporal_determinizer.Reflect.{make_reflect_value, int_arg, as_struct_type, field_at}
use temporal_determinizer.Reflect.Values.{type_part, value_part, under_part}

-- t.(*types.Array).Elem(), t.(*types.Slice).Elem() and t.(*types.Pointer).Elem()
abbrev pub array_elem : GoType → Result GoType
array_elem (GoType.array n e) = ok e
array_elem _ = fault type_assertion

abbrev pub slice_elem : GoType → Result GoType
slice_elem (GoType.slice e) = ok e
slice_elem _ = fault type_assertion

abbrev pub pointer_elem : GoType → Result GoType
pointer_elem (GoType.pointer e) = ok e
pointer_elem _ = fault type_assertion

-- an element with its type
abbrev element_value : Result GoType → ℕ × ℕ → ℕ → S Value
element_value e cells i = pure_of e >>= λ t.
    on_heap (read_element cells i) >>= λ v. on_heap (make_reflect_value (some t) v)

unfoldable pub index_of : GoType → Value → ℕ → S Value
index_of t (Value.array b n) i = element_value (array_elem t) (b, n) i
index_of t (Value.slice h) i = element_value (slice_elem t) (header_cells h) i
index_of t _ i = pure_of (fail not_indexed)

unfoldable pub value_index : List Value → S Value
unfolding underlying index_of
value_index args = do i ← int_arg args 1; t ← under_part args; v ← value_part args 0; index_of t v i

unfoldable pub value_bool : List Value → S Value
value_bool args = do v ← value_part args 0; b ← pure_of (assert_bool v); pure (Value.boolean b)

unfoldable pub value_can_addr : List Value → S Value
value_can_addr args = pure (Value.boolean false)

unfoldable pub value_can_interface : List Value → S Value
value_can_interface args = pure (Value.boolean true)

-- what an interface holds, or what a pointer points to
unfoldable pub value_elem : List Value → S Value
unfolding underlying
value_elem args = do
  x ← value_part args 0
  elim x [
    | Value.iface t v ↦ on_heap (make_reflect_value t v)
    | Value.pointer p ↦ under_part args >>= λ u. pure_of (pointer_elem u) >>= λ e.
        on_heap (address p) >>= λ a.
        on_heap (read a) >>= λ v. on_heap (make_reflect_value (some e) v)
    | _ ↦ pure_of (fail no_element)
  ]

unfoldable pub value_field : List Value → S Value
unfolding underlying field_at
value_field args = do
  i ← int_arg args 1
  u ← under_part args
  fs ← pure_of (as_struct_type u)
  (n, b, t) ← pure_of (field_at fs i)
  v ← value_part args 0
  x ← pure_of (as_structure v)
  w ← on_heap (read_element x i)
  on_heap (make_reflect_value (some t) w)

unfoldable pub float_of : Floats → Value → Result Value
float_of fl (Value.float FloatKind.float32 a) =
    ok (Value.float FloatKind.float64 (fl.convert FloatKind.float32 FloatKind.float64 a))
float_of fl (Value.float FloatKind.float64 a) = ok (Value.float FloatKind.float64 a)
float_of fl _ = fail not_a_float

unfoldable pub value_float : Floats → List Value → S Value
unfolding float_of
value_float fl args = do v ← value_part args 0; pure_of (float_of fl v)

unfoldable pub value_interface : List Value → S Value
value_interface args = do t ← type_part args; v ← value_part args 0; pure (Value.iface t v)

abbrev is_none {ℓ} : {A : Type ℓ} → Option A → Bool
is_none none = true
is_none (some x) = false

unfoldable pub nil_test : Value → Result Value
nil_test (Value.pointer p) = ok (Value.boolean (is_none p))
nil_test (Value.chan c) = ok (Value.boolean (is_none c))
nil_test (Value.builtin_map m) = ok (Value.boolean (is_none m))
nil_test (Value.hash_map m) = ok (Value.boolean (is_none m))
nil_test (Value.iface t v) = ok (Value.boolean (is_none t))
nil_test (Value.slice h) = ok (Value.boolean (is_none h))
nil_test (Value.function f) = ok (Value.boolean (is_none f))
nil_test (Value.builtin b) = ok (Value.boolean false)
nil_test (Value.closure f vs) = ok (Value.boolean false)
nil_test _ = fail not_nilable

unfoldable pub value_is_nil : List Value → S Value
unfolding nil_test
value_is_nil args = do v ← value_part args 0; pure_of (nil_test v)

unfoldable pub value_is_valid : List Value → S Value
value_is_valid args = do
  v ← value_part args 0
  pure (Value.boolean (elim v [ nil_value ↦ false | _ ↦ true ]))

-- nothing is set
unfoldable pub value_set : List Value → S Value
value_set args = pure nil_value

-- the method Error of the errors that the interpreter makes
unfoldable pub error_error : List Value → S Value
error_error args = pure_of (arg args 0)
