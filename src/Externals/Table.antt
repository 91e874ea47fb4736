-- ===== src/Externals/Table.antt =====
-- The table of external functions of interpreter/internal/interp: external.go, and the forwards and the
-- inits of temporal.go. A function is found by its full name.
use Prim.Native.String.{String, ◌++◌ as text_append}
use text.Mathlib.Text.{◌==◌ as str_eq}
use temporal_determinizer.Prelude.{ℕ, List, [], ◌∷◌, ◌++◌, map, Option, none, some, if◌then◌else◌}
use temporal_determinizer.Value.{Value, Values, nil_value, nil, cons}
use temporal_determinizer.Store.{S, pure, ◌>>=◌}
use temporal_determinizer.Program.{Host, Program}
use temporal_determinizer.Externals.{
  Library, bytes_equal, bytes_index_byte, sprint, math_abs, math_exp, float32_bits,
  float32_from_bits, float64_bits, float64_from_bits, math_inf, math_is_nan, math_ldexp, math_log,
  math_min, math_nan, os_exit, os_getenv, runtime_breakpoint, runtime_gc, runtime_gomaxprocs,
  runtime_goroot, runtime_goexit, runtime_gosched, runtime_num_cpu, strings_count, strings_index,
  strings_index_byte, strings_replace, time_sleep, decode_rune_in_string,
}
use temporal_determinizer.Reflect.{
  Descriptions, rtype_bits, rtype_elem, rtype_field, rtype_in, rtype_kind, rtype_num_field,
  rtype_num_in, rtype_num_method, rtype_num_out, rtype_out, rtype_size, rtype_string, slice_of,
  type_of,
}
use temporal_determinizer.Reflect.Values.{
  value_int, value_kind, value_len, value_map_index, value_map_keys, value_num_field,
  value_num_method, value_pointer, value_string, value_type, value_uint, new_of, value_of, zero_of,
}
use temporal_determinizer.Reflect.Access.{
  value_bool, value_can_addr, value_can_interface, value_elem, value_field, value_float,
  value_index, value_interface, value_is_nil, value_is_valid, value_set, error_error,
}

abbrev pub External : Type 0
External = List Value → S Value

abbrev pub Table : Type 0
Table = List (String × External)

-- externals[name]
unfoldable pub find_external : String → Table → Option External
find_external k [] = none
find_external k ((j, f) ∷ t) = if str_eq j k then some f else find_external k t

module _ (host : Host) (prog : Program) (d : Descriptions) (l : Library)
    (addresses : Value → ℕ) where
  -- the methods of reflect.Value
  unfoldable pub value_table : Table
  value_table =
      ("(reflect.Value).Bool", value_bool)
      ∷ ("(reflect.Value).CanAddr", value_can_addr)
      ∷ ("(reflect.Value).CanInterface", value_can_interface)
      ∷ ("(reflect.Value).Elem", value_elem)
      ∷ ("(reflect.Value).Field", value_field)
      ∷ ("(reflect.Value).Float", value_float host.machine.floats)
      ∷ ("(reflect.Value).Index", value_index)
      ∷ ("(reflect.Value).Int", value_int)
      ∷ ("(reflect.Value).Interface", value_interface)
      ∷ ("(reflect.Value).IsNil", value_is_nil)
      ∷ ("(reflect.Value).IsValid", value_is_valid)
      ∷ ("(reflect.Value).Kind", value_kind)
      ∷ ("(reflect.Value).Len", value_len)
      ∷ ("(reflect.Value).MapIndex", value_map_index host)
      ∷ ("(reflect.Value).MapKeys", value_map_keys host)
      ∷ ("(reflect.Value).NumField", value_num_field)
      ∷ ("(reflect.Value).NumMethod", value_num_method host)
      ∷ ("(reflect.Value).Pointer", value_pointer addresses)
      ∷ ("(reflect.Value).Set", value_set)
      ∷ ("(reflect.Value).String", value_string host.format host.depth)
      ∷ ("(reflect.Value).Type", value_type prog)
      ∷ ("(reflect.Value).Uint", value_uint)
      ∷ []

  -- the methods of the two types of the emulated package reflect
  unfoldable pub rtype_table : Table
  rtype_table =
      ("(reflect.error).Error", error_error)
      ∷ ("(reflect.rtype).Bits", rtype_bits d)
      ∷ ("(reflect.rtype).Elem", rtype_elem prog)
      ∷ ("(reflect.rtype).Field", rtype_field prog d)
      ∷ ("(reflect.rtype).In", rtype_in prog)
      ∷ ("(reflect.rtype).Kind", rtype_kind)
      ∷ ("(reflect.rtype).NumField", rtype_num_field)
      ∷ ("(reflect.rtype).NumIn", rtype_num_in)
      ∷ ("(reflect.rtype).NumMethod", rtype_num_method host)
      ∷ ("(reflect.rtype).NumOut", rtype_num_out)
      ∷ ("(reflect.rtype).Out", rtype_out prog)
      ∷ ("(reflect.rtype).Size", rtype_size d)
      ∷ ("(reflect.rtype).String", rtype_string d)
      ∷ []

  -- the functions
  unfoldable pub function_table : Table
  function_table =
      ("bytes.Equal", bytes_equal host.machine)
      ∷ ("bytes.IndexByte", bytes_index_byte)
      ∷ ("fmt.Sprint", sprint host.format host.depth)
      ∷ ("math.Abs", math_abs l)
      ∷ ("math.Exp", math_exp l)
      ∷ ("math.Float32bits", float32_bits)
      ∷ ("math.Float32frombits", float32_from_bits)
      ∷ ("math.Float64bits", float64_bits)
      ∷ ("math.Float64frombits", float64_from_bits)
      ∷ ("math.Inf", math_inf l)
      ∷ ("math.IsNaN", math_is_nan l)
      ∷ ("math.Ldexp", math_ldexp l)
      ∷ ("math.Log", math_log l)
      ∷ ("math.Min", math_min l)
      ∷ ("math.NaN", math_nan l)
      ∷ ("os.Exit", os_exit)
      ∷ ("os.Getenv", os_getenv l)
      ∷ ("reflect.New", new_of)
      ∷ ("reflect.SliceOf", slice_of prog)
      ∷ ("reflect.TypeOf", type_of prog)
      ∷ ("reflect.ValueOf", value_of)
      ∷ ("reflect.Zero", zero_of)
      ∷ ("runtime.Breakpoint", runtime_breakpoint l)
      ∷ ("runtime.GC", runtime_gc l)
      ∷ ("runtime.GOMAXPROCS", runtime_gomaxprocs l)
      ∷ ("runtime.GOROOT", runtime_goroot l)
      ∷ ("runtime.Goexit", runtime_goexit l)
      ∷ ("runtime.Gosched", runtime_gosched l)
      ∷ ("runtime.NumCPU", runtime_num_cpu l)
      ∷ ("strings.Count", strings_count l)
      ∷ ("strings.Index", strings_index l)
      ∷ ("strings.IndexByte", strings_index_byte l)
      ∷ ("strings.Replace", strings_replace l)
      ∷ ("time.Sleep", time_sleep l)
      ∷ ("unicode/utf8.DecodeRuneInString", decode_rune_in_string)
      ∷ []

  unfoldable pub externals : Table
  unfolding value_table rtype_table function_table
  externals = value_table ++ (rtype_table ++ function_table)

unfoldable pub ext_noop : External
ext_noop args = pure nil_value

abbrev of_list : List Value → Values
of_list [] = nil
of_list (v ∷ vs) = cons v (of_list vs)

abbrev results : (Value → Value) → List Value → Value
results bound [] = nil_value
results bound (v ∷ []) = v
results bound (v ∷ w ∷ vs) = Value.tuple (of_list (map bound (v ∷ w ∷ vs)))

-- A call of a Go function by reflection. Of several results it keeps the method values Interface,
-- which `bound` stands for.
unfoldable pub ext_forward : (Value → Value) → (List Value → S (List Value)) → External
ext_forward bound to args = do vs ← to args; pure (results bound vs)

-- the functions that are forwarded, by their names
unfoldable pub add_ext_forwards :
    (Value → Value) → List (String × (List Value → S (List Value))) → Table → Table
unfolding ext_forward
add_ext_forwards bound [] t = t
add_ext_forwards bound ((k, to) ∷ fs) t = add_ext_forwards bound fs ((k, ext_forward bound to) ∷ t)

-- the inits of the packages of the standard library do nothing
unfoldable pub ignore_inits : List String → Table → Table
unfolding ext_noop
ignore_inits [] t = t
ignore_inits (p ∷ ps) t = ignore_inits ps ((text_append p ".init", ext_noop) ∷ t)

-- a host whose external functions are those of the table
unfoldable pub with_externals : Table → Host → Host
unfolding find_external
with_externals t host = record host { external = λ k. find_external k t }
