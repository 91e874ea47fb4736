-- ===== src/Reflect/Values.antt =====
-- The methods of reflect.Value, and reflect.New, Zero and ValueOf, in
-- interpreter/internal/interp/reflect.go. The addresses that Pointer shows and the order in which a map
-- gives its entries are parameters.
use temporal_determinizer.Prelude.{ℕ, ◌%◌, ◌^◌, List, [], ◌∷◌, Option, none, some, length}
use temporal_determinizer.Word
use temporal_determinizer.Word.{IntKind}
use temporal_determinizer.Types.{GoType, underlying}
use temporal_determinizer.Value.{
  Value, Header, nil_value, Result, ok, fail, fault, type_assertion, not_unsigned, no_length,
  not_a_map, no_pointer, not_an_int,
}
use temporal_determinizer.Heap.{alloc, write}
use temporal_determinizer.Memory.{zero as zero_value, as_structure}
use temporal_determinizer.Hashmap
use temporal_determinizer.Slices.{header_len, extend}
use temporal_determinizer.Store.{S, gives, pure, ◌>>=◌, pure_of, on_heap}
use temporal_determinizer.Maps.{look_up}
use temporal_determinizer.Print.{Format, to_string}
use temporal_determinizer.Program.{Host, Program}
use temporal_determinizer.Builtins.{arg}
use temporal_determinizer.Reflect.{
  make_reflect_value, make_reflect_type, rv2t, rv2v, known, iface_arg, boxed_type_arg, int, kind_of,
}

-- reflect.ValueOf, reflect.Zero and reflect.New
unfoldable pub value_of : List Value → S Value
value_of args = do (t, v) ← iface_arg args; on_heap (make_reflect_value t v)

unfoldable pub zero_of : List Value → S Value
zero_of args = do
  b ← boxed_type_arg args
  t ← pure_of (known b)
  v ← on_heap (zero_value t)
  on_heap (make_reflect_value (some t) v)

unfoldable pub new_of : List Value → S Value
new_of args = do
  b ← boxed_type_arg args
  t ← pure_of (known b)
  v ← on_heap (zero_value t)
  c ← on_heap (alloc 1)
  u ← on_heap (write c v)
  on_heap (make_reflect_value (some (GoType.pointer t)) (Value.pointer (some c)))

-- rV2T(args[0]) and rV2V(args[i])
abbrev pub type_part : List Value → S (Option GoType)
type_part args = pure_of (arg args 0) >>= rv2t

abbrev pub value_part : List Value → ℕ → S Value
value_part args i = pure_of (arg args i) >>= rv2v

-- rV2T(args[0]).t.Underlying()
abbrev pub under_part : List Value → S GoType
under_part args = type_part args >>= λ t. pure_of (known t) >>= λ u. pure (underlying u)

unfoldable pub value_kind : List Value → S Value
value_kind args = do t ← type_part args; kind_of t

unfoldable pub value_string : Format → ℕ → List Value → S Value
unfolding to_string
value_string f depth args = do v ← value_part args 0; t ← to_string f depth v; pure (Value.string t)

unfoldable pub value_type : Program → List Value → S Value
value_type prog args = do t ← type_part args; pure (make_reflect_type prog t)

unfoldable pub uint_of : Value → Result Value
uint_of (Value.integer IntKind.uint a) = ok (Value.integer IntKind.uint64 a)
uint_of (Value.integer IntKind.uint8 a) = ok (Value.integer IntKind.uint64 a)
uint_of (Value.integer IntKind.uint16 a) = ok (Value.integer IntKind.uint64 a)
uint_of (Value.integer IntKind.uint32 a) = ok (Value.integer IntKind.uint64 a)
uint_of (Value.integer IntKind.uint64 a) = ok (Value.integer IntKind.uint64 a)
uint_of (Value.integer IntKind.uintptr a) = ok (Value.integer IntKind.uint64 a)
uint_of _ = fail not_unsigned

unfoldable pub value_uint : List Value → S Value
unfolding uint_of
value_uint args = do v ← value_part args 0; pure_of (uint_of v)

-- int64(x) of a signed integer
abbrev signed_64 : IntKind → ℕ → Result Value
signed_64 k a = ok (Value.integer IntKind.int64 (Word.convert IntKind.int64 k a))

unfoldable pub int_of : Value → Result Value
int_of (Value.integer IntKind.int a) = signed_64 IntKind.int a
int_of (Value.integer IntKind.int8 a) = signed_64 IntKind.int8 a
int_of (Value.integer IntKind.int16 a) = signed_64 IntKind.int16 a
int_of (Value.integer IntKind.int32 a) = signed_64 IntKind.int32 a
int_of (Value.integer IntKind.int64 a) = ok (Value.integer IntKind.int64 a)
int_of _ = fail not_an_int

unfoldable pub value_int : List Value → S Value
unfolding int_of
value_int args = do v ← value_part args 0; pure_of (int_of v)

-- a channel has its capacity for a length
unfoldable pub len_of : Value → S Value
len_of (Value.string t) = pure (int (length t))
len_of (Value.array b n) = pure (int n)
len_of (Value.chan none) = pure (int 0)
len_of (Value.chan (some c)) = λ s. gives (int ((s.chans c).capacity)) s
len_of (Value.slice h) = pure (int (header_len h))
len_of (Value.hash_map none) = pure (int 0)
len_of (Value.hash_map (some a)) = λ s. gives (int (Hashmap.len (some (s.hashed a).1))) s
len_of (Value.builtin_map none) = pure (int 0)
len_of (Value.builtin_map (some a)) = λ s. gives (int (length (s.builtin a))) s
len_of _ = pure_of (fail no_length)

unfoldable pub value_len : List Value → S Value
unfolding len_of
value_len args = do v ← value_part args 0; len_of v

-- Key of a map type
abbrev pub key_type : GoType → Result GoType
key_type (GoType.map k e) = ok k
key_type _ = fault type_assertion

-- the two dynamic types of maps
abbrev pub as_map : Value → Result Value
as_map (Value.builtin_map p) = ok (Value.builtin_map p)
as_map (Value.hash_map p) = ok (Value.hash_map p)
as_map _ = fail not_a_map

abbrev pub indexed : GoType → Option Value → S Value
indexed t (some v) = on_heap (make_reflect_value (some t) v)
indexed t none = on_heap (make_reflect_value none nil_value)

-- the type of the result is that of the keys
unfoldable pub value_map_index : Host → List Value → S Value
unfolding underlying look_up
value_map_index host args = do
  u ← under_part args
  t ← pure_of (key_type u)
  k ← value_part args 1
  x ← value_part args 0
  m ← pure_of (as_map x)
  found ← look_up host.machine host.depth m k
  indexed t found

-- keys = append(keys, makeReflectValue(tKey, k)) for the entries of a map
unfoldable pub append_keys :
    (ℕ → ℕ → ℕ) → GoType → Option Header → List (Value × Value) → S (Option Header)
unfolding extend
append_keys grow t keys [] = pure keys
append_keys grow t keys ((k, v) ∷ es) = do
  r ← on_heap (make_reflect_value (some t) k)
  more ← on_heap (extend grow keys (r ∷ []))
  append_keys grow t more es

unfoldable pub value_map_keys : Host → List Value → S Value
unfolding underlying append_keys
value_map_keys host args = do
  u ← under_part args
  t ← pure_of (key_type u)
  x ← value_part args 0
  m ← pure_of (as_map x)
  es ← λ s. gives (host.format.listing m s) s
  keys ← append_keys host.grow t none es
  pure (Value.slice keys)

unfoldable pub value_num_field : List Value → S Value
value_num_field args = do v ← value_part args 0; x ← pure_of (as_structure v); pure (int x.1)

unfoldable pub value_num_method : Host → List Value → S Value
value_num_method host args = do
  t ← type_part args
  u ← pure_of (known t)
  pure (int (length (host.methods u)))

-- the dynamic types with an address
unfoldable pub pointer_of : (Value → ℕ) → Value → Result Value
pointer_of f (Value.pointer p) = ok (Value.integer IntKind.uintptr (f (Value.pointer p) % 2 ^ 64))
pointer_of f (Value.chan c) = ok (Value.integer IntKind.uintptr (f (Value.chan c) % 2 ^ 64))
pointer_of f (Value.slice h) = ok (Value.integer IntKind.uintptr (f (Value.slice h) % 2 ^ 64))
pointer_of f (Value.hash_map m) = ok (Value.integer IntKind.uintptr (f (Value.hash_map m) % 2 ^ 64))
pointer_of f (Value.builtin_map m) =
    ok (Value.integer IntKind.uintptr (f (Value.builtin_map m) % 2 ^ 64))
pointer_of f (Value.function g) = ok (Value.integer IntKind.uintptr (f (Value.function g) % 2 ^ 64))
pointer_of f (Value.closure g vs) =
    ok (Value.integer IntKind.uintptr (f (Value.closure g vs) % 2 ^ 64))
pointer_of f _ = fail no_pointer

unfoldable pub value_pointer : (Value → ℕ) → List Value → S Value
unfolding pointer_of
value_pointer f args = do v ← value_part args 0; pure_of (pointer_of f v)
