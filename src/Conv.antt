-- ===== src/Conv.antt =====
-- conv of interpreter/internal/interp/ops.go: every conversion between the types of a program.
-- The branches between numeric types stand in Convert; here are those of strings, slices of bytes
-- and runes, and pointers, and the choice between all of them.
pub mod Texts
pub mod Numbers
use temporal_determinizer.Prelude.{
  ℕ, Bool, true, false, List, [], ◌∷◌, map, Option, none, some, ◌==◌, if◌then◌else◌,
}
use temporal_determinizer.Word.{IntKind}
use temporal_determinizer.Types.{BasicKind, GoType, underlying}
use temporal_determinizer.Float.{Floats}
use temporal_determinizer.Utf8.{encode, runes, string_of}
use temporal_determinizer.Value
use temporal_determinizer.Value.{
  Value, Header, Result, ok, fail, fault, message, runtime, type_assertion, unsupported_conversion,
  untyped_destination, should_be_change_interface, should_be_make_interface,
}
use temporal_determinizer.Heap.{M, pure, raise, ◌>>=◌, lift}
use temporal_determinizer.Memory.{zero}
use temporal_determinizer.Equality.{assert_integer, assert_pointer}
use temporal_determinizer.Convert.{
  is_untyped, is_complex, is_numeric, widen, narrow, narrow_complex,
}
use temporal_determinizer.Slices.{as_slice, header_of, elements, append_each, byte, bytes_of}

-- types.IsInteger
abbrev pub is_integer : BasicKind → Bool
is_integer (BasicKind.integer k) = true
is_integer BasicKind.untyped_int = true
is_integer BasicKind.untyped_rune = true
is_integer _ = false

-- for i := range x { append(b, x[i].(T)) }
unfoldable pub assert_all : IntKind → List Value → Result (List ℕ)
assert_all k [] = ok []
assert_all k (v ∷ vs) =
    Value.◌>>=◌ (assert_integer k v) λ a. Value.◌>>=◌ (assert_all k vs) λ r. ok (a ∷ r)

abbrev pub rune : ℕ → Value
rune r = Value.integer IntKind.int32 r

unfoldable pub unsupported : M Value
unsupported = raise (message unsupported_conversion)

-- from a slice; the destination is taken to be a string
unfoldable pub conv_slice : GoType → Value → M Value
unfolding assert_all string_of unsupported
conv_slice (GoType.basic (BasicKind.integer IntKind.uint8)) x = do
  s ← lift (as_slice x)
  vs ← elements (header_of s)
  bs ← lift (assert_all IntKind.uint8 vs)
  pure (Value.string bs)
conv_slice (GoType.basic (BasicKind.integer IntKind.int32)) x = do
  s ← lift (as_slice x)
  vs ← elements (header_of s)
  rs ← lift (assert_all IntKind.int32 vs)
  pure (Value.string (string_of rs))
conv_slice (GoType.basic k) x = unsupported
conv_slice _ x = raise (runtime type_assertion)

-- from a string, to the underlying destination; `grow` is the capacity that append chooses
unfoldable pub conv_string : (ℕ → ℕ → ℕ) → GoType → List ℕ → M Value
unfolding runes bytes_of append_each unsupported
conv_string grow (GoType.slice (GoType.basic (BasicKind.integer IntKind.int32))) s = do
  x ← append_each grow none (map rune (runes s))
  pure (Value.slice x)
conv_string grow (GoType.slice (GoType.basic (BasicKind.integer IntKind.uint8))) s = do
  x ← bytes_of grow s
  pure (Value.slice x)
conv_string grow (GoType.slice (GoType.basic k)) s = unsupported
conv_string grow (GoType.slice t) s = raise (runtime type_assertion)
conv_string grow (GoType.basic BasicKind.string) s = pure (Value.string s)
conv_string grow _ s = unsupported

abbrev is_string : GoType → Bool
is_string (GoType.basic BasicKind.string) = true
is_string _ = false

-- fmt.Sprintf("%c", x) of a widened integer; x has an integer type, so it is no other value
abbrev pub spell : Value → M Value
spell (Value.integer k a) = pure (Value.string (encode a))
spell v = raise (runtime type_assertion)

module _ (fl : Floats) where
  -- ut_dst.(*types.Basic).Kind()
  abbrev pub at_kind : GoType → (BasicKind → Result Value) → M Value
  at_kind (GoType.basic k) f = lift (f k)
  at_kind _ f = raise (runtime type_assertion)

  -- from a widened value that is no string
  unfoldable pub conv_number : BasicKind → GoType → GoType → Value → M Value
  unfolding narrow narrow_complex unsupported
  conv_number BasicKind.unsafe_pointer ud dst y = zero dst
  conv_number k ud dst y =
      if is_complex k
      then at_kind ud (λ j. narrow_complex fl j y)
      else if is_numeric k
      then at_kind ud (λ j. narrow fl j y)
      else unsupported

module _ (grow : ℕ → ℕ → ℕ) (fl : Floats) where
  -- from a value of a basic type, widened
  unfoldable pub conv_widened : BasicKind → GoType → GoType → Value → M Value
  unfolding conv_string conv_number encode
  conv_widened k ud dst (Value.string s) =
      if is_integer k
      then (if is_string ud then spell (Value.string s) else conv_string grow ud s)
      else conv_string grow ud s
  conv_widened k ud dst y =
      if is_integer k
      then (if is_string ud then spell y else conv_number fl k ud dst y)
      else conv_number fl k ud dst y

  -- the switch on the underlying source
  unfoldable pub conv_from : GoType → GoType → GoType → Value → M Value
  unfolding widen conv_slice conv_widened unsupported
  conv_from (GoType.pointer e) (GoType.basic BasicKind.unsafe_pointer) dst x = do
    p ← lift (assert_pointer x)
    pure (Value.unsafe_pointer p)
  conv_from (GoType.slice e) ud dst x = conv_slice e x
  conv_from (GoType.basic k) ud dst x = do y ← lift (widen fl x); conv_widened k ud dst y
  conv_from us ud dst x = unsupported

  abbrev is_interface : GoType → Bool
  is_interface (GoType.interface ms) = true
  is_interface _ = false

  -- the guards on the underlying destination
  unfoldable pub conv : GoType → GoType → Value → M Value
  unfolding underlying conv_from
  conv dst src x = elim (underlying dst) [
    | GoType.basic k ↦
        if is_untyped k
        then raise (message untyped_destination)
        else conv_from (underlying src) (GoType.basic k) dst x
    | GoType.interface ms ↦
        if is_interface (underlying src)
        then raise (message should_be_change_interface)
        else raise (message should_be_make_interface)
    | ud ↦ conv_from (underlying src) ud dst x
  ]
