-- ===== src/Convert.antt =====
-- Conversions between basic types in interpreter/internal/interp/ops.go: widen, and the branches of
-- conv for numeric destinations. conv first widens the value and then narrows it to the destination.
use temporal_determinizer.Prelude.{Bool, true, false}
use temporal_determinizer.Word
use temporal_determinizer.Word.{IntKind, int64, uint64, is_signed, widest}
use temporal_determinizer.Types.{FloatKind, ComplexKind, BasicKind}
use temporal_determinizer.Float.{Floats}
use temporal_determinizer.Value.{
  Value, Result, ok, fail, fault, cannot_widen, unsupported_conversion, type_assertion,
}

-- types.IsUntyped
abbrev pub is_untyped : BasicKind → Bool
is_untyped BasicKind.untyped_bool = true
is_untyped BasicKind.untyped_int = true
is_untyped BasicKind.untyped_rune = true
is_untyped BasicKind.untyped_float = true
is_untyped BasicKind.untyped_complex = true
is_untyped BasicKind.untyped_string = true
is_untyped BasicKind.untyped_nil = true
is_untyped _ = false

-- types.IsComplex, and types.IsNumeric of the others
abbrev pub is_complex : BasicKind → Bool
is_complex (BasicKind.complex k) = true
is_complex BasicKind.untyped_complex = true
is_complex _ = false

abbrev pub is_numeric : BasicKind → Bool
is_numeric (BasicKind.integer k) = true
is_numeric (BasicKind.float k) = true
is_numeric BasicKind.untyped_int = true
is_numeric BasicKind.untyped_rune = true
is_numeric BasicKind.untyped_float = true
is_numeric _ = false

module _ (fl : Floats) where
  unfoldable pub widen : Value → Result Value
  widen (Value.boolean b) = ok (Value.boolean b)
  widen (Value.string s) = ok (Value.string s)
  widen (Value.unsafe_pointer p) = ok (Value.unsafe_pointer p)
  widen (Value.integer k a) = ok (Value.integer (widest k) (Word.convert (widest k) k a))
  widen (Value.float FloatKind.float64 a) = ok (Value.float FloatKind.float64 a)
  widen (Value.float FloatKind.float32 a) =
      ok (Value.float FloatKind.float64 (fl.convert FloatKind.float32 FloatKind.float64 a))
  widen (Value.complex ComplexKind.complex128 a b) = ok (Value.complex ComplexKind.complex128 a b)
  widen (Value.complex ComplexKind.complex64 a b) = ok (
      Value.complex ComplexKind.complex128 (fl.convert FloatKind.float32 FloatKind.float64 a)
        (fl.convert FloatKind.float32 FloatKind.float64 b))
  widen _ = fail cannot_widen

  -- from an int64, a uint64 or a float64
  unfoldable pub narrow : BasicKind → Value → Result Value
  narrow (BasicKind.integer j) (Value.integer int64 a) =
      ok (Value.integer j (Word.convert j int64 a))
  narrow (BasicKind.integer j) (Value.integer uint64 a) =
      ok (Value.integer j (Word.convert j uint64 a))
  narrow (BasicKind.integer j) (Value.float FloatKind.float64 a) =
      ok (Value.integer j (fl.to_int FloatKind.float64 j a))
  narrow (BasicKind.float j) (Value.integer int64 a) = ok (Value.float j (fl.of_int true j a))
  narrow (BasicKind.float j) (Value.integer uint64 a) = ok (Value.float j (fl.of_int false j a))
  narrow (BasicKind.float FloatKind.float64) (Value.float FloatKind.float64 a) =
      ok (Value.float FloatKind.float64 a)
  narrow (BasicKind.float FloatKind.float32) (Value.float FloatKind.float64 a) =
      ok (Value.float FloatKind.float32 (fl.convert FloatKind.float64 FloatKind.float32 a))
  narrow _ _ = fail unsupported_conversion

  -- x.(complex128), narrowed
  unfoldable pub narrow_complex : BasicKind → Value → Result Value
  narrow_complex (BasicKind.complex ComplexKind.complex128)
        (Value.complex ComplexKind.complex128 a b) =
      ok (Value.complex ComplexKind.complex128 a b)
  narrow_complex (BasicKind.complex ComplexKind.complex64)
        (Value.complex ComplexKind.complex128 a b) =
      ok (
        Value.complex ComplexKind.complex64 (fl.convert FloatKind.float64 FloatKind.float32 a)
          (fl.convert FloatKind.float64 FloatKind.float32 b))
  narrow_complex (BasicKind.complex k) x = fault type_assertion
  narrow_complex _ x = fail unsupported_conversion
