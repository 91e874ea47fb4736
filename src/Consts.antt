-- ===== src/Consts.antt =====
-- constValue of interpreter/internal/interp/ops.go. A constant of package ssa is what its methods
-- answer: 64-bit patterns for Int64 and Uint64, float patterns, and its text if it is a string.
use temporal_determinizer.Prelude.{ℕ, Bool, List, Option, none, some, if◌then◌else◌}
use temporal_determinizer.Word
use temporal_determinizer.Word.{IntKind, is_signed, int64, uint64}
use temporal_determinizer.Types.{FloatKind, ComplexKind, BasicKind, GoType, underlying}
use temporal_determinizer.Float.{Floats}
use temporal_determinizer.Utf8.{encode}
use temporal_determinizer.Value.{Value, Result, ok, fail, const_value}
use temporal_determinizer.Heap.{M, lift}
use temporal_determinizer.Memory.{zero}

pub record Const : Type 0 where
  pub is_nil : Bool
  pub bool : Bool
  pub int64 : ℕ
  pub uint64 : ℕ
  pub float64 : ℕ
  pub complex128 : ℕ × ℕ
  pub text : Option (List ℕ)

module _ (fl : Floats) where
  abbrev narrow_float : FloatKind → ℕ → ℕ
  narrow_float FloatKind.float64 a = a
  narrow_float FloatKind.float32 a = fl.convert FloatKind.float64 FloatKind.float32 a

  -- the switch on the basic kind
  unfoldable pub const_basic : BasicKind → Const → Result Value
  unfolding encode
  const_basic BasicKind.boolean c = ok (Value.boolean c.bool)
  const_basic BasicKind.untyped_bool c = ok (Value.boolean c.bool)
  const_basic (BasicKind.integer k) c =
      if is_signed k
      then ok (Value.integer k (Word.convert k int64 c.int64))
      else ok (Value.integer k (Word.convert k uint64 c.uint64))
  const_basic BasicKind.untyped_int c =
      ok (Value.integer IntKind.int (Word.convert IntKind.int int64 c.int64))
  const_basic BasicKind.untyped_rune c =
      ok (Value.integer IntKind.int32 (Word.convert IntKind.int32 int64 c.int64))
  const_basic (BasicKind.float k) c = ok (Value.float k (narrow_float k c.float64))
  const_basic BasicKind.untyped_float c = ok (Value.float FloatKind.float64 c.float64)
  const_basic (BasicKind.complex ComplexKind.complex64) c = ok (
      Value.complex ComplexKind.complex64 (narrow_float FloatKind.float32 c.complex128.0)
        (narrow_float FloatKind.float32 c.complex128.1))
  const_basic (BasicKind.complex ComplexKind.complex128) c =
      ok (Value.complex ComplexKind.complex128 c.complex128.0 c.complex128.1)
  const_basic BasicKind.untyped_complex c =
      ok (Value.complex ComplexKind.complex128 c.complex128.0 c.complex128.1)
  const_basic BasicKind.string c = elim c.text [
    | some s ↦ ok (Value.string s)
    | none ↦ ok (Value.string (encode (Word.convert IntKind.int32 int64 c.int64)))
  ]
  const_basic BasicKind.untyped_string c = elim c.text [
    | some s ↦ ok (Value.string s)
    | none ↦ ok (Value.string (encode (Word.convert IntKind.int32 int64 c.int64)))
  ]
  const_basic _ c = fail const_value

  unfoldable pub const : GoType → Const → M Value
  unfolding underlying const_basic
  const t c = if c.is_nil then zero t else elim (underlying t) [
    | GoType.basic k ↦ lift (const_basic k c)
    | _ ↦ lift (fail const_value)
  ]
