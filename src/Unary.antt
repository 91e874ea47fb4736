-- ===== src/Unary.antt =====
-- unop of interpreter/internal/interp/ops.go. What a receive from a channel gives is a parameter.
pub mod Laws
use temporal_determinizer.Prelude.{ℕ, Bool, true, false, not, Option, none, some}
use temporal_determinizer.Word
use temporal_determinizer.Token.{Token}
use temporal_determinizer.Types.{GoType, ComplexKind, deref}
use temporal_determinizer.Float.{Floats}
use temporal_determinizer.Value.{Value, Result, ok, fail, fault, invalid_unary_op, type_assertion}
use temporal_determinizer.Heap.{M, pure, ◌>>=◌, lift, address}
use temporal_determinizer.Memory.{load}
use temporal_determinizer.Equality.{part, assert_bool, assert_pointer}

module _ (fl : Floats) where
  unfoldable pub unop_neg : Value → Result Value
  unop_neg (Value.integer k a) = ok (Value.integer k (Word.neg k a))
  unop_neg (Value.float k a) = ok (Value.float k (fl.negate k a))
  unop_neg (Value.complex k a b) =
      ok (Value.complex k (fl.negate (part k) a) (fl.negate (part k) b))
  unop_neg x = fail invalid_unary_op

  unfoldable pub unop_xor : Value → Result Value
  unop_xor (Value.integer k a) = ok (Value.integer k (Word.complement k a))
  unop_xor x = fail invalid_unary_op

  -- the operator, the type of the operand and the operand
  unfoldable pub unop : M Value → Token → GoType → Value → M Value
  unfolding unop_neg unop_xor deref
  unop receive Token.arrow t x = receive
  unop receive Token.sub t x = lift (unop_neg x)
  unop receive Token.mul t x = do p ← lift (assert_pointer x); a ← address p; load (deref t) a
  unop receive Token.not t x = do b ← lift (assert_bool x); pure (Value.boolean (not b))
  unop receive Token.xor t x = lift (unop_xor x)
  unop receive _ t x = lift (fail invalid_unary_op)
