-- ===== src/Channels.antt =====
-- Channels in interpreter/internal/interp: MakeChan and the results of Select of visitInstr in interp.go,
-- and unop of ops.go with its case for a receive. Sending, receiving and choosing are the host's.
use temporal_determinizer.Prelude.{
  ℕ, suc, ◌-◌, ◌^◌, Bool, true, false, List, [], ◌∷◌, Option, none, some, ◌==◌, if◌then◌else◌,
}
use temporal_determinizer.Word.{IntKind}
use temporal_determinizer.Token.{Token}
use temporal_determinizer.Types.{GoType, underlying}
use temporal_determinizer.Value.{
  Value, Result, ok, fault, message, runtime, type_assertion, invalid_unary_op,
}
use temporal_determinizer.Heap.{raise}
use temporal_determinizer.Memory.{zero as zero_value}
use temporal_determinizer.Elements.{checked}
use temporal_determinizer.Ops.{as_int}
use temporal_determinizer.Unary.{unop}
use temporal_determinizer.Store.{S, gives, pure, throw, ◌>>=◌, pure_of, on_heap, put}
use temporal_determinizer.Maps.{pair}
use temporal_determinizer.Program.{SelectState, Host}

abbrev pub as_chan : Value → Result (Option ℕ)
as_chan (Value.chan c) = ok c
as_chan _ = fault type_assertion

unfoldable pub make_chan : Value → S Value
unfolding as_int
make_chan size = do
  i ← pure_of (as_int size)
  n ← pure_of (checked i)
  λ s. gives (Value.chan (some s.next_chan)) (record s {
    next_chan = suc s.next_chan;
    chans = put s.chans s.next_chan (record { capacity = n; queue = []; closed = false });
  })

-- chosen, and the values of the receives: the received one, or zero
abbrev pub chosen : Option ℕ → Value
chosen none = Value.integer IntKind.int (2 ^ 64 - 1)
chosen (some i) = Value.integer IntKind.int i

abbrev pub is_some : Option Value → Bool
is_some none = false
is_some (some v) = true

abbrev at_index : Option ℕ → ℕ → Option Value → Option Value
at_index none n v = none
at_index (some i) n v = if i == n then v else none

abbrev get_or_zero : GoType → Option Value → S Value
get_or_zero t (some v) = pure v
get_or_zero t none = on_heap (zero_value t)

unfoldable pub select_values : Option ℕ → Option Value → ℕ → List SelectState → S (List Value)
select_values c v i [] = pure []
select_values c v i (SelectState.send ch x ∷ ss) = select_values c v (suc i) ss
select_values c v i (SelectState.receive t ch ∷ ss) = do
  w ← get_or_zero t (at_index c i v)
  ws ← select_values c v (suc i) ss
  pure (w ∷ ws)

abbrev chan_elem : GoType → S Value
chan_elem t = elim (underlying t) [
  | GoType.chan d e ↦ on_heap (zero_value e)
  | _ ↦ throw (runtime type_assertion)
]

module _ (host : Host) where
  -- case token.ARROW of unop
  unfoldable pub unop_arrow : Bool → GoType → Value → S Value
  unfolding underlying
  unop_arrow comma_ok t x = do
    c ← pure_of (as_chan x)
    found ← host.receive c
    v ← elim found [ some w ↦ pure w | none ↦ chan_elem t ]
    pure (if comma_ok then pair v (Value.boolean (is_some found)) else v)

  unfoldable pub unary : Token → Bool → GoType → Value → S Value
  unfolding unop unop_arrow
  unary Token.arrow comma_ok t x = unop_arrow comma_ok t x
  unary op comma_ok t x =
      on_heap (unop host.machine.floats (raise (message invalid_unary_op)) op t x)
