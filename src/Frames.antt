-- ===== src/Frames.antt =====
-- Panics and deferred calls in interpreter/internal/interp/interp.go: runDefer, runDefers, doRecover,
-- the Defer instruction and what runFrame does after a panic.
-- A stack of frames is a list, the innermost first. How a deferred call runs is an argument, since
-- call leads back here: it gets the frame that defers, which a recover in the callee may change, and
-- the rest of the interpreter's state.
pub mod Order
pub mod Recover
use temporal_determinizer.Prelude.{
  ℕ, Bool, true, false, not, ◌&&◌, List, [], ◌∷◌, Option, none, some, if◌then◌else◌,
}
use temporal_determinizer.Types.{GoType}
use temporal_determinizer.Value.{
  Value, nil_value, Panic, target, exit, runtime, message, exhausted, Result, ok, panics,
  nil_dereference, unexpected_recover,
}

-- D are deferred calls: fn and args
pub record Frame (D : Type 0) : Type 0 where
  pub defers : List D
  pub panicking : Bool
  pub panic : Option Panic

-- a call of a deferred function: the frame and the state after it, and the panic that it ended in
pub record Called (D S : Type 0) : Type 0 where
  pub frame : Frame D
  pub state : S
  pub raised : Option Panic

abbrev pub Call : Type 0 → Type 0 → Type 0
Call D S = D → Frame D → S → Called D S

-- a normal end, or a panic with fr.panic
pub data Ran (D S : Type 0) : Type 0 where
  returned : Frame D → S → Ran D S
  panicked : Option Panic → Frame D → S → Ran D S

-- case *ssa.Defer
unfoldable pub push_defer : {D : Type 0} → D → Frame D → Frame D
push_defer d fr = record fr { defers = d ∷ fr.defers }

abbrev pub raise_in : {D : Type 0} → Frame D → Option Panic → Frame D
raise_in fr none = fr
raise_in fr (some p) = record fr { panicking = true; panic = some p }

module _ {D S : Type 0} where
  unfoldable pub run_defer : Call D S → D → Frame D → S → Frame D × S
  run_defer call d fr s = let r = call d fr s in (raise_in r.frame r.raised, r.state)

  -- for d := fr.defers; d != nil; d = d.tail
  unfoldable pub run_each : Call D S → List D → Frame D → S → Frame D × S
  unfolding run_defer
  run_each call [] fr s = (fr, s)
  run_each call (d ∷ ds) fr s = let r = run_defer call d fr s in run_each call ds r.0 r.1

  unfoldable pub run_defers : Call D S → Frame D → S → Ran D S
  unfolding run_each
  run_defers call fr s =
      let r = run_each call fr.defers fr s in
      let end = record r.0 { defers = [] } in
      if r.0.panicking then panicked r.0.panic end r.1 else returned end r.1

  -- the deferred function of runFrame, when the block was left by a panic
  unfoldable pub handle_panic : Call D S → Option Panic → Frame D → S → Ran D S
  unfolding run_defers
  handle_panic call p fr s = run_defers call (record fr { panicking = true; panic = p }) s

abbrev pub nil_interface : Value
nil_interface = Value.iface none nil_value

module _ (error_string : GoType) (text : Panic → List ℕ) where
  -- the value that recover returns for a panic; `text` is what Error and the message say
  abbrev pub recovered : Option Panic → Result Value
  recovered none = panics (message unexpected_recover)
  recovered (some (target v)) = ok v
  recovered (some (runtime e)) =
      ok (Value.iface (some error_string) (Value.string (text (runtime e))))
  recovered (some (message e)) =
      ok (Value.iface (some error_string) (Value.string (text (message e))))
  recovered (some (exit n)) = panics (message unexpected_recover)
  recovered (some exhausted) = panics exhausted

  -- doRecover, called in the first frame of the stack
  unfoldable pub do_recover : {D : Type 0} → Bool → List (Frame D) → Result Value × List (Frame D)
  do_recover disabled [] = (panics (runtime nil_dereference), [])
  do_recover disabled (caller ∷ []) = (ok nil_interface, caller ∷ [])
  do_recover disabled (caller ∷ parent ∷ rest) =
      if not disabled && not caller.panicking && parent.panicking
      then (
        recovered parent.panic,
        caller ∷ record parent { panicking = false; panic = none } ∷ rest,
      )
      else (ok nil_interface, caller ∷ parent ∷ rest)
