-- ===== src/Calls/Balance.antt =====
-- The stack of frames under the calls of interpreter/internal/interp/interp.go.
use temporal_determinizer.Prelude.{
  ℕ, zero, suc, Bool, true, false, List, [], ◌∷◌, Option, none, some,
}
use mathlib.Core.Path.{subst}
use temporal_determinizer.Value.{Value, Builtin, Result, ok, panics}
use temporal_determinizer.Frames.{Frame, do_recover}
use temporal_determinizer.Store.{Store, S, throw}
use temporal_determinizer.Builtins.{recovering, call_builtin}
use temporal_determinizer.Program.{Block, Host, Program}
use temporal_determinizer.World.{Deferred, Stack, World, End, value, panic, timeout, W}
use temporal_determinizer.Steps.{Caller, fresh_frame, below, popped, in_frame}
use temporal_determinizer.Calls.{choose, run_body, call_ssa, call_value, call}
use temporal_determinizer.Calls.Late.{IsCareful}
use temporal_determinizer.Calls.Body.{Over-run_body}
use temporal_determinizer.Calls.Touch.{
  Touches, Touches-refl, Over, Ends, Ends-map, Ends-raise, Ends-lift, do_recover-Touches,
}

Touches-more : (s t : Stack) → Touches 1 s t → Touches 2 s t
Touches-more [] [] h = tt
Touches-more [] (b ∷ t) h = h
Touches-more (a ∷ s) [] h = h
Touches-more (a ∷ s) (b ∷ t) (k, h) = (k, subst (Touches 1 s) h (Touches-refl 1 s))

Over-below : (fr : Frame Deferred) (s t : Stack) → Over (fr ∷ s) t → Touches 1 s (below t)
Over-below fr s [] h = elim h [ ]
Over-below fr s (b ∷ t) h = h

Ends-popped :
    {A : Type 0} (s : Stack) (x : End A)
    → Ends (Over (fresh_frame ∷ s)) x
    → Ends (Touches 1 s) (popped x)
Ends-popped s (value a u) h = Over-below fresh_frame s u.frames h
Ends-popped s (panic p u) h = Over-below fresh_frame s u.frames h
Ends-popped s timeout h = tt

Ends-recovering :
    (P : Stack → Type 0) (s : Store) (r : Result Value × Stack) → P r.1 → Ends P (recovering s r)
Ends-recovering P s (ok v, t) h = h
Ends-recovering P s (panics p, t) h = Ends-raise _ P p _ h

module _ (host : Host) (prog : Program) where
  Over-choose :
      (s0 : Stack) (nested : Bool) (ext : Option (List Value → S Value)) (bs : List Block)
      (args : List Value) (body : W Value) (w : World)
      → Over s0 w.frames
      → Ends (Over s0) (body w)
      → Ends (Over s0) (choose host prog nested ext bs args body w)
  Over-choose s0 true ext bs args body w h k = k
  Over-choose s0 false (some e) bs args body w h k = Ends-lift (Over s0) (e args) w h
  Over-choose s0 false none [] args body w h k = Ends-lift (Over s0) (throw _) w h
  Over-choose s0 false none (b ∷ bs) args body w h k = k

  Touches-call_ssa :
      (c : Caller)
      → IsCareful c
      → (n f : ℕ) (args env : List Value) (w : World)
      → Ends (Touches 1 w.frames) (call_ssa host prog n c f args env w)
  unfolding call_ssa in_frame
  Touches-call_ssa c careful n f args env w =
      let fn = prog.function f in
      let s0 = fresh_frame ∷ w.frames in
      let u = record w { frames = s0 } in
      Ends-popped w.frames
        (choose host prog fn.nested (host.external fn.name) fn.blocks args
          (run_body host prog n c fn args env) u)
        (Over-choose s0 fn.nested (host.external fn.name) fn.blocks args
          (run_body host prog n c fn args env) u (Touches-refl 1 w.frames)
          (Over-run_body c careful host prog s0 n fn args env u (Touches-refl 1 w.frames)))

  Touches-call_builtin :
      (b : Builtin) (args : List Value) (w : World)
      → Ends (Touches 2 w.frames) (call_builtin host prog b args w)
  unfolding call_builtin
  Touches-call_builtin Builtin.recover args w =
      Ends-recovering (Touches 2 w.frames) w.store
        (do_recover prog.error_string prog.text prog.disable_recover w.frames)
        (do_recover-Touches prog.error_string prog.text prog.disable_recover w.frames)
  Touches-call_builtin _ args w = Ends-lift (Touches 2 w.frames) _ w (Touches-refl 2 w.frames)

  IsCareful-call_value : (c : Caller) → IsCareful c → (n : ℕ) → IsCareful (call_value host prog n c)
  unfolding call_value
  IsCareful-call_value c careful n (Value.function (some f)) args w =
      Ends-map (Touches 1 w.frames) (Touches 2 w.frames) _ (λ t. Touches-more w.frames t)
        (Touches-call_ssa c careful n f args [] w)
  IsCareful-call_value c careful n (Value.closure f env) args w =
      Ends-map (Touches 1 w.frames) (Touches 2 w.frames) _ (λ t. Touches-more w.frames t)
        (Touches-call_ssa c careful n f args _ w)
  IsCareful-call_value c careful n (Value.builtin b) args w = Touches-call_builtin b args w
  IsCareful-call_value c careful n _ args w =
      Ends-lift (Touches 2 w.frames) _ w (Touches-refl 2 w.frames)

  pub call-IsCareful : (n : ℕ) → IsCareful (call host prog n)
  unfolding call
  call-IsCareful zero f args w = tt
  call-IsCareful (suc n) f args w =
      IsCareful-call_value (call host prog n) (call-IsCareful n) n f args w

  -- A call of a function that is interpreted or external, however it ends, leaves the stack of frames
  -- as it was, but for the frame that calls, which keeps its deferred calls and may have its panic
  -- cleared.
  pub call_ssa-Touches :
      (n f : ℕ) (args env : List Value) (w : World)
      → Ends (Touches 1 w.frames) (call_ssa host prog n (call host prog n) f args env w)
  call_ssa-Touches n f args env w =
      Touches-call_ssa (call host prog n) (call-IsCareful n) n f args env w
