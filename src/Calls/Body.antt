-- ===== src/Calls/Body.antt =====
-- The frames below, while a function of interpreter/internal/interp/interp.go runs in its own.
use temporal_determinizer.Prelude.{
  ℕ, zero, suc, Bool, true, false, List, [], ◌∷◌, Option, none, some,
}
use temporal_determinizer.Value.{Value, Panic}
use temporal_determinizer.Program.{Instr, Block, Function, Host, Program}
use temporal_determinizer.Visit.{Continuation, to_next, to_return, to_jump, Activation}
use temporal_determinizer.Prepare.{prepare_call, enter, destroy}
use temporal_determinizer.World.{Stack, World, End, value, panic, timeout, W, lift}
use temporal_determinizer.Steps.{Caller, Left, went, raised, proceed, go_on, unless_none}
use temporal_determinizer.Calls.{
  visit, run_instrs, in_block, run_block, run_blocks, recover_at, recover_frame, run_frame,
  run_frames, run_body,
}
use temporal_determinizer.Calls.Touch.{
  Touches, Over, Over-trans, Ends, Ends-map, Ends-after, Ends-raise, Ends-lift,
}
use temporal_determinizer.Calls.Late.{IsCareful, Over-run_defers, Over-handle_panic, Over-push}

module _ (c : Caller) (careful : IsCareful c) where
  module _ (host : Host) (prog : Program) (s0 : Stack) where
    Over-visit :
        (succs : List ℕ) (a : Activation) (i : Instr) (w : World)
        → Over s0 w.frames
        → Ends (Over s0) (visit host prog c succs a i w)
    unfolding visit
    Over-visit succs a (Instr.plain i) w h = Ends-lift (Over s0) _ w h
    Over-visit succs a (Instr.call r f) w h =
        Ends-after (Over s0) (lift (prepare_call host prog a.env f) w) _
          (Ends-lift (Over s0) (prepare_call host prog a.env f) w h)
          λ x u k.
            Ends-after (Over s0) (c x.0 x.1 u) _
              (Ends-map (Touches 2 u.frames) (Over s0) (c x.0 x.1 u)
                (λ t q. Over-trans s0 u.frames t k q) (careful x.0 x.1 u))
              λ v t q. q
    Over-visit succs a (Instr.defer f) w h =
        Ends-after (Over s0) (lift (prepare_call host prog a.env f) w) _
          (Ends-lift (Over s0) (prepare_call host prog a.env f) w h)
          λ x u k. Over-push (to_next, a) s0 x u.store u.frames k
    Over-visit succs a (Instr.go f) w h =
        Ends-after (Over s0) (lift (prepare_call host prog a.env f) w) _
          (Ends-lift (Over s0) (prepare_call host prog a.env f) w h)
          λ x u k.
            Ends-after (Over s0) (lift (host.spawn x.0 x.1) u) _
              (Ends-lift (Over s0) (host.spawn x.0 x.1) u k) λ v t q. q
    Over-visit succs a Instr.run_defers w h =
        Over-run_defers c careful (to_next, a) s0 w.store w.frames h

    Over-proceed :
        (rest : Activation → W Left) (a : Activation) (x : End (Continuation × Activation))
        → Ends (Over s0) x
        → ((b : Activation) (u : World) → Over s0 u.frames → Ends (Over s0) (rest b u))
        → Ends (Over s0) (proceed rest a x)
    Over-proceed rest a (value (to_next, b) u) h k = k b u h
    Over-proceed rest a (value (to_return, b) u) h k = h
    Over-proceed rest a (value (to_jump, b) u) h k = h
    Over-proceed rest a (panic p u) h k = h
    Over-proceed rest a timeout h k = tt

    Over-run_instrs :
        (succs : List ℕ) (a : Activation) (is : List Instr) (w : World)
        → Over s0 w.frames
        → Ends (Over s0) (run_instrs host prog c succs a is w)
    unfolding run_instrs
    Over-run_instrs succs a [] w h = h
    Over-run_instrs succs a (i ∷ is) w h =
        Over-proceed _ a (visit host prog c succs a i w) (Over-visit succs a i w h)
          λ b u k. Over-run_instrs succs b is u k

    Over-in_block :
        (a : Activation) (b : Option Block) (w : World)
        → Over s0 w.frames
        → Ends (Over s0) (in_block host prog c a b w)
    unfolding in_block
    Over-in_block a none w h = h
    Over-in_block a (some b) w h = Over-run_instrs b.succs a b.instrs w h

    Over-go_on :
        (rest : Activation → W Left) (l : Left) (w : World)
        → Over s0 w.frames
        → ((b : Activation) (u : World) → Over s0 u.frames → Ends (Over s0) (rest b u))
        → Ends (Over s0) (go_on rest l w)
    Over-go_on rest (raised p b) w h k = h
    Over-go_on rest (went to_return b) w h k = h
    Over-go_on rest (went to_next b) w h k = k b w h
    Over-go_on rest (went to_jump b) w h k = k b w h

    Over-run_blocks :
        (n : ℕ) (fn : Function) (a : Activation) (w : World)
        → Over s0 w.frames
        → Ends (Over s0) (run_blocks host prog n c fn a w)
    unfolding run_blocks run_block
    Over-run_blocks zero fn a w h = tt
    Over-run_blocks (suc n) fn a w h =
        Ends-after (Over s0) (run_block host prog c fn a w) _ (Over-in_block a _ w h)
          λ l u k. Over-go_on _ l u k λ b t q. Over-run_blocks n fn b t q

    Over-recover_at :
        (b : Bool) (i next : Option ℕ) (p : Panic) (a : Activation) (w : World)
        → Over s0 w.frames
        → Ends (Over s0) (recover_at host prog c b i next p a w)
    unfolding recover_at
    Over-recover_at b none next p a w h = Ends-raise _ (Over s0) p w h
    Over-recover_at true (some i) next p a w h = Ends-raise _ (Over s0) p w h
    Over-recover_at false (some i) next p a w h =
        Over-handle_panic c careful (record a { block = next }) s0 (some p) w.store w.frames h

    Over-recover_frame :
        (fn : Function) (l : Left) (w : World)
        → Over s0 w.frames
        → Ends (Over s0) (recover_frame host prog c fn l w)
    unfolding recover_frame
    Over-recover_frame fn (went k b) w h = h
    Over-recover_frame fn (raised p b) w h =
        Over-recover_at prog.disable_recover b.block fn.recover p b w h

    Over-unless_none :
        (i : Option ℕ) (rest : Activation → W Activation) (b : Activation) (w : World)
        → Over s0 w.frames
        → Ends (Over s0) (rest b w)
        → Ends (Over s0) (unless_none i rest b w)
    Over-unless_none none rest b w h k = h
    Over-unless_none (some i) rest b w h k = k

    Over-run_frames :
        (k n : ℕ) (fn : Function) (a : Activation) (w : World)
        → Over s0 w.frames
        → Ends (Over s0) (run_frames host prog k n c fn a w)
    unfolding run_frames run_frame
    Over-run_frames zero n fn a w h = tt
    Over-run_frames (suc k) n fn a w h =
        Ends-after (Over s0) (run_frame host prog n c fn a w) _
          (Ends-after (Over s0) (run_blocks host prog n c fn a w) _ (Over-run_blocks n fn a w h)
            λ l u q. Over-recover_frame fn l u q)
          λ b u q.
            Over-unless_none b.block (λ x. run_frames host prog k n c fn x) b u q
              (Over-run_frames k n fn b u q)

    pub Over-run_body :
        (n : ℕ) (fn : Function) (args env : List Value) (w : World)
        → Over s0 w.frames
        → Ends (Over s0) (run_body host prog n c fn args env w)
    unfolding run_body
    Over-run_body n fn args env w h =
        Ends-after (Over s0) (lift (enter fn args env) w) _
          (Ends-lift (Over s0) (enter fn args env) w h)
          λ x u k.
            Ends-after (Over s0) (run_frames host prog n n c fn x.0 u) _
              (Over-run_frames n n fn x.0 u k)
              λ b t q.
                Ends-after (Over s0) (lift (destroy x.1 fn.locals) t) _
                  (Ends-lift (Over s0) (destroy x.1 fn.locals) t q) λ v r l. l
