-- ===== src/Calls.antt =====
-- Calls of interpreter/internal/interp/interp.go: call, callSSA and runFrame,
-- and the instructions Call, Defer, Go and RunDefers of visitInstr. Tracing only prints.
-- The functions take as an argument how a nested call runs; `call` ties the knot on fuel, one for
-- each level of calls, which also bounds the blocks that a frame runs.
pub mod Ends
pub mod Fuel
pub mod Touch
pub mod Late
pub mod Body
pub mod Balance
pub mod Recovered
use temporal_determinizer.Prelude.{
  ℕ, zero, suc, ◌+◌, Bool, true, false, List, [], ◌∷◌, ◌++◌, Option, none, some, length, get_elem?,
  if◌then◌else◌,
}
use temporal_determinizer.Types.{GoType}
use temporal_determinizer.Types.Identity.{identical}
use temporal_determinizer.Value.{
  Value, Values, Panic, Result, ok, panics, fault, message, runtime, index_out_of_range,
  nil_dereference, panic_nil, call_of_nil, cannot_call, no_code, method_on_nil, no_such_method,
}
use temporal_determinizer.Heap.{write, alloc}
use temporal_determinizer.Memory.{zero as zero_value}
use temporal_determinizer.Frames.{Frame, Call, Called, Ran, returned, panicked, push_defer}
use temporal_determinizer.Frames
use temporal_determinizer.Store
use temporal_determinizer.Store.{Store, S, throw, pure_of, on_heap, put}
use temporal_determinizer.Program.{Operand, CallCommon, Instr, Block, Function, Host, Program}
use temporal_determinizer.Visit.{
  Continuation, to_next, to_return, to_jump, Activation, Env, assigned, as_iface, get, get_all,
  visit_plain,
}
use temporal_determinizer.Prepare.{prepare_call, enter, destroy}
use temporal_determinizer.World.{
  Deferred, Stack, World, End, value, panic, timeout, W, pure, out_of_fuel, raise, ◌>>=◌, ◌>>◌,
  lift,
}
use temporal_determinizer.Builtins.{call_builtin}
use temporal_determinizer.Steps.{
  Caller, Rest, fresh_frame, top, below, called, call_deferred, finish, at_top, in_top, popped,
  in_frame, of_values, Left, proceed, go_on, unless_none, until_done, block_at, went, raised,
}

module _ (host : Host) (prog : Program) where
  -- visitInstr
  unfoldable pub visit : Caller → List ℕ → Activation → Instr → W (Continuation × Activation)
  unfolding visit_plain prepare_call push_defer Frames.run_defers call_deferred
  visit call succs a (Instr.plain i) = lift (visit_plain host prog succs a i)
  visit call succs a (Instr.call r c) = do
    (f, args) ← lift (prepare_call host prog a.env c)
    v ← call f args
    pure (to_next, assigned a r v)
  visit call succs a (Instr.defer c) = do
    d ← lift (prepare_call host prog a.env c)
    in_top (to_next, a) λ fr s. returned (push_defer d fr) s
  visit call succs a (Instr.go c) = do
    (f, args) ← lift (prepare_call host prog a.env c)
    lift (host.spawn f args)
    pure (to_next, a)
  visit call succs a Instr.run_defers =
      in_top (to_next, a) λ fr s. Frames.run_defers (call_deferred call) fr s

  -- for _, instr := range fr.block.Instrs
  unfoldable pub run_instrs : Caller → List ℕ → Activation → List Instr → W Left
  unfolding visit
  run_instrs call succs a [] w = value (went to_next a) w
  run_instrs call succs a (i ∷ is) w =
      proceed (λ b. run_instrs call succs b is) a (visit call succs a i w)

  -- fr.block, which is not nil while a frame runs
  unfoldable pub in_block : Caller → Activation → Option Block → W Left
  unfolding run_instrs
  in_block call a none = pure (raised (runtime nil_dereference) a)
  in_block call a (some b) = run_instrs call b.succs a b.instrs

  unfoldable pub run_block : Caller → Function → Activation → W Left
  unfolding in_block
  run_block call fn a = in_block call a (block_at fn.blocks a.block)

  -- the outer loop of runFrame
  unfoldable pub run_blocks : ℕ → Caller → Function → Activation → W Left
  unfolding run_block
  run_blocks zero call fn a = out_of_fuel
  run_blocks (suc n) call fn a = run_block call fn a >>= go_on (λ b. run_blocks n call fn b)

  -- the deferred function of runFrame, after a panic: the mode, fr.block and fr.fn.Recover
  unfoldable pub recover_at :
      Caller → Bool → Option ℕ → Option ℕ → Panic → Activation → W Activation
  unfolding Frames.handle_panic call_deferred
  recover_at call disabled none next p b = raise p
  recover_at call true (some i) next p b = raise p
  recover_at call false (some i) next p b =
      in_top (record b { block = next })
        λ fr s. Frames.handle_panic (call_deferred call) (some p) fr s

  unfoldable pub recover_frame : Caller → Function → Left → W Activation
  unfolding recover_at
  recover_frame call fn (went k b) = pure b
  recover_frame call fn (raised p b) = recover_at call prog.disable_recover b.block fn.recover p b

  unfoldable pub run_frame : ℕ → Caller → Function → Activation → W Activation
  unfolding run_blocks recover_frame
  run_frame n call fn a = run_blocks n call fn a >>= recover_frame call fn

  -- for fr.block != nil { runFrame(fr) }
  unfoldable pub run_frames : ℕ → ℕ → Caller → Function → Activation → W Activation
  unfolding run_frame
  run_frames zero n call fn a = out_of_fuel
  run_frames (suc k) n call fn a =
      run_frame n call fn a >>= until_done (λ b. run_frames k n call fn b)

  -- the body of a function that is interpreted
  unfoldable pub run_body : ℕ → Caller → Function → List Value → List Value → W Value
  unfolding enter run_frames destroy
  run_body n call fn args env = do
    (a, base) ← lift (enter fn args env)
    b ← run_frames n n call fn a
    lift (destroy base fn.locals)
    pure b.result

  -- an external function, or the body, which must be there; a function with a parent has one
  abbrev pub choose :
      Bool → Option (List Value → S Value) → List Block → List Value → W Value → W Value
  choose true ext bs args body = body
  choose false (some e) bs args body = lift (e args)
  choose false none [] args body = lift (throw (message no_code))
  choose false none (b ∷ bs) args body = body

  unfoldable pub call_ssa : ℕ → Caller → ℕ → List Value → List Value → W Value
  unfolding in_frame run_body
  call_ssa n call f args env =
      let fn = prog.function f in
      in_frame
        (choose fn.nested (host.external fn.name) fn.blocks args (run_body n call fn args env))

  -- call, one level of it
  unfoldable pub call_value : ℕ → Caller → Caller
  unfolding call_ssa call_builtin
  call_value n call (Value.function none) args = lift (throw (message call_of_nil))
  call_value n call (Value.function (some f)) args = call_ssa n call f args []
  call_value n call (Value.closure f env) args = call_ssa n call f args (of_values env)
  call_value n call (Value.builtin b) args = call_builtin host prog b args
  call_value n call _ args = lift (throw (message cannot_call))

  unfoldable pub call : ℕ → Caller
  unfolding call_value
  call zero f args = out_of_fuel
  call (suc n) f args = call_value n (call n) f args
