-- ===== src/Calls/Fuel.antt =====
-- Fuel for the calls of interpreter/internal/interp/interp.go: more of it changes no end of a run.
use temporal_determinizer.Prelude.{
  ℕ, zero, suc, ◌+◌, ◌≡◌, refl, ap, ◌⊎◌, inl, inr, Bool, true, false, List, [], ◌∷◌, Option, none,
  some, arith,
}
use mathlib.Core.Path.{subst}
use temporal_determinizer.Value.{Value, Panic}
use temporal_determinizer.Store.{S}
use temporal_determinizer.Program.{Instr, Block, Function, Host, Program}
use temporal_determinizer.Visit.{Continuation, to_next, to_return, to_jump, Activation}
use temporal_determinizer.Prepare.{prepare_call, enter}
use temporal_determinizer.World.{World, End, value, panic, timeout, W, lift}
use temporal_determinizer.Steps.{
  Caller, fresh_frame, Left, went, raised, proceed, go_on, popped, in_frame, unless_none,
}
use temporal_determinizer.Calls.{
  choose, visit, run_instrs, run_block, run_blocks, recover_at, recover_frame, run_frame, in_block,
  run_frames, run_body, call_ssa, call_value, call,
}
use temporal_determinizer.Calls.Ends.{
  ◌⊑◌, Grows, below-trans, after-below, at_top-below, handle_panic-below,
}

module _ (host : Host) (prog : Program) (c d : Caller) (grows : Grows c d) where
  visit_below :
      (succs : List ℕ) (a : Activation) (i : Instr) (w : World)
      → visit host prog c succs a i w ⊑ visit host prog d succs a i w
  unfolding visit
  visit_below succs a (Instr.plain i) w = inr refl
  visit_below succs a (Instr.call r f) w =
      after-below (lift (prepare_call host prog a.env f) w) _ _ _ (inr refl)
        λ x u. after-below (c x.0 x.1 u) (d x.0 x.1 u) _ _ (grows x.0 x.1 u) λ v t. inr refl
  visit_below succs a (Instr.defer f) w = inr refl
  visit_below succs a (Instr.go f) w = inr refl
  visit_below succs a Instr.run_defers w = at_top-below c d grows (to_next, a) w.store w.frames

  proceed-below :
      (rest more : Activation → W Left) (a : Activation) (x : End (Continuation × Activation))
      → ((b : Activation) (u : World) → rest b u ⊑ more b u)
      → proceed rest a x ⊑ proceed more a x
  proceed-below rest more a (value (to_next, b) u) h = h b u
  proceed-below rest more a (value (to_return, b) u) h = inr refl
  proceed-below rest more a (value (to_jump, b) u) h = inr refl
  proceed-below rest more a (panic p u) h = inr refl
  proceed-below rest more a timeout h = inr refl

  run_instrs-below :
      (succs : List ℕ) (a : Activation) (is : List Instr) (w : World)
      → run_instrs host prog c succs a is w ⊑ run_instrs host prog d succs a is w
  unfolding run_instrs
  run_instrs-below succs a [] w = inr refl
  run_instrs-below succs a (i ∷ is) w =
      below-trans (proceed _ a) (proceed _ a) _ _ refl (visit_below succs a i w)
        (proceed-below _ _ a (visit host prog d succs a i w) λ b u. run_instrs-below succs b is u)

  in_block-below :
      (a : Activation) (b : Option Block) (w : World)
      → in_block host prog c a b w ⊑ in_block host prog d a b w
  unfolding in_block
  in_block-below a none w = inr refl
  in_block-below a (some b) w = run_instrs-below b.succs a b.instrs w

  run_block-below :
      (fn : Function) (a : Activation) (w : World)
      → run_block host prog c fn a w ⊑ run_block host prog d fn a w
  unfolding run_block
  run_block-below fn a w = in_block-below a _ w

  go_on-below :
      (rest more : Activation → W Left) (l : Left) (w : World)
      → ((b : Activation) (u : World) → rest b u ⊑ more b u)
      → go_on rest l w ⊑ go_on more l w
  go_on-below rest more (raised p b) w h = inr refl
  go_on-below rest more (went to_return b) w h = inr refl
  go_on-below rest more (went to_next b) w h = h b w
  go_on-below rest more (went to_jump b) w h = h b w

  run_blocks-below :
      (n : ℕ) (fn : Function) (a : Activation) (w : World)
      → run_blocks host prog n c fn a w ⊑ run_blocks host prog (suc n) d fn a w
  unfolding run_blocks
  run_blocks-below zero fn a w = inl refl
  run_blocks-below (suc n) fn a w =
      after-below (run_block host prog c fn a w) _ _ _ (run_block-below fn a w)
        λ l u. go_on-below _ _ l u λ b t. run_blocks-below n fn b t

  recover_at-below :
      (b : Bool) (i next : Option ℕ) (p : Panic) (a : Activation) (w : World)
      → recover_at host prog c b i next p a w ⊑ recover_at host prog d b i next p a w
  unfolding recover_at
  recover_at-below b none next p a w = inr refl
  recover_at-below true (some i) next p a w = inr refl
  recover_at-below false (some i) next p a w =
      handle_panic-below c d grows (record a { block = next }) (some p) w.store w.frames

  recover_frame-below :
      (fn : Function) (l : Left) (w : World)
      → recover_frame host prog c fn l w ⊑ recover_frame host prog d fn l w
  unfolding recover_frame
  recover_frame-below fn (went k b) w = inr refl
  recover_frame-below fn (raised p b) w = recover_at-below prog.disable_recover b.block _ p b w

  run_frame-below :
      (n : ℕ) (fn : Function) (a : Activation) (w : World)
      → run_frame host prog n c fn a w ⊑ run_frame host prog (suc n) d fn a w
  unfolding run_frame
  run_frame-below n fn a w =
      after-below (run_blocks host prog n c fn a w) _ _ _ (run_blocks-below n fn a w)
        λ l u. recover_frame-below fn l u

  until_done-below :
      (rest more : Activation → W Activation) (i : Option ℕ) (b : Activation) (w : World)
      → rest b w ⊑ more b w
      → unless_none i rest b w ⊑ unless_none i more b w
  until_done-below rest more none b w h = inr refl
  until_done-below rest more (some i) b w h = h

  run_frames-below :
      (k n : ℕ) (fn : Function) (a : Activation) (w : World)
      → run_frames host prog k n c fn a w ⊑ run_frames host prog (suc k) (suc n) d fn a w
  unfolding run_frames
  run_frames-below zero n fn a w = inl refl
  run_frames-below (suc k) n fn a w =
      after-below (run_frame host prog n c fn a w) _ _ _ (run_frame-below n fn a w) λ b u.
        until_done-below (λ x. run_frames host prog k n c fn x)
          (λ x. run_frames host prog (suc k) (suc n) d fn x) b.block b u
          (run_frames-below k n fn b u)

  run_body-below :
      (n : ℕ) (fn : Function) (args env : List Value) (w : World)
      → run_body host prog n c fn args env w ⊑ run_body host prog (suc n) d fn args env w
  unfolding run_body
  run_body-below n fn args env w = after-below (lift (enter fn args env) w) _ _ _ (inr refl) λ x u.
      after-below (run_frames host prog n n c fn x.0 u) _ _ _ (run_frames-below n n fn x.0 u)
        λ b t. inr refl

  choose-below :
      (nested : Bool) (ext : Option (List Value → S Value)) (bs : List Block) (args : List Value)
      (body more : W Value) (w : World)
      → body w ⊑ more w
      → choose host prog nested ext bs args body w ⊑ choose host prog nested ext bs args more w
  choose-below true ext bs args body more w h = h
  choose-below false (some e) bs args body more w h = inr refl
  choose-below false none [] args body more w h = inr refl
  choose-below false none (b ∷ bs) args body more w h = h

  call_ssa-below :
      (n f : ℕ) (args env : List Value) (w : World)
      → call_ssa host prog n c f args env w ⊑ call_ssa host prog (suc n) d f args env w
  unfolding call_ssa in_frame
  call_ssa-below n f args env w =
      let fn = prog.function f in
      let u = record w { frames = fresh_frame ∷ w.frames } in
      below-trans popped popped _ _ refl
        (choose-below fn.nested (host.external fn.name) fn.blocks args
          (run_body host prog n c fn args env) (run_body host prog (suc n) d fn args env) u
          (run_body-below n fn args env u))
        (inr refl)

  call_value-below :
      (n : ℕ) (f : Value) (args : List Value) (w : World)
      → call_value host prog n c f args w ⊑ call_value host prog (suc n) d f args w
  unfolding call_value
  call_value-below n (Value.function (some f)) args w = call_ssa-below n f args [] w
  call_value-below n (Value.closure f env) args w = call_ssa-below n f args _ w
  call_value-below n (Value.function none) args w = inr refl
  call_value-below n _ args w = inr refl

module _ (host : Host) (prog : Program) where
  call-suc : (n : ℕ) → Grows (call host prog n) (call host prog (suc n))
  unfolding call
  call-suc zero f args w = inl refl
  call-suc (suc n) f args w =
      call_value-below host prog (call host prog n) (call host prog (suc n)) (call-suc n) n f args w

  sum : (k n : ℕ) → suc (k + n) ≡ suc k + n
  sum k n = omega arith

  -- A call of any function value, in any world: if it does not run out of fuel, then with more fuel
  -- it ends in the same way, with the same value or panic and in the same world.
  pub call-fuel :
      (n k : ℕ) (f : Value) (args : List Value) (w : World)
      → (call host prog n f args w ≡ timeout)
        ⊎ (call host prog n f args w ≡ call host prog (k + n) f args w)
  call-fuel n zero f args w = inr (ap (λ m. call host prog m f args w) (omega arith))
  call-fuel n (suc k) f args w =
      below-trans (λ x. x) (λ x. call host prog (suc k + n) f args w) _ _ refl
        (call-fuel n k f args w)
        (subst (λ m. call host prog (k + n) f args w ⊑ call host prog m f args w) (sum k n)
          (call-suc (k + n) f args w))
