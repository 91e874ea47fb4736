-- ===== src/Workflow/Fuel.antt =====
-- Fuel for InterpretWorkflow of interpreter/internal/interp/temporal.go.
use temporal_determinizer.Prelude.{
  ℕ, ◌+◌, ◌≡◌, refl, ap, ◌⊎◌, inl, inr, Bool-cases, false, List, [], Option, some,
}
use temporal_determinizer.Value.{Value}
use temporal_determinizer.Store.{Store, Ended, gives, throws}
use temporal_determinizer.Globals.{workflow_globals}
use temporal_determinizer.Program.{Host, Program}
use temporal_determinizer.World.{World}
use temporal_determinizer.Interpret.{top_world}
use temporal_determinizer.Calls.{call}
use temporal_determinizer.Calls.Ends.{◌⊑◌, after-below}
use temporal_determinizer.Calls.Fuel.{call-fuel}
use temporal_determinizer.Workflow.{
  WorkflowPackage, WorkflowEnd, unfinished, run_workflow, workflow_end, set_up, interpret_workflow,
}

module _ (host : Host) (n k : ℕ) where
  run_workflow-fuel :
      (prog : Program) (pkg : WorkflowPackage) (args : List Value) (w : World)
      → run_workflow host n prog pkg args w ⊑ run_workflow host (k + n) prog pkg args w
  unfolding run_workflow
  run_workflow-fuel prog pkg args w =
      after-below (call host prog n (Value.function (some pkg.init)) [] w) _ _ _
        (call-fuel host prog n k (Value.function (some pkg.init)) [] w)
        λ r u. call-fuel host prog n k (Value.function pkg.function) args u

  -- the two ends are one, unless the first run is unfinished
  abbrev SameEnd : WorkflowEnd → WorkflowEnd → Type 0
  SameEnd a b = (a ≡ unfinished) ⊎ (a ≡ b)

  set_up-fuel :
      (prog : Program) (pkg : WorkflowPackage) (args : List Value) (r : Ended (ℕ × (ℕ → Option ℕ)))
      → SameEnd (set_up host n prog pkg args r) (set_up host (k + n) prog pkg args r)
  unfolding workflow_end
  set_up-fuel prog pkg args (throws p s) = inr refl
  set_up-fuel prog pkg args (gives (done, g) s) =
      let run = record prog { globals = g; disable_recover = false } in
      elim (run_workflow-fuel run pkg args (top_world s)) [
        | inl e ↦ inl (ap (workflow_end run done) e)
        | inr e ↦ inr (ap (workflow_end run done) e)
      ]

  -- If InterpretWorkflow, for a program, arguments and a store, does not run out of fuel, then with any
  -- more fuel it returns the same results or the same error, or panics in the same way.
  pub interpret_workflow-fuel :
      (prog : Program) (pkg : WorkflowPackage) (ctx : Value) (args : List Value) (s : Store)
      → (interpret_workflow host n prog pkg ctx args s ≡ unfinished)
        ⊎ (interpret_workflow host n prog pkg ctx args s
            ≡ interpret_workflow host (k + n) prog pkg ctx args s)
  unfolding interpret_workflow
  interpret_workflow-fuel prog pkg ctx args s = elim (Bool-cases pkg.has_runtime) [
    | inl e ↦ rw e (set_up-fuel prog pkg args (workflow_globals pkg.globals pkg.workflow ctx s))
    | inr e ↦ rw e (inr refl)
  ]
