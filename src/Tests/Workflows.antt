-- ===== src/Tests/Workflows.antt =====
-- A workflow that returns and one that panics.
use temporal_determinizer.Prelude.{
  List, ℕ, ◌≡◌, refl, ◌⊎◌, true, false, [], ◌∷◌, none, some, Option,
}
use temporal_determinizer.Types.{GoType, ChanDir, end}
use temporal_determinizer.Value.{Value, Panic}
use temporal_determinizer.Word
use temporal_determinizer.Word.{IntKind}
use temporal_determinizer.Heap.{alloc, write}
use temporal_determinizer.Memory.{zero}
use temporal_determinizer.Build.{
  validate, PartType, ReflectType, func, context, workflow_context, error, other,
}
use temporal_determinizer.Store.{Store, Ended, gives, throws}
use temporal_determinizer.Globals.{workflow_globals}
use temporal_determinizer.World.{World, lift, End, value, panic, timeout}
use temporal_determinizer.Interpret.{top_world}
use temporal_determinizer.Workflow.{
  WorkflowPackage, run_workflow, dynamic_func, WorkflowPanicError, Assignable,
}
use temporal_determinizer.Workflow.Failures.{running, Says, reported, dynamic_func-panicked}
use temporal_determinizer.Tests.Hosts.{host, program, empty_world}

-- the package with a function; its program has the two globals of the package workflow
abbrev package_of : ℕ → WorkflowPackage
package_of f = record {
  has_runtime = true;
  globals = (0, GoType.interface []) ∷ (1, GoType.chan ChanDir.send_recv (GoType.struct end)) ∷ [];
  workflow = some (record { current_workflow_context = 0; entire_workflow_done_ch = 1 });
  init = 4;
  function = some f;
}

-- the store and the globals after they were set up
abbrev set_up : Ended (ℕ × (ℕ → Option ℕ))
set_up = workflow_globals (package_of 4).globals (package_of 4).workflow Value.bad empty_world.store

abbrev store_of : Ended (ℕ × (ℕ → Option ℕ)) → Store
store_of (gives g s) = s
store_of (throws p s) = s

abbrev table_of : Ended (ℕ × (ℕ → Option ℕ)) → ℕ → Option ℕ
table_of (gives g s) = g.1
table_of (throws p s) = λ i. none

abbrev world_of : End Value → World
world_of (value v w) = w
world_of (panic p w) = w
world_of timeout = empty_world

abbrev world_after : ℕ → World
world_after f = world_of (
    run_workflow host 9 (running program (table_of set_up)) (package_of f) []
      (top_world (store_of set_up)))

-- func(context.Context) (T, error), whose body panics
abbrev from : ReflectType
from = func (context ∷ []) (other 0 false ∷ error ∷ []) false

-- no type but the interface error takes an error
abbrev strict : Assignable
strict = record { application_error = λ n. false; result = λ v o. true }

abbrev outs : List PartType
outs = other 0 false ∷ error ∷ []

dynamic_func-panicked_example :
    (e : WorkflowPanicError) × Says (Panic.target (Value.integer IntKind.int 7)) e
    × (((o : PartType) × (outs ≡ o ∷ [])
          × (dynamic_func strict host 9 program
                (package_of 3)
                outs
                (Value.bad ∷ [])
                empty_world.store
              ≡ reported strict e [] o))
        ⊎ ((z : PartType) × (o : PartType) × (outs ≡ z ∷ o ∷ [])
            × (dynamic_func strict host 9 program
                  (package_of 3)
                  outs
                  (Value.bad ∷ [])
                  empty_world.store
                ≡ reported strict e (z ∷ []) o)))
unfolding workflow_globals run_workflow lift alloc validate zero write Word.convert
dynamic_func-panicked_example =
    dynamic_func-panicked host 9 program (package_of 3) strict from (workflow_context ∷ []) outs
      false Value.bad [] empty_world.store (store_of set_up) 1 (table_of set_up)
      (Panic.target (Value.integer IntKind.int 7)) (world_after 3) refl refl refl refl
