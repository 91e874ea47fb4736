-- ===== src/Workflow.antt =====
-- InterpretWorkflow of interpreter/internal/interp/temporal.go, and the function that BuildFunc of
-- interpreter/build.go makes, which calls it. The context of the workflow and the arguments are Go
-- values that the interpreter gets as they are; which values they are is a parameter.
pub mod Failures
pub mod Fuel
use temporal_determinizer.Prelude.{
  ℕ, Bool, true, false, List, [], ◌∷◌, ◌++◌, map, Option, none, some, ◌&&◌, if◌then◌else◌,
}
use temporal_determinizer.Word.{IntKind}
use temporal_determinizer.Build.{PartType, error, other}
use temporal_determinizer.Value.{
  Value, Values, Panic, exit, target, runtime, message, index_out_of_range, no_runtime_package,
  not_assignable,
}
use temporal_determinizer.Store.{Store, Ended, gives, throws}
use temporal_determinizer.Globals.{Globals, WorkflowGlobals, workflow_globals, close_done}
use temporal_determinizer.Program.{Host, Program}
use temporal_determinizer.World.{World, End, value, panic, timeout, W, ◌>>=◌}
use temporal_determinizer.Steps.{of_values}
use temporal_determinizer.Calls.{call}
use temporal_determinizer.Interpret.{top_world}

-- the package of the workflow function, as far as a run reads it, with the globals of its program
pub record WorkflowPackage : Type 0 where
  pub has_runtime : Bool
  pub globals : Globals
  pub workflow : Option WorkflowGlobals
  pub init : ℕ
  pub function : Option ℕ

pub data Reason : Type 0 where
  called_exit called_panic unknown : Reason

-- WorkflowPanicError; its value is one of the program, or a panic of another kind
pub data WorkflowPanicError : Type 0 where
  of_value : Reason → Value → WorkflowPanicError
  of_panic : Reason → Panic → WorkflowPanicError

-- the results or the error that are returned, or a panic that is not caught
pub data WorkflowEnd : Type 0 where
  returns : List Value → WorkflowEnd
  failed : WorkflowPanicError → WorkflowEnd
  escapes : Panic → WorkflowEnd
  unfinished : WorkflowEnd

-- the deferred function, on what it recovered
unfoldable pub classify : Panic → WorkflowPanicError
classify (exit n) = of_value called_exit (Value.integer IntKind.int n)
classify (target v) = of_value called_panic v
classify p = of_panic unknown p

unfoldable pub expand_tuple : Value → List Value
expand_tuple (Value.tuple vs) = of_values vs
expand_tuple v = v ∷ []

-- after the channel was closed, or could not be
abbrev pub closed : Value → Ended (Unit {0}) → WorkflowEnd
closed v (gives u s) = returns (expand_tuple v)
closed v (throws p s) = escapes p

-- after the calls of init and of the function
unfoldable pub workflow_end : Program → ℕ → End Value → WorkflowEnd
unfolding classify expand_tuple close_done
workflow_end prog done (value v w) = closed v (close_done prog done w.store)
workflow_end prog done (panic p w) = failed (classify p)
workflow_end prog done timeout = unfinished

module _ (host : Host) where
  -- init, then the function; pkg.Func gives nil for a name that the package does not declare
  unfoldable pub run_workflow : ℕ → Program → WorkflowPackage → List Value → W Value
  unfolding call
  run_workflow n prog pkg args = do
    r ← call host prog n (Value.function (some pkg.init)) []
    call host prog n (Value.function pkg.function) args

  abbrev pub set_up :
      ℕ → Program → WorkflowPackage → List Value → Ended (ℕ × (ℕ → Option ℕ)) → WorkflowEnd
  set_up n prog pkg args (throws p s) = escapes p
  set_up n prog pkg args (gives (done, g) s) =
      let run = record prog { globals = g; disable_recover = false } in
      workflow_end run done (run_workflow n run pkg args (top_world s))

  unfoldable pub interpret_workflow :
      ℕ → Program → WorkflowPackage → Value → List Value → Store → WorkflowEnd
  unfolding workflow_globals run_workflow workflow_end
  interpret_workflow n prog pkg ctx args s = elim pkg.has_runtime [
    | true ↦ set_up n prog pkg args (workflow_globals pkg.globals pkg.workflow ctx s)
    | false ↦ escapes (message no_runtime_package)
  ]

-- reflect.Value: a zero value, an error that is not retried, an interpreted result, or none
pub data Reflected : Type 0 where
  zero_of : PartType → Reflected
  non_retryable : WorkflowPanicError → Reflected
  value_of : Value → Reflected
  invalid : Reflected

pub data Dynamic : Type 0 where
  results : List Reflected → Dynamic
  panics : Panic → Dynamic
  unfinished : Dynamic

-- zero values, and the error in place of the last
abbrev pub with_error : WorkflowPanicError → List PartType → List Reflected
with_error e [] = []
with_error e (o ∷ []) = non_retryable e ∷ []
with_error e (o ∷ p ∷ os) = zero_of o ∷ with_error e (p ∷ os)

-- results[i] = reflect.ValueOf(resIface), in a list as long as the results of the type
abbrev pub fill_results : List PartType → List Value → Option (List Reflected)
fill_results [] [] = some []
fill_results [] (v ∷ vs) = none
fill_results (o ∷ os) [] = elim (fill_results os []) [ some rs ↦ some (invalid ∷ rs) | none ↦ none ]
fill_results (o ∷ os) (v ∷ vs) = elim (fill_results os vs) [
  | some rs ↦ some (value_of v ∷ rs)
  | none ↦ none
]

unfoldable pub dynamic_results : List PartType → WorkflowEnd → Dynamic
dynamic_results outs (returns vs) = elim (fill_results outs vs) [
  | some rs ↦ results rs
  | none ↦ panics (runtime index_out_of_range)
]
dynamic_results [] (failed e) = panics (runtime index_out_of_range)
dynamic_results (o ∷ os) (failed e) = results (with_error e (o ∷ os))
dynamic_results outs (escapes p) = panics p
dynamic_results outs unfinished = unfinished

-- What reflect.MakeFunc asks of the results: whether *temporal.ApplicationError is assignable to a type
-- that the code does not name, and a result of the interpreter to a type.
pub record Assignable : Type 0 where
  pub application_error : ℕ → Bool
  pub result : Value → PartType → Bool

-- an interface error takes every error, a context none
abbrev pub takes_error : Assignable → PartType → Bool
takes_error r error = true
takes_error r (other n b) = r.application_error n
takes_error r _ = false

abbrev pub takes : Assignable → PartType → Reflected → Bool
takes r o (zero_of p) = true
takes r o (non_retryable e) = takes_error r o
takes r o (value_of v) = r.result v o
takes r o invalid = false

abbrev pub all_taken : Assignable → List PartType → List Reflected → Bool
all_taken r (o ∷ os) (x ∷ xs) = takes r o x && all_taken r os xs
all_taken r _ _ = true

-- reflect.MakeFunc, on what the function that it was given returns: it panics if a result is not
-- assignable to the type that it stands for
unfoldable pub make_func : Assignable → List PartType → Dynamic → Dynamic
make_func r outs (results xs) =
    if all_taken r outs xs then results xs else panics (message not_assignable)
make_func r outs d = d

-- the function that is made, whose first argument is the context
unfoldable pub dynamic_func :
    Assignable → Host → ℕ → Program → WorkflowPackage → List PartType → List Value → Store → Dynamic
unfolding interpret_workflow dynamic_results make_func
dynamic_func r host n prog pkg outs [] s = panics (runtime index_out_of_range)
dynamic_func r host n prog pkg outs (ctx ∷ args) s =
    make_func r outs (dynamic_results outs (interpret_workflow host n prog pkg ctx args s))
