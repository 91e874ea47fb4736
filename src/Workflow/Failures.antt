-- ===== src/Workflow/Failures.antt =====
-- How a run of a workflow ends: interpreter/internal/interp/temporal.go and interpreter/build.go.
use temporal_determinizer.Prelude.{
  ℕ, ◌≡◌, refl, ap, ◌∙◌, ◌⊎◌, inl, inr, Bool, true, false, List, [], ◌∷◌, ◌++◌, map, Option, some,
  Bool-cases, if◌then◌else◌,
}
use temporal_determinizer.Value.{
  fault, Value, Panic, runtime, type_assertion, exit, target, message, not_assignable,
}
use temporal_determinizer.Word.{IntKind}
use temporal_determinizer.Build.{PartType, ReflectType, func, built, validate}
use temporal_determinizer.Build.Checks.{validate_iff}
use temporal_determinizer.Heap.{read}
use temporal_determinizer.Store.{pure_of, Store, gives, throws}
use temporal_determinizer.Globals.{workflow_globals, close_done, as_struct_chan}
use temporal_determinizer.Program.{Host, Program}
use temporal_determinizer.World.{World, value, panic}
use temporal_determinizer.Interpret.{top_world}
use temporal_determinizer.Workflow.{
  WorkflowPackage, failed, escapes, run_workflow, interpret_workflow, classify, zero_of,
  non_retryable, results, panics, dynamic_results, make_func, dynamic_func, WorkflowPanicError,
  of_value, of_panic, called_exit, called_panic, unknown, Assignable, takes_error, Dynamic,
}

-- the program with the table of globals that a run of a workflow sets up, in its mode
abbrev pub running : Program → (ℕ → Option ℕ) → Program
running prog g = record prog { globals = g; disable_recover = false }

as_struct_chan-fault : (v : Value) → as_struct_chan v ≡ fault type_assertion
unfolding as_struct_chan
as_struct_chan-fault (Value.chan c) = refl
as_struct_chan-fault _ = refl

close_done-throws :
    (prog : Program) (done a : ℕ) (s : Store)
    → prog.globals done ≡ some a
    → close_done prog done s ≡ throws (runtime type_assertion) s
unfolding close_done read
close_done-throws prog done a s e =
    rw (close_done, e) (ap (λ r. pure_of r s) (as_struct_chan-fault (s.heap.cell a)))

outs_injective :
    {ins outs ins' outs' : List PartType} {v v' : Bool}
    → func ins outs v ≡ func ins' outs' v'
    → outs ≡ outs'
outs_injective h = cc

-- the error says how the workflow panicked: by os.Exit with its code, by panic with its value, or by
-- another panic
abbrev pub Says : Panic → WorkflowPanicError → Type 0
Says (exit c) e = e ≡ of_value called_exit (Value.integer IntKind.int c)
Says (target v) e = e ≡ of_value called_panic v
Says p e = e ≡ of_panic unknown p

classify-Says : (p : Panic) → Says p (classify p)
unfolding classify
classify-Says (exit c) = refl
classify-Says (target v) = refl
classify-Says _ = refl

-- the error, if the type of the last result takes it, in place of that, behind zeros of other types;
-- else a panic of reflect.MakeFunc
abbrev pub reported : Assignable → WorkflowPanicError → List PartType → PartType → Dynamic
reported r e zeros last =
    if takes_error r last
    then results (map zero_of zeros ++ (non_retryable e ∷ []))
    else panics (message not_assignable)

made_one :
    (r : Assignable) (e : WorkflowPanicError) (o : PartType)
    → make_func r (o ∷ []) (results (non_retryable e ∷ [])) ≡ reported r e [] o
unfolding make_func
made_one r e o = elim (Bool-cases (takes_error r o)) [ inl i ↦ rw i refl | inr i ↦ rw i refl ]

made_two :
    (r : Assignable) (e : WorkflowPanicError) (z o : PartType)
    → make_func r (z ∷ o ∷ []) (results (zero_of z ∷ non_retryable e ∷ []))
      ≡ reported r e (z ∷ []) o
unfolding make_func
made_two r e z o = elim (Bool-cases (takes_error r o)) [ inl i ↦ rw i refl | inr i ↦ rw i refl ]

module _ (host : Host) (n : ℕ) (prog : Program) (pkg : WorkflowPackage) where
  -- after the function has returned, the type assertion on the channel panics, which is not caught
  pub interpret_workflow-returned :
      (ctx : Value) (args : List Value) (s t : Store) (done a : ℕ) (g : ℕ → Option ℕ) (v : Value)
      (w : World)
      → pkg.has_runtime ≡ true
      → workflow_globals pkg.globals pkg.workflow ctx s ≡ gives (done, g) t
      → g done ≡ some a
      → run_workflow host n (running prog g) pkg args (top_world t) ≡ value v w
      → interpret_workflow host n prog pkg ctx args s ≡ escapes (runtime type_assertion)
  unfolding interpret_workflow
  interpret_workflow-returned ctx args s t done a g v w r e h k =
      rw (r, e, k, close_done-throws (running prog g) done a w.store h) refl

  interpret_workflow-panicked :
      (ctx : Value) (args : List Value) (s t : Store) (done : ℕ) (g : ℕ → Option ℕ) (p : Panic)
      (w : World)
      → pkg.has_runtime ≡ true
      → workflow_globals pkg.globals pkg.workflow ctx s ≡ gives (done, g) t
      → run_workflow host n (running prog g) pkg args (top_world t) ≡ panic p w
      → interpret_workflow host n prog pkg ctx args s ≡ failed (classify p)
  unfolding interpret_workflow
  interpret_workflow-panicked ctx args s t done g p w r e k = rw (r, e, k) refl

  -- A registered function of a validated type, whose workflow starts and then panics. The function
  -- that the worker calls returns one result for each of the type, with an error that is not retried
  -- in place of the last, which says how the workflow panicked, and zero in place of another, if the
  -- last type takes a *temporal.ApplicationError, as the interface error does; for another type, as a
  -- concrete one that implements error, reflect panics.
  pub dynamic_func-panicked :
      (r : Assignable) (from : ReflectType) (ins outs : List PartType) (variadic : Bool)
      (ctx : Value) (args : List Value) (s t : Store) (done : ℕ) (g : ℕ → Option ℕ) (p : Panic)
      (w : World)
      → validate from ≡ built (func ins outs variadic)
      → pkg.has_runtime ≡ true
      → workflow_globals pkg.globals pkg.workflow ctx s ≡ gives (done, g) t
      → run_workflow host n (running prog g) pkg args (top_world t) ≡ panic p w
      → (e : WorkflowPanicError) × Says p e
        × (((o : PartType) × (outs ≡ o ∷ [])
              × (dynamic_func r host n prog pkg outs (ctx ∷ args) s ≡ reported r e [] o))
            ⊎ ((z : PartType) × (o : PartType) × (outs ≡ z ∷ o ∷ [])
                × (dynamic_func r host n prog pkg outs (ctx ∷ args) s ≡ reported r e (z ∷ []) o)))
  unfolding dynamic_func dynamic_results
  dynamic_func-panicked r from ins outs variadic ctx args s t done g p w h a b k =
      let c = (validate_iff from (func ins outs variadic)).0 h in
      let same = outs_injective c.into in
      let f = interpret_workflow-panicked ctx args s t done g p w a b k in
      (
        classify p,
        classify-Says p,
        elim c.ends [
          | inl (o, i, j) ↦ inl (o, same ∙ i, rw (same ∙ i, f) (made_one r (classify p) o))
          | inr (z, o, i, j) ↦ inr (z, o, same ∙ i, rw (same ∙ i, f) (made_two r (classify p) z o))
        ],
      )
