-- ===== src/Globals.antt =====
-- The globals of a program, as Interpret of interpreter/internal/interp/interp.go and
-- InterpretWorkflow of temporal.go set them up.
use temporal_determinizer.Prelude.{ℕ, List, [], ◌∷◌, Option, none, some}
use temporal_determinizer.Types.{GoType}
use temporal_determinizer.Value.{
  ok, Value, Result, fault, message, runtime, type_assertion, nil_dereference, no_global,
  no_workflow_package,
}
use temporal_determinizer.Heap.{alloc, write, read}
use temporal_determinizer.Memory.{zero}
use temporal_determinizer.Store.{S, pure, throw, ◌>>=◌, ◌>>◌, pure_of, on_heap, put}
use temporal_determinizer.Program.{Program}

-- the globals of all packages, with the types of their cells
abbrev pub Globals : Type 0
Globals = List (ℕ × GoType)

-- cell := zero(deref(v.Type())); i.globals[v] = &cell
unfoldable pub init_globals : Globals → (ℕ → Option ℕ) → S (ℕ → Option ℕ)
init_globals [] g = pure g
init_globals ((i, t) ∷ gs) g = do
  v ← on_heap (zero t)
  a ← on_heap (alloc 1)
  on_heap (write a v)
  init_globals gs (put g i (some a))

-- setGlobal; pkg.Var gives no global for a name that the package does not declare
unfoldable pub set_global : Program → Option ℕ → Value → S (Unit {0})
set_global prog none v = throw (message no_global)
set_global prog (some g) v = elim (prog.globals g) [
  | some a ↦ on_heap (write a v)
  | none ↦ throw (message no_global)
]

-- the two globals of the package workflow: currentWorkflowContext and entireWorkflowDoneCh
pub record WorkflowGlobals : Type 0 where
  pub current_workflow_context : ℕ
  pub entire_workflow_done_ch : ℕ

-- the globals of a workflow's program, with the context in a cell of its own, and the global of the
-- channel
unfoldable pub workflow_globals : Globals → Option WorkflowGlobals → Value → S (ℕ × (ℕ → Option ℕ))
unfolding init_globals
workflow_globals gs none ctx =
    init_globals gs (λ g. none) >>= λ _. throw (message no_workflow_package)
workflow_globals gs (some w) ctx = do
  g ← init_globals gs (λ i. none)
  a ← on_heap (alloc 1)
  on_heap (write a ctx)
  pure (w.entire_workflow_done_ch, put g w.current_workflow_context (some a))

-- the Go channels in which the code may box a channel of the program; make_chan and zero make each as
-- a chan value, whatever its type is in the program
pub data GoChan : Type 0 where
  of_value of_struct : GoChan

abbrev pub boxed_chan : Value → Option GoChan
boxed_chan (Value.chan c) = some of_value
boxed_chan _ = none

-- v.(chan struct{})
unfoldable pub as_struct_chan : Value → Result (Unit {0})
as_struct_chan v = elim (boxed_chan v) [
  | some of_struct ↦ ok tt
  | some of_value ↦ fault type_assertion
  | none ↦ fault type_assertion
]

-- close((*i.globals[entireWorkflowDoneCh]).(chan struct{}))
unfoldable pub close_done : Program → ℕ → S (Unit {0})
unfolding as_struct_chan
close_done prog g = elim (prog.globals g) [
  | none ↦ throw (runtime nil_dereference)
  | some a ↦ do v ← on_heap (read a); pure_of (as_struct_chan v)
]
