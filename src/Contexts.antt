-- ===== src/Contexts.antt =====
-- workflow/context.go: a workflow context combined with a Go context, as calls of the workflow API
-- receive it. Times are numbers; a context is read through its methods.
-- The SDK's contexts are a parameter; the goroutine that withGoContext starts is a step relation,
-- with the mutex's critical section as one step and cancel() as another.
pub mod Deadline
pub mod Errors
use temporal_determinizer.Prelude.{
  ℕ, ◌≡◌, ◌≢◌, Bool, true, false, Option, none, some, ltb, if◌then◌else◌,
}

-- the errors that the two packages tell apart, and any other
pub data ContextError : Type 0 where
  go_canceled go_deadline_exceeded workflow_canceled workflow_deadline_exceeded : ContextError
  other : ℕ → ContextError

-- what Deadline returns: a time, and whether there is one
abbrev pub Limit : Type 0
Limit = ℕ × Bool

pub record GoContext (K V : Type 0) : Type 0 where
  pub deadline : Limit
  pub err : Option ContextError
  pub value : K → Option V

-- the contexts of go.temporal.io/sdk/workflow
pub record Sdk (K V W : Type 0) : Type 0 where
  pub deadline : W → Limit
  pub err : W → Option ContextError
  pub value : W → K → Option V
  pub with_cancel : W → W
  pub cancel : W → W

pub record CombinedContext (K V W : Type 0) : Type 0 where
  pub workflow_context : W
  pub go_context : GoContext K V
  pub go_context_done_err : Option ContextError

-- ErrNotInRuntime, with which workflowContext panics, or the result
pub data InRuntime (A : Type 0) : Type 0 where
  not_in_runtime : InRuntime A
  runs : A → InRuntime A

unfoldable pub workflow_context : {W : Type 0} → Option W → InRuntime W
workflow_context none = not_in_runtime
workflow_context (some w) = runs w

-- the workflow's equivalent of an error of the Go context
unfoldable pub translate : ContextError → ContextError
translate go_canceled = workflow_canceled
translate go_deadline_exceeded = workflow_deadline_exceeded
translate e = e

-- the deadline of two
abbrev pub earliest : Limit → Limit → Limit
earliest (d₁, false) l = l
earliest (d₁, true) (d₂, false) = (d₁, true)
earliest (d₁, true) (d₂, true) = if ltb d₁ d₂ then (d₁, true) else (d₂, true)

-- an error to store, if the first one is set, else the old one
abbrev pub if_set : Option ContextError → ContextError → Option ContextError → Option ContextError
if_set none e old = old
if_set (some x) e old = some e

abbrev pub or_else : {A : Type 0} → Option A → Option A → Option A
or_else none b = b
or_else (some a) b = some a

module _ {K V W : Type 0} (sdk : Sdk K V W) where
  -- the context that withGoContext returns, on currentWorkflowContext
  unfoldable pub with_go_context : Option W → GoContext K V → InRuntime (CombinedContext K V W)
  unfolding workflow_context
  with_go_context current ctx = elim (workflow_context current) [
    | not_in_runtime ↦ not_in_runtime
    | runs w ↦ runs (record {
      workflow_context = sdk.with_cancel w;
      go_context = ctx;
      go_context_done_err = none;
    })
  ]

  unfoldable pub deadline : CombinedContext K V W → Limit
  deadline c = earliest (sdk.deadline c.workflow_context) c.go_context.deadline

  unfoldable pub err : CombinedContext K V W → Option ContextError
  err c = or_else c.go_context_done_err (sdk.err c.workflow_context)

  unfoldable pub value : CombinedContext K V W → K → Option V
  value c k = or_else (c.go_context.value k) (sdk.value c.workflow_context k)

  -- what the goroutine stores when ctx.Done() is ready, for the error e of the Go context
  unfoldable pub store_error : ContextError → CombinedContext K V W → CombinedContext K V W
  unfolding translate
  store_error e c = record c {
    go_context_done_err = if_set (sdk.err c.workflow_context) (translate e) c.go_context_done_err;
  }

  unfoldable pub cancelled : CombinedContext K V W → CombinedContext K V W
  cancelled c = record c { workflow_context = sdk.cancel c.workflow_context }

  -- where the goroutine is: at its select, before cancel(), or behind it
  pub data Phase : Type 0 where
    waiting cancelling ended : Phase

  pub record State : Type 0 where
    pub combined : CombinedContext K V W
    pub phase : Phase

  -- the two cases of the goroutine's select, its cancel(), and the ends of the two contexts from outside
  pub data Step : State → State → Type 0 where
    go_done :
        (c : CombinedContext K V W) (e : ContextError)
        → c.go_context.err ≡ some e
        → Step
            (record { combined = c; phase = waiting })
            (record { combined = store_error e c; phase = cancelling })
    entire_workflow_done :
        (c : CombinedContext K V W)
        → Step
            (record { combined = c; phase = waiting })
            (record { combined = c; phase = cancelling })
    cancels :
        (c : CombinedContext K V W)
        → Step
            (record { combined = c; phase = cancelling })
            (record { combined = cancelled c; phase = ended })
    go_ends :
        (c : CombinedContext K V W) (b : Phase) (e : ContextError)
        → c.go_context.err ≡ none
        → Step
            (record { combined = c; phase = b })
            (record {
              combined = record c { go_context = record c.go_context { err = some e } };
              phase = b;
            })
    workflow_ends :
        (c : CombinedContext K V W) (b : Phase) (w : W) (e : ContextError)
        → sdk.err c.workflow_context ≡ none
        → sdk.err w ≡ some e
        → Step
            (record { combined = c; phase = b })
            (record { combined = record c { workflow_context = w }; phase = b })

  pub data Steps : State → State → Type 0 where
    done : (s : State) → Steps s s
    then : (s t u : State) → Step s t → Steps t u → Steps s u
