-- ===== src/Contexts/Errors.antt =====
-- The error of a combined context over its life.
use temporal_determinizer.Prelude.{◌≡◌, refl, Option, none, some, Option-cases, inl, inr}
use temporal_determinizer.Contexts.{
  ContextError, workflow_canceled, GoContext, Sdk, CombinedContext, runs, with_go_context, err,
  or_else, translate, store_error, cancelled, State, Step, Steps, go_done, entire_workflow_done,
  go_ends, workflow_ends, done, then, cancels, waiting, ended,
}

module _ {K V W : Type 0} (sdk : Sdk K V W) where
  -- what the SDK documents of WithCancel: the new context has the error of its parent, and its cancel
  -- function sets the error to ErrCanceled unless there is one
  pub record IsCancelling : Type 0 where
    pub inherits : (w : W) → sdk.err (sdk.with_cancel w) ≡ sdk.err w
    pub cancels : (w : W) → sdk.err w ≡ none → sdk.err (sdk.cancel w) ≡ some workflow_canceled
    pub keeps : (w : W) (e : ContextError) → sdk.err w ≡ some e → sdk.err (sdk.cancel w) ≡ some e

  module _ (law : IsCancelling) where
    -- there is an error
    abbrev pub IsDone : Option ContextError → Type 0
    IsDone o = (e : ContextError) × (o ≡ some e)

    cancel-IsDone : (w : W) → IsDone (sdk.err (sdk.cancel w))
    cancel-IsDone w = elim (Option-cases (sdk.err w)) [
      | inl e ↦ (_, law.cancels w e)
      | inr (x, e) ↦ (x, law.keeps w x e)
    ]

    err-IsDone :
        (o : Option ContextError) {p : Option ContextError} → IsDone p → IsDone (or_else o p)
    err-IsDone none d = d
    err-IsDone (some e) d = (e, refl)

    ended_Step :
        (s t : State sdk)
        → Step sdk s t
        → (s.phase ≡ ended → IsDone (sdk.err s.combined.workflow_context))
        → t.phase ≡ ended
        → IsDone (sdk.err t.combined.workflow_context)
    unfolding cancelled
    ended_Step _ _ (go_done c e g) h i = cc
    ended_Step _ _ (entire_workflow_done c) h i = cc
    ended_Step _ _ (cancels c) h i = cancel-IsDone c.workflow_context
    ended_Step _ _ (go_ends c b e g) h i = h i
    ended_Step _ _ (workflow_ends c b w e g k) h i = (e, k)

    ended_Steps :
        (s t : State sdk)
        → Steps sdk s t
        → (s.phase ≡ ended → IsDone (sdk.err s.combined.workflow_context))
        → t.phase ≡ ended
        → IsDone (sdk.err t.combined.workflow_context)
    ended_Steps _ _ (done s) h = h
    ended_Steps _ _ (then s t u x r) h = ended_Steps t u r (ended_Step s t x h)

    -- However a context that withGoContext returned was run, when its goroutine has ended, Err has an
    -- error.
    pub err-ended :
        (w : W) (ctx : GoContext K V) (c : CombinedContext K V W) (t : State sdk)
        → with_go_context sdk (some w) ctx ≡ runs c
        → Steps sdk (record { combined = c; phase = waiting }) t
        → t.phase ≡ ended
        → IsDone (err sdk t.combined)
    unfolding err
    err-ended w ctx c t e r i =
        err-IsDone t.combined.go_context_done_err (ended_Steps _ t r (λ h. cc) i)

    -- When the Go context ends while neither an error is stored nor the workflow context has one, Err
    -- is the workflow's ErrCanceled afterwards, whichever error the Go context has.
    pub err-go_done :
        (c : CombinedContext K V W) (e : ContextError)
        → c.go_context_done_err ≡ none
        → sdk.err c.workflow_context ≡ none
        → err sdk (cancelled sdk (store_error sdk e c)) ≡ some workflow_canceled
    unfolding err cancelled store_error
    err-go_done c e h g = rw (g, h, law.cancels c.workflow_context g) refl

    -- When the Go context ends after the workflow context, Err changes from the error of the workflow
    -- context to that of the Go context.
    pub err-overridden :
        (c : CombinedContext K V W) (e x : ContextError)
        → c.go_context_done_err ≡ none
        → sdk.err c.workflow_context ≡ some x
        → (err sdk c ≡ some x)
          × (err sdk (cancelled sdk (store_error sdk e c)) ≡ some (translate e))
    unfolding err cancelled store_error
    err-overridden c e x h g = (rw (h, g) refl, rw g refl)

  -- what Err is once the goroutine has seen that the Go context ended with the error e, by the error
  -- that the workflow context had then
  abbrev pub ErrAfter : ContextError → Option ContextError → CombinedContext K V W → Type 0
  ErrAfter e none c = err sdk c ≡ sdk.err c.workflow_context
  ErrAfter e (some x) c = err sdk c ≡ some (translate e)
