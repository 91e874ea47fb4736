-- ===== src/Tests/Contexts.antt =====
-- Contexts over an SDK whose context is the error that it has.
use temporal_determinizer.Prelude.{ℕ, ◌≡◌, refl, true, Option, none, some}
use temporal_determinizer.Contexts.{
  ContextError, go_deadline_exceeded, workflow_canceled, other, GoContext, Sdk, CombinedContext,
  or_else, with_go_context, err, cancelled, runs, State, then, done, entire_workflow_done, cancels,
  cancelling, ended, store_error,
}
use temporal_determinizer.Contexts.Errors.{IsCancelling, IsDone, err-ended}

abbrev small_sdk : Sdk ℕ ℕ (Option ContextError)
small_sdk = record {
  deadline = λ w. (5, true);
  err = λ w. w;
  value = λ w k. none;
  with_cancel = λ w. w;
  cancel = λ w. or_else w (some workflow_canceled);
}

cancels_lem :
    (w : Option ContextError)
    → w ≡ none
    → or_else w (some workflow_canceled) ≡ some workflow_canceled
cancels_lem w h = rw h refl

keeps_lem :
    (w : Option ContextError) (e : ContextError)
    → w ≡ some e
    → or_else w (some workflow_canceled) ≡ some e
keeps_lem w e h = rw h refl

small_IsCancelling : IsCancelling small_sdk
small_IsCancelling = record { inherits = λ w. refl; cancels = cancels_lem; keeps = keeps_lem }

-- a Go context past its deadline
abbrev late : GoContext ℕ ℕ
late = record { deadline = (3, true); err = some go_deadline_exceeded; value = λ k. some k }

abbrev running : Option ContextError → CombinedContext ℕ ℕ (Option ContextError)
running w = record { workflow_context = w; go_context = late; go_context_done_err = none }

abbrev called_off : State small_sdk
called_off = record { combined = running none; phase = cancelling }

abbrev stopped : State small_sdk
stopped = record { combined = cancelled small_sdk (running none); phase = ended }

started : with_go_context small_sdk (some none) late ≡ runs (running none)
unfolding with_go_context
started = refl

err-ended_example : IsDone small_sdk small_IsCancelling (err small_sdk stopped.combined)
err-ended_example =
    err-ended small_sdk small_IsCancelling none late (running none) stopped started
      (then _ called_off stopped (entire_workflow_done (running none))
        (then called_off stopped stopped (cancels (running none)) (done stopped)))
      refl

-- the workflow context fails first, then the goroutine sees the end of the Go context
abbrev failed : CombinedContext ℕ ℕ (Option ContextError)
failed = running (some (other 1))

abbrev stored : CombinedContext ℕ ℕ (Option ContextError)
stored = store_error small_sdk go_deadline_exceeded failed
