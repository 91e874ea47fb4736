-- ===== src/Activities.antt =====
-- workflow/workflow.go: activities and futures as workflow code calls them. The SDK's contexts,
-- futures and loggers are a parameter; a call gets the context that withGoContext combines.
use temporal_determinizer.Prelude.{ℕ, Bool, List, Option}
use temporal_determinizer.Contexts.{
  Sdk, GoContext, CombinedContext, InRuntime, not_in_runtime, runs, workflow_context,
  with_go_context,
}

-- the options besides the activity; workflow.ActivityOptions has the same
pub record ActivityOptions (R : Type 0) : Type 0 where
  pub task_queue : List ℕ
  pub schedule_to_close_timeout : ℕ
  pub schedule_to_start_timeout : ℕ
  pub start_to_close_timeout : ℕ
  pub heartbeat_timeout : ℕ
  pub wait_for_cancellation : Bool
  pub activity_id : List ℕ
  pub retry_policy : R

-- go.temporal.io/sdk/workflow: C are its contexts, F its futures, A activities, V values, L loggers
-- and E errors
pub record ActivitySdk (W C F A V L R E : Type 0) : Type 0 where
  pub logger : W → L
  pub with_activity_options : C → ActivityOptions R → C
  pub execute_activity : C → A → List V → F
  pub get : F → C → Option E × V
  pub is_ready : F → Bool

module _ {K V W C F A L R E : Type 0} (sdk : Sdk K V W) (api : ActivitySdk W C F A V L R E)
    (as_context : CombinedContext K V W → C) where
  unfoldable pub log : Option W → InRuntime L
  unfolding workflow_context
  log current = elim (workflow_context current) [
    | not_in_runtime ↦ not_in_runtime
    | runs w ↦ runs (api.logger w)
  ]

  -- withGoContext(ctx), as a workflow.Context
  abbrev combined : Option W → GoContext K V → (C → InRuntime F) → InRuntime F
  combined current ctx f = elim (with_go_context sdk current ctx) [
    | not_in_runtime ↦ not_in_runtime
    | runs c ↦ f (as_context c)
  ]

  unfoldable pub execute_activity :
      Option W → GoContext K V → ActivityOptions R → A → List V → InRuntime F
  unfolding with_go_context
  execute_activity current ctx opts activity args =
      combined current ctx
        λ c. runs (api.execute_activity (api.with_activity_options c opts) activity args)

  -- future.Get and future.IsReady
  unfoldable pub future_get : Option W → F → GoContext K V → InRuntime (Option E × V)
  unfolding with_go_context
  future_get current f ctx = elim (with_go_context sdk current ctx) [
    | not_in_runtime ↦ not_in_runtime
    | runs c ↦ runs (api.get f (as_context c))
  ]

  unfoldable pub future_is_ready : F → Bool
  future_is_ready f = api.is_ready f

-- panic(ErrNotInRuntime)
unfoldable pub proxy_activities : {R V : Type 0} → ActivityOptions R → V → InRuntime V
proxy_activities opts v = not_in_runtime
