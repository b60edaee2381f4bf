-- ===== src/Tests/Reviews.antt =====
-- The theorems on reviews, the store, retries and pull requests, applied to a run that waits.
use ghost_busters.Prelude.{
  ◌≤◌, Bool, true, false, none, some, [], ◌∷◌, arith, map, ◌≡◌, ◌↔◌, ◌⊎◌, refl,
}
use ghost_busters.Prelude.Json.{get as get_field}
use ghost_busters.Model.{
  RunStatus, ReviewAction, WorkflowRun, DecisionRecord, RealPullRequest, ToolExecutionRecord,
}
use ghost_busters.Result.{Result, ok, err}
use ghost_busters.EvidenceUtils.{active_dependencies, utilization_values, monthly_savings}
use ghost_busters.AlternativeGenerator.{is_production}
use ghost_busters.PolicyEngine.{evaluate_policy, blocking, context_reasons}
use ghost_busters.ConftestPolicy.{evaluate, ownership_known}
use ghost_busters.Confidence.{calculate_confidence}
use ghost_busters.Verifier.{run_verifier}
use ghost_busters.Audit.{append_audit_event}
use ghost_busters.Audit.Numbering.{IsExtended}
use ghost_busters.HumanReview.{ensure_can_approve, ensure_can_reject, ensure_can_modify}
use ghost_busters.HumanReview.Approval.{IsApprovable, ensure_can_approve_iff}
use ghost_busters.MockPr.{create_mock_pull_request}
use ghost_busters.RunStore.{RunStore, update, create, find_by_key_unlocked, insert}
use ghost_busters.RunStore.Keys.{IsKeyed, create-IsKeyed}
use ghost_busters.RunStore.Laws.{IsUpdated, update-IsUpdated}
use ghost_busters.Retry.{execute, attempts_from, attempt_once, classify, http_failure}
use ghost_busters.Retry.Bounds.{execute-bound, execute-IsAnswer, IsAnswer}
use ghost_busters.Investigator.{collect_evidence, ToolRegistry}
use ghost_busters.Investigator.Coverage.{collect_evidence-names}
use ghost_busters.Workflow.Decide.{resource_for_run, policy_on}
use ghost_busters.ReasoningEngine.{find_action}
use ghost_busters.Workflow.Decide.Reviewable.{IsReviewable}
use ghost_busters.Workflow.Trail.{policy_audit}
use ghost_busters.Workflow.Actions.{approve, reject, modify}
use ghost_busters.Workflow.Actions.Step.{IsStep}
use ghost_busters.Workflow.Review.{apply_review, dispatch, review_run}
use ghost_busters.Workflow.Review.Outcome.{
  apply_review-IsStep, apply_review-IsReviewable, apply_review-IsExtended, apply_review-mock_pr,
}
use ghost_busters.Workflow.Review.Stored.{IsStored, review_run-IsStored, review_run-again}
use ghost_busters.Tests.Data.{
  services, pending_run, store, asks, ada, no_decision, instance, tools, plan, retries, quick,
  flaky, utilization,
}

ensure_can_approve_iff_example :
    (ensure_can_approve pending_run ≡ ok no_decision) ↔ IsApprovable pending_run no_decision
ensure_can_approve_iff_example = ensure_can_approve_iff pending_run no_decision

abbrev answer : Result WorkflowRun → WorkflowRun
answer (ok run) = run
answer (err _) = pending_run

abbrev rejected : WorkflowRun
rejected = answer (apply_review services 9 100 (asks ReviewAction.reject) ada none pending_run)

apply_review-IsStep_example :
    IsStep RunStatus.pending_human_review ReviewAction.reject RunStatus.rejected
unfolding apply_review dispatch reject ensure_can_reject
apply_review-IsStep_example =
    apply_review-IsStep services 9 100 (asks ReviewAction.reject) ada none pending_run rejected refl

apply_review-IsExtended_example : IsExtended pending_run rejected
unfolding apply_review dispatch reject ensure_can_reject
apply_review-IsExtended_example =
    apply_review-IsExtended services 9 100 (asks ReviewAction.reject) ada none pending_run rejected
      refl

abbrev approved : WorkflowRun
approved = answer (apply_review services 9 101 (asks ReviewAction.approve) ada none pending_run)

apply_review-mock_pr_example :
    (approved.mock_pr ≡ none)
    ⊎ ((ReviewAction.approve ≡ ReviewAction.approve) × (pending_run.mock_pr ≡ none))
unfolding apply_review dispatch approve ensure_can_approve resource_for_run create_mock_pull_request
    append_audit_event
apply_review-mock_pr_example =
    apply_review-mock_pr services 9 101 (asks ReviewAction.approve) ada (some 1) pending_run
      approved refl

abbrev modified : WorkflowRun
modified = answer (apply_review services 9 100 (asks ReviewAction.modify) ada none pending_run)

apply_review-IsReviewable_example :
    (d : DecisionRecord) × (modified.decision_record ≡ some d) × IsReviewable d
unfolding apply_review dispatch modify ensure_can_modify find_action resource_for_run policy_audit
    append_audit_event policy_on evaluate evaluate_policy blocking is_production ownership_known
    calculate_confidence active_dependencies utilization_values monthly_savings run_verifier
    context_reasons
apply_review-IsReviewable_example =
    apply_review-IsReviewable services 9 100 (asks ReviewAction.modify) ada none pending_run
      modified refl refl

abbrev found : Result ((WorkflowRun × Bool) × RunStore) → (WorkflowRun × Bool) × RunStore
found (ok r) = r
found (err _) = ((pending_run, false), store)

abbrev stored : (WorkflowRun × Bool) × RunStore
stored = found (review_run services 9 7 (asks ReviewAction.approve) ada (some 1) store)

review_run-IsStored_example :
    IsStored services 9 7 (asks ReviewAction.approve) ada (some 1) store stored.0.0 stored.1
unfolding review_run apply_review dispatch approve ensure_can_approve resource_for_run
    create_mock_pull_request append_audit_event
review_run-IsStored_example =
    review_run-IsStored services 9 7 (asks ReviewAction.approve) ada (some 1) store stored.0.0
      stored.0.1 stored.1 refl

review_run-again_example :
    review_run services 10 7 (asks ReviewAction.approve) ada none stored.1
    ≡ ok ((stored.0.0, false), stored.1)
unfolding review_run apply_review dispatch approve ensure_can_approve resource_for_run
    create_mock_pull_request append_audit_event
review_run-again_example =
    review_run-again services 9 7 (asks ReviewAction.approve) ada (some 1) store stored.0.0
      stored.0.1 stored.1 refl services 10 (asks ReviewAction.approve) none refl refl

abbrev change : WorkflowRun → Result WorkflowRun
change run = ok (record run { goal = "spend" })

abbrev changed : WorkflowRun
changed = record pending_run { goal = "spend"; version = 2 }

update-IsUpdated_example :
    (current : WorkflowRun) × IsUpdated 7 change store
      (record { runs = (7, changed) ∷ [] })
      current
      changed
    × (current.organization_id ≡ 1)
unfolding update
update-IsUpdated_example =
    update-IsUpdated 7 1 change store (record { runs = (7, changed) ∷ [] }) changed refl

execute-bound_example : (execute retries "jira" flaky true).result.attempts ≤ 3
execute-bound_example = execute-bound retries "jira" flaky true

execute-IsAnswer_example :
    IsAnswer retries "jira" flaky
      (utilization ∷ [])
      (execute retries "jira" flaky true).result.attempts
unfolding execute attempts_from attempt_once classify http_failure
execute-IsAnswer_example = execute-IsAnswer retries "jira" flaky true (utilization ∷ []) refl

abbrev registry : ToolRegistry
registry = record { names = "pricing" ∷ []; collect = λ tool. quick }

collect_evidence-names_example :
    map
      (λ (r : ToolExecutionRecord). r.tool_name)
      (collect_evidence 9 registry retries plan instance).records
    ≡ tools
collect_evidence-names_example = collect_evidence-names 9 registry retries plan instance

abbrev opened : Result RealPullRequest → RealPullRequest
opened (ok pr) = pr
opened (err _) = record {
  repository = "";
  number = 0;
  url = "";
  branch = "";
  base_branch = "";
  title = "";
  created_at = 0;
  idempotency_key = "";
  reused = false;
}

abbrev first_run : WorkflowRun
first_run = record pending_run { idempotency_key = some "delivery 1" }

abbrev second_run : WorkflowRun
second_run = record pending_run { id = 8; idempotency_key = some "delivery 2" }

abbrev one_key : RunStore
one_key = record { runs = (7, first_run) ∷ [] }

one_key-IsKeyed : IsKeyed one_key
one_key-IsKeyed key n = ground arith

create-IsKeyed_example : IsKeyed (record { runs = (7, first_run) ∷ (8, second_run) ∷ [] })
unfolding create find_by_key_unlocked insert
create-IsKeyed_example =
    create-IsKeyed second_run second_run one_key
      (record { runs = (7, first_run) ∷ (8, second_run) ∷ [] }) refl one_key-IsKeyed
