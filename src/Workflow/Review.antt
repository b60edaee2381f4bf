-- ===== src/Workflow/Review.antt =====
-- `review_run` and `cancel_goal` of core/workflow_service.py.
pub mod Outcome
pub mod Stored
use ghost_busters.Prelude.{
  ℕ, ◌+◌, String, Bool, true, false, not, ◌&&◌, ◌||◌, Option, none, some, List, [], ◌∷◌, length,
  if◌then◌else◌, ◌==◌,
}
use ghost_busters.Model.{
  RunStatus, WorkflowRun, Actor, OrganizationRole, ReviewAction, HumanReviewRecord,
  HumanReviewRequest,
}
use ghost_busters.Result.{Result, ok, ◌>>=◌, ◌>>◌, require}
use ghost_busters.Audit.{append_audit_event}
use ghost_busters.HumanReview.{same_status, status_in}
use ghost_busters.RunStore.{RunStore, get, list, update}
use ghost_busters.Workflow.Decide.{Services}
use ghost_busters.Workflow.Actions.{
  approve, reject, revoke_approval, reopen_case, request_evidence, add_context, modify,
}

-- Who reviews, as the route's authentication says.
pub record Reviewer : Type 0 where
  pub organization_id : ℕ
  pub user_id : Option ℕ
  pub email : Option String
  pub role : Option OrganizationRole

abbrev pub review_record : ℕ → HumanReviewRequest → Reviewer → HumanReviewRecord
review_record now request reviewer = record {
  reviewer = request.reviewer;
  reviewer_user_id = reviewer.user_id;
  reviewer_email = reviewer.email;
  reviewer_role = reviewer.role;
  organization_id = reviewer.organization_id;
  action = request.action;
  comment = request.comment;
  requested_sources = request.requested_sources;
  modified_action = request.modified_action;
  human_context = request.human_context;
  created_at = now;
}

abbrev pub is_approve : ReviewAction → Bool
is_approve ReviewAction.approve = true
is_approve _ = false

-- `expected_version is not None and current.version != expected_version`
abbrev pub is_stale_version : Option ℕ → WorkflowRun → Bool
is_stale_version none run = false
is_stale_version (some version) run = not (run.version == version)

module _ (services : Services) (now pr_number : ℕ) where
  unfoldable pub dispatch :
      ReviewAction → HumanReviewRequest → HumanReviewRecord → WorkflowRun → Result WorkflowRun
  dispatch ReviewAction.approve request review run = approve services now pr_number review run
  dispatch ReviewAction.reject request review run = reject services now review run
  dispatch ReviewAction.request_evidence request review run =
      request_evidence services now request review run
  dispatch ReviewAction.add_context request review run = add_context services now request review run
  dispatch ReviewAction.modify request review run = modify services now request review run
  dispatch ReviewAction.revoke_approval request review run = revoke_approval services now review run
  dispatch ReviewAction.reopen_case request review run = reopen_case services now review run
  dispatch ReviewAction.add_follow_up_context request review run =
      add_context services now request review run

  -- the updater that the store applies to its copy
  unfoldable pub apply_review :
      HumanReviewRequest → Reviewer → Option ℕ → WorkflowRun → Result WorkflowRun
  apply_review request reviewer expected current = do
    require (not (is_stale_version expected current))
        "Case version is stale. Refresh and try again."
    reviewed ← dispatch request.action request (review_record now request reviewer) current
    ok (record reviewed { updated_at = now })

-- An approval of a run whose pull request is there answers that run and changes nothing.
unfoldable pub review_run :
    Services
    → ℕ
    → ℕ
    → HumanReviewRequest
    → Reviewer
    → Option ℕ
    → RunStore
    → Result ((WorkflowRun × Bool) × RunStore)
unfolding get list update
review_run services now run_id request reviewer expected store = do
  existing ← get run_id (some reviewer.organization_id) store
  if is_approve request.action && same_status existing.status RunStatus.pr_created
      then ok ((existing, false), store)
      else (do
        updated ←
            update run_id
              (apply_review services now (length (list none store) + 100) request reviewer expected)
              (some reviewer.organization_id) store
        ok ((updated.0, is_approve request.action), updated.1))

abbrev cancel : ℕ → WorkflowRun → Result WorkflowRun
cancel now run = do
  require
      (not (
        status_in run.status
          (RunStatus.approved ∷ RunStatus.pr_created ∷ RunStatus.remediation_pr_created ∷ [])))
      "Completed remediation decisions cannot be canceled."
  ok (
      append_audit_event now "failed_safely" Actor.system
        "Goal canceled safely; no infrastructure mutation was performed."
        (record run {
          status = RunStatus.canceled;
          stop_reason =
              some "Canceled by an authenticated user before any infrastructure mutation.";
          final_outcome = some "canceled_safely";
        }))

unfoldable pub cancel_goal : ℕ → ℕ → ℕ → RunStore → Result (WorkflowRun × RunStore)
unfolding update
cancel_goal now run_id organization store = update run_id (cancel now) (some organization) store
