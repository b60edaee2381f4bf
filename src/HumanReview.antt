-- ===== src/HumanReview.antt =====
-- core/human_review.py: which reviews a run admits.
pub mod Approval
use ghost_busters.Prelude.{
  ℕ, String, Bool, true, false, not, ◌&&◌, ◌||◌, Option, none, some, List, [], ◌∷◌, any, is_none,
  is_some, if◌then◌else◌, ◌==◌,
}
use ghost_busters.Prelude.Text.{◌==◌ as text_eq}
use ghost_busters.Model.{
  RunStatus, WorkflowRun, DecisionRecord, HumanReviewRequest, Action, same_action, is_remediation,
  is_critical_failure,
}
use ghost_busters.Result.{Result, ok, conflict, ◌>>=◌, ◌>>◌, require, or_raise}

abbrev rank : RunStatus → ℕ
rank RunStatus.created = 0
rank RunStatus.planning = 1
rank RunStatus.investigating = 2
rank RunStatus.verifying = 3
rank RunStatus.blocked = 4
rank RunStatus.abstained = 5
rank RunStatus.keep = 6
rank RunStatus.pending_human_review = 7
rank RunStatus.needs_more_evidence = 8
rank RunStatus.approved = 9
rank RunStatus.rejected = 10
rank RunStatus.approval_revoked = 11
rank RunStatus.reopened = 12
rank RunStatus.remediation_proposal_prepared = 13
rank RunStatus.remediation_pr_created = 14
rank RunStatus.pr_created = 15
rank RunStatus.failed_safely = 16
rank RunStatus.canceled = 17

-- `run.status == status`
abbrev pub same_status : RunStatus → RunStatus → Bool
same_status a b = rank a == rank b

-- `run.status in {..}`
abbrev pub status_in : RunStatus → List RunStatus → Bool
status_in s [] = false
status_in s (t ∷ ts) = same_status s t || status_in s ts

-- the decision of a run that waits for a review
abbrev pending_decision : WorkflowRun → Option DecisionRecord
pending_decision run =
    if same_status run.status RunStatus.pending_human_review then run.decision_record else none

unfoldable pub ensure_can_approve : WorkflowRun → Result DecisionRecord
ensure_can_approve run = do
  decision ←
      or_raise (pending_decision run) (conflict "Only runs pending human review can be approved.")
  require (is_none run.mock_pr && not (same_status run.status RunStatus.pr_created))
      "This run already has a simulated PR."
  require decision.policy_result.allowed "Policy does not allow approval."
  require decision.policy_result.requires_human_approval "This run does not require human approval."
  require (is_remediation decision.preferred_action)
      "Only downsize or schedule recommendations can be approved."
  require (not (any is_critical_failure decision.verifier_findings))
      "Critical verifier failure prevents approval."
  ok decision

abbrev pub open_for_change : WorkflowRun → Bool
open_for_change run =
    status_in run.status (RunStatus.pending_human_review ∷ RunStatus.needs_more_evidence ∷ [])

unfoldable pub ensure_can_reject : WorkflowRun → Result (Unit {0})
ensure_can_reject run =
    require (open_for_change run) "Only pending or evidence-needed runs can be rejected."

unfoldable pub ensure_can_request_evidence : WorkflowRun → Result DecisionRecord
ensure_can_request_evidence run = do
  require
      (status_in run.status
        (RunStatus.pending_human_review ∷ RunStatus.needs_more_evidence ∷ RunStatus.abstained ∷ []))
      "Evidence can only be requested for pending, evidence-needed, or abstained runs."
  or_raise run.decision_record (conflict "Run has no decision record.")

-- `not text` for an optional text
abbrev pub is_blank : Option String → Bool
is_blank none = true
is_blank (some s) = text_eq s ""

unfoldable pub ensure_can_add_context : WorkflowRun → HumanReviewRequest → Result DecisionRecord
ensure_can_add_context run request = do
  require (not (is_blank request.human_context)) "Human context is required."
  require (not (status_in run.status (RunStatus.pr_created ∷ RunStatus.rejected ∷ [])))
      "Human context cannot be added in this state."
  or_raise run.decision_record (conflict "Run has no decision record.")

-- The decision to modify, with the action that it is modified to.
unfoldable pub ensure_can_modify :
    WorkflowRun → HumanReviewRequest → Result (DecisionRecord × Action)
ensure_can_modify run request = do
  require (open_for_change run) "Only pending or evidence-needed runs can be modified."
  action ← or_raise request.modified_action (conflict "modified_action is required.")
  require (not (same_action action Action.blocked)) "Cannot modify to a blocked action."
  decision ← or_raise run.decision_record (conflict "Run has no decision record.")
  ok (decision, action)
