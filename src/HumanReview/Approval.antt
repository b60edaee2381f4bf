-- ===== src/HumanReview/Approval.antt =====
-- Which runs `ensure_can_approve` of core/human_review.py admits.
use ghost_busters.Prelude.{
  Bool, true, false, not, ◌&&◌, ◌≡◌, refl, ◌↔◌, Option, none, some, any, is_none, arith,
}
use ghost_busters.Model.{
  RunStatus, WorkflowRun, DecisionRecord, is_remediation, is_critical_failure, MockPullRequest,
}
use ghost_busters.Result.{ok}
use ghost_busters.HumanReview.{same_status, ensure_can_approve, pending_decision}

-- A decision that a human may approve: a remediation that the policy allows with an approval and that
-- no critical finding speaks against.
pub record IsApprovable (run : WorkflowRun) (decision : DecisionRecord) : Type 0 where
  pub pending : run.status ≡ RunStatus.pending_human_review
  pub decided : run.decision_record ≡ some decision
  pub no_pr : run.mock_pr ≡ none
  pub allowed : decision.policy_result.allowed ≡ true
  pub approval : decision.policy_result.requires_human_approval ≡ true
  pub remediation : is_remediation decision.preferred_action ≡ true
  pub uncontested : any is_critical_failure decision.verifier_findings ≡ false

pub same_status-pending :
    (s : RunStatus)
    → same_status s RunStatus.pending_human_review ≡ true
    → s ≡ RunStatus.pending_human_review
same_status-pending s h = ground arith

is_none-eq : (o : Option MockPullRequest) → is_none o ≡ true → o ≡ none
is_none-eq none h = refl
is_none-eq (some _) h = cc

pending_decision-some :
    (run : WorkflowRun) (d : DecisionRecord)
    → pending_decision run ≡ some d
    → (run.status ≡ RunStatus.pending_human_review) × (run.decision_record ≡ some d)
pending_decision-some run d h = ground (arith, same_status-pending run.status)

not-false : (b : Bool) → not b ≡ true → b ≡ false
not-false b h = ground arith

fresh_run :
    (run : WorkflowRun)
    → (is_none run.mock_pr && not (same_status run.status RunStatus.pr_created)) ≡ true
    → run.mock_pr ≡ none
fresh_run run h = is_none-eq run.mock_pr (ground arith)

pub ensure_can_approve_sound :
    (run : WorkflowRun) (d : DecisionRecord) → ensure_can_approve run ≡ ok d → IsApprovable run d
unfolding ensure_can_approve
ensure_can_approve_sound run d h = record {
  pending = ground (arith, same_status-pending run.status);
  decided = ground arith;
  no_pr = ground arith;
  allowed = ground arith;
  approval = ground arith;
  remediation = ground arith;
  uncontested = ground arith;
}

ensure_can_approve_complete :
    (run : WorkflowRun) (d : DecisionRecord) → IsApprovable run d → ensure_can_approve run ≡ ok d
unfolding ensure_can_approve
ensure_can_approve_complete run d h =
    rw (h.pending, h.decided, h.no_pr, h.allowed, h.approval, h.remediation, h.uncontested) refl

-- A run passes the approval check with a decision exactly when it waits for a review of that decision,
-- has no simulated pull request yet, the policy allows the decision and asks for an approval of it, it
-- is a downsizing or a scheduling, and none of its findings is a critical failure.
pub ensure_can_approve_iff :
    (run : WorkflowRun) (d : DecisionRecord) → (ensure_can_approve run ≡ ok d) ↔ IsApprovable run d
ensure_can_approve_iff run d = (ensure_can_approve_sound run d, ensure_can_approve_complete run d)
