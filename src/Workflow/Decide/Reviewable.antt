-- ===== src/Workflow/Decide/Reviewable.antt =====
-- Which decisions of core/workflow_service.py come to a human review.
use ghost_busters.Prelude.{
  ℕ, String, Bool, true, ◌&&◌, ◌≡◌, ◌∙◌, Option, none, some, List, arith, first-holds,
}
use mathlib.Core.Path.{subst}
use ghost_busters.Model.{
  RunStatus, FinalStatus, Action, same_action, is_remediation, Alternative, DecisionRecord,
  EvidenceItem, ConflictRecord, MissingEvidenceRecord, PolicyResult, TerraformResourceChange,
  ToolExecutionRecord,
}
use ghost_busters.PolicyEngine.Shape.{IsConsistent}
use ghost_busters.ConftestPolicy.{ConftestPolicyEvaluator}
use ghost_busters.ConftestPolicy.Outcome.{evaluate-IsConsistent}
use ghost_busters.ReasoningEngine.{select_preferred, find_action}
use ghost_busters.ReasoningEngine.Guarantee.{final_status_of-ready}
use ghost_busters.ReasoningEngine.Selection.{same_action-eq}
use ghost_busters.Result.{ok}
use ghost_busters.Workflow.Decide.{
  map_final_status, policy_on, policy, redecided, decide_on, recalculate_decision, alternatives,
  hard_block,
}

-- A decision that waits for a review: a remediation that the policy allows, with a human approval.
pub record IsReviewable (decision : DecisionRecord) : Type 0 where
  pub allowed : decision.policy_result.allowed ≡ true
  pub approval : decision.policy_result.requires_human_approval ≡ true
  pub remediation : is_remediation decision.preferred_action ≡ true

pub map_final_status-pending :
    (f : FinalStatus)
    → map_final_status f ≡ RunStatus.pending_human_review
    → f ≡ FinalStatus.recommendation_ready
unfolding map_final_status
map_final_status-pending f h = ground arith

pub approval_of :
    (action : Action) (r : PolicyResult)
    → IsConsistent action r
    → is_remediation action ≡ true
    → r.allowed ≡ true
    → r.requires_human_approval ≡ true
approval_of action r shape remediation allowed =
    shape.approval ∙ both (is_remediation action) r.allowed remediation allowed
  where
    both : (a b : Bool) → a ≡ true → b ≡ true → (a && b) ≡ true
    both a b h k = ground arith

module _ (evaluator : ConftestPolicyEvaluator) (run_id : ℕ) (scenario_name : String)
    (resource : TerraformResourceChange) where
  pub policy_on-IsConsistent :
      (selected_tools : List String) (evidence : List EvidenceItem)
      (missing : List MissingEvidenceRecord) (conflicts : List ConflictRecord)
      (preferred : Alternative)
      → IsConsistent preferred.action (
          policy_on evaluator run_id scenario_name resource selected_tools evidence missing
            conflicts preferred)
  unfolding policy_on
  policy_on-IsConsistent selected_tools evidence missing conflicts preferred =
      evaluate-IsConsistent evaluator resource evidence missing preferred _ conflicts _
        (some run_id) (some scenario_name)

  module _ (prior : DecisionRecord) (evidence : List EvidenceItem)
      (executions : List ToolExecutionRecord) where
    redecided-IsReviewable :
        (p : Alternative)
        → map_final_status
            (redecided evaluator run_id scenario_name prior resource evidence executions
              p).final_status
          ≡ RunStatus.pending_human_review
        → IsReviewable
            (redecided evaluator run_id scenario_name prior resource evidence executions p)
    redecided-IsReviewable p h =
        let result = policy evaluator run_id scenario_name prior resource evidence executions p in
        let ready = final_status_of-ready p result (map_final_status-pending _ h) in
        record {
          allowed = ready.1;
          approval =
              approval_of p.action result (policy_on-IsConsistent _ evidence _ _ p) ready.0 ready.1;
          remediation = ready.0;
        }

    -- A decision that was made again waits for a review only where the policy allows it.
    pub recalculate_decision-IsReviewable :
        (d : DecisionRecord)
        → recalculate_decision evaluator run_id scenario_name prior resource evidence executions
          ≡ ok d
        → map_final_status d.final_status ≡ RunStatus.pending_human_review
        → IsReviewable d
    unfolding recalculate_decision
    recalculate_decision-IsReviewable d h =
        by_choice
          (select_preferred
            (alternatives evaluator run_id scenario_name prior resource evidence executions)
            (hard_block evaluator run_id scenario_name prior resource evidence executions))
          h
      where
        by_choice :
            (choice : Option Alternative)
            → decide_on evaluator run_id scenario_name prior resource evidence executions choice
              ≡ ok d
            → map_final_status d.final_status ≡ RunStatus.pending_human_review
            → IsReviewable d
        by_choice none e = cc
        by_choice (some p) e =
            let same : redecided evaluator run_id scenario_name prior resource evidence executions p
                ≡ d =
              cc e in
            subst
              (λ (y : DecisionRecord).
                map_final_status y.final_status ≡ RunStatus.pending_human_review → IsReviewable y)
              same (redecided-IsReviewable p)

pub find_action-eq :
    (items : List Alternative) (action : Action) (a : Alternative)
    → find_action items action ≡ some a
    → a.action ≡ action
unfolding find_action
find_action-eq items action a h =
    same_action-eq a.action action (first-holds (λ item. same_action item.action action) a items h)
