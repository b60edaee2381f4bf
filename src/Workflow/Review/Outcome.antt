-- ===== src/Workflow/Review/Outcome.antt =====
-- What a review of core/workflow_service.py does to the run it is made on, whichever action it is.
use ghost_busters.Prelude.{ℕ, not, ◌≡◌, refl, ◌⊎◌, Option, none, some}
use ghost_busters.Model.{
  RunStatus, ReviewAction, WorkflowRun, DecisionRecord, HumanReviewRecord, HumanReviewRequest,
}
use ghost_busters.Result.{ok, >>=-eq-ok, require}
use ghost_busters.Audit.Numbering.{IsExtended}
use ghost_busters.Workflow.Decide.{Services}
use ghost_busters.Workflow.Decide.Reviewable.{IsReviewable}
use ghost_busters.Workflow.Actions.Step.{
  IsStep, IsReviewed, returned, reject-IsReviewed, revoke_approval-IsReviewed,
  reopen_case-IsReviewed, IsExtended-as,
}
use ghost_busters.Workflow.Actions.Approving.{approve-IsReviewed}
use ghost_busters.Workflow.Actions.Reassessing.{request_evidence-IsReviewed, add_context-IsReviewed}
use ghost_busters.Workflow.Actions.Modifying.{modify-IsReviewed}
use ghost_busters.Workflow.Review.{
  Reviewer, review_record, dispatch, apply_review, is_stale_version,
}

module _ (services : Services) (now pr_number : ℕ) (request : HumanReviewRequest) where
  dispatch-IsReviewed :
      (action : ReviewAction) (review : HumanReviewRecord) (run next : WorkflowRun)
      → dispatch services now pr_number action request review run ≡ ok next
      → IsReviewed action run next
  unfolding dispatch
  dispatch-IsReviewed ReviewAction.approve review run next h =
      approve-IsReviewed services now review run pr_number next h
  dispatch-IsReviewed ReviewAction.reject review run next h =
      reject-IsReviewed services now review run next h
  dispatch-IsReviewed ReviewAction.request_evidence review run next h =
      request_evidence-IsReviewed services now request review run next h
  dispatch-IsReviewed ReviewAction.add_context review run next h =
      add_context-IsReviewed services now request review run ReviewAction.add_context next
        (λ f. IsStep.inform run.status f) h
  dispatch-IsReviewed ReviewAction.modify review run next h =
      modify-IsReviewed services now request review run next h
  dispatch-IsReviewed ReviewAction.revoke_approval review run next h =
      revoke_approval-IsReviewed services now review run next h
  dispatch-IsReviewed ReviewAction.reopen_case review run next h =
      reopen_case-IsReviewed services now review run next h
  dispatch-IsReviewed ReviewAction.add_follow_up_context review run next h =
      add_context-IsReviewed services now request review run ReviewAction.add_follow_up_context next
        (λ f. IsStep.inform_more run.status f) h

  module _ (reviewer : Reviewer) (expected : Option ℕ) (run next : WorkflowRun)
      (done : apply_review services now pr_number request reviewer expected run ≡ ok next) where
    pub reviewed : IsReviewed request.action run next
    unfolding apply_review
    reviewed =
        let current =
          >>=-eq-ok
            (require (not (is_stale_version expected run))
              "Case version is stale. Refresh and try again.")
            _ next done in
        let parts =
          >>=-eq-ok
            (dispatch services now pr_number request.action request
              (review_record now request reviewer) run)
            _ next current.2 in
        let fact = dispatch-IsReviewed request.action _ run parts.0 parts.1 in
        returned request.action run _ next parts.2 (record {
          extended = IsExtended-as run parts.0 _ fact.extended refl;
          step = fact.step;
          pending = fact.pending;
          mock_pr = fact.mock_pr;
          organization_id = fact.organization_id;
        })

    -- A review that is accepted moves the run along the relation of the review's action: an approval
    -- from pending to a proposal, a pull request or a safe failure; a rejection from pending or waiting;
    -- a revocation from approved or PR-created; a reopening from these, rejected or revoked; more
    -- evidence, context or a modified action to the status of the new decision.
    pub apply_review-IsStep : IsStep run.status request.action next.status
    apply_review-IsStep = reviewed.step

    -- After any review that is accepted, a run that waits for a human has a decision record, whose
    -- action is a downsizing or a scheduling that the policy allows and for which it asks for a human
    -- approval, whatever the external policy engine and the evidence tools answered.
    pub apply_review-IsReviewable :
        next.status ≡ RunStatus.pending_human_review
        → (d : DecisionRecord) × (next.decision_record ≡ some d) × IsReviewable d
    apply_review-IsReviewable pending = reviewed.pending pending

    -- A review that is accepted only adds events to the audit trail, and a trail whose events are
    -- numbered from 1 stays so.
    pub apply_review-IsExtended : IsExtended run next
    apply_review-IsExtended = reviewed.extended

    -- A review that is accepted leaves the simulated pull request as it was, unless it is an approval
    -- of a run that had none.
    pub apply_review-mock_pr :
        (next.mock_pr ≡ run.mock_pr)
        ⊎ ((request.action ≡ ReviewAction.approve) × (run.mock_pr ≡ none))
    apply_review-mock_pr = reviewed.mock_pr
