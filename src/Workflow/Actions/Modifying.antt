-- ===== src/Workflow/Actions/Modifying.antt =====
-- What `_modify` of core/workflow_service.py does to a run that it accepts.
use ghost_busters.Prelude.{ℕ, Bool, true, false, not, ◌||◌, ◌≡◌, refl, inl, some, arith}
use mathlib.Core.Path.{subst}
use ghost_busters.Model.{
  RunStatus, ReviewAction, Action, same_action, is_remediation, Alternative, WorkflowRun,
  DecisionRecord, HumanReviewRecord, HumanReviewRequest, TerraformResourceChange,
}
use ghost_busters.Result.{ok, conflict, >>=-eq-ok, require, require-eq-ok, or_raise, or_raise-eq-ok}
use ghost_busters.HumanReview.{open_for_change, ensure_can_modify}
use ghost_busters.ReasoningEngine.{find_action}
use ghost_busters.Workflow.Trail.Frame.{
  IsAudited-refl, append_audit_event-IsAudited, policy_audit-IsAudited,
}
use ghost_busters.Workflow.Decide.{Services, resource_for_run}
use ghost_busters.Workflow.Decide.Reviewable.{
  IsReviewable, policy_on-IsConsistent, approval_of, find_action-eq,
}
use ghost_busters.Workflow.Actions.{modify, add_review, set_status, modified}
use ghost_busters.Workflow.Actions.Step.{
  IsStep, IsReviewed, returned, audited_from, IsReviewed-audited,
}

-- What `ensure_can_modify` lets through.
ensure_can_modify-open :
    (run : WorkflowRun) (request : HumanReviewRequest) (d : DecisionRecord) (action : Action)
    → ensure_can_modify run request ≡ ok (d, action)
    → (open_for_change run ≡ true) × (same_action action Action.blocked ≡ false)
unfolding ensure_can_modify
ensure_can_modify-open run request d action h =
    let a =
      >>=-eq-ok
        (require (open_for_change run) "Only pending or evidence-needed runs can be modified.") _
        (d, action) h in
    let b =
      >>=-eq-ok (or_raise request.modified_action (conflict "modified_action is required.")) _
        (d, action) a.2 in
    let c =
      >>=-eq-ok
        (require (not (same_action b.0 Action.blocked)) "Cannot modify to a blocked action.") _
        (d, action) b.2 in
    let e =
      >>=-eq-ok (or_raise run.decision_record (conflict "Run has no decision record.")) _
        (d, action) c.2 in
    let same : b.0 ≡ action = cc e.2 in
    (
      require-eq-ok _ _ a.0 a.1,
      subst (λ (x : Action). same_action x Action.blocked ≡ false) same
          (opposite _ (require-eq-ok _ _ c.0 c.1)),
    )
  where
    opposite : (b : Bool) → not b ≡ true → b ≡ false
    opposite b h = ground arith

-- What is left when the other actions are refused.
remediation-left :
    (action : Action)
    → same_action action Action.blocked ≡ false
    → not (
        same_action action Action.request_evidence
        || same_action action Action.abstain
        || same_action action Action.keep)
      ≡ true
    → is_remediation action ≡ true
remediation-left action h k = ground arith

module _ (services : Services) (now : ℕ) (request : HumanReviewRequest) (review : HumanReviewRecord)
    (run : WorkflowRun) where
  modified-IsReviewable :
      (resource : TerraformResourceChange) (d : DecisionRecord) (action : Action) (a : Alternative)
      → a.action ≡ action
      → is_remediation action ≡ true
      → (modified services now run resource d action a).policy_result.allowed ≡ true
      → IsReviewable (modified services now run resource d action a)
  modified-IsReviewable resource d action a same remediation allowed = record {
    allowed = allowed;
    approval =
        approval_of a.action _
          (policy_on-IsConsistent services.evaluator run.id run.scenario_name resource _ _ _ _ a)
          (rw same remediation) allowed;
    remediation = remediation;
  }

  pub modify-IsReviewed :
      (next : WorkflowRun)
      → modify services now request review run ≡ ok next
      → IsReviewed ReviewAction.modify run next
  unfolding modify
  modify-IsReviewed next h =
      let a = >>=-eq-ok (ensure_can_modify run request) _ next h in
      let d = a.0.0 in
      let action = a.0.1 in
      let guard = ensure_can_modify-open run request d action a.1 in
      let b =
        >>=-eq-ok
          (or_raise (find_action d.alternatives action)
            (conflict "Requested action is not in generated alternatives."))
          _ next a.2 in
      let c =
        >>=-eq-ok (require b.0.eligible "Requested alternative is not eligible.") _ next b.2 in
      let others = not (
        same_action action Action.request_evidence
        || same_action action Action.abstain
        || same_action action Action.keep) in
      let e =
        >>=-eq-ok (require others "Only remediation alternatives can be modified for approval.") _
          next c.2 in
      let f = >>=-eq-ok (resource_for_run services run) _ next e.2 in
      let revised = modified services now run f.0 d action b.0 in
      let g =
        >>=-eq-ok
          (require revised.policy_result.allowed "Policy does not allow the modified action.") _
          next f.2 in
      let fact =
        modified-IsReviewable f.0 d action b.0
          (find_action-eq d.alternatives action b.0 (or_raise-eq-ok _ _ b.0 b.1))
          (remediation-left action guard.1 (require-eq-ok others _ e.0 e.1))
          (require-eq-ok _ _ g.0 g.1) in
      let start =
        set_status RunStatus.pending_human_review
          (add_review review (record run { decision_record = some revised })) in
      returned ReviewAction.modify run _ next g.2 (
        IsReviewed-audited ReviewAction.modify run start _
          (append_audit_event-IsAudited now _ _ _ _ _
            (policy_audit-IsAudited now _ _ _ (IsAudited-refl start)))
          (record {
            extended = audited_from run start start (IsAudited-refl start) refl;
            step = IsStep.change run.status guard.0;
            pending = λ p. (revised, refl, fact);
            mock_pr = inl refl;
            organization_id = refl;
          }))
