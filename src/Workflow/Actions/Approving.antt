-- ===== src/Workflow/Actions/Approving.antt =====
-- What `_approve` of core/workflow_service.py does to a run that it accepts.
use ghost_busters.Prelude.{
  ℕ, Bool, true, false, ◌≡◌, ◌≢◌, refl, ◌∙◌, ◌⊎◌, inl, inr, Option, none, some,
}
use ghost_busters.Model.{
  RunStatus, ReviewAction, Actor, WorkflowRun, DecisionRecord, HumanReviewRecord, RealPullRequest,
  TerraformResourceChange,
}
use ghost_busters.Result.{
  Result, ok, err, conflict, validation, run_not_found, duplicate_key, failure, >>=-eq-ok,
}
use ghost_busters.Audit.Numbering.{IsExtended, IsExtended-trans}
use ghost_busters.HumanReview.{ensure_can_approve}
use ghost_busters.HumanReview.Approval.{ensure_can_approve_sound}
use ghost_busters.MockPr.{create_mock_pull_request}
use ghost_busters.Workflow.Trail.Frame.{IsAudited, IsAudited-refl, append_audit_event-IsAudited}
use ghost_busters.Workflow.Decide.{Services, resource_for_run}
use ghost_busters.Workflow.Actions.{
  approve, add_review, set_status, carry_out, remediate, mock_pr_for, after_real_pr, real_pr_audit,
  received, is_proposal_only, real_pr_of,
}
use ghost_busters.Workflow.Actions.Step.{
  IsStep, IsReviewed, approved_as, returned, IsExtended-as, audited_from,
}

module _ (services : Services) (now : ℕ) (review : HumanReviewRecord) (run : WorkflowRun) where
  -- What a run has kept while its approval is carried out.
  record IsApproved (base : WorkflowRun) : Type 0 where
    extended : IsExtended run base
    mock_pr : base.mock_pr ≡ run.mock_pr
    organization_id : base.organization_id ≡ run.organization_id

  module _ (pending : run.status ≡ RunStatus.pending_human_review)
      (fresh : run.mock_pr ≡ none) where
    ended :
        (s : RunStatus) (before base next : WorkflowRun)
        → IsApproved before
        → base.audit_events ≡ before.audit_events
        → base.status ≡ s
        → (base.mock_pr ≡ before.mock_pr) ⊎ (run.mock_pr ≡ none)
        → base.organization_id ≡ before.organization_id
        → IsStep RunStatus.pending_human_review ReviewAction.approve s
        → s ≢ RunStatus.pending_human_review
        → IsAudited base next
        → IsReviewed ReviewAction.approve run next
    ended s before base next h trail status pr organization step n audited =
        approved_as services now review run base next audited
          (IsExtended-as run before base h.extended trail) (rw (pending, status) step) (rw status n)
          (elim pr [ inl e ↦ inl (e ∙ h.mock_pr) | inr e ↦ inr e ])
          (organization ∙ h.organization_id)

    mock_pr_for-IsReviewed :
        (pr_number : ℕ) (d : DecisionRecord) (resource : TerraformResourceChange)
        (base next : WorkflowRun)
        → IsApproved base
        → mock_pr_for services now pr_number d review resource base ≡ ok next
        → IsReviewed ReviewAction.approve run next
    mock_pr_for-IsReviewed pr_number d resource base next h e =
        let parts = >>=-eq-ok (create_mock_pull_request pr_number now d resource review) _ next e in
        returned ReviewAction.approve run _ next parts.2 (
          ended RunStatus.pr_created base _ _ h refl refl (inr fresh) refl IsStep.open_pr
            (λ p. cc p)
            (append_audit_event-IsAudited now "mock_pr_created" Actor.agent _ _ _
              (IsAudited-refl _)))

    real_pr_audit-IsAudited :
        (reused : Bool) (base : WorkflowRun)
        → IsAudited base (real_pr_audit services now reused base)
    real_pr_audit-IsAudited true base =
        append_audit_event-IsAudited now _ _ _ base base (IsAudited-refl base)
    real_pr_audit-IsAudited false base = append_audit_event-IsAudited now _ _ _ base _ (
        append_audit_event-IsAudited now _ _ _ base _
          (append_audit_event-IsAudited now _ _ _ base base (IsAudited-refl base)))

    after_real_pr-IsReviewed :
        (base next : WorkflowRun) (answer : Result RealPullRequest)
        → IsApproved base
        → after_real_pr services now base answer ≡ ok next
        → IsReviewed ReviewAction.approve run next
    after_real_pr-IsReviewed base next (ok pr) h e = returned ReviewAction.approve run _ next e (
        ended RunStatus.pr_created base _ _ h refl refl (inl refl) refl IsStep.open_pr (λ p. cc p)
          (real_pr_audit-IsAudited pr.reused _))
    after_real_pr-IsReviewed base next (err (validation message)) h e =
        returned ReviewAction.approve run _ next e (
          ended RunStatus.failed_safely base _ _ h refl refl (inl refl) refl IsStep.fail (λ p. cc p)
            (append_audit_event-IsAudited now _ _ _ _ _ (IsAudited-refl _)))
    after_real_pr-IsReviewed base next (err (conflict _)) h e = cc
    after_real_pr-IsReviewed base next (err run_not_found) h e = cc
    after_real_pr-IsReviewed base next (err duplicate_key) h e = cc
    after_real_pr-IsReviewed base next (err (failure _)) h e = cc

    IsApproved-audited :
        (base next : WorkflowRun) → IsApproved base → IsAudited base next → IsApproved next
    IsApproved-audited base next h a = record {
      extended = IsExtended-trans run base next h.extended a.extended;
      mock_pr = a.mock_pr ∙ h.mock_pr;
      organization_id = a.organization_id ∙ h.organization_id;
    }

    remediate-IsReviewed :
        (pr_number : ℕ) (d : DecisionRecord) (resource : TerraformResourceChange)
        (base next : WorkflowRun) (create : Option (WorkflowRun → Result RealPullRequest))
        → IsApproved base
        → remediate services now pr_number d review resource base create ≡ ok next
        → IsReviewed ReviewAction.approve run next
    remediate-IsReviewed pr_number d resource base next none h e =
        mock_pr_for-IsReviewed pr_number d resource base next h e
    remediate-IsReviewed pr_number d resource base next (some create) h e =
        after_real_pr-IsReviewed _ next _
          (IsApproved-audited base _ h
            (append_audit_event-IsAudited now _ _ _ base base (IsAudited-refl base)))
          e

    carry_out-IsReviewed :
        (proposal : Bool) (pr_number : ℕ) (d : DecisionRecord) (base next : WorkflowRun)
        → IsApproved base
        → carry_out services now proposal pr_number d review base ≡ ok next
        → IsReviewed ReviewAction.approve run next
    carry_out-IsReviewed true pr_number d base next h e =
        returned ReviewAction.approve run _ next e (
          ended RunStatus.remediation_proposal_prepared base _ _ h refl refl (inl refl) refl
            IsStep.prepare (λ p. cc p)
            (append_audit_event-IsAudited now _ _ _ _ _ (IsAudited-refl _)))
    carry_out-IsReviewed false pr_number d base next h e =
        let parts = >>=-eq-ok (resource_for_run services base) _ next e in
        remediate-IsReviewed pr_number d parts.0 base next (real_pr_of services now base) h parts.2

  pub approve-IsReviewed :
      (pr_number : ℕ) (next : WorkflowRun)
      → approve services now pr_number review run ≡ ok next
      → IsReviewed ReviewAction.approve run next
  unfolding approve
  approve-IsReviewed pr_number next h =
      let parts = >>=-eq-ok (ensure_can_approve run) _ next h in
      let fact = ensure_can_approve_sound run parts.0 parts.1 in
      let audited =
        append_audit_event-IsAudited now "human_review_received" Actor.human "Approval received." _
          _ (IsAudited-refl (add_review review run)) in
      let approved =
        set_status RunStatus.approved (received services now "Approval received." review run) in
      carry_out-IsReviewed fact.pending fact.no_pr (is_proposal_only services now approved)
        pr_number parts.0 approved next
        (record {
          extended =
              IsExtended-as run _ approved (audited_from run (add_review review run) _ audited refl)
                refl;
          mock_pr = audited.mock_pr;
          organization_id = audited.organization_id;
        })
        parts.2
