-- ===== src/Workflow/Actions/Step.antt =====
-- What every review action of core/workflow_service.py does to a run that it accepts.
use ghost_busters.Prelude.{
  ℕ, String, true, false, ◌≡◌, ◌≢◌, refl, sym, ◌∙◌, ◌⊎◌, inl, inr, none, some, [], ◌∷◌,
}
use mathlib.Core.Path.{subst}
use ghost_busters.Model.{
  RunStatus, ReviewAction, Actor, FinalStatus, WorkflowRun, DecisionRecord, HumanReviewRecord,
}
use ghost_busters.Result.{Result, ok, >>=-eq-ok, require, require-eq-ok}
use ghost_busters.Audit.Numbering.{IsExtended, IsExtended-same, IsExtended-trans}
use ghost_busters.Audit.{append_audit_event}
use ghost_busters.HumanReview.{status_in, ensure_can_reject, open_for_change}
use ghost_busters.Workflow.Trail.Frame.{IsAudited, IsAudited-refl, append_audit_event-IsAudited}
use ghost_busters.Workflow.Decide.Reviewable.{IsReviewable}
use ghost_busters.Workflow.Decide.{Services, map_final_status}
use ghost_busters.Workflow.Actions.{
  reject, revoke_approval, reopen_case, add_review, set_status, received,
}

-- The moves between statuses that a review action makes.
pub data IsStep : RunStatus → ReviewAction → RunStatus → Type 0 where
  prepare :
      IsStep RunStatus.pending_human_review ReviewAction.approve
        RunStatus.remediation_proposal_prepared
  open_pr : IsStep RunStatus.pending_human_review ReviewAction.approve RunStatus.pr_created
  fail : IsStep RunStatus.pending_human_review ReviewAction.approve RunStatus.failed_safely
  turn_down :
      (s : RunStatus)
      → status_in s (RunStatus.pending_human_review ∷ RunStatus.needs_more_evidence ∷ []) ≡ true
      → IsStep s ReviewAction.reject RunStatus.rejected
  revoke :
      (s : RunStatus)
      → status_in s (RunStatus.approved ∷ RunStatus.pr_created ∷ []) ≡ true
      → IsStep s ReviewAction.revoke_approval RunStatus.approval_revoked
  reopen :
      (s : RunStatus)
      → status_in s (
          RunStatus.rejected ∷ RunStatus.approval_revoked ∷ RunStatus.pr_created
          ∷ RunStatus.approved ∷ [])
        ≡ true
      → IsStep s ReviewAction.reopen_case RunStatus.reopened
  gather :
      (s : RunStatus) (f : FinalStatus)
      → status_in s (
          RunStatus.pending_human_review ∷ RunStatus.needs_more_evidence ∷ RunStatus.abstained ∷ [])
        ≡ true
      → IsStep s ReviewAction.request_evidence (map_final_status f)
  inform :
      (s : RunStatus) (f : FinalStatus)
      → status_in s (RunStatus.pr_created ∷ RunStatus.rejected ∷ []) ≡ false
      → IsStep s ReviewAction.add_context (map_final_status f)
  inform_more :
      (s : RunStatus) (f : FinalStatus)
      → status_in s (RunStatus.pr_created ∷ RunStatus.rejected ∷ []) ≡ false
      → IsStep s ReviewAction.add_follow_up_context (map_final_status f)
  change :
      (s : RunStatus)
      → status_in s (RunStatus.pending_human_review ∷ RunStatus.needs_more_evidence ∷ []) ≡ true
      → IsStep s ReviewAction.modify RunStatus.pending_human_review

pub record IsReviewed (action : ReviewAction) (run next : WorkflowRun) : Type 0 where
  pub extended : IsExtended run next
  pub step : IsStep run.status action next.status
  pub pending :
      next.status ≡ RunStatus.pending_human_review
      → (d : DecisionRecord) × (next.decision_record ≡ some d) × IsReviewable d
  pub mock_pr :
      (next.mock_pr ≡ run.mock_pr) ⊎ ((action ≡ ReviewAction.approve) × (run.mock_pr ≡ none))
  pub organization_id : next.organization_id ≡ run.organization_id

-- From a run that an action has put together, over the events that follow.
pub IsReviewed-audited :
    (action : ReviewAction) (run base next : WorkflowRun)
    → IsAudited base next
    → IsReviewed action run base
    → IsReviewed action run next
IsReviewed-audited action run base next a h = record {
  extended = IsExtended-trans run base next h.extended a.extended;
  step = subst (λ s. IsStep run.status action s) (sym a.status) h.step;
  pending = λ p. rw a.decision_record (h.pending (sym a.status ∙ p));
  mock_pr = rw a.mock_pr h.mock_pr;
  organization_id = a.organization_id ∙ h.organization_id;
}

-- The later run is another one with the trail of the last.
pub IsExtended-as :
    (run base next : WorkflowRun)
    → IsExtended run base
    → next.audit_events ≡ base.audit_events
    → IsExtended run next
IsExtended-as run base next h e = IsExtended-trans run base next h (IsExtended-same base next e)

pub audited_from :
    (run base next : WorkflowRun)
    → IsAudited base next
    → base.audit_events ≡ run.audit_events
    → IsExtended run next
audited_from run base next h e =
    IsExtended-trans run base next (IsExtended-same run base e) h.extended

pub returned :
    (action : ReviewAction) (run made next : WorkflowRun)
    → ◌≡◌ {A = Result WorkflowRun} (ok made) (ok next)
    → IsReviewed action run made
    → IsReviewed action run next
returned action run made next e h =
    let same : made ≡ next = cc e in subst (λ r. IsReviewed action run r) same h

module _ (services : Services) (now : ℕ) (review : HumanReviewRecord) (run : WorkflowRun) where
  pub reject-IsReviewed :
      (next : WorkflowRun)
      → reject services now review run ≡ ok next
      → IsReviewed ReviewAction.reject run next
  unfolding reject ensure_can_reject
  reject-IsReviewed next h =
      let parts = >>=-eq-ok (ensure_can_reject run) _ next h in
      let audited =
        append_audit_event-IsAudited now "human_review_received" Actor.human "Run rejected." _
          (add_review review run) (IsAudited-refl (add_review review run)) in
      returned ReviewAction.reject run _ next parts.2 (record {
        extended =
            IsExtended-as run (received services now "Run rejected." review run) _
              (audited_from run (add_review review run) _ audited refl) refl;
        step = IsStep.turn_down run.status (require-eq-ok (open_for_change run) _ parts.0 parts.1);
        pending = λ p. cc p;
        mock_pr = inl audited.mock_pr;
        organization_id = audited.organization_id;
      })

  -- An action that only moves the status and adds one event.
  moved :
      (action : ReviewAction) (s : RunStatus) (event_type summary : String)
      → IsStep run.status action s
      → s ≢ RunStatus.pending_human_review
      → IsReviewed action run (
          append_audit_event now event_type Actor.human summary
            (set_status s (add_review review run)))
  moved action s event_type summary step n =
      IsReviewed-audited action run (set_status s (add_review review run)) _
        (append_audit_event-IsAudited now event_type Actor.human summary _ _ (IsAudited-refl _))
        (record {
          extended = IsExtended-same run _ refl;
          step = step;
          pending = λ p. absurd (n p);
          mock_pr = inl refl;
          organization_id = refl;
        })

  pub revoke_approval-IsReviewed :
      (next : WorkflowRun)
      → revoke_approval services now review run ≡ ok next
      → IsReviewed ReviewAction.revoke_approval run next
  unfolding revoke_approval
  revoke_approval-IsReviewed next h =
      let allowed = status_in run.status (RunStatus.approved ∷ RunStatus.pr_created ∷ []) in
      let parts =
        >>=-eq-ok (require allowed "Only approved cases can have approval revoked.") _ next h in
      returned ReviewAction.revoke_approval run _ next parts.2 (
        moved ReviewAction.revoke_approval RunStatus.approval_revoked _ _
          (IsStep.revoke run.status (require-eq-ok allowed _ parts.0 parts.1)) (λ e. cc e))

  pub reopen_case-IsReviewed :
      (next : WorkflowRun)
      → reopen_case services now review run ≡ ok next
      → IsReviewed ReviewAction.reopen_case run next
  unfolding reopen_case
  reopen_case-IsReviewed next h =
      let allowed = status_in run.status (
        RunStatus.rejected ∷ RunStatus.approval_revoked ∷ RunStatus.pr_created ∷ RunStatus.approved
        ∷ []) in
      let parts =
        >>=-eq-ok
          (require allowed "Only rejected, revoked, approved, or PR-created cases can be reopened.")
          _ next h in
      returned ReviewAction.reopen_case run _ next parts.2 (
        moved ReviewAction.reopen_case RunStatus.reopened _ _
          (IsStep.reopen run.status (require-eq-ok allowed _ parts.0 parts.1)) (λ e. cc e))

  -- A run that the approval has put together.
  pub approved_as :
      (base next : WorkflowRun)
      → IsAudited base next
      → IsExtended run base
      → IsStep run.status ReviewAction.approve base.status
      → base.status ≢ RunStatus.pending_human_review
      → (base.mock_pr ≡ run.mock_pr) ⊎ (run.mock_pr ≡ none)
      → base.organization_id ≡ run.organization_id
      → IsReviewed ReviewAction.approve run next
  approved_as base next audited extended step n pr organization =
      IsReviewed-audited ReviewAction.approve run base next audited (record {
        extended = extended;
        step = step;
        pending = λ p. absurd (n p);
        mock_pr = elim pr [ inl e ↦ inl e | inr e ↦ inr (refl, e) ];
        organization_id = organization;
      })
