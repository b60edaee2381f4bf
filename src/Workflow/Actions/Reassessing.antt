-- ===== src/Workflow/Actions/Reassessing.antt =====
-- What the requests for evidence and the added context of core/workflow_service.py do to a run that
-- admits them.
use ghost_busters.Prelude.{
  ℕ, String, Bool, true, false, not, ◌≡◌, refl, ◌∙◌, inl, List, [], ◌∷◌, ◌++◌, is_empty, arith,
}
use ghost_busters.Prelude.Text.{append, join}
use ghost_busters.Model.{
  RunStatus, FinalStatus, ReviewAction, Actor, WorkflowRun, DecisionRecord, HumanReviewRecord,
  HumanReviewRequest,
}
use ghost_busters.Result.{ok, >>=-eq-ok, require, require-eq-ok}
use ghost_busters.Audit.{append_audit_event}
use ghost_busters.Audit.Numbering.{IsExtended, IsExtended-trans}
use ghost_busters.HumanReview.{
  status_in, is_blank, ensure_can_request_evidence, ensure_can_add_context,
}
use ghost_busters.Workflow.Trail.{tools_audit}
use ghost_busters.Workflow.Trail.Frame.{
  IsAudited, IsAudited-refl, append_audit_event-IsAudited, tools_audit-IsAudited,
  policy_audit-IsAudited,
}
use ghost_busters.Workflow.Decide.{
  Services, map_final_status, resource_for_run, recalculate_decision,
}
use ghost_busters.Workflow.Decide.Reviewable.{IsReviewable, recalculate_decision-IsReviewable}
use ghost_busters.Workflow.Actions.{
  request_evidence, add_context, add_review, add_revision, set_decision, unknown_sources, collected,
  merged_evidence, requested, context_item,
}
use ghost_busters.Workflow.Actions.Step.{
  IsStep, IsReviewed, returned, IsExtended-as, audited_from, IsReviewed-audited,
}

module _ (services : Services) (now : ℕ) (request : HumanReviewRequest) (review : HumanReviewRecord)
    (run : WorkflowRun) where
  -- A run that takes a decision made again.
  reassessed :
      (action : ReviewAction) (base next : WorkflowRun) (d : DecisionRecord)
      → IsExtended run base
      → base.mock_pr ≡ run.mock_pr
      → base.organization_id ≡ run.organization_id
      → IsStep run.status action (map_final_status d.final_status)
      → (map_final_status d.final_status ≡ RunStatus.pending_human_review → IsReviewable d)
      → IsAudited (set_decision d base) next
      → IsReviewed action run next
  reassessed action base next d extended pr organization step fact audited =
      IsReviewed-audited action run (set_decision d base) next audited (record {
        extended = IsExtended-as run base _ extended refl;
        step = step;
        pending = λ p. (d, refl, fact p);
        mock_pr = inl pr;
        organization_id = organization;
      })

  ensure_can_request_evidence-open :
      (d : DecisionRecord)
      → ensure_can_request_evidence run ≡ ok d
      → status_in run.status (
          RunStatus.pending_human_review ∷ RunStatus.needs_more_evidence ∷ RunStatus.abstained ∷ [])
        ≡ true
  unfolding ensure_can_request_evidence
  ensure_can_request_evidence-open d h =
      let parts =
        >>=-eq-ok
          (require
            (status_in run.status (
              RunStatus.pending_human_review ∷ RunStatus.needs_more_evidence ∷ RunStatus.abstained
              ∷ []))
            "Evidence can only be requested for pending, evidence-needed, or abstained runs.")
          _ d h in
      require-eq-ok _ _ parts.0 parts.1

  requested-IsExtended :
      (sources : List String) → IsExtended run (requested services now sources review run)
  requested-IsExtended sources =
      let first =
        append_audit_event-IsAudited now "additional_evidence_requested" Actor.human
          "Additional evidence requested." _ _ (IsAudited-refl (add_review review run)) in
      let middle =
        IsExtended-as run _
          (add_revision "Human requested additional evidence." (
            append_audit_event now "additional_evidence_requested" Actor.human
              "Additional evidence requested." (add_review review run)))
          (audited_from run (add_review review run) _ first refl) refl in
      IsExtended-trans run _ _ middle
        (append_audit_event-IsAudited now "plan_revised" Actor.agent
          "Plan revised to collect requested evidence." _ _ (IsAudited-refl _)).extended

  requested-mock_pr :
      (sources : List String) → (requested services now sources review run).mock_pr ≡ run.mock_pr
  unfolding append_audit_event
  requested-mock_pr sources = refl

  requested-organization_id :
      (sources : List String)
      → (requested services now sources review run).organization_id ≡ run.organization_id
  unfolding append_audit_event
  requested-organization_id sources = refl

  pub request_evidence-IsReviewed :
      (next : WorkflowRun)
      → request_evidence services now request review run ≡ ok next
      → IsReviewed ReviewAction.request_evidence run next
  unfolding request_evidence
  request_evidence-IsReviewed next h =
      let sources = request.requested_sources in
      let a = >>=-eq-ok (ensure_can_request_evidence run) _ next h in
      let b =
        >>=-eq-ok (require (not (is_empty sources)) "requested_sources is required.") _ next a.2 in
      let c =
        >>=-eq-ok
          (require (is_empty (unknown_sources services now sources)) (
            append "Unknown evidence source(s): "
              (join ", " (unknown_sources services now sources))))
          _ next b.2 in
      let d = >>=-eq-ok (services.load_scenario run.scenario_name) _ next c.2 in
      let e = >>=-eq-ok (resource_for_run services run) _ next d.2 in
      let found = collected services now sources e.0 run in
      let again =
        >>=-eq-ok
          (recalculate_decision services.evaluator run.id run.scenario_name a.0 e.0
            (merged_evidence services now sources a.0 found.evidence)
            (a.0.tool_executions ++ found.records))
          _ next e.2 in
      let start = requested services now sources review run in
      let tools = tools_audit-IsAudited now found.records start start (IsAudited-refl start) in
      returned ReviewAction.request_evidence run _ next again.2 (
        reassessed ReviewAction.request_evidence (tools_audit now found.records start) _ again.0
          (IsExtended-trans run start _ (requested-IsExtended sources) tools.extended)
          (tools.mock_pr ∙ requested-mock_pr sources)
          (tools.organization_id ∙ requested-organization_id sources)
          (IsStep.gather run.status _ (ensure_can_request_evidence-open a.0 a.1))
          (recalculate_decision-IsReviewable _ _ _ _ _ _ _ again.0 again.1)
          (append_audit_event-IsAudited now _ _ _ _ _
            (policy_audit-IsAudited now _ _ _ (IsAudited-refl _))))

  not-true : (b : Bool) → not b ≡ true → b ≡ false
  not-true b h = ground arith

  ensure_can_add_context-open :
      (d : DecisionRecord)
      → ensure_can_add_context run request ≡ ok d
      → status_in run.status (RunStatus.pr_created ∷ RunStatus.rejected ∷ []) ≡ false
  unfolding ensure_can_add_context
  ensure_can_add_context-open d h =
      let closed = status_in run.status (RunStatus.pr_created ∷ RunStatus.rejected ∷ []) in
      let a =
        >>=-eq-ok (require (not (is_blank request.human_context)) "Human context is required.") _ d
          h in
      let b =
        >>=-eq-ok (require (not closed) "Human context cannot be added in this state.") _ d a.2 in
      not-true closed (require-eq-ok (not closed) _ b.0 b.1)

  -- for both actions that add context
  pub add_context-IsReviewed :
      (action : ReviewAction) (next : WorkflowRun)
      → ((f : FinalStatus)
          → status_in run.status (RunStatus.pr_created ∷ RunStatus.rejected ∷ []) ≡ false
          → IsStep run.status action (map_final_status f))
      → add_context services now request review run ≡ ok next
      → IsReviewed action run next
  unfolding add_context
  add_context-IsReviewed action next step h =
      let a = >>=-eq-ok (ensure_can_add_context run request) _ next h in
      let b = >>=-eq-ok (resource_for_run services run) _ next a.2 in
      let again =
        >>=-eq-ok
          (recalculate_decision services.evaluator run.id run.scenario_name a.0 b.0
            (a.0.evidence ++ context_item services now b.0 request review ∷ []) a.0.tool_executions)
          _ next b.2 in
      let start = add_revision "Human context arrived." (add_review review run) in
      returned action run _ next again.2 (
        reassessed action start _ again.0 (audited_from run start start (IsAudited-refl start) refl)
          refl refl (step _ (ensure_can_add_context-open a.0 a.1))
          (recalculate_decision-IsReviewable _ _ _ _ _ _ _ again.0 again.1)
          (append_audit_event-IsAudited now _ _ _ _ _ (
            append_audit_event-IsAudited now _ _ _ _ _ (
              append_audit_event-IsAudited now _ _ _ _ _
                (policy_audit-IsAudited now _ _ _ (IsAudited-refl _))))))
