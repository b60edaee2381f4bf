-- ===== src/Workflow/Trail/Frame.antt =====
-- What the audit helpers of core/workflow_service.py leave as it was.
use ghost_busters.Prelude.{ℕ, String, Bool, true, false, ◌≡◌, refl, ◌∙◌, List, [], ◌∷◌}
use ghost_busters.Model.{WorkflowRun, Actor, ExternalCallEvent, ToolExecutionRecord, PolicyResult}
use ghost_busters.Audit.{append_audit_event}
use ghost_busters.Audit.Numbering.{
  IsExtended, append_audit_event-IsExtended, IsExtended-same, IsExtended-trans,
}
use ghost_busters.Workflow.Trail.{
  call_audit, tool_audit, tools_audit, policy_audit, fallback_audit, has_fallback, events_of,
}

-- Only the trail and the time of the last change differ.
pub record IsAudited (run next : WorkflowRun) : Type 0 where
  pub status : next.status ≡ run.status
  pub decision_record : next.decision_record ≡ run.decision_record
  pub mock_pr : next.mock_pr ≡ run.mock_pr
  pub organization_id : next.organization_id ≡ run.organization_id
  pub extended : IsExtended run next

pub IsAudited-refl : (run : WorkflowRun) → IsAudited run run
IsAudited-refl run = record {
  status = refl;
  decision_record = refl;
  mock_pr = refl;
  organization_id = refl;
  extended = IsExtended-same run run refl;
}

pub IsAudited-trans : (a b c : WorkflowRun) → IsAudited a b → IsAudited b c → IsAudited a c
IsAudited-trans a b c h k = record {
  status = k.status ∙ h.status;
  decision_record = k.decision_record ∙ h.decision_record;
  mock_pr = k.mock_pr ∙ h.mock_pr;
  organization_id = k.organization_id ∙ h.organization_id;
  extended = IsExtended-trans a b c h.extended k.extended;
}

-- One more event after what came before.
pub append_audit_event-IsAudited :
    (now : ℕ) (event_type : String) (actor : Actor) (summary : String) (run next : WorkflowRun)
    → IsAudited run next
    → IsAudited run (append_audit_event now event_type actor summary next)
append_audit_event-IsAudited now event_type actor summary run next h =
    IsAudited-trans run next (append_audit_event now event_type actor summary next) h (record {
      status = unfold append_audit_event in refl;
      decision_record = unfold append_audit_event in refl;
      mock_pr = unfold append_audit_event in refl;
      organization_id = unfold append_audit_event in refl;
      extended = append_audit_event-IsExtended now event_type actor summary next;
    })

module _ (now : ℕ) where
  call_audit-IsAudited :
      (tool : String) (events : List ExternalCallEvent) (run next : WorkflowRun)
      → IsAudited run next
      → IsAudited run (call_audit now tool events next)
  unfolding call_audit
  call_audit-IsAudited tool [] run next h = h
  call_audit-IsAudited tool (event ∷ events) run next h =
      call_audit-IsAudited tool events run _ (append_audit_event-IsAudited now _ _ _ run next h)

  tool_audit-IsAudited :
      (item : ToolExecutionRecord) (run next : WorkflowRun)
      → IsAudited run next
      → IsAudited run (tool_audit now item next)
  unfolding tool_audit
  tool_audit-IsAudited item run next h = append_audit_event-IsAudited now _ _ _ run _ (
      call_audit-IsAudited item.tool_name (events_of item.external_call) run _
        (append_audit_event-IsAudited now _ _ _ run next h))

  pub tools_audit-IsAudited :
      (items : List ToolExecutionRecord) (run next : WorkflowRun)
      → IsAudited run next
      → IsAudited run (tools_audit now items next)
  unfolding tools_audit
  tools_audit-IsAudited [] run next h = h
  tools_audit-IsAudited (item ∷ items) run next h =
      tools_audit-IsAudited items run _ (tool_audit-IsAudited item run next h)

  fallback_audit-IsAudited :
      (used : Bool) (run next : WorkflowRun)
      → IsAudited run next
      → IsAudited run (fallback_audit now used next)
  fallback_audit-IsAudited true run next h = append_audit_event-IsAudited now _ _ _ run next h
  fallback_audit-IsAudited false run next h = h

  pub policy_audit-IsAudited :
      (policy : PolicyResult) (run next : WorkflowRun)
      → IsAudited run next
      → IsAudited run (policy_audit now policy next)
  unfolding policy_audit
  policy_audit-IsAudited policy run next h = append_audit_event-IsAudited now _ _ _ run _ (
      append_audit_event-IsAudited now _ _ _ run _ (
        fallback_audit-IsAudited (has_fallback policy.fallback_reason) run _ (
          append_audit_event-IsAudited now _ _ _ run _
            (append_audit_event-IsAudited now _ _ _ run next h))))
