-- ===== src/Workflow/Trail.antt =====
-- The audit helpers of core/workflow_service.py. The details of an event are left out.
pub mod Frame
use ghost_busters.Prelude.{
  ℕ, String, Bool, true, false, Option, none, some, List, [], ◌∷◌, if◌then◌else◌,
}
use ghost_busters.Prelude.Text.{append, show, ◌==◌}
use ghost_busters.Model.{
  WorkflowRun, Actor, ToolExecutionRecord, ExternalCallEvent, ExternalCallEventType,
  ExternalCallExecutionResult, PolicyResult, PolicyStatus, PolicyEngine,
}
use ghost_busters.Audit.{append_audit_event}
use ghost_busters.ReasoningEngine.{policy_status_name}

abbrev event_name : ExternalCallEventType → String
event_name ExternalCallEventType.started = "external_call_started"
event_name ExternalCallEventType.succeeded = "external_call_succeeded"
event_name ExternalCallEventType.retry_scheduled = "external_call_retry_scheduled"
event_name ExternalCallEventType.failed = "external_call_failed"
event_name ExternalCallEventType.exhausted = "external_call_exhausted"
event_name ExternalCallEventType.alternative_evidence_selected = "alternative_evidence_selected"

abbrev event_summary : String → ℕ → ExternalCallEventType → String
event_summary tool attempt ExternalCallEventType.started =
    append tool (append " external call attempt " (append (show attempt) " started."))
event_summary tool attempt ExternalCallEventType.succeeded = append tool " external call succeeded."
event_summary tool attempt ExternalCallEventType.retry_scheduled = append tool " retry scheduled."
event_summary tool attempt ExternalCallEventType.failed =
    append tool (append " external call attempt " (append (show attempt) " failed safely."))
event_summary tool attempt ExternalCallEventType.exhausted =
    append tool " external call attempts exhausted."
event_summary tool attempt ExternalCallEventType.alternative_evidence_selected =
    "Alternative Git activity evidence selected for unavailable Jira context."

abbrev events_of : Option ExternalCallExecutionResult → List ExternalCallEvent
events_of none = []
events_of (some call) = call.events

abbrev engine_name : PolicyEngine → String
engine_name PolicyEngine.python = "python"
engine_name PolicyEngine.conftest = "conftest"
engine_name PolicyEngine.python_fallback = "python_fallback"

abbrev has_fallback : Option String → Bool
has_fallback none = false
has_fallback (some reason) = if reason == "" then false else true

module _ (now : ℕ) where
  unfoldable pub call_audit : String → List ExternalCallEvent → WorkflowRun → WorkflowRun
  call_audit tool [] run = run
  call_audit tool (event ∷ events) run = call_audit tool events (
      append_audit_event now (event_name event.event_type) Actor.tool
        (event_summary tool event.attempt event.event_type) run)

  -- `_append_tool_execution_audit`
  unfoldable pub tool_audit : ToolExecutionRecord → WorkflowRun → WorkflowRun
  tool_audit record_item run =
      append_audit_event now (append "tool_" record_item.status) Actor.tool
        (append record_item.tool_name (append " " (append record_item.status ".")))
        (call_audit record_item.tool_name (events_of record_item.external_call) (
          append_audit_event now "tool_started" Actor.tool
            (append record_item.tool_name " started.") run))

  -- the loop over the records of the tools that ran
  unfoldable pub tools_audit : List ToolExecutionRecord → WorkflowRun → WorkflowRun
  tools_audit [] run = run
  tools_audit (item ∷ items) run = tools_audit items (tool_audit item run)

  abbrev fallback_audit : Bool → WorkflowRun → WorkflowRun
  fallback_audit true run =
      append_audit_event now "policy_fallback_used" Actor.policy
        "Deterministic Python policy fallback used." run
  fallback_audit false run = run

  -- `_append_policy_audit`
  unfoldable pub policy_audit : PolicyResult → WorkflowRun → WorkflowRun
  policy_audit policy run =
      append_audit_event now "policy_evaluated" Actor.policy
        (append "Policy status: " (append (policy_status_name policy.status) "."))
        (append_audit_event now "policy_evaluation_completed" Actor.policy
          (append "Policy "
            (append (if policy.allowed then "allowed" else "denied") " the recommendation."))
          (fallback_audit (has_fallback policy.fallback_reason) (
            append_audit_event now "policy_engine_selected" Actor.policy
              (append "Policy engine selected: " (append (engine_name policy.engine) "."))
              (append_audit_event now "policy_evaluation_started" Actor.policy
                "Policy evaluation started." run))))
