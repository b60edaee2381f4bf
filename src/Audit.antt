-- ===== src/Audit.antt =====
-- core/audit.py: the audit trail of a run. The details of an event are left out.
pub mod Numbering
use ghost_busters.Prelude.{ℕ, ◌+◌, String, List, [], ◌∷◌, ◌++◌, length}
use ghost_busters.Model.{WorkflowRun, AuditEvent, Actor}

unfoldable pub append_audit_event : ℕ → String → Actor → String → WorkflowRun → WorkflowRun
append_audit_event now event_type actor summary run = record run {
  audit_events =
      run.audit_events
      ++ record {
        sequence_number = length run.audit_events + 1;
        timestamp = now;
        event_type = event_type;
        actor = actor;
        summary = summary;
      }
        ∷ [];
  updated_at = now;
}
