-- ===== src/Audit/Numbering.antt =====
-- The sequence numbers of the audit trail of core/audit.py.
use ghost_busters.Prelude.{
  ℕ, suc, ◌+◌, String, ◌≡◌, refl, sym, ap, ◌∙◌, List, [], ◌∷◌, ◌++◌, length, arith,
}
use mathlib.Core.List.{append_assoc, append-nil}
use ghost_busters.Model.{WorkflowRun, AuditEvent, Actor}
use ghost_busters.Audit.{append_audit_event}

-- The sequence numbers count up from `n`.
abbrev pub IsNumberedFrom : ℕ → List AuditEvent → Type 0
IsNumberedFrom n [] = Unit
IsNumberedFrom n (event ∷ events) = (event.sequence_number ≡ n) × IsNumberedFrom (suc n) events

abbrev pub IsNumbered : WorkflowRun → Type 0
IsNumbered run = IsNumberedFrom 1 run.audit_events

-- The later trail is the earlier one with events added, numbered on if it was numbered.
pub record IsExtended (run next : WorkflowRun) : Type 0 where
  pub extra : List AuditEvent
  pub trail : next.audit_events ≡ run.audit_events ++ extra
  pub numbered : IsNumbered run → IsNumbered next

pub numbered-append :
    (n : ℕ) (events : List AuditEvent) (event : AuditEvent)
    → IsNumberedFrom n events
    → event.sequence_number ≡ length events + n
    → IsNumberedFrom n (events ++ event ∷ [])
numbered-append n [] event h e = (omega (arith, e), tt)
numbered-append n (first ∷ events) event h e =
    (h.0, numbered-append (suc n) events event h.1 (omega (arith, e)))

pub append_audit_event-IsExtended :
    (now : ℕ) (event_type : String) (actor : Actor) (summary : String) (run : WorkflowRun)
    → IsExtended run (append_audit_event now event_type actor summary run)
unfolding append_audit_event
append_audit_event-IsExtended now event_type actor summary run = record {
  extra = _;
  trail = refl;
  numbered = λ h. numbered-append 1 run.audit_events _ h refl;
}

-- A run with the same trail, and one step after another.
pub IsExtended-same :
    (run next : WorkflowRun) → next.audit_events ≡ run.audit_events → IsExtended run next
IsExtended-same run next e = record {
  extra = [];
  trail = e ∙ sym (append-nil run.audit_events);
  numbered = λ h. rw e h;
}

pub IsExtended-trans : (a b c : WorkflowRun) → IsExtended a b → IsExtended b c → IsExtended a c
IsExtended-trans a b c h k = record {
  extra = h.extra ++ k.extra;
  trail = k.trail ∙ ap (λ x. x ++ k.extra) h.trail ∙ append_assoc a.audit_events h.extra k.extra;
  numbered = λ n. k.numbered (h.numbered n);
}
