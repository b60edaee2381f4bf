-- ===== src/Outcomes/Starting.antt =====
-- core/outcome_verification.py: the start of the verification of an approved case.
use ghost_busters.Prelude.{
  ℕ, ◌+◌, String, Bool, false, not, ◌&&◌, ◌||◌, Option, none, some, List, [], ◌∷◌, first,
  if◌then◌else◌, ◌==◌, is_some,
}
use ghost_busters.Prelude.Text.{◌==◌ as text_eq}
use ghost_busters.Prelude.Int.{ℤ, pos, pos_part, neg_part}
use ghost_busters.Prelude.Table.{Table, put, values}
use ghost_busters.Model.{RunStatus, WorkflowRun, DecisionRecord, Alternative, same_action}
use ghost_busters.HumanReview.{status_in}
use ghost_busters.Outcomes.{
  OutcomeStatus, OutcomeVerification, Payload, Reply, same_text, started, not_found, conflict, done,
}

abbrev started_statuses : List RunStatus
started_statuses = RunStatus.pr_created ∷ RunStatus.remediation_pr_created ∷ RunStatus.approved ∷ []

-- the savings of the preferred alternative
abbrev preferred_savings : Option DecisionRecord → ℤ
preferred_savings none = pos 0
preferred_savings (some decision) =
    elim (first (λ (item : Alternative). same_action item.action decision.preferred_action)
      decision.alternatives) [
        | none ↦ pos 0
        | some alternative ↦ alternative.estimated_monthly_savings
      ]

-- `savings or (run.mock_pr.monthly_savings if run.mock_pr else 0)`
abbrev monthly_of : WorkflowRun → ℤ
monthly_of run =
    let preferred = preferred_savings run.decision_record in
    if not (pos_part preferred + neg_part preferred == 0)
    then preferred
    else elim run.mock_pr [ none ↦ pos 0 | some pr ↦ pr.monthly_savings ]

abbrev pub new_outcome :
    (Payload → String) → ℕ → ℕ → WorkflowRun → ℕ → Option String → OutcomeVerification
new_outcome fingerprint id now run days key = record {
  id = id;
  organization_id = run.organization_id;
  case_id = run.id;
  deployment_confirmed = false;
  predicted_monthly_savings = monthly_of run;
  window_days = days;
  window_started_at = now;
  verification_status = OutcomeStatus.waiting_for_deployment;
  observed_cost = none;
  observed_utilization = none;
  observed_health_signals = none;
  observed_monthly_savings = none;
  risk_outcome = none;
  conclusion = none;
  created_at = now;
  updated_at = now;
  version = 1;
  deployment_confirmed_at = none;
  last_idempotency_key = key;
  last_request_fingerprint = some (fingerprint (started days key));
}

abbrev pub OutcomeStore : Type 0
OutcomeStore = Table ℕ OutcomeVerification

unfoldable pub find_case : ℕ → ℕ → OutcomeStore → Option OutcomeVerification
find_case case_id organization_id store =
    first
      (λ (item : OutcomeVerification).
        item.organization_id == organization_id && item.case_id == case_id)
      (values store)

-- `request.idempotency_key and existing.last_idempotency_key == request.idempotency_key`
abbrev is_same_start : Option String → OutcomeVerification → Bool
is_same_start none existing = false
is_same_start (some key) existing =
    not (text_eq key "") && same_text existing.last_idempotency_key (some key)

unfoldable pub start :
    (Payload → String)
    → ℕ
    → ℕ
    → WorkflowRun
    → ℕ
    → Option String
    → ℕ
    → OutcomeStore
    → Reply OutcomeVerification × OutcomeStore
unfolding find_case put
start fingerprint id now run days key organization_id store =
    if not (run.organization_id == organization_id)
    then (not_found, store)
    else if not (is_some run.real_pr || is_some run.mock_pr)
        || not (status_in run.status started_statuses)
    then (
      conflict
          "Outcome verification requires an approved remediation result. PR creation is waiting for deployment confirmation.",
      store,
    )
    else elim (find_case run.id organization_id store) [
      | some existing ↦
          if is_same_start key existing
          then (done existing, store)
          else (conflict "Outcome verification already exists for this case.", store)
      | none ↦
          let item = new_outcome fingerprint id now run days key in
          (done item, put ◌==◌ item.id item store)
    ]
