-- ===== src/Outcomes.antt =====
-- core/outcome_verification.py: what became of a remediation after its approval. The digest of a
-- request is a parameter.
pub mod Verdicts
pub mod Replays
pub mod Starting
use ghost_busters.Prelude.{
  ℕ, ◌+◌, ◌*◌, String, Bool, true, false, not, ◌&&◌, ◌||◌, Option, none, some, List, [], ◌∷◌, first,
  if◌then◌else◌, ◌==◌, leb, is_some, is_empty, get_or_else,
}
use ghost_busters.Prelude.Text.{◌==◌ as text_eq}
use ghost_busters.Prelude.Int.{ℤ, pos, negsuc, pos_part, neg_part}
use ghost_busters.Prelude.Json.{Value, Fields, get, end, boolean}
use ghost_busters.Prelude.Table.{Table, lookup, put, values}
use ghost_busters.Model.{RunStatus, WorkflowRun, DecisionRecord, Alternative, same_action}
use ghost_busters.HumanReview.{status_in}

pub data OutcomeStatus : Type 0 where
  waiting_for_deployment observing verified_success verified_partial : OutcomeStatus
  regression_detected insufficient_evidence reopened : OutcomeStatus

-- OutcomeVerification. Of the remediation reference it has the confirmation, of the prediction the
-- monthly savings, of the savings variance the observed savings.
pub record OutcomeVerification : Type 0 where
  pub id : ℕ
  pub organization_id : ℕ
  pub case_id : ℕ
  pub deployment_confirmed : Bool
  pub predicted_monthly_savings : ℤ
  pub window_days : ℕ
  pub window_started_at : ℕ
  pub verification_status : OutcomeStatus
  pub observed_cost : Option Fields
  pub observed_utilization : Option Fields
  pub observed_health_signals : Option Fields
  pub observed_monthly_savings : Option ℤ
  pub risk_outcome : Option String
  pub conclusion : Option String
  pub created_at : ℕ
  pub updated_at : ℕ
  pub version : ℕ
  pub deployment_confirmed_at : Option ℕ
  pub last_idempotency_key : Option String
  pub last_request_fingerprint : Option String

pub record OutcomeRequest : Type 0 where
  pub observed_monthly_savings : Option ℤ
  pub observed_cost : Option Fields
  pub observed_utilization : Option Fields
  pub observed_health_signals : Option Fields
  pub missing_evidence : List String
  pub expected_version : Option ℕ
  pub idempotency_key : Option String

-- The fields that a call writes, which are also what its fingerprint is taken of.
pub data Payload : Type 0 where
  started : ℕ → Option String → Payload
  confirmed : ℕ → Payload
  observed : Option Fields → Option Fields → Option Fields → Option ℤ → ℤ → Payload
  completed :
      Option Fields → Option Fields → Option Fields → Option ℤ → ℤ → String → String → Payload
  reopening : String → Payload

-- OutcomeConflictError or OutcomeNotFoundError with its message, or the value returned
pub data Reply {ℓ} (A : Type ℓ) : Type ℓ where
  not_found : Reply A
  conflict : String → Reply A
  done : A → Reply A

abbrev write : Payload → OutcomeVerification → OutcomeVerification
write (started days key) item = item
write (confirmed now) item = record item {
  deployment_confirmed_at = some now;
  deployment_confirmed = true;
}
write (observed cost utilization health savings predicted) item = record item {
  observed_cost = cost;
  observed_utilization = utilization;
  observed_health_signals = health;
  observed_monthly_savings = savings;
  conclusion = some "Observation refreshed; verification remains open.";
}
write (completed cost utilization health savings predicted risk conclusion) item = record item {
  observed_cost = cost;
  observed_utilization = utilization;
  observed_health_signals = health;
  observed_monthly_savings = savings;
  risk_outcome = some risk;
  conclusion = some conclusion;
}
write (reopening reason) item = record item {
  conclusion = some reason;
  risk_outcome = some "human_review_required";
}

-- equal optional texts, both there
abbrev pub same_text : Option String → Option String → Bool
same_text (some a) (some b) = text_eq a b
same_text _ _ = false

-- `key and item.last_idempotency_key == key and item.last_request_fingerprint == fingerprint(payload)`
abbrev pub is_replay : (Payload → String) → Option String → Payload → OutcomeVerification → Bool
is_replay fingerprint none payload item = false
is_replay fingerprint (some key) payload item =
    not (text_eq key "")
    && same_text item.last_idempotency_key (some key)
    && same_text item.last_request_fingerprint (some (fingerprint payload))

abbrev is_stale : Option ℕ → OutcomeVerification → Bool
is_stale none item = false
is_stale (some expected) item = not (expected == item.version)

abbrev updated :
    (Payload → String)
    → ℕ
    → OutcomeVerification
    → Option String
    → Payload
    → OutcomeStatus
    → OutcomeVerification
updated fingerprint now item key payload status = record (write payload item) {
  verification_status = status;
  updated_at = now;
  version = item.version + 1;
  last_idempotency_key = key;
  last_request_fingerprint = some (fingerprint payload);
}

-- _update, whose answer is also what it saves
unfoldable pub update :
    (Payload → String)
    → ℕ
    → OutcomeVerification
    → Option ℕ
    → Option String
    → Payload
    → OutcomeStatus
    → Reply OutcomeVerification
update fingerprint now item expected key payload status =
    if is_replay fingerprint key payload item
    then done item
    else if is_stale expected item
    then conflict "Outcome version is stale. Refresh and try again."
    else done (updated fingerprint now item key payload status)

unfoldable pub confirm_deployment :
    (Payload → String)
    → ℕ
    → OutcomeVerification
    → Option ℕ
    → Option String
    → Reply OutcomeVerification
confirm_deployment fingerprint now item expected key =
    update fingerprint now item expected key (confirmed now) OutcomeStatus.observing

abbrev observe_payload : OutcomeVerification → OutcomeRequest → Payload
observe_payload item request =
    observed request.observed_cost request.observed_utilization request.observed_health_signals
      request.observed_monthly_savings item.predicted_monthly_savings

unfoldable pub observe :
    (Payload → String) → ℕ → OutcomeVerification → OutcomeRequest → Reply OutcomeVerification
observe fingerprint now item request =
    update fingerprint now item request.expected_version request.idempotency_key
      (observe_payload item request)
      (if is_some item.deployment_confirmed_at
        then OutcomeStatus.observing
        else OutcomeStatus.waiting_for_deployment)

-- `value is flag`
abbrev is_flag : Bool → Value → Bool
is_flag true (boolean b) = b
is_flag false (boolean b) = not b
is_flag flag _ = false

-- `observed_health.get("healthy") is False or observed_health.get("regression") is True`
abbrev pub is_regression : Option Fields → Bool
is_regression signals =
    is_flag false (get (get_or_else signals end) "healthy")
    || is_flag true (get (get_or_else signals end) "regression")

-- `predicted == 0 or actual >= predicted * 0.8`, in exact arithmetic
abbrev pub is_success : ℤ → ℤ → Bool
is_success predicted actual =
    pos_part predicted + neg_part predicted == 0
    || leb (8 * pos_part predicted + 10 * neg_part actual)
        (10 * pos_part actual + 8 * neg_part predicted)

-- the status of a completion, from the confirmation of the deployment and the prediction
unfoldable pub verdict_of : Option ℕ → ℤ → OutcomeRequest → OutcomeStatus
unfolding get
verdict_of confirmed_at predicted request =
    if not (is_some confirmed_at)
    then OutcomeStatus.waiting_for_deployment
    else elim request.observed_monthly_savings [
      | none ↦ OutcomeStatus.insufficient_evidence
      | some actual ↦
          if not (is_empty request.missing_evidence)
          then OutcomeStatus.insufficient_evidence
          else if is_regression request.observed_health_signals
          then OutcomeStatus.regression_detected
          else if is_success predicted actual
          then OutcomeStatus.verified_success
          else OutcomeStatus.verified_partial
    ]

abbrev pub verdict : OutcomeVerification → OutcomeRequest → OutcomeStatus
verdict item request =
    verdict_of item.deployment_confirmed_at item.predicted_monthly_savings request

abbrev risk_of : OutcomeStatus → String
risk_of OutcomeStatus.regression_detected = "regression"
risk_of OutcomeStatus.verified_success = "acceptable"
risk_of OutcomeStatus.verified_partial = "acceptable"
risk_of _ = "unknown"

abbrev conclusion_of : OutcomeStatus → String
conclusion_of OutcomeStatus.waiting_for_deployment =
    "Deployment confirmation is required before verification can complete."
conclusion_of OutcomeStatus.insufficient_evidence =
    "Required post-change evidence is incomplete; no exact savings claim was made."
conclusion_of OutcomeStatus.regression_detected =
    "Post-change health evidence indicates material regression; human review is required."
conclusion_of OutcomeStatus.verified_success =
    "Observed savings and health evidence support the recommendation."
conclusion_of _ = "Some predicted savings were observed while health remained acceptable."

abbrev complete_payload : OutcomeVerification → OutcomeRequest → OutcomeStatus → Payload
complete_payload item request status =
    completed request.observed_cost request.observed_utilization request.observed_health_signals
      request.observed_monthly_savings item.predicted_monthly_savings (risk_of status)
      (conclusion_of status)

unfoldable pub complete :
    (Payload → String) → ℕ → OutcomeVerification → OutcomeRequest → Reply OutcomeVerification
complete fingerprint now item request =
    let status = verdict item request in
    update fingerprint now item request.expected_version request.idempotency_key
      (complete_payload item request status) status

unfoldable pub reopen :
    (Payload → String)
    → ℕ
    → OutcomeVerification
    → String
    → Option ℕ
    → Option String
    → Reply OutcomeVerification
reopen fingerprint now item reason expected key =
    update fingerprint now item expected key (reopening reason) OutcomeStatus.reopened
