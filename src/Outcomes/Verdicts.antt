-- ===== src/Outcomes/Verdicts.antt =====
-- core/outcome_verification.py: what the status of an outcome rests on.
use ghost_busters.Prelude.{
  ℕ, ◌≡◌, ◌⊎◌, String, Bool, true, false, not, ◌&&◌, Option, none, some, is_some, if◌then◌else◌,
  inl, inr, Bool-cases,
}
use ghost_busters.Outcomes.{
  OutcomeStatus, OutcomeVerification, OutcomeRequest, Payload, done, is_replay, is_stale, updated,
  update, confirm_deployment, observe, complete, reopen, is_regression, is_success,
}

-- the observed savings meet the prediction, or fall short of it, and no signal tells of a regression
abbrev is_verified : Bool → OutcomeVerification → Bool
is_verified met item = elim item.observed_monthly_savings [
  | none ↦ false
  | some actual ↦
      is_some item.deployment_confirmed_at
      && not (is_regression item.observed_health_signals)
      && (if met
          then is_success item.predicted_monthly_savings actual
          else not (is_success item.predicted_monthly_savings actual))
]

-- What the record holds supports its status.
abbrev pub is_supported : OutcomeVerification → Bool
is_supported item = elim item.verification_status [
  | OutcomeStatus.waiting_for_deployment ↦ not (is_some item.deployment_confirmed_at)
  | OutcomeStatus.observing ↦ is_some item.deployment_confirmed_at
  | OutcomeStatus.insufficient_evidence ↦ is_some item.deployment_confirmed_at
  | OutcomeStatus.regression_detected ↦
      is_some item.deployment_confirmed_at && is_regression item.observed_health_signals
  | OutcomeStatus.verified_success ↦ is_verified true item
  | OutcomeStatus.verified_partial ↦ is_verified false item
  | OutcomeStatus.reopened ↦ true
]

-- Any number of calls that are answered.
infix 10 ◌⇝◌
pub data ◌⇝◌ (item : OutcomeVerification) : OutcomeVerification → Type 0 where
  unchanged : item ⇝ item
  after_confirmation :
      {middle last : OutcomeVerification} (fingerprint : Payload → String) (now : ℕ)
      (expected : Option ℕ) (key : Option String)
      → item ⇝ middle
      → confirm_deployment fingerprint now middle expected key ≡ done last
      → item ⇝ last
  after_observation :
      {middle last : OutcomeVerification} (fingerprint : Payload → String) (now : ℕ)
      (request : OutcomeRequest)
      → item ⇝ middle
      → observe fingerprint now middle request ≡ done last
      → item ⇝ last
  after_completion :
      {middle last : OutcomeVerification} (fingerprint : Payload → String) (now : ℕ)
      (request : OutcomeRequest)
      → item ⇝ middle
      → complete fingerprint now middle request ≡ done last
      → item ⇝ last
  after_reopening :
      {middle last : OutcomeVerification} (fingerprint : Payload → String) (now : ℕ)
      (reason : String) (expected : Option ℕ) (key : Option String)
      → item ⇝ middle
      → reopen fingerprint now middle reason expected key ≡ done last
      → item ⇝ last

-- A call that is answered has found a replay, or has written.
pub update-done :
    (fingerprint : Payload → String) (now : ℕ) (item last : OutcomeVerification)
    (expected : Option ℕ) (key : Option String) (payload : Payload) (status : OutcomeStatus)
    → update fingerprint now item expected key payload status ≡ done last
    → ((is_replay fingerprint key payload item ≡ true) × (last ≡ item))
      ⊎ (updated fingerprint now item key payload status ≡ last)
unfolding update
update-done fingerprint now item last expected key payload status h =
    elim (Bool-cases (is_replay fingerprint key payload item)) [
      | inl replay ↦ inl (replay, cc (rw (replay, update) at h))
      | inr fresh ↦ elim (Bool-cases (is_stale expected item)) [
        | inl stale ↦ cc (rw (fresh, stale, update) at h)
        | inr current ↦ let e = rw (fresh, current, update) at h in inr (cc e)
      ]
    ]
