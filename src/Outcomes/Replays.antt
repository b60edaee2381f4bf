-- ===== src/Outcomes/Replays.antt =====
-- core/outcome_verification.py: a request that is sent again with its idempotency key.
use ghost_busters.Prelude.{ℕ, ◌≡◌, ◌∙◌, refl, sym, ap, String, true, false, Option, some, inl, inr}
use ghost_busters.Prelude.Int.{ℤ}
use ghost_busters.Prelude.Text.{◌==◌ as text_eq, eq_refl}
use ghost_busters.Outcomes.{
  OutcomeStatus, OutcomeVerification, OutcomeRequest, Payload, Reply, done, is_replay, updated,
  update, observe, observe_payload, complete, complete_payload, risk_of, conclusion_of, reopen,
  verdict, verdict_of,
}
use ghost_busters.Outcomes.Verdicts.{update-done}

replayed :
    (fingerprint : Payload → String) (now : ℕ) (item : OutcomeVerification) (key : String)
    (payload : Payload) (status : OutcomeStatus)
    → text_eq key "" ≡ false
    → is_replay fingerprint
        (some key)
        payload
        (updated fingerprint now item (some key) payload status)
      ≡ true
replayed fingerprint now item key payload status filled =
    rw (filled, eq_refl key, eq_refl (fingerprint payload)) refl

-- The same update again, on the answer of the first, changes nothing.
update-again :
    (fingerprint : Payload → String) (now later : ℕ) (item last : OutcomeVerification)
    (expected : Option ℕ) (key : String) (payload again : Payload) (status other : OutcomeStatus)
    → text_eq key "" ≡ false
    → again ≡ payload
    → update fingerprint now item expected (some key) payload status ≡ done last
    → update fingerprint later last expected (some key) again other ≡ done last
unfolding update
update-again fingerprint now later item last expected key payload again status other filled same h =
    rw same (elim (update-done fingerprint now item last expected (some key) payload status h) [
      | inl (replay, kept) ↦ rw kept (rw (replay, update) refl)
      | inr written ↦
          let repeated = replayed fingerprint now item key payload status filled in
          rw⁻¹ written (rw (repeated, update) refl)
    ])

-- What a payload of an observation leaves as it was.
observe_payload-kept :
    (fingerprint : Payload → String) (now : ℕ) (item last : OutcomeVerification)
    (expected : Option ℕ) (key : Option String) (request : OutcomeRequest) (status : OutcomeStatus)
    → update fingerprint now item expected key (observe_payload item request) status ≡ done last
    → last.predicted_monthly_savings ≡ item.predicted_monthly_savings
observe_payload-kept fingerprint now item last expected key request status h =
    elim (update-done fingerprint now item last expected key (observe_payload item request) status
      h) [
        | inl (replay, same) ↦ ap (λ (o : OutcomeVerification). o.predicted_monthly_savings) same
        | inr written ↦ sym (ap (λ (o : OutcomeVerification). o.predicted_monthly_savings) written)
      ]

complete_payload-kept :
    (fingerprint : Payload → String) (now : ℕ) (item last : OutcomeVerification)
    (expected : Option ℕ) (key : Option String) (request : OutcomeRequest)
    (status other : OutcomeStatus)
    → update fingerprint now item expected key (complete_payload item request other) status
      ≡ done last
    → (last.predicted_monthly_savings ≡ item.predicted_monthly_savings)
      × (last.deployment_confirmed_at ≡ item.deployment_confirmed_at)
complete_payload-kept fingerprint now item last expected key request status other h =
    elim (update-done fingerprint now item last expected key (complete_payload item request other)
      status h) [
        | inl (replay, same) ↦ (
          ap (λ (o : OutcomeVerification). o.predicted_monthly_savings) same,
          ap (λ (o : OutcomeVerification). o.deployment_confirmed_at) same,
        )
        | inr written ↦ (
          sym (ap (λ (o : OutcomeVerification). o.predicted_monthly_savings) written),
          sym (ap (λ (o : OutcomeVerification). o.deployment_confirmed_at) written),
        )
      ]

verdict-same :
    (item last : OutcomeVerification) (request : OutcomeRequest)
    → last.predicted_monthly_savings ≡ item.predicted_monthly_savings
    → last.deployment_confirmed_at ≡ item.deployment_confirmed_at
    → verdict last request ≡ verdict item request
verdict-same item last request p d =
    ap (λ (x : Option ℕ). verdict_of x last.predicted_monthly_savings request) d
    ∙ ap (λ (x : ℤ). verdict_of item.deployment_confirmed_at x request) p

-- A call on an outcome that may carry an idempotency key.
pub data OutcomeCall : Type 0 where
  observing completing : OutcomeRequest → OutcomeCall
  reopening : String → Option ℕ → Option String → OutcomeCall

abbrev pub perform :
    (Payload → String) → ℕ → OutcomeCall → OutcomeVerification → Reply OutcomeVerification
perform fingerprint now (OutcomeCall.observing request) item = observe fingerprint now item request
perform fingerprint now (OutcomeCall.completing request) item =
    complete fingerprint now item request
perform fingerprint now (OutcomeCall.reopening reason expected key) item =
    reopen fingerprint now item reason expected key

abbrev pub key_of : OutcomeCall → Option String
key_of (OutcomeCall.observing request) = request.idempotency_key
key_of (OutcomeCall.completing request) = request.idempotency_key
key_of (OutcomeCall.reopening reason expected key) = key

-- A request may be sent again: an observation, a completion or a reopening with an idempotency key
-- that is not empty, sent once more on the outcome that it led to, answers that same outcome, at any
-- later time and also where it expects a version that is past.
pub perform-again :
    (fingerprint : Payload → String) (now later : ℕ) (c : OutcomeCall)
    (item last : OutcomeVerification) (key : String)
    → key_of c ≡ some key
    → text_eq key "" ≡ false
    → perform fingerprint now c item ≡ done last
    → perform fingerprint later c last ≡ done last
unfolding observe complete reopen
perform-again fingerprint now later (OutcomeCall.observing request) item last key keyed filled h =
    let made = simp (keyed, observe) at h in
    let same =
      observe_payload-kept fingerprint now item last request.expected_version (some key) request _
        made in
    let again : observe_payload last request ≡ observe_payload item request =
      ap
        (λ (x : ℤ).
          Payload.observed request.observed_cost request.observed_utilization
            request.observed_health_signals request.observed_monthly_savings x)
        same in
    simp (keyed, observe)
      (update-again fingerprint now later item last request.expected_version key _ _ _ _ filled
        again made)
perform-again fingerprint now later (OutcomeCall.completing request) item last key keyed filled h =
    let made = simp (keyed, complete) at h in
    let same =
      complete_payload-kept fingerprint now item last request.expected_version (some key) request _
        _ made in
    let judged : verdict last request ≡ verdict item request =
      verdict-same item last request same.0 same.1 in
    let again : complete_payload last request (verdict last request)
        ≡ complete_payload item request (verdict item request) =
      ap
        (λ (x : OutcomeStatus).
          Payload.completed request.observed_cost request.observed_utilization
            request.observed_health_signals request.observed_monthly_savings
            last.predicted_monthly_savings (risk_of x) (conclusion_of x))
        judged
      ∙ ap
          (λ (x : ℤ).
            Payload.completed request.observed_cost request.observed_utilization
              request.observed_health_signals request.observed_monthly_savings x
              (risk_of (verdict item request)) (conclusion_of (verdict item request)))
          same.0 in
    simp (keyed, complete)
      (update-again fingerprint now later item last request.expected_version key _ _ _ _ filled
        again made)
perform-again fingerprint now later (OutcomeCall.reopening reason expected k) item last key keyed
      filled h =
    let made = rw (keyed, reopen) at h in
    rw (keyed, reopen)
      (update-again fingerprint now later item last expected key _ _ _ _ filled refl made)
