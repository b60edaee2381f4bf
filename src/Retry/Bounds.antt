-- ===== src/Retry/Bounds.antt =====
-- How often core/retry.py tries, and what it answers with.
use ghost_busters.Prelude.{
  ℕ, zero, suc, ◌+◌, ◌≤◌, String, Bool, false, not, ◌&&◌, ◌≡◌, refl, ◌∙◌, none, some, List, [], ◌∷◌,
  ◌++◌, if◌then◌else◌, ltb, Bool-cases, arith, inl, inr,
}
use ghost_busters.Prelude.Ratio.{Ratio, ltb_ratio}
use ghost_busters.Model.{ExternalCallEvent, ExternalCallEventType}
use ghost_busters.Retry.{
  RetryConfig, ClassifiedFailure, Outcome, value, raises, Attempt, RetryExecution, Step, succeeded,
  stopped, again, started_count, is_started, attempt_once, attempts_from, execute, maximum_attempts,
  judge, timed, failed_attempt, failure_event, scheduled_event, started_event, event, cancelled,
  success, exhausted, classify,
}

started_count-append :
    (xs ys : List ExternalCallEvent)
    → started_count (xs ++ ys) ≡ started_count xs + started_count ys
started_count-append [] ys = omega arith
started_count-append (x ∷ xs) ys = ground (arith, started_count-append xs ys)

started_count-quiet :
    (events : List ExternalCallEvent) (e : ExternalCallEvent)
    → is_started e ≡ false
    → started_count (events ++ e ∷ []) ≡ started_count events
started_count-quiet events e h = rw (started_count-append events (e ∷ []), h) (omega arith)

module _ {ℓ} {A : Type ℓ} (config : RetryConfig) (tool : String) (environment : ℕ → Attempt A) where
  abbrev events_after : Step A → List ExternalCallEvent
  events_after (succeeded _ events) = events
  events_after (stopped _ events) = events
  events_after (again _ events) = events

  failed-count :
      (attempt maximum : ℕ) (failure : ClassifiedFailure) (events : List ExternalCallEvent)
      → started_count
          (events_after (failed_attempt config tool environment attempt maximum failure events))
        ≡ started_count events
  failed-count attempt maximum failure events =
      let failed = failure_event config tool environment attempt maximum failure in
      let scheduled = scheduled_event config tool environment attempt maximum failure in
      let quiet = started_count-quiet events failed refl in
      let quiet_too = started_count-quiet (events ++ failed ∷ []) scheduled refl ∙ quiet in
      elim (Bool-cases (not (failure.retryable && ltb attempt maximum))) [
        | inl last ↦ rw last quiet
        | inr more ↦ elim (Bool-cases (environment attempt).cancelled_after) [
          | inl c ↦ rw (more, c) quiet_too
          | inr c ↦ rw (more, c) quiet_too
        ]
      ]

  judge-count :
      (attempt maximum : ℕ) (outcome : Outcome A) (events : List ExternalCallEvent)
      → started_count (events_after (judge config tool environment attempt maximum outcome events))
        ≡ started_count events
  judge-count attempt maximum (raises e) events =
      failed-count attempt maximum (classify e tool) events
  judge-count attempt maximum (value a) events =
      started_count-quiet events
        (event config tool environment ExternalCallEventType.succeeded attempt maximum none
          (some false) none)
        refl

  once-count :
      (attempt maximum : ℕ) (events : List ExternalCallEvent)
      → started_count (events_after (attempt_once config tool environment attempt maximum events))
        ≤ started_count events + 1
  unfolding attempt_once
  once-count attempt maximum events =
      let stop =
        failure_event config tool environment attempt maximum
          (cancelled config tool environment " call was cancelled safely.") in
      let start = started_event config tool environment attempt maximum in
      let outcome =
        timed config tool environment (environment attempt).elapsed (environment attempt).outcome in
      elim (Bool-cases (environment attempt).cancelled_before) [
        | inl c ↦ rw c (omega (arith, started_count-quiet events stop refl))
        | inr c ↦ rw c (
            omega (
              arith,
              judge-count attempt maximum outcome (events ++ start ∷ []),
              started_count-append events (start ∷ []),
            ))
      ]

  -- the rest of the loop after a step
  abbrev run_on : ℕ → ℕ → ℕ → Step A → RetryExecution A
  run_on n attempt maximum (succeeded a after) = success config tool environment attempt a after
  run_on n attempt maximum (stopped failure after) =
      exhausted config tool environment maximum failure after
  run_on n attempt maximum (again failure after) =
      attempts_from config tool environment n (suc attempt) maximum failure after

  from-bound :
      (n attempt maximum : ℕ) (last : ClassifiedFailure) (events : List ExternalCallEvent)
      → started_count events + n ≤ maximum
      → attempt + n ≤ maximum + 1
      → (attempts_from config tool environment n attempt maximum last events).result.attempts
        ≤ maximum
  unfolding attempts_from
  from-bound zero attempt maximum last events h k = omega (arith, h)
  from-bound (suc n) attempt maximum last events h k =
      go (attempt_once config tool environment attempt maximum events)
        (once-count attempt maximum events)
        (λ failure after c.
          from-bound n (suc attempt) maximum failure after (omega (arith, c, h)) (omega (arith, k)))
    where
      go :
          (step : Step A)
          → started_count (events_after step) ≤ started_count events + 1
          → ((failure : ClassifiedFailure) (after : List ExternalCallEvent)
              → started_count after ≤ started_count events + 1
              → (attempts_from config tool environment n
                  (suc attempt)
                  maximum
                  failure
                  after).result.attempts
                ≤ maximum)
          → (run_on n attempt maximum step).result.attempts ≤ maximum
      go (succeeded a after) c rest = omega (arith, k)
      go (stopped failure after) c rest = omega (arith, c, h)
      go (again failure after) c rest = rest failure after c

  -- An answer of the operation at an attempt, within the time limit and not cancelled before.
  pub record IsAnswer (a : A) (attempt : ℕ) : Type ℓ where
    pub outcome : (environment attempt).outcome ≡ value a
    pub in_time : ltb_ratio config.timeout_seconds (environment attempt).elapsed ≡ false
    pub not_cancelled : (environment attempt).cancelled_before ≡ false

  timed-value :
      (elapsed : Ratio) (outcome : Outcome A) (a : A)
      → timed config tool environment elapsed outcome ≡ value a
      → (outcome ≡ value a) × (ltb_ratio config.timeout_seconds elapsed ≡ false)
  timed-value elapsed (raises e) a h = cc
  timed-value elapsed (value b) a h = elim (Bool-cases (ltb_ratio config.timeout_seconds elapsed)) [
    | inl late ↦ cc (rw late at h)
    | inr fine ↦ (rw fine at h, fine)
  ]

  failed-no-answer :
      (attempt maximum : ℕ) (failure : ClassifiedFailure) (events after : List ExternalCallEvent)
      (a : A)
      → failed_attempt config tool environment attempt maximum failure events ≡ succeeded a after
      → ⊥
  failed-no-answer attempt maximum failure events after a h =
      elim (Bool-cases (not (failure.retryable && ltb attempt maximum))) [
        | inl last ↦ cc (rw last at h)
        | inr more ↦ elim (Bool-cases (environment attempt).cancelled_after) [
          | inl c ↦ cc (rw (more, c) at h)
          | inr c ↦ cc (rw (more, c) at h)
        ]
      ]

  judge-value :
      (attempt maximum : ℕ) (outcome : Outcome A) (events after : List ExternalCallEvent) (a : A)
      → judge config tool environment attempt maximum outcome events ≡ succeeded a after
      → outcome ≡ value a
  judge-value attempt maximum (raises e) events after a h =
      absurd (failed-no-answer attempt maximum (classify e tool) events after a h)
  judge-value attempt maximum (value b) events after a h = cc h

  once-IsAnswer :
      (attempt maximum : ℕ) (events after : List ExternalCallEvent) (a : A)
      → attempt_once config tool environment attempt maximum events ≡ succeeded a after
      → IsAnswer a attempt
  unfolding attempt_once
  once-IsAnswer attempt maximum events after a h =
      elim (Bool-cases (environment attempt).cancelled_before) [
        | inl c ↦ cc (rw c at h)
        | inr c ↦
            let fact =
              timed-value (environment attempt).elapsed (environment attempt).outcome a
                (judge-value attempt maximum _ _ after a (rw c at h)) in
            record { outcome = fact.0; in_time = fact.1; not_cancelled = c }
      ]

  from-answer :
      (n attempt maximum : ℕ) (last : ClassifiedFailure) (events : List ExternalCallEvent) (a : A)
      → (attempts_from config tool environment n attempt maximum last events).answer ≡ some a
      → IsAnswer a
          (attempts_from config tool environment n attempt maximum last events).result.attempts
  unfolding attempts_from
  from-answer zero attempt maximum last events a h = cc
  from-answer (suc n) attempt maximum last events a h =
      go (attempt_once config tool environment attempt maximum events) refl
        (λ failure after. from-answer n (suc attempt) maximum failure after a) h
    where
      go :
          (step : Step A)
          → attempt_once config tool environment attempt maximum events ≡ step
          → ((failure : ClassifiedFailure) (after : List ExternalCallEvent)
              → (attempts_from config tool environment n (suc attempt) maximum failure after).answer
                ≡ some a
              → IsAnswer a
                  (attempts_from config tool environment n
                    (suc attempt)
                    maximum
                    failure
                    after).result.attempts)
          → (run_on n attempt maximum step).answer ≡ some a
          → IsAnswer a (run_on n attempt maximum step).result.attempts
      go (succeeded b after) e rest k =
          let same : b ≡ a = cc k in once-IsAnswer attempt maximum events after a (e ∙ rw same refl)
      go (stopped failure after) e rest k = cc k
      go (again failure after) e rest k = rest failure after k

  -- A call makes at most as many attempts as it is allowed: the configured number, and one where
  -- retries are off or the call may not be repeated.
  pub execute-bound :
      (idempotent : Bool)
      → (execute config tool environment idempotent).result.attempts
        ≤ (if config.enabled && idempotent then config.max_attempts else 1)
  unfolding execute
  execute-bound idempotent =
      from-bound (maximum_attempts config tool environment idempotent) 1 _ _ [] (omega arith)
        (omega arith)

  -- A call that answers answers what the operation returned at the attempt that is reported last, and
  -- that attempt was not cancelled and took no longer than the time limit.
  pub execute-IsAnswer :
      (idempotent : Bool) (a : A)
      → (execute config tool environment idempotent).answer ≡ some a
      → IsAnswer a (execute config tool environment idempotent).result.attempts
  unfolding execute
  execute-IsAnswer idempotent a h = from-answer _ 1 _ _ [] a h
