-- ===== src/Retry.antt =====
-- core/retry.py: attempts at an external read, with classified failures and bounded delays. Durations
-- are fractions of a second; the elapsed times that are only recorded, and interrupts of the process,
-- are left out.
pub mod Bounds
use ghost_busters.Prelude.{
  ℕ, zero, suc, ◌-◌, ◌^◌, min, String, Bool, true, false, not, ◌&&◌, ◌||◌, Option, none, some, List,
  [], ◌∷◌, ◌++◌, keep_if, length, if◌then◌else◌, ltb, leb, ◌==◌,
}
use ghost_busters.Prelude.Text.{append, show}
use ghost_busters.Prelude.Ratio.{Ratio, ratio, add, mul, ltb_ratio}
use ghost_busters.Model.{ExternalCallEvent, ExternalCallEventType, ExternalCallExecutionResult}

-- What `classify` reads of an exception: an ExternalCallError with its fields, an HTTP status with the
-- parsed Retry-After, or one of the groups of exception types that it tells apart.
pub data Raised : Type 0 where
  external : String → Bool → String → Option Ratio → Raised
  http : ℕ → Option Ratio → Raised
  timeout network invalid other : Raised

pub record Exception : Type 0 where
  pub raised : Raised
  pub type_name : String

pub record RetryConfig : Type 0 where
  pub enabled : Bool
  pub max_attempts : ℕ
  pub initial_delay_seconds : Ratio
  pub multiplier : Ratio
  pub max_delay_seconds : Ratio
  pub jitter_seconds : Ratio
  pub timeout_seconds : Ratio

pub record ClassifiedFailure : Type 0 where
  pub category : String
  pub retryable : Bool
  pub safe_message : String
  pub failure_type : String
  pub retry_after_seconds : Option Ratio

pub data Outcome {ℓ} (A : Type ℓ) : Type ℓ where
  value : A → Outcome A
  raises : Exception → Outcome A

-- What the surroundings answer at one attempt: the two looks at `cancelled`, the operation's outcome
-- with the time it took, and the random number in [0, 1).
pub record Attempt {ℓ} (A : Type ℓ) : Type ℓ where
  pub cancelled_before : Bool
  pub outcome : Outcome A
  pub elapsed : Ratio
  pub cancelled_after : Bool
  pub random_value : Ratio

pub record RetryExecution {ℓ} (A : Type ℓ) : Type ℓ where
  pub answer : Option A
  pub result : ExternalCallExecutionResult

abbrev failure_of : String → Bool → String → String → Option Ratio → ClassifiedFailure
failure_of category retryable message type_name retry_after = record {
  category = category;
  retryable = retryable;
  safe_message = message;
  failure_type = type_name;
  retry_after_seconds = retry_after;
}

-- `status in RETRYABLE_HTTP_STATUSES`
abbrev pub is_retryable_status : ℕ → Bool
is_retryable_status s = s == 408 || s == 429 || s == 500 || s == 502 || s == 503 || s == 504

unfoldable pub http_failure : String → String → ℕ → Option Ratio → ClassifiedFailure
http_failure tool type_name status retry_after =
    if status == 429
    then failure_of "rate_limited" true (append tool " was rate limited.") type_name retry_after
    else if is_retryable_status status
    then failure_of (if status == 408 then "timeout" else "temporary_service_unavailable") true
        (append tool (append " returned temporary HTTP " (append (show status) "."))) type_name
        retry_after
    else if status == 401
    then failure_of "authentication_failure" false (append tool " authentication failed.") type_name
        none
    else if status == 403
    then failure_of "authorization_failure" false (append tool " authorization failed.") type_name
        none
    else failure_of
        (if status == 404
          then "resource_not_found"
          else if status == 400
          then "invalid_request"
          else "permanent_http_error")
        false (append tool (append " returned non-retryable HTTP " (append (show status) ".")))
        type_name none

abbrev temporary : String → String → String → ClassifiedFailure
temporary tool type_name category =
    failure_of category true (append tool " is temporarily unavailable.") type_name none

abbrev permanent : String → String → String → ClassifiedFailure
permanent tool type_name category =
    failure_of category false (append tool " returned a non-retryable failure.") type_name none

abbrev classify_raised : String → String → Raised → ClassifiedFailure
classify_raised tool type_name (external category retryable message after) =
    failure_of category retryable message type_name after
classify_raised tool type_name (http status after) = http_failure tool type_name status after
classify_raised tool type_name timeout = temporary tool type_name "timeout"
classify_raised tool type_name network = temporary tool type_name "temporary_network_failure"
classify_raised tool type_name invalid = permanent tool type_name "invalid_response_schema"
classify_raised tool type_name other = permanent tool type_name "provider_error"

-- An executor with no exception types of its own to retry or to refuse, as the program builds it.
unfoldable pub classify : Exception → String → ClassifiedFailure
classify e tool = classify_raised tool e.type_name e.raised

abbrev power : Ratio → ℕ → Ratio
power r zero = ratio 1 1
power r (suc n) = mul r (power r n)

abbrev base_delay : RetryConfig → ℕ → Option Ratio → Ratio
base_delay config attempt (some after) = after
base_delay config attempt none =
    mul config.initial_delay_seconds (power config.multiplier (attempt - 1))

unfoldable pub retry_delay : RetryConfig → ℕ → Option Ratio → Ratio → Ratio
retry_delay config attempt retry_after random =
    let delay = add (base_delay config attempt retry_after) (mul config.jitter_seconds random) in
    if ltb_ratio config.max_delay_seconds delay then config.max_delay_seconds else delay

abbrev is_started : ExternalCallEvent → Bool
is_started event = elim event.event_type [ ExternalCallEventType.started ↦ true | _ ↦ false ]

abbrev pub started_count : List ExternalCallEvent → ℕ
started_count events = length (keep_if is_started events)

-- How an attempt ends: the loop stops with an answer or a failure, or goes on.
pub data Step {ℓ} (A : Type ℓ) : Type ℓ where
  succeeded : A → List ExternalCallEvent → Step A
  stopped : ClassifiedFailure → List ExternalCallEvent → Step A
  again : ClassifiedFailure → List ExternalCallEvent → Step A

module _ {ℓ} {A : Type ℓ} (config : RetryConfig) (tool : String) (environment : ℕ → Attempt A) where
  abbrev event :
      ExternalCallEventType → ℕ → ℕ → Option String → Option Bool → Option Ratio → ExternalCallEvent
  event kind attempt maximum category retryable delay = record {
    event_type = kind;
    attempt = attempt;
    maximum_attempts = maximum;
    failure_category = category;
    retryable = retryable;
    retry_delay_seconds = delay;
  }

  abbrev cancelled : String → ClassifiedFailure
  cancelled message = failure_of "cancelled" false (append tool message) "Cancelled" none

  abbrev failure_event : ℕ → ℕ → ClassifiedFailure → ExternalCallEvent
  failure_event attempt maximum failure =
      event ExternalCallEventType.failed attempt maximum (some failure.category)
        (some failure.retryable) none

  -- an answer that took too long is a `TimeoutError`
  abbrev timed : Ratio → Outcome A → Outcome A
  timed elapsed (raises e) = raises e
  timed elapsed (value a) =
      if ltb_ratio config.timeout_seconds elapsed
      then raises (record { raised = timeout; type_name = "TimeoutError" })
      else value a

  abbrev scheduled_event : ℕ → ℕ → ClassifiedFailure → ExternalCallEvent
  scheduled_event attempt maximum failure =
      event ExternalCallEventType.retry_scheduled attempt maximum (some failure.category)
        (some true)
        (some (
          retry_delay config attempt failure.retry_after_seconds
            (environment attempt).random_value))

  -- an attempt that failed, after its events so far
  abbrev failed_attempt : ℕ → ℕ → ClassifiedFailure → List ExternalCallEvent → Step A
  failed_attempt attempt maximum failure events =
      let failed = events ++ failure_event attempt maximum failure ∷ [] in
      let scheduled = failed ++ scheduled_event attempt maximum failure ∷ [] in
      if not (failure.retryable && ltb attempt maximum)
      then stopped failure failed
      else if (environment attempt).cancelled_after
      then stopped (cancelled " retry was cancelled safely.") scheduled
      else again failure scheduled

  abbrev started_event : ℕ → ℕ → ExternalCallEvent
  started_event attempt maximum = event ExternalCallEventType.started attempt maximum none none none

  abbrev judge : ℕ → ℕ → Outcome A → List ExternalCallEvent → Step A
  judge attempt maximum (raises e) events = failed_attempt attempt maximum (classify e tool) events
  judge attempt maximum (value a) events =
      succeeded a (
        events ++ event ExternalCallEventType.succeeded attempt maximum none (some false) none ∷ [])

  -- the body of the loop
  unfoldable pub attempt_once : ℕ → ℕ → List ExternalCallEvent → Step A
  attempt_once attempt maximum events =
      if (environment attempt).cancelled_before
      then stopped (cancelled " call was cancelled safely.")
          (events ++ failure_event attempt maximum (cancelled " call was cancelled safely.") ∷ [])
      else judge attempt maximum (timed (environment attempt).elapsed (environment attempt).outcome)
          (events ++ started_event attempt maximum ∷ [])

  abbrev success : ℕ → A → List ExternalCallEvent → RetryExecution A
  success attempt a events = record {
    answer = some a;
    result = record {
      tool_name = tool;
      success = true;
      attempts = attempt;
      retry_exhausted = false;
      failure_category = none;
      retryable = some false;
      final_failure_type = none;
      safe_message =
          append tool (append " succeeded after " (append (show attempt) " attempt(s)."));
      events = events;
    };
  }

  abbrev exhausted : ℕ → ClassifiedFailure → List ExternalCallEvent → RetryExecution A
  exhausted maximum failure events = record {
    answer = none;
    result = record {
      tool_name = tool;
      success = false;
      attempts = started_count events;
      retry_exhausted = failure.retryable && ltb 1 maximum;
      failure_category = some failure.category;
      retryable = some failure.retryable;
      final_failure_type = some failure.failure_type;
      safe_message = append tool (
          append " remained unavailable after "
            (append (show (started_count events)) " attempt(s)."));
      events =
          events
          ++ event ExternalCallEventType.exhausted (min maximum (started_count events)) maximum
              (some failure.category) (some failure.retryable) none
            ∷ [];
    };
  }

  -- the loop over the attempts that are left; a last attempt never asks to go on
  unfoldable pub attempts_from :
      ℕ → ℕ → ℕ → ClassifiedFailure → List ExternalCallEvent → RetryExecution A
  attempts_from zero attempt maximum last events = exhausted maximum last events
  attempts_from (suc n) attempt maximum last events = elim (attempt_once attempt maximum events) [
    | succeeded a after ↦ success attempt a after
    | stopped failure after ↦ exhausted maximum failure after
    | again failure after ↦ attempts_from n (suc attempt) maximum failure after
  ]

  abbrev pub maximum_attempts : Bool → ℕ
  maximum_attempts idempotent = if config.enabled && idempotent then config.max_attempts else 1

  -- `last_failure` before the first attempt is never read where `max_attempts` is at least one, which
  -- `__post_init__` checks
  unfoldable pub execute : Bool → RetryExecution A
  unfolding attempts_from
  execute idempotent =
      let maximum = maximum_attempts idempotent in attempts_from maximum 1 maximum (cancelled "") []
