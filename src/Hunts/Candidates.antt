-- ===== src/Hunts/Candidates.antt =====
-- core/cloud_candidates.py: the signals and the score of a resource. Weights are exact
-- ten-thousandths where the program adds floating-point numbers.
use ghost_busters.Prelude.{
  ℕ, ◌+◌, ◌-◌, ◌/◌, min, String, Bool, true, false, not, ◌&&◌, ◌||◌, Option, none, some, List, [],
  ◌∷◌, ◌++◌, map, any, all, note, if◌then◌else◌, ltb, leb, get_or_else,
}
use ghost_busters.Prelude.Text.{◌==◌ as text_eq, lower}
use ghost_busters.Prelude.Int.{ℤ, pos, negsuc, ltb_ℤ, leb_ℤ}
use ghost_busters.Prelude.Json.{Value, end, get, get_or, as_object, as_number, truthy, str_value}
use ghost_busters.Hunts.Entities.{
  CloudResource, GhostSignalType, GhostSignal, SuspicionLevel, GhostCandidate, HuntSettings,
  same_signal,
}

-- `resource.metadata.get(key, {}).get(name)`
abbrev detail : CloudResource → String → String → Value
detail resource key name = get (as_object (get resource.metadata key)) name

-- `float(utilization["average_cpu_pct"]) < threshold`, where the value is a number
abbrev is_low_cpu : HuntSettings → CloudResource → Bool
is_low_cpu settings resource = elim (as_number (detail resource "utilization" "average_cpu_pct")) [
  | none ↦ false
  | some cpu ↦ ltb_ℤ cpu (pos settings.cloud_hunt_low_cpu_threshold)
]

-- `resource.age_days is not None and resource.age_days >= limit`
abbrev is_old : HuntSettings → CloudResource → Bool
is_old settings resource = elim resource.age_days [
  | none ↦ false
  | some days ↦ leb settings.cloud_hunt_resource_age_days days
]

-- a text that is there and not empty
abbrev pub is_given : Option String → Bool
is_given none = false
is_given (some s) = not (text_eq s "")

-- `(resource.environment or "").lower() == "production"`
abbrev pub is_production : CloudResource → Bool
is_production resource = text_eq (lower (get_or_else resource.environment "")) "production"

-- `int(days)`, which drops the fraction
abbrev whole_days : Value → Option ℤ
whole_days value = elim (as_number value) [
  | none ↦ none
  | some (pos n) ↦ some (pos (n / 10000))
  | some (negsuc n) ↦ some (if ltb n 9999 then pos 0 else negsuc ((n - 9999) / 10000))
]

abbrev pub has_dependencies : CloudResource → Bool
has_dependencies resource =
    truthy (detail resource "dependencies" "active_downstream_dependencies")
    || truthy (detail resource "dependencies" "blocking_services")

-- `resource.estimated_monthly_cost and resource.estimated_monthly_cost > 0`
abbrev has_cost : CloudResource → Bool
has_cost resource = elim resource.estimated_monthly_cost [ none ↦ false | some cost ↦ ltb 0 cost ]

abbrev signal : GhostSignalType → ℕ → Bool → GhostSignal
signal kind weight supports = record {
  signal_type = kind;
  weight = weight;
  supports_ghost_hypothesis = supports;
}

-- the signal on the days since the last activity
abbrev activity_signal : HuntSettings → CloudResource → List GhostSignal
activity_signal settings resource =
    elim (whole_days (detail resource "activity" "days_since_last_activity")) [
      | none ↦ []
      | some days ↦
          if leb_ℤ days (pos settings.cloud_hunt_activity_lookback_days)
          then signal GhostSignalType.recent_activity 2500 false ∷ []
          else signal GhostSignalType.no_recent_activity 1500 true ∷ []
    ]

unfoldable pub signals_of : HuntSettings → CloudResource → List GhostSignal
unfolding get lower
signals_of settings resource =
    note (is_low_cpu settings resource) (signal GhostSignalType.low_utilization 2000 true) (
      note (is_old settings resource) (signal GhostSignalType.old_resource 1000 true) (
        note (not (is_given resource.owner) && not (truthy (detail resource "ownership" "owner")))
          (signal GhostSignalType.missing_owner 1000 true)
          (note
            (text_eq (lower (str_value (detail resource "ownership" "project_status"))) "completed")
            (signal GhostSignalType.completed_project 1500 true)
            (activity_signal settings resource
              ++ (if has_dependencies resource
                  then signal GhostSignalType.active_dependency 4000 false
                  else signal GhostSignalType.no_dependencies 1500 true)
                ∷ note
                    (has_cost resource
                      && is_low_cpu settings resource
                      && leb settings.cloud_hunt_resource_age_days
                          (get_or_else resource.age_days 0))
                    (signal GhostSignalType.cost_without_usage 1000 true)
                    (note (truthy (get resource.metadata "unattached"))
                      (signal GhostSignalType.unattached_resource 2500 true)
                      (note (truthy (get resource.metadata "idle_public_ip"))
                        (signal GhostSignalType.idle_public_ip 2500 true)
                        (note (is_production resource)
                          (signal GhostSignalType.production_resource 10000 false) [])))))))

-- the weights of the signals that support the hypothesis, or of those that do not
abbrev pub weight_of : Bool → List GhostSignal → ℕ
weight_of supporting [] = 0
weight_of supporting (s ∷ rest) =
    (if supporting
      then (if s.supports_ghost_hypothesis then s.weight else 0)
      else (if s.supports_ghost_hypothesis then 0 else s.weight))
    + weight_of supporting rest

-- `max(0.0, min(1.0, supporting - protecting))`
abbrev pub score_of : List GhostSignal → ℕ
score_of signals = min 10000 (weight_of true signals - weight_of false signals)

abbrev suspicion : HuntSettings → ℕ → SuspicionLevel
suspicion settings score =
    if leb 9000 score
    then SuspicionLevel.critical
    else if leb settings.cloud_hunt_high_confidence_threshold score
    then SuspicionLevel.high
    else if leb settings.cloud_hunt_candidate_threshold score
    then SuspicionLevel.medium
    else SuspicionLevel.low

unfoldable pub calculate_candidate : HuntSettings → CloudResource → GhostCandidate
unfolding signals_of lower
calculate_candidate settings resource =
    let signals = signals_of settings resource in
    let candidate = leb settings.cloud_hunt_candidate_threshold (weight_of true signals) in
    record {
      resource = resource;
      candidate_score = score_of signals;
      suspicion_level = suspicion settings (score_of signals);
      signals = signals;
      requires_investigation = candidate;
      exclusion_reason =
          if is_production resource
          then some "Production resource is protected."
          else if has_dependencies resource && candidate
          then some "Active dependency protects this resource from stop or delete."
          else none;
    }

abbrev is_object : Value → Bool
is_object (Value.object _) = true
is_object _ = false

-- `float(value)` or `int(value)` of a value that is not `None`; a text is taken to raise, though Python
-- reads a numeral
abbrev is_readable_number : Value → Bool
is_readable_number Value.null = true
is_readable_number (Value.number _) = true
is_readable_number (Value.boolean _) = true
is_readable_number _ = false

-- whether calculate_candidate raises nothing: the groups of the metadata are missing or mappings, and
-- the two numbers can be read
unfoldable pub is_readable : CloudResource → Bool
unfolding get get_or
is_readable resource =
    let group = λ (key : String). is_object (get_or resource.metadata key (Value.object end)) in
    group "utilization"
    && group "activity"
    && group "dependencies"
    && group "ownership"
    && is_readable_number (detail resource "utilization" "average_cpu_pct")
    && is_readable_number (detail resource "activity" "days_since_last_activity")

-- `none` where it raises
unfoldable pub detect_candidates : HuntSettings → List CloudResource → Option (List GhostCandidate)
unfolding calculate_candidate is_readable
detect_candidates settings resources =
    if all is_readable resources then some (map (calculate_candidate settings) resources) else none

abbrev pub has_signal : GhostSignalType → GhostCandidate → Bool
has_signal kind candidate =
    any (λ (s : GhostSignal). same_signal s.signal_type kind) candidate.signals

-- _is_protected of core/cloud_hunt_service.py
abbrev pub protects : GhostSignal → Bool
protects s =
    same_signal s.signal_type GhostSignalType.active_dependency
    || same_signal s.signal_type GhostSignalType.production_resource
    || same_signal s.signal_type GhostSignalType.recent_activity

unfoldable pub is_protected : GhostCandidate → Bool
is_protected candidate = any protects candidate.signals
