-- ===== src/Hunts/Cases.antt =====
-- core/cloud_hunt_service.py: review cases, from the candidate to the open case.
pub mod Protection
use ghost_busters.Prelude.{
  ℕ, ◌+◌, ◌*◌, String, Bool, true, false, not, ◌&&◌, ◌||◌, Option, none, some, List, [], ◌∷◌, ◌++◌,
  any, length, if◌then◌else◌, ◌==◌, is_none, or_else, get_or_else,
}
use ghost_busters.Prelude.Text.{◌==◌ as text_eq, append}
use ghost_busters.Prelude.Table.{Table, lookup, put}
use ghost_busters.Model.{Actor, AuditEvent}
use ghost_busters.Hunts.Entities.{
  GhostSignalType, GhostCandidate, ReviewCaseStatus, SimulatedPr, ReviewCase, HuntStore,
  same_case_status,
}
use ghost_busters.Hunts.Candidates.{is_given, is_production, is_protected, has_signal}

-- `bool(flag)`
abbrev is_true : Option Bool → Bool
is_true none = false
is_true (some b) = b

abbrev pub is_recent : GhostCandidate → Bool
is_recent candidate = has_signal GhostSignalType.recent_activity candidate

abbrev is_unmanaged : GhostCandidate → Bool
is_unmanaged candidate =
    not (is_true candidate.resource.infrastructure_as_code_managed)
    || not (is_given candidate.resource.terraform_address)

abbrev pub recommendation_for : GhostCandidate → String
recommendation_for candidate =
    if is_recent candidate
    then "request_owner_confirmation"
    else if is_production candidate.resource
    then "request_owner_confirmation"
    else if is_protected candidate
    then "keep"
    else if is_unmanaged candidate
        && text_eq candidate.resource.normalized_resource_type "public_ip"
    then "release_unused_ip"
    else if is_unmanaged candidate
    then "request_owner_confirmation"
    else "stop_for_observation"

-- `recommendation in {"keep", "request_owner_confirmation"}`
abbrev pub is_harmless : String → Bool
is_harmless recommendation =
    text_eq recommendation "keep" || text_eq recommendation "request_owner_confirmation"

abbrev savings_of : GhostCandidate → ℕ
savings_of candidate =
    if is_harmless (recommendation_for candidate)
    then 0
    else get_or_else candidate.resource.estimated_monthly_cost 0

unfoldable pub create_case : ℕ → ℕ → ℕ → ℕ → GhostCandidate → ReviewCase
unfolding is_protected
create_case id now hunt_id organization_id candidate =
    let guarded = is_protected candidate || is_production candidate.resource in
    record {
      id = id;
      organization_id = organization_id;
      source_reference = hunt_id;
      provider = candidate.resource.provider;
      resource_id = candidate.resource.resource_id;
      resource_name = candidate.resource.resource_name;
      recommendation = recommendation_for candidate;
      confidence = candidate.candidate_score;
      risk_level = if guarded then "high" else "medium";
      estimated_monthly_savings = savings_of candidate;
      estimated_annual_savings = savings_of candidate * 12;
      policy_status =
          if is_protected candidate || is_recent candidate then "needs_human_context" else "passed";
      required_reviewer_role =
          if guarded
          then "cloud_owner"
          else if is_given candidate.resource.owner
          then "finops_reviewer"
          else "application_owner";
      human_decision = none;
      final_outcome = none;
      created_at = now;
      updated_at = now;
      waiver_expiry = none;
      status =
          if is_recent candidate
          then ReviewCaseStatus.needs_more_evidence
          else ReviewCaseStatus.pending;
      candidate = candidate;
      terraform_address = candidate.resource.terraform_address;
      simulated_pr = none;
      audit_events = [];
      version = 1;
    }
