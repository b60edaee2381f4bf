-- ===== src/Hunts/Entities.antt =====
-- The resources, candidates, hunts and review cases of app/models.py. A score and a price are numbers
-- of ten-thousandths; the prices of an inventory are not negative. What the services only show, the
-- descriptions of signals for instance, is left out.
use ghost_busters.Prelude.{ℕ, String, Bool, Option, List, ◌==◌}
use ghost_busters.Prelude.Json.{Fields}
use ghost_busters.Prelude.Table.{Table}
use ghost_busters.Model.{AuditEvent}

pub record CloudResource : Type 0 where
  pub provider : String
  pub account_or_subscription_id : String
  pub region_or_location : String
  pub resource_id : String
  pub resource_name : String
  pub normalized_resource_type : String
  pub environment : Option String
  pub owner : Option String
  pub age_days : Option ℕ
  pub infrastructure_as_code_managed : Option Bool
  pub terraform_address : Option String
  pub estimated_monthly_cost : Option ℕ
  pub metadata : Fields

pub data GhostSignalType : Type 0 where
  low_utilization old_resource missing_owner completed_project no_recent_activity : GhostSignalType
  recent_activity active_dependency no_dependencies cost_without_usage : GhostSignalType
  unattached_resource idle_public_ip production_resource : GhostSignalType

pub record GhostSignal : Type 0 where
  pub signal_type : GhostSignalType
  pub weight : ℕ
  pub supports_ghost_hypothesis : Bool

pub data SuspicionLevel : Type 0 where
  low medium high critical : SuspicionLevel

pub record GhostCandidate : Type 0 where
  pub resource : CloudResource
  pub candidate_score : ℕ
  pub suspicion_level : SuspicionLevel
  pub signals : List GhostSignal
  pub requires_investigation : Bool
  pub exclusion_reason : Option String

pub data ReviewCaseStatus : Type 0 where
  pending approved rejected approval_revoked reopened pending_human_review : ReviewCaseStatus
  needs_more_evidence remediation_proposal_prepared remediation_pr_created : ReviewCaseStatus
  waived pr_created : ReviewCaseStatus

-- The simulated pull request of a case, with what depends on the case.
pub record SimulatedPr : Type 0 where
  pub pr_number : ℕ
  pub branch : String
  pub created_at : ℕ
  pub resource_id : String
  pub chosen_action : String
  pub monthly_savings : ℕ
  pub annual_savings : ℕ
  pub confidence : ℕ
  pub policy_summary : String
  pub human_approval_summary : String

-- A case of this service; its candidate is always that of a hunt.
pub record ReviewCase : Type 0 where
  pub id : ℕ
  pub organization_id : ℕ
  pub source_reference : ℕ
  pub provider : String
  pub resource_id : String
  pub resource_name : String
  pub recommendation : String
  pub confidence : ℕ
  pub risk_level : String
  pub estimated_monthly_savings : ℕ
  pub estimated_annual_savings : ℕ
  pub policy_status : String
  pub required_reviewer_role : String
  pub human_decision : Option String
  pub final_outcome : Option String
  pub created_at : ℕ
  pub updated_at : ℕ
  pub waiver_expiry : Option ℕ
  pub status : ReviewCaseStatus
  pub candidate : GhostCandidate
  pub terraform_address : Option String
  pub simulated_pr : Option SimulatedPr
  pub audit_events : List AuditEvent
  pub version : ℕ

pub record CloudHuntSummary : Type 0 where
  pub total_resources : ℕ
  pub healthy_resources : ℕ
  pub candidates : ℕ
  pub high_confidence_candidates : ℕ
  pub protected_candidates : ℕ
  pub needs_human_context : ℕ
  pub estimated_monthly_waste : ℕ
  pub estimated_annual_waste : ℕ

pub data CloudHuntStatus : Type 0 where
  scanning completed completed_with_warnings : CloudHuntStatus

pub record CloudHuntRun : Type 0 where
  pub id : ℕ
  pub organization_id : ℕ
  pub inventory_source : String
  pub goal : String
  pub started_at : ℕ
  pub completed_at : Option ℕ
  pub status : CloudHuntStatus
  pub data_source_mode : String
  pub account_ids : List String
  pub regions : List String
  pub resources_scanned : ℕ
  pub candidates_found : ℕ
  pub investigations_created : ℕ
  pub protected_resources : ℕ
  pub errors : List String
  pub audit_events : List AuditEvent
  pub summary : CloudHuntSummary
  pub candidates : List GhostCandidate

-- CloudHuntService without its persistence.
pub record HuntStore : Type 0 where
  pub hunts : Table ℕ CloudHuntRun
  pub cases : Table ℕ ReviewCase
  pub waivers : Table String ℕ

pub record HuntSettings : Type 0 where
  pub cloud_hunt_enabled : Bool
  pub cloud_hunt_candidate_threshold : ℕ
  pub cloud_hunt_high_confidence_threshold : ℕ
  pub cloud_hunt_resource_age_days : ℕ
  pub cloud_hunt_activity_lookback_days : ℕ
  pub cloud_hunt_low_cpu_threshold : ℕ

abbrev signal_rank : GhostSignalType → ℕ
signal_rank GhostSignalType.low_utilization = 0
signal_rank GhostSignalType.old_resource = 1
signal_rank GhostSignalType.missing_owner = 2
signal_rank GhostSignalType.completed_project = 3
signal_rank GhostSignalType.no_recent_activity = 4
signal_rank GhostSignalType.recent_activity = 5
signal_rank GhostSignalType.active_dependency = 6
signal_rank GhostSignalType.no_dependencies = 7
signal_rank GhostSignalType.cost_without_usage = 8
signal_rank GhostSignalType.unattached_resource = 9
signal_rank GhostSignalType.idle_public_ip = 10
signal_rank GhostSignalType.production_resource = 11

abbrev pub same_signal : GhostSignalType → GhostSignalType → Bool
same_signal a b = signal_rank a == signal_rank b

abbrev case_rank : ReviewCaseStatus → ℕ
case_rank ReviewCaseStatus.pending = 0
case_rank ReviewCaseStatus.approved = 1
case_rank ReviewCaseStatus.rejected = 2
case_rank ReviewCaseStatus.approval_revoked = 3
case_rank ReviewCaseStatus.reopened = 4
case_rank ReviewCaseStatus.pending_human_review = 5
case_rank ReviewCaseStatus.needs_more_evidence = 6
case_rank ReviewCaseStatus.remediation_proposal_prepared = 7
case_rank ReviewCaseStatus.remediation_pr_created = 8
case_rank ReviewCaseStatus.waived = 9
case_rank ReviewCaseStatus.pr_created = 10

abbrev pub same_case_status : ReviewCaseStatus → ReviewCaseStatus → Bool
same_case_status a b = case_rank a == case_rank b
