-- ===== src/Tests/Hunts.antt =====
-- The theorems on hunts, cases and outcomes, applied to an inventory of two machines.
use ghost_busters.Prelude.{
  all, ◌+◌, ◌≡◌, ◌⊎◌, ◌≤◌, ◌&&◌, is_some, refl, true, false, none, some, Option, [], ◌∷◌, ◌||◌,
  String,
}
use ghost_busters.Prelude.Int.{whole}
use ghost_busters.Prelude.Text.{lower}
use ghost_busters.Prelude.Json.{get, get_or, Fields, field, end, object, number, text}
use ghost_busters.Hunts.Entities.{
  CloudResource, ReviewCase, ReviewCaseStatus, CloudHuntRun, HuntStore, HuntSettings,
  same_case_status,
}
use ghost_busters.Hunts.Candidates.{
  calculate_candidate, is_readable, is_production, has_dependencies, is_protected,
}
use ghost_busters.Hunts.Cases.{create_case, is_harmless}
use ghost_busters.Hunts.Decisions.{
  Reply, done, CaseAction, ReviewCaseActionRequest, decide_case, take_action, status_in,
}
use ghost_busters.Hunts.Cases.Protection.{
  approved_statuses, opened, recorded, create_case-protected, decisions_safe, decide_case-closed,
  decide_case-revoke,
}
use ghost_busters.Hunts.Scan.{Inventory, CloudHuntRequest, finished, start_hunt}
use ghost_busters.Hunts.Scan.Accounting.{IsReport, start_hunt-IsReport}
use ghost_busters.Outcomes as Outcomes
use ghost_busters.Outcomes.{
  OutcomeStatus, OutcomeVerification, OutcomeRequest, Payload, observe, complete, reopen, update,
  confirm_deployment,
}
use ghost_busters.Outcomes.Replays.{OutcomeCall, perform, perform-again}
use ghost_busters.Outcomes.Starting.{new_outcome}
use ghost_busters.Tests.Data.{pending_run}

abbrev machine : String → Option String → Fields → CloudResource
machine id environment metadata = record {
  provider = "aws";
  account_or_subscription_id = "123";
  region_or_location = "us-east-1";
  resource_id = id;
  resource_name = id;
  normalized_resource_type = "virtual_machine";
  environment = environment;
  owner = none;
  age_days = some 400;
  infrastructure_as_code_managed = some true;
  terraform_address = some "aws_instance.demo";
  estimated_monthly_cost = some 900000;
  metadata = metadata;
}

abbrev idle : CloudResource
idle = machine "i-1" (some "staging") (
    field "utilization" (object (field "average_cpu_pct" (number (whole 2)) end))
      (field "ownership" (object (field "project_status" (text "completed") end)) end))

abbrev live : CloudResource
live = machine "i-2" (some "Production") end

abbrev settings : HuntSettings
settings = record {
  cloud_hunt_enabled = true;
  cloud_hunt_candidate_threshold = 4500;
  cloud_hunt_high_confidence_threshold = 7500;
  cloud_hunt_resource_age_days = 60;
  cloud_hunt_activity_lookback_days = 30;
  cloud_hunt_low_cpu_threshold = 100000;
}

in_production : (is_production live || has_dependencies live) ≡ true
unfolding lower
in_production = refl

create_case-protected_example :
    (is_harmless (create_case 7 5 6 1 (calculate_candidate settings live)).recommendation ≡ true)
    × ((create_case 7 5 6 1 (calculate_candidate settings live)).estimated_monthly_savings ≡ 0)
    × ((create_case 7 5 6 1 (calculate_candidate settings live)).estimated_annual_savings ≡ 0)
    × (is_protected (create_case 7 5 6 1 (calculate_candidate settings live)).candidate ≡ true)
create_case-protected_example = create_case-protected settings live 7 5 6 1 in_production

abbrev request : CaseAction → ReviewCaseActionRequest
request action = record {
  action = action;
  reviewer = "ann";
  comment = none;
  modified_action = none;
  human_context = none;
  waiver = none;
  expected_version = none;
}

abbrev rejected_case : ReviewCase
rejected_case = record (create_case 7 5 6 1 (calculate_candidate settings idle)) {
  status = ReviewCaseStatus.rejected;
}

abbrev case_of : Reply ReviewCase → ReviewCase
case_of (done case) = case
case_of _ = rejected_case

abbrev reopened_case : ReviewCase
reopened_case = case_of (decide_case 9 1 (request CaseAction.reopen_case) rejected_case)

reopens : decide_case 9 1 (request CaseAction.reopen_case) rejected_case ≡ done reopened_case
unfolding decide_case take_action create_case
reopens = refl

decide_case-closed_example :
    (CaseAction.reopen_case ≡ CaseAction.reopen_case)
    × (reopened_case.status ≡ ReviewCaseStatus.reopened)
    × (same_case_status rejected_case.status ReviewCaseStatus.waived ≡ false)
decide_case-closed_example =
    decide_case-closed 9 1 (request CaseAction.reopen_case) rejected_case reopened_case reopens refl

abbrev first_case : ReviewCase
first_case = create_case 7 5 6 1 (calculate_candidate settings live)

abbrev asked_case : ReviewCase
asked_case = case_of (decide_case 9 1 (request CaseAction.request_evidence) first_case)

asks : decide_case 9 1 (request CaseAction.request_evidence) first_case ≡ done asked_case
unfolding decide_case take_action create_case calculate_candidate
asks = refl

decisions_safe_example :
    ((is_protected asked_case.candidate
        && (is_some asked_case.simulated_pr || status_in asked_case.status approved_statuses))
      ≡ false)
    × (asked_case.id ≡ 7)
    × (asked_case.organization_id ≡ 1)
    × (1 ≤ asked_case.version)
decisions_safe_example =
    decisions_safe 7 5 6 1 (calculate_candidate settings live) asked_case
      (recorded 9 1 (request CaseAction.request_evidence) opened asks)

abbrev prepared_case : ReviewCase
prepared_case = record (create_case 7 5 6 1 (calculate_candidate settings idle)) {
  status = ReviewCaseStatus.remediation_proposal_prepared;
}

abbrev revoked_case : ReviewCase
revoked_case = case_of (decide_case 9 1 (request CaseAction.revoke_approval) prepared_case)

revokes : decide_case 9 1 (request CaseAction.revoke_approval) prepared_case ≡ done revoked_case
unfolding decide_case take_action create_case
revokes = refl

decide_case-revoke_example :
    ((prepared_case.status ≡ ReviewCaseStatus.approved)
      ⊎ (prepared_case.status ≡ ReviewCaseStatus.remediation_proposal_prepared))
    × (revoked_case.status ≡ ReviewCaseStatus.approval_revoked)
decide_case-revoke_example =
    decide_case-revoke 9 1 (request CaseAction.revoke_approval) prepared_case revoked_case revokes
      refl

abbrev inventory : Inventory
inventory = record {
  now = 100;
  uuid = λ n. 50 + n;
  resources = idle ∷ live ∷ [];
  warnings = [];
  has_adapter = λ _. true;
  listing_fails = false;
  evidence_fails = λ provider word id. false;
}

abbrev hunts : HuntStore
hunts = record { hunts = []; cases = []; waivers = [] }

abbrev hunt_request : CloudHuntRequest
hunt_request = record { inventory_source = "fixtures"; goal = "Find forgotten resources" }

all_readable : all is_readable inventory.resources ≡ true
unfolding is_readable get get_or
all_readable = refl

start_hunt-IsReport_example :
    (hunt : CloudHuntRun) × ((start_hunt settings inventory hunt_request 1 hunts).0 ≡ finished hunt)
    × IsReport inventory hunts (start_hunt settings inventory hunt_request 1 hunts).1 hunt
start_hunt-IsReport_example =
    start_hunt-IsReport settings inventory hunt_request 1 hunts refl refl (λ provider word id. refl)
      all_readable

abbrev fingerprint : Payload → String
fingerprint (Payload.observed cost utilization health savings predicted) = "observed"
fingerprint _ = "other"

abbrev outcome : OutcomeVerification
outcome = record {
  id = 1;
  organization_id = 1;
  case_id = 2;
  deployment_confirmed = true;
  predicted_monthly_savings = whole 50;
  window_days = 14;
  window_started_at = 3;
  verification_status = OutcomeStatus.observing;
  observed_cost = none;
  observed_utilization = none;
  observed_health_signals = none;
  observed_monthly_savings = none;
  risk_outcome = none;
  conclusion = none;
  created_at = 3;
  updated_at = 4;
  version = 2;
  deployment_confirmed_at = some 4;
  last_idempotency_key = none;
  last_request_fingerprint = none;
}

abbrev measured : OutcomeRequest
measured = record {
  observed_monthly_savings = some (whole 45);
  observed_cost = none;
  observed_utilization = none;
  observed_health_signals = none;
  missing_evidence = [];
  expected_version = some 2;
  idempotency_key = some "k1";
}

abbrev observing : OutcomeCall
observing = OutcomeCall.observing measured

abbrev outcome_of : Outcomes.Reply OutcomeVerification → OutcomeVerification
outcome_of (Outcomes.Reply.done item) = item
outcome_of _ = outcome

abbrev measured_outcome : OutcomeVerification
measured_outcome = outcome_of (perform fingerprint 5 observing outcome)

measures : perform fingerprint 5 observing outcome ≡ Outcomes.Reply.done measured_outcome
unfolding observe update
measures = refl

perform-again_example :
    perform fingerprint 9 observing measured_outcome ≡ Outcomes.Reply.done measured_outcome
perform-again_example =
    perform-again fingerprint 5 9 observing outcome measured_outcome "k1" refl refl measures

abbrev new : OutcomeVerification
new = new_outcome fingerprint 1 3 pending_run 14 none

abbrev confirmed : OutcomeVerification
confirmed = outcome_of (confirm_deployment fingerprint 4 new (some 1) none)
