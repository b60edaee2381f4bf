-- ===== src/Hunts/Scan.antt =====
-- core/cloud_hunt_service.py: a hunt over an inventory. The registry of providers is outside: its
-- resources, its warnings, whether it has an adapter for a provider, and which calls raise are arguments.
pub mod Accounting
use Prim.Native.String.{char_at}
use ghost_busters.Prelude.{
  ℕ, ◌+◌, ◌-◌, ◌*◌, String, Bool, true, false, not, ◌&&◌, ◌||◌, Option, none, some, List, [], ◌∷◌,
  ◌++◌, map, any, length, keep_if, if◌then◌else◌, ◌==◌, leb, ltb, get_or_else, is_empty,
}
use ghost_busters.Prelude.Text.{◌==◌ as text_eq, append, lower, mem, sorted_set, show}
use ghost_busters.Prelude.Strip.{strip, replace_char}
use ghost_busters.Prelude.Table.{Table, lookup, put, count}
use ghost_busters.Model.{Actor, AuditEvent}
use ghost_busters.Hunts.Entities.{
  CloudResource, GhostSignalType, GhostCandidate, ReviewCase, CloudHuntSummary, CloudHuntStatus,
  CloudHuntRun, HuntStore, HuntSettings,
}
use ghost_busters.Hunts.Candidates.{detect_candidates, is_protected}
use ghost_busters.Hunts.Cases.{create_case, is_recent}

-- What a hunt reads from outside: the clock, the ids of `uuid4`, and the registry's answers.
pub record Inventory : Type 0 where
  pub now : ℕ
  pub uuid : ℕ → ℕ
  pub resources : List CloudResource
  pub warnings : List String
  pub has_adapter : String → Bool
  -- whether registry.list_resources raises, and the evidence call of a provider, of a kind, on a resource
  pub listing_fails : Bool
  pub evidence_fails : String → String → String → Bool

pub record CloudHuntRequest : Type 0 where
  pub inventory_source : String
  pub goal : String

unfoldable pub data_source_mode : String → String
unfolding strip lower replace_char
data_source_mode inventory_source =
    let source = if text_eq inventory_source "" then "fixtures" else inventory_source in
    let value = replace_char (char_at "-" 0) (char_at "_" 0) (lower (strip source)) in
    if mem value ("fixtures" ∷ "fixture" ∷ "fixture_backed" ∷ [])
    then "Fixture-backed"
    else if mem value ("real_aws" ∷ "aws" ∷ "connected_aws" ∷ [])
    then "Connected cloud account"
    else if mem value ("connected" ∷ "cloud_account" ∷ "connected_cloud_account" ∷ [])
    then "Connected cloud account"
    else if mem value ("imported" ∷ "imported_inventory" ∷ [])
    then "Imported inventory"
    else "Mixed"

-- The part of a hunt that its loop changes.
pub record Progress : Type 0 where
  pub audit_events : List AuditEvent
  pub active_candidates : List GhostCandidate
  pub investigations_created : ℕ
  pub cases : Table ℕ ReviewCase
  -- whether a call has raised
  pub failed : Bool

-- _audit; the score in the summary of its event is left out
unfoldable pub audit : ℕ → String → String → Progress → Progress
audit now event_type summary progress = record progress {
  audit_events =
      progress.audit_events
      ++ record {
        sequence_number = length progress.audit_events + 1;
        timestamp = now;
        event_type = event_type;
        actor = Actor.agent;
        summary = summary;
      }
        ∷ [];
}

abbrev evidence_words : List String
evidence_words = "cost" ∷ "utilization" ∷ "dependency" ∷ "activity" ∷ "ownership" ∷ []

-- one event for each of the calls of the adapter, which only read, up to one that raises
unfoldable pub collect : Inventory → CloudResource → List String → Progress → Progress
collect inventory resource [] progress = progress
collect inventory resource (word ∷ rest) progress =
    let later = collect inventory resource rest (
      audit inventory.now "provider_adapter_called" (append "Collected " (append word " evidence."))
        progress) in
    if inventory.evidence_fails resource.provider word resource.resource_id
    then record progress { failed = true }
    else later

-- the events on each resource of the inventory
unfoldable pub list_resources : ℕ → List CloudResource → Progress → Progress
list_resources now [] progress = progress
list_resources now (resource ∷ rest) progress = list_resources now rest (
    audit now "resource_normalized" (append "Normalized " (append resource.resource_name ".")) (
      audit now "provider_inventory_requested"
        (append "Requested " (append resource.provider " inventory.")) progress))

-- `expiry and expiry > _now()`
unfoldable pub is_waived : ℕ → Table String ℕ → GhostCandidate → Bool
unfolding lookup
is_waived now waivers candidate = elim (lookup text_eq candidate.resource.resource_id waivers) [
  | none ↦ false
  | some expiry ↦ ltb now expiry
]

abbrev open_case : Inventory → ℕ → ℕ → GhostCandidate → Progress → ReviewCase
open_case inventory hunt_id organization_id candidate progress =
    create_case (inventory.uuid (progress.investigations_created + 1)) inventory.now hunt_id
      organization_id candidate

-- a candidate that is selected, with its event and those of its evidence
abbrev select : Inventory → GhostCandidate → Progress → Progress
select inventory candidate progress =
    let noted =
      audit inventory.now "candidate_selected"
        (append "Selected " (append candidate.resource.resource_name " for investigation."))
        (record progress { active_candidates = progress.active_candidates ++ candidate ∷ [] }) in
    if inventory.has_adapter candidate.resource.provider
    then collect inventory candidate.resource evidence_words noted
    else noted

-- a candidate that is selected, and its case, unless a call has raised
unfoldable pub investigate : Inventory → ℕ → ℕ → GhostCandidate → Progress → Progress
investigate inventory hunt_id organization_id candidate progress =
    let collected = select inventory candidate progress in
    let case = open_case inventory hunt_id organization_id candidate progress in
    if collected.failed
    then collected
    else audit inventory.now "investigation_created"
        (append "Created human review case for " (append candidate.resource.resource_name "."))
        (record collected {
          cases = put ◌==◌ case.id case collected.cases;
          investigations_created = collected.investigations_created + 1;
        })

-- one turn of the loop over the candidates, none after a call has raised
unfoldable pub consider : Inventory → Table String ℕ → ℕ → ℕ → GhostCandidate → Progress → Progress
consider inventory waivers hunt_id organization_id candidate progress =
    let calculated =
      audit inventory.now "candidate_signals_calculated" "Calculated deterministic score."
        progress in
    if progress.failed
    then progress
    else if not candidate.requires_investigation
    then audit inventory.now "candidate_skipped"
        (append "Skipped healthy resource " (append candidate.resource.resource_name "."))
        calculated
    else if is_waived inventory.now waivers candidate
    then audit inventory.now "candidate_skipped"
        (append "Skipped waived resource " (append candidate.resource.resource_name ".")) calculated
    else investigate inventory hunt_id organization_id candidate calculated

unfoldable pub consider_all :
    Inventory → Table String ℕ → ℕ → ℕ → List GhostCandidate → Progress → Progress
consider_all inventory waivers hunt_id organization_id [] progress = progress
consider_all inventory waivers hunt_id organization_id (candidate ∷ rest) progress =
    consider_all inventory waivers hunt_id organization_id rest
      (consider inventory waivers hunt_id organization_id candidate progress)

abbrev cost_of : GhostCandidate → ℕ
cost_of candidate = get_or_else candidate.resource.estimated_monthly_cost 0

-- the sum of the costs of the candidates that nothing protects
abbrev pub monthly_waste : List GhostCandidate → ℕ
monthly_waste [] = 0
monthly_waste (candidate ∷ rest) =
    (if is_protected candidate then 0 else cost_of candidate) + monthly_waste rest

-- _summary, without its breakdown by provider
unfoldable pub summarize : HuntSettings → ℕ → List GhostCandidate → CloudHuntSummary
unfolding is_protected
summarize settings resources candidates = record {
  total_resources = resources;
  healthy_resources = resources - length candidates;
  candidates = length candidates;
  high_confidence_candidates =
      count
        (λ (c : GhostCandidate).
          leb settings.cloud_hunt_high_confidence_threshold c.candidate_score)
        candidates;
  protected_candidates = count is_protected candidates;
  needs_human_context = count is_recent candidates;
  estimated_monthly_waste = monthly_waste candidates;
  estimated_annual_waste = monthly_waste candidates * 12;
}

-- the texts of a field of the resources that are not empty, sorted and without repetition
abbrev places : (CloudResource → String) → List CloudResource → List String
places field resources =
    sorted_set (keep_if (λ (place : String). not (text_eq place "")) (map field resources))

-- the state of a hunt after its first event
abbrev begin : Inventory → CloudHuntRequest → HuntStore → Progress
begin inventory request store =
    let label =
      if text_eq request.inventory_source "real_aws"
      then "real AWS inventory"
      else "controlled inventory fixtures" in
    audit inventory.now "cloud_hunt_started" (append "Cloud Hunt started from " (append label "."))
      (record {
        audit_events = [];
        active_candidates = [];
        investigations_created = 0;
        cases = store.cases;
        failed = false;
      })

-- the loops of the hunt, from its first event to its last
unfoldable pub scan : Inventory → CloudHuntRequest → ℕ → HuntStore → List GhostCandidate → Progress
scan inventory request organization_id store candidates =
    let listed = list_resources inventory.now inventory.resources (begin inventory request store) in
    audit inventory.now "cloud_hunt_completed"
      "Cloud Hunt completed; no provider mutation was performed."
      (consider_all inventory store.waivers (inventory.uuid 0) organization_id candidates listed)

abbrev report : HuntSettings → Inventory → CloudHuntRequest → ℕ → Progress → CloudHuntRun
report settings inventory request organization_id progress = record {
  id = inventory.uuid 0;
  organization_id = organization_id;
  inventory_source = request.inventory_source;
  goal = request.goal;
  started_at = inventory.now;
  completed_at = some inventory.now;
  status =
      if is_empty inventory.warnings
      then CloudHuntStatus.completed
      else CloudHuntStatus.completed_with_warnings;
  data_source_mode = data_source_mode request.inventory_source;
  account_ids = places (λ (r : CloudResource). r.account_or_subscription_id) inventory.resources;
  regions = places (λ (r : CloudResource). r.region_or_location) inventory.resources;
  resources_scanned = length inventory.resources;
  candidates_found = length progress.active_candidates;
  investigations_created = progress.investigations_created;
  protected_resources = count is_protected progress.active_candidates;
  errors = inventory.warnings;
  audit_events = progress.audit_events;
  summary = summarize settings (length inventory.resources) progress.active_candidates;
  candidates = progress.active_candidates;
}

-- CloudHuntConflictError with its message, another exception, or the hunt
pub data HuntReply : Type 0 where
  refused : String → HuntReply
  raised : HuntReply
  finished : CloudHuntRun → HuntReply

-- the end of a hunt; where a call has raised, the cases that were made before it stay
unfoldable pub finish_hunt :
    HuntSettings → Inventory → CloudHuntRequest → ℕ → HuntStore → Progress → HuntReply × HuntStore
finish_hunt settings inventory request organization_id store progress =
    let hunt = report settings inventory request organization_id progress in
    if progress.failed then (raised, record store { cases = progress.cases }) else (
      finished hunt,
      record store { hunts = put ◌==◌ hunt.id hunt store.hunts; cases = progress.cases },
    )

-- the candidates are detected before the first case is made, so nothing is stored where that raises
unfoldable pub start_hunt :
    HuntSettings → Inventory → CloudHuntRequest → ℕ → HuntStore → HuntReply × HuntStore
unfolding detect_candidates scan finish_hunt
start_hunt settings inventory request organization_id store =
    if not settings.cloud_hunt_enabled
    then (refused "Cloud Hunt Mode is disabled by CLOUD_HUNT_ENABLED.", store)
    else if inventory.listing_fails
    then (raised, store)
    else elim (detect_candidates settings inventory.resources) [
      | none ↦ (raised, store)
      | some candidates ↦
          finish_hunt settings inventory request organization_id store
            (scan inventory request organization_id store candidates)
    ]
