-- ===== src/Hunts/Decisions.antt =====
-- core/cloud_hunt_service.py: the decisions on review cases.
use ghost_busters.Prelude.{
  ℕ, ◌+◌, String, Bool, true, false, not, ◌&&◌, Option, none, some, List, [], ◌∷◌, ◌++◌, any,
  length, if◌then◌else◌, ◌==◌, get_or_else,
}
use ghost_busters.Prelude.Text.{◌==◌ as text_eq, append}
use ghost_busters.Prelude.Table.{Table, lookup, put}
use ghost_busters.Model.{Actor}
use ghost_busters.Hunts.Entities.{
  ReviewCaseStatus, SimulatedPr, ReviewCase, HuntStore, same_case_status,
}
use ghost_busters.Hunts.Candidates.{is_given, is_protected}

pub data CaseAction : Type 0 where
  approve reject request_evidence add_context modify revoke_approval reopen_case : CaseAction
  add_follow_up_context waive : CaseAction

pub record WaiverRequest : Type 0 where
  pub reason : String
  pub expiry_date : ℕ

pub record ReviewCaseActionRequest : Type 0 where
  pub action : CaseAction
  pub reviewer : String
  pub comment : Option String
  pub modified_action : Option String
  pub human_context : Option String
  pub waiver : Option WaiverRequest
  pub expected_version : Option ℕ

-- CloudHuntNotFoundError, CloudHuntConflictError with its message, or the value returned
pub data Reply {ℓ} (A : Type ℓ) : Type ℓ where
  not_found : Reply A
  conflict : String → Reply A
  done : A → Reply A

abbrev pub status_in : ReviewCaseStatus → List ReviewCaseStatus → Bool
status_in s statuses = any (same_case_status s) statuses

abbrev pub closed_statuses : List ReviewCaseStatus
closed_statuses =
    ReviewCaseStatus.rejected ∷ ReviewCaseStatus.waived ∷ ReviewCaseStatus.pr_created
    ∷ ReviewCaseStatus.remediation_pr_created ∷ []

abbrev revocable_statuses : List ReviewCaseStatus
revocable_statuses =
    ReviewCaseStatus.approved ∷ ReviewCaseStatus.pr_created
    ∷ ReviewCaseStatus.remediation_pr_created ∷ ReviewCaseStatus.remediation_proposal_prepared ∷ []

abbrev reopenable_statuses : List ReviewCaseStatus
reopenable_statuses =
    ReviewCaseStatus.rejected ∷ ReviewCaseStatus.approval_revoked
    ∷ ReviewCaseStatus.remediation_pr_created ∷ ReviewCaseStatus.remediation_proposal_prepared
    ∷ ReviewCaseStatus.pr_created ∷ []

abbrev pub is_reopening : CaseAction → Bool
is_reopening CaseAction.reopen_case = true
is_reopening _ = false

-- the text of a status
abbrev pub status_value : ReviewCaseStatus → String
status_value ReviewCaseStatus.pending = "pending"
status_value ReviewCaseStatus.approved = "approved"
status_value ReviewCaseStatus.rejected = "rejected"
status_value ReviewCaseStatus.approval_revoked = "approval_revoked"
status_value ReviewCaseStatus.reopened = "reopened"
status_value ReviewCaseStatus.pending_human_review = "pending_human_review"
status_value ReviewCaseStatus.needs_more_evidence = "needs_more_evidence"
status_value ReviewCaseStatus.remediation_proposal_prepared = "remediation_proposal_prepared"
status_value ReviewCaseStatus.remediation_pr_created = "remediation_pr_created"
status_value ReviewCaseStatus.waived = "waived"
status_value ReviewCaseStatus.pr_created = "pr_created"

-- the text of an action
abbrev action_value : CaseAction → String
action_value CaseAction.approve = "approve"
action_value CaseAction.reject = "reject"
action_value CaseAction.request_evidence = "request_evidence"
action_value CaseAction.add_context = "add_context"
action_value CaseAction.modify = "modify"
action_value CaseAction.revoke_approval = "revoke_approval"
action_value CaseAction.reopen_case = "reopen_case"
action_value CaseAction.add_follow_up_context = "add_follow_up_context"
action_value CaseAction.waive = "waive"

-- `a or b` on optional texts, where an empty text counts as missing
abbrev text_or : Option String → Option String → Option String
text_or a b = if is_given a then a else b

abbrev simulated_pr_of : ℕ → ℕ → String → ReviewCase → SimulatedPr
simulated_pr_of now cases reviewer case = record {
  pr_number = 1000 + cases;
  branch = append "ghostbusters/cloud-hunt-" case.resource_id;
  created_at = now;
  resource_id = case.resource_id;
  chosen_action = case.recommendation;
  monthly_savings = case.estimated_monthly_savings;
  annual_savings = case.estimated_annual_savings;
  confidence = case.confidence;
  policy_summary = case.policy_status;
  human_approval_summary = append "Approved by " (append reviewer ": simulated only.");
}

-- the status, the outcome and the decision that a branch writes
abbrev pub decide : ReviewCaseStatus → String → String → ReviewCase → ReviewCase
decide status outcome decision case = record case {
  status = status;
  final_outcome = some outcome;
  human_decision = some decision;
}

-- _case_audit
abbrev case_audit : ℕ → String → String → ReviewCase → ReviewCase
case_audit now event_type summary case = record case {
  audit_events =
      case.audit_events
      ++ record {
        sequence_number = length case.audit_events + 1;
        timestamp = now;
        event_type = event_type;
        actor = Actor.human;
        summary = summary;
      }
        ∷ [];
}

abbrev pub approved : ℕ → ℕ → String → ReviewCase → ReviewCase
approved now cases reviewer case =
    let proposed = record case { simulated_pr = some (simulated_pr_of now cases reviewer case) } in
    if is_given case.terraform_address
    then decide ReviewCaseStatus.remediation_pr_created "simulated_pr_created" "approve" proposed
    else decide ReviewCaseStatus.remediation_proposal_prepared "proposal_prepared" "approve"
        proposed

abbrev context_outcome : ReviewCaseActionRequest → String
context_outcome request =
    get_or_else (text_or request.human_context (text_or request.comment none)) "Context added"

-- the branches of act_on_case: a conflict, or the case as the branch leaves it
unfoldable pub take_action : ℕ → ℕ → ReviewCaseActionRequest → ReviewCase → Reply ReviewCase
unfolding is_protected
take_action now cases request case = elim request.action [
  | CaseAction.approve ↦
      if is_protected case.candidate
      then conflict "Protected resources require context and cannot be automatically remediated."
      else done (approved now cases request.reviewer case)
  | CaseAction.reject ↦ done (
      decide ReviewCaseStatus.rejected (get_or_else (text_or request.comment none) "rejected")
        "reject" case)
  | CaseAction.waive ↦ elim request.waiver [
    | none ↦ conflict "waiver details are required."
    | some waiver ↦
        let waived = record case { waiver_expiry = some waiver.expiry_date } in
        done (
          case_audit now "waiver_created"
            (append "Waiver created by " (append request.reviewer "."))
            (decide ReviewCaseStatus.waived waiver.reason "waive" waived))
  ]
  | CaseAction.request_evidence ↦ done (
      decide ReviewCaseStatus.needs_more_evidence
        (get_or_else (text_or request.comment none) "Additional evidence requested")
        "request_evidence" case)
  | CaseAction.add_context ↦
      done
        (decide ReviewCaseStatus.pending_human_review (context_outcome request) "add_context" case)
  | CaseAction.add_follow_up_context ↦ done (
      decide ReviewCaseStatus.pending_human_review (context_outcome request) "add_follow_up_context"
        case)
  | CaseAction.modify ↦
      if is_given request.modified_action
      then done (
          decide ReviewCaseStatus.pending_human_review "recommendation_modified" "modify"
            (record case { recommendation = get_or_else request.modified_action "" }))
      else conflict "modified_action is required."
  | CaseAction.revoke_approval ↦
      if status_in case.status revocable_statuses
      then done (
          decide ReviewCaseStatus.approval_revoked "approval_revoked_no_external_reversal"
            "revoke_approval" case)
      else conflict "Only approved cases can have approval revoked."
  | CaseAction.reopen_case ↦
      if status_in case.status reopenable_statuses
      then done (decide ReviewCaseStatus.reopened "case_reopened" "reopen_case" case)
      else conflict "Only rejected, revoked, or remediated cases can be reopened."
]

-- `request.expected_version is not None and case.version != request.expected_version`
abbrev pub is_stale : Option ℕ → ReviewCase → Bool
is_stale none case = false
is_stale (some expected) case = not (case.version == expected)

-- the statements after the branches of act_on_case
abbrev pub recorded_copy : ℕ → ReviewCaseActionRequest → ReviewCase → ReviewCase
recorded_copy now request decided =
    case_audit now "human_decision_recorded"
      (append (action_value request.action) (append " recorded by " (append request.reviewer ".")))
      (record decided { version = decided.version + 1; updated_at = now })

-- the checks of act_on_case in front of its branches
unfoldable pub decide_case : ℕ → ℕ → ReviewCaseActionRequest → ReviewCase → Reply ReviewCase
unfolding take_action
decide_case now cases request case =
    if is_stale request.expected_version case
    then conflict "Case version is stale. Refresh and try again."
    else if status_in case.status closed_statuses && not (is_reopening request.action)
    then conflict (append "Review case is already " (append (status_value case.status) "."))
    else elim (take_action now cases request case) [
      | not_found ↦ not_found
      | conflict message ↦ conflict message
      | done decided ↦ done (recorded_copy now request decided)
    ]

-- `self._waivers[case.resource_id] = request.waiver.expiry_date`
abbrev noted_waiver : ReviewCaseActionRequest → ReviewCase → Table String ℕ → Table String ℕ
noted_waiver request case waivers = elim request.action [
  | CaseAction.waive ↦ elim request.waiver [
    | none ↦ waivers
    | some waiver ↦ put text_eq case.resource_id waiver.expiry_date waivers
  ]
  | _ ↦ waivers
]

abbrev own_case : ℕ → Option ReviewCase → Option ReviewCase
own_case organization_id none = none
own_case organization_id (some case) =
    if case.organization_id == organization_id then some case else none

-- a conflict leaves the store as it is: nothing is written before the checks
unfoldable pub act_on_case :
    ℕ → ℕ → ReviewCaseActionRequest → ℕ → HuntStore → Reply ReviewCase × HuntStore
unfolding decide_case lookup put
act_on_case now case_id request organization_id store =
    elim (own_case organization_id (lookup ◌==◌ case_id store.cases)) [
      | none ↦ (not_found, store)
      | some case ↦ elim (decide_case now (length store.cases) request case) [
        | not_found ↦ (not_found, store)
        | conflict message ↦ (conflict message, store)
        | done decided ↦ (
          done decided,
          record store {
            cases = put ◌==◌ decided.id decided store.cases;
            waivers = noted_waiver request case store.waivers;
          },
        )
      ]
    ]
