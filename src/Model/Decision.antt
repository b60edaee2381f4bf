-- ===== src/Model/Decision.antt =====
-- Alternatives, verifier findings, policy results, confidence and the decision record of
-- app/models.py. The fields that the AI explanation and planner write are left out.
use ghost_busters.Prelude.{ℕ, String, Bool, true, false, ◌==◌, Option, List}
use ghost_busters.Prelude.Int.{ℤ}
use ghost_busters.Prelude.Ratio.{Ratio}
use ghost_busters.Model.Evidence.{EvidenceItem, ConflictRecord, MissingEvidenceRecord}

pub data Action : Type 0 where
  keep downsize schedule request_evidence abstain blocked : Action

abbrev rank : Action → ℕ
rank Action.keep = 0
rank Action.downsize = 1
rank Action.schedule = 2
rank Action.request_evidence = 3
rank Action.abstain = 4
rank Action.blocked = 5

-- `a == b` on action names
abbrev pub same_action : Action → Action → Bool
same_action a b = rank a == rank b

-- `action in {"downsize", "schedule"}`
abbrev pub is_remediation : Action → Bool
is_remediation Action.downsize = true
is_remediation Action.schedule = true
is_remediation _ = false

abbrev pub action_name : Action → String
action_name Action.keep = "keep"
action_name Action.downsize = "downsize"
action_name Action.schedule = "schedule"
action_name Action.request_evidence = "request_evidence"
action_name Action.abstain = "abstain"
action_name Action.blocked = "blocked"

-- `score` counts ten-thousandths
pub record Alternative : Type 0 where
  pub action : Action
  pub description : String
  pub proposed_instance_type : Option String
  pub estimated_monthly_cost : Option ℤ
  pub estimated_monthly_savings : ℤ
  pub estimated_annual_savings : ℤ
  pub supporting_evidence : List String
  pub risks : List String
  pub assumptions : List String
  pub eligible : Bool
  pub rejection_reasons : List String
  pub score : ℕ

pub data VerifierStatus : Type 0 where
  passed warning failed : VerifierStatus

pub data VerifierSeverity : Type 0 where
  info low medium high critical : VerifierSeverity

pub record VerifierFinding : Type 0 where
  pub check_name : String
  pub status : VerifierStatus
  pub severity : VerifierSeverity
  pub evidence_sources : List String

abbrev is_failed : VerifierStatus → Bool
is_failed VerifierStatus.failed = true
is_failed _ = false

abbrev both_critical : VerifierStatus → VerifierSeverity → Bool
both_critical VerifierStatus.failed VerifierSeverity.critical = true
both_critical _ _ = false

-- `item.status == "failed" and item.severity == "critical"`
abbrev pub is_critical_failure : VerifierFinding → Bool
is_critical_failure f = both_critical f.status f.severity

pub data PolicyStatus : Type 0 where
  passed blocked needs_human_context : PolicyStatus

pub data PolicyEngine : Type 0 where
  python conftest python_fallback : PolicyEngine

pub record PolicyViolation : Type 0 where
  pub code : String
  pub message : String
  pub severity : String

pub record PolicyResult : Type 0 where
  pub allowed : Bool
  pub status : PolicyStatus
  pub blocking_reasons : List String
  pub warnings : List String
  pub evaluated_rules : List String
  pub requires_human_approval : Bool
  pub engine : PolicyEngine
  pub policy_version : String
  pub violations : List PolicyViolation
  pub fallback_reason : Option String

pub record ConfidenceBreakdown : Type 0 where
  pub evidence_completeness : Ratio
  pub evidence_reliability : Ratio
  pub evidence_freshness : Ratio
  pub conflict_penalty : Ratio
  pub policy_certainty : Ratio
  pub final_confidence : Ratio

pub data FinalStatus : Type 0 where
  recommendation_ready blocked abstained needs_human_context keep : FinalStatus

pub record InvestigationPlan : Type 0 where
  pub goal : String
  pub resource_id : String
  pub selected_tools : List String
  pub skipped_tools : List String
  pub planning_notes : List String

pub data ExternalCallEventType : Type 0 where
  started succeeded retry_scheduled failed exhausted : ExternalCallEventType
  alternative_evidence_selected : ExternalCallEventType

pub record ExternalCallEvent : Type 0 where
  pub event_type : ExternalCallEventType
  pub attempt : ℕ
  pub maximum_attempts : ℕ
  pub failure_category : Option String
  pub retryable : Option Bool
  pub retry_delay_seconds : Option Ratio

pub record ExternalCallExecutionResult : Type 0 where
  pub tool_name : String
  pub success : Bool
  pub attempts : ℕ
  pub retry_exhausted : Bool
  pub failure_category : Option String
  pub retryable : Option Bool
  pub final_failure_type : Option String
  pub safe_message : String
  pub events : List ExternalCallEvent

pub record ToolExecutionRecord : Type 0 where
  pub tool_name : String
  pub selected_because : String
  pub status : String
  pub input_summary : Option String
  pub output_summary : Option String
  pub error : Option String
  pub external_call : Option ExternalCallExecutionResult

pub record DecisionRecord : Type 0 where
  pub goal : String
  pub resource_id : String
  pub investigation_plan : InvestigationPlan
  pub tool_executions : List ToolExecutionRecord
  pub evidence : List EvidenceItem
  pub conflicts : List ConflictRecord
  pub missing_evidence : List MissingEvidenceRecord
  pub alternatives : List Alternative
  pub preferred_action : Action
  pub confidence : ConfidenceBreakdown
  pub verifier_findings : List VerifierFinding
  pub policy_result : PolicyResult
  pub final_status : FinalStatus
  pub final_summary : String
  pub human_question : Option String
  pub termination_reason : Option String
