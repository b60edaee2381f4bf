-- ===== src/ReasoningEngine.antt =====
-- core/reasoning_engine.py: from evidence to a decision record. The AI planning that may come before,
-- and the AI explanation that may come after, are left out.
pub mod Selection
pub mod Guarantee
use ghost_busters.Prelude.{
  ℕ, String, Bool, true, false, not, ◌&&◌, ◌||◌, Option, none, some, List, [], ◌∷◌, ◌++◌, first,
  any, is_empty, or_else, if◌then◌else◌,
}
use ghost_busters.Prelude.Text.{◌==◌, append, mem, join}
use ghost_busters.Prelude.Ratio.{Ratio, ratio, fixed2}
use ghost_busters.Model.{
  EvidenceItem, TerraformResourceChange, ConflictRecord, MissingEvidenceRecord, Alternative, Action,
  same_action, action_name, is_remediation, is_unavailable, PolicyResult, PolicyStatus, FinalStatus,
  InvestigationPlan, ToolExecutionRecord, DecisionRecord, ConfidenceBreakdown, VerifierFinding,
}
use ghost_busters.ConflictDetector.{detect_conflicts}
use ghost_busters.AlternativeGenerator.{generate_alternatives, is_production}
use ghost_busters.PolicyEngine.{evaluate_policy}
use ghost_busters.Verifier.{run_verifier}
use ghost_busters.Confidence.{calculate_confidence}
use ghost_busters.ConftestPolicy.{ConftestPolicyEvaluator, evaluate}

-- `next(item for item in alternatives if item.action == action)`; `none` is `StopIteration`
unfoldable pub find_action : List Alternative → Action → Option Alternative
find_action alternatives action = first (λ item. same_action item.action action) alternatives

unfoldable pub find_eligible : List Alternative → Action → Option Alternative
find_eligible alternatives action =
    first (λ item. same_action item.action action && item.eligible) alternatives

-- the loop over actions in the order of preference
unfoldable pub first_eligible : List Alternative → List Action → Option Alternative
first_eligible alternatives [] = find_action alternatives Action.keep
first_eligible alternatives (action ∷ actions) =
    or_else (find_eligible alternatives action) (first_eligible alternatives actions)

abbrev pub preference : List Action
preference =
    Action.request_evidence ∷ Action.abstain ∷ Action.downsize ∷ Action.schedule ∷ Action.keep ∷ []

unfoldable pub select_preferred : List Alternative → Bool → Option Alternative
select_preferred alternatives hard_block =
    if hard_block
    then find_action alternatives Action.blocked
    else first_eligible alternatives preference

abbrev needs_context : PolicyStatus → Bool
needs_context PolicyStatus.needs_human_context = true
needs_context _ = false

unfoldable pub final_status_of : Alternative → PolicyResult → FinalStatus
final_status_of preferred policy =
    if same_action preferred.action Action.blocked
    then FinalStatus.blocked
    else if same_action preferred.action Action.abstain
    then FinalStatus.abstained
    else if not policy.allowed
    then (if needs_context policy.status
        then FinalStatus.needs_human_context
        else FinalStatus.blocked)
    else if same_action preferred.action Action.request_evidence
    then FinalStatus.needs_human_context
    else if same_action preferred.action Action.keep
    then FinalStatus.keep
    else if needs_context policy.status
    then FinalStatus.needs_human_context
    else FinalStatus.recommendation_ready

-- CRITICAL_SOURCES of core/investigator.py
abbrev critical_sources : List String
critical_sources = "pricing" ∷ "utilization" ∷ "dependencies" ∷ []

abbrev missing_record : EvidenceItem → MissingEvidenceRecord
missing_record item = record {
  source = item.source;
  claim_needed = item.claim;
  critical = mem item.source critical_sources;
  impact =
      if mem item.source critical_sources
      then "Critical evidence is unavailable."
      else "Context is incomplete.";
}

abbrev uncollected_record : String → MissingEvidenceRecord
uncollected_record source = record {
  source = source;
  claim_needed = append source " evidence was required but not collected";
  critical = mem source critical_sources;
  impact = "Required evidence was not collected before planning stopped.";
}

-- one record for each item that is unavailable
unfoldable pub unavailable_records : List EvidenceItem → List MissingEvidenceRecord
unavailable_records [] = []
unavailable_records (item ∷ items) =
    let rest = unavailable_records items in
    if is_unavailable item.freshness_status then missing_record item ∷ rest else rest

-- the loop over the unresolved sources, on the records so far
unfoldable pub add_unresolved :
    List EvidenceItem → List String → List MissingEvidenceRecord → List MissingEvidenceRecord
add_unresolved evidence [] records = records
add_unresolved evidence (source ∷ sources) records = add_unresolved evidence sources (
    if any (λ item. item.source == source) evidence || any (λ item. item.source == source) records
    then records
    else records ++ uncollected_record source ∷ [])

unfoldable pub missing_from_evidence : List EvidenceItem → List String → List MissingEvidenceRecord
unfolding unavailable_records add_unresolved
missing_from_evidence evidence unresolved_sources =
    add_unresolved evidence unresolved_sources (unavailable_records evidence)

abbrev pub policy_status_name : PolicyStatus → String
policy_status_name PolicyStatus.passed = "passed"
policy_status_name PolicyStatus.blocked = "blocked"
policy_status_name PolicyStatus.needs_human_context = "needs_human_context"

abbrev pub summary_text : Action → PolicyResult → ConfidenceBreakdown → String
summary_text action policy confidence = append "Preferred action is " (
    append (action_name action) (
      append ". Policy status is " (
        append (policy_status_name policy.status)
          (append ". Confidence is " (append (fixed2 confidence.final_confidence) ".")))))

abbrev because : Bool → String → List String → String → String
because applies lead reasons summary =
    if applies && not (is_empty reasons)
    then append summary (append lead (join "; " reasons))
    else summary

abbrev explained : Action → PolicyResult → String → String
explained action policy summary =
    because (same_action action Action.request_evidence) " Clarification needed: "
      policy.blocking_reasons
      (because (same_action action Action.abstain) " Abstained because " policy.blocking_reasons
        summary)

-- `minimum_confidence` of `evaluate_policy` by default; without a score it is not read.
abbrev pub default_minimum : Ratio
default_minimum = ratio 70 100

-- an explicit conflict audit asks for evidence, whatever was preferred
abbrev override : Bool → List Alternative → Option Alternative → Option Alternative
override audit alternatives none = none
override true alternatives (some preferred) = find_action alternatives Action.request_evidence
override false alternatives (some preferred) = some preferred

module _ (evaluator : ConftestPolicyEvaluator) (run_id : Option ℕ) (scenario_name : String)
    (resource : TerraformResourceChange) (selected_tools : List String)
    (evidence : List EvidenceItem) (missing : List MissingEvidenceRecord) where
  abbrev conflicts : List ConflictRecord
  conflicts = detect_conflicts evidence

  -- `evaluate_policy` with the defaults of its keyword arguments
  abbrev python_policy : Alternative → List VerifierFinding → PolicyResult
  python_policy preferred findings =
      evaluate_policy resource evidence missing preferred findings conflicts true none
        default_minimum

  abbrev confidence_for : PolicyResult → ConfidenceBreakdown
  confidence_for policy = calculate_confidence evidence conflicts policy selected_tools

  -- the evaluator's answer for one alternative; `findings` are those the Python policy is given
  unfoldable pub policy_for : Alternative → List VerifierFinding → PolicyResult
  policy_for preferred findings =
      evaluate evaluator resource evidence missing preferred
        (run_verifier resource evidence conflicts preferred) conflicts
        (confidence_for (python_policy preferred findings)) run_id (some scenario_name)

  abbrev explicit_conflict_audit : Bool
  explicit_conflict_audit = scenario_name == "conflicting"

  unfoldable pub hard_block : Bool
  hard_block = resource.destructive && not explicit_conflict_audit || is_production resource

  -- the alternative that the policy is first asked about
  unfoldable pub initial_choice : Option Alternative
  initial_choice =
      let alternatives = generate_alternatives resource evidence missing conflicts in
      override explicit_conflict_audit alternatives (select_preferred alternatives hard_block)

  -- a denied remediation falls back on `keep`, which the policy is asked about again
  abbrev settle : Alternative → PolicyResult → Option (Alternative × PolicyResult)
  settle preferred policy =
      if not policy.allowed && is_remediation preferred.action
      then elim (find_action (generate_alternatives resource evidence missing conflicts)
          Action.keep) [
            | none ↦ none
            | some kept ↦
                some (kept, policy_for kept (run_verifier resource evidence conflicts kept))
          ]
      else some (preferred, policy)

  abbrev settle_choice : Option Alternative → Option (Alternative × PolicyResult)
  settle_choice none = none
  settle_choice (some preferred) = settle preferred (policy_for preferred [])

  unfoldable pub choose : Option (Alternative × PolicyResult)
  choose = settle_choice initial_choice

  module _ (goal : String) (plan : InvestigationPlan) (executions : List ToolExecutionRecord) where
    abbrev record_of : Alternative → PolicyResult → DecisionRecord
    record_of preferred policy = record {
      goal = goal;
      resource_id = resource.address;
      investigation_plan = plan;
      tool_executions = executions;
      evidence = evidence;
      conflicts = conflicts;
      missing_evidence = missing;
      alternatives = generate_alternatives resource evidence missing conflicts;
      preferred_action = preferred.action;
      confidence = confidence_for policy;
      verifier_findings = run_verifier resource evidence conflicts preferred;
      policy_result = policy;
      final_status = final_status_of preferred policy;
      final_summary =
          explained preferred.action policy
            (summary_text preferred.action policy (confidence_for policy));
      human_question = none;
      termination_reason = none;
    }

    abbrev decide : Option (Alternative × PolicyResult) → Option DecisionRecord
    decide none = none
    decide (some (preferred, policy)) = some (record_of preferred policy)

    unfoldable pub build_decision : Option DecisionRecord
    build_decision = decide choose
