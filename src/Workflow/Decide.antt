-- ===== src/Workflow/Decide.antt =====
-- What core/workflow_service.py asks of its collaborators, the resource of a run, and the decision that
-- is made again when evidence or context arrives.
pub mod Reviewable
use ghost_busters.Prelude.{
  ℕ, String, Bool, true, false, not, ◌&&◌, ◌||◌, Option, none, some, List, [], ◌∷◌, first,
  if◌then◌else◌, get_or_else,
}
use ghost_busters.Prelude.Json.{Value, null, text, Fields, end, get, truthy}
use ghost_busters.Model.{
  Action, same_action, Alternative, RunStatus, FinalStatus, WorkflowRun, DecisionRecord,
  EvidenceItem, ConflictRecord, MissingEvidenceRecord, PolicyResult, VerifierFinding,
  ToolExecutionRecord, ConfidenceBreakdown, TerraformResourceChange, GitHubTerraformChange,
  GitHubTerraformResourceChange, HumanReviewRecord, RealPullRequest,
}
use ghost_busters.ConflictDetector.{detect_conflicts}
use ghost_busters.AlternativeGenerator.{generate_alternatives, is_production}
use ghost_busters.PolicyEngine.{evaluate_policy}
use ghost_busters.Verifier.{run_verifier}
use ghost_busters.Confidence.{calculate_confidence}
use ghost_busters.ConftestPolicy.{ConftestPolicyEvaluator, evaluate}
use ghost_busters.ReasoningEngine.{
  select_preferred, final_status_of, unavailable_records, summary_text, default_minimum,
}
use ghost_busters.RemediationPr.{GitHubClient}
use ghost_busters.Retry.{RetryConfig, Attempt}
use ghost_busters.Result.{Result, ok, err, failure, ◌>>=◌, or_raise}

-- The policy evaluator, the retry configuration, the registered tools and their answers for a scenario
-- and a resource, the scenario files (`load_scenario` answers the file of the Terraform plan), the
-- Terraform plans by the first resource of each, and GitHub with the prefix of the branches, where the
-- settings and the client allow a real pull request.
pub record Services : Type 0 where
  pub evaluator : ConftestPolicyEvaluator
  pub retry_config : RetryConfig
  pub tool_names : List String
  pub collect : String → TerraformResourceChange → String → ℕ → Attempt (List EvidenceItem)
  pub load_scenario : String → Result String
  pub parse_terraform_plan : String → Result TerraformResourceChange
  pub github : Option (GitHubClient × String)

unfoldable pub map_final_status : FinalStatus → RunStatus
map_final_status FinalStatus.recommendation_ready = RunStatus.pending_human_review
map_final_status FinalStatus.blocked = RunStatus.blocked
map_final_status FinalStatus.abstained = RunStatus.abstained
map_final_status FinalStatus.keep = RunStatus.keep
map_final_status FinalStatus.needs_human_context = RunStatus.needs_more_evidence

abbrev size_keys : List String
size_keys = "instance_type" ∷ "machine_type" ∷ "size" ∷ []

-- the first truthy size of a state of the resource; a size that is no text fails validation
abbrev size_text : Value → Result (Option String)
size_text null = ok none
size_text (text s) = ok (some s)
size_text _ = err (failure "ValidationError")

unfoldable pub size_in : Fields → Result (Option String)
size_in state = elim (first (λ key. truthy (get state key)) size_keys) [
  | none ↦ ok none
  | some key ↦ size_text (get state key)
]

abbrev resource_of_change :
    GitHubTerraformChange → GitHubTerraformResourceChange → Result TerraformResourceChange
resource_of_change source change = do
  current ← size_in (get_or_else change.after end)
  proposed ← size_in (get_or_else change.before end)
  ok (record {
    address = change.address;
    resource_type = change.resource_type;
    actions = change.actions;
    before = change.before;
    after = change.after;
    environment = source.environment;
    current_instance_type = current;
    proposed_instance_type = proposed;
    destructive = change.destructive || change.replacement;
    tags = none;
  })

module _ (services : Services) where
  abbrev scenario_resource : String → Result TerraformResourceChange
  scenario_resource name = do file ← services.load_scenario name; services.parse_terraform_plan file

  abbrev resource_of_source :
      String
      → GitHubTerraformChange
      → List GitHubTerraformResourceChange
      → Result TerraformResourceChange
  resource_of_source name source [] = scenario_resource name
  resource_of_source name source (change ∷ _) = resource_of_change source change

  abbrev resource_from : String → Option GitHubTerraformChange → Result TerraformResourceChange
  resource_from name none = scenario_resource name
  resource_from name (some source) = resource_of_source name source source.resource_changes

  unfoldable pub resource_for_run : WorkflowRun → Result TerraformResourceChange
  unfolding size_in
  resource_for_run run = resource_from run.scenario_name run.github_source

-- The evaluation of one alternative on given evidence, which both a new decision and a modified one
-- make: verifier, Python policy, provisional confidence, policy engine, confidence.
module _ (evaluator : ConftestPolicyEvaluator) (run_id : ℕ) (scenario_name : String)
    (resource : TerraformResourceChange) (selected_tools : List String)
    (evidence : List EvidenceItem) (missing : List MissingEvidenceRecord)
    (conflicts : List ConflictRecord) (preferred : Alternative) where
  abbrev pub findings_for : List VerifierFinding
  findings_for = run_verifier resource evidence conflicts preferred

  abbrev provisional : ConfidenceBreakdown
  provisional =
      calculate_confidence evidence conflicts
        (evaluate_policy resource evidence missing preferred findings_for conflicts true none
          default_minimum)
        selected_tools

  unfoldable pub policy_on : PolicyResult
  policy_on =
      evaluate evaluator resource evidence missing preferred findings_for conflicts provisional
        (some run_id) (some scenario_name)

  abbrev pub confidence_on : ConfidenceBreakdown
  confidence_on = calculate_confidence evidence conflicts policy_on selected_tools

module _ (evaluator : ConftestPolicyEvaluator) (run_id : ℕ) (scenario_name : String)
    (prior : DecisionRecord) (resource : TerraformResourceChange) (evidence : List EvidenceItem)
    (executions : List ToolExecutionRecord) where
  abbrev pub conflicts : List ConflictRecord
  conflicts = detect_conflicts evidence

  abbrev pub missing : List MissingEvidenceRecord
  missing = unavailable_records evidence

  abbrev pub alternatives : List Alternative
  alternatives = generate_alternatives resource evidence missing conflicts

  unfoldable pub hard_block : Bool
  hard_block =
      resource.destructive && not (same_action prior.preferred_action Action.request_evidence)
      || is_production resource

  abbrev pub policy : Alternative → PolicyResult
  policy preferred =
      policy_on evaluator run_id scenario_name resource prior.investigation_plan.selected_tools
        evidence missing conflicts preferred

  abbrev confidence : Alternative → ConfidenceBreakdown
  confidence preferred =
      confidence_on evaluator run_id scenario_name resource prior.investigation_plan.selected_tools
        evidence missing conflicts preferred

  abbrev pub redecided : Alternative → DecisionRecord
  redecided preferred = record prior {
    tool_executions = executions;
    evidence = evidence;
    conflicts = conflicts;
    missing_evidence = missing;
    alternatives = alternatives;
    preferred_action = preferred.action;
    confidence = confidence preferred;
    verifier_findings = run_verifier resource evidence conflicts preferred;
    policy_result = policy preferred;
    final_status = final_status_of preferred (policy preferred);
    final_summary = summary_text preferred.action (policy preferred) (confidence preferred);
    human_question = none;
    termination_reason = some "deterministic_re_evaluation_after_human_input";
  }

  abbrev pub decide_on : Option Alternative → Result DecisionRecord
  decide_on none = err (failure "StopIteration")
  decide_on (some preferred) = ok (redecided preferred)

  unfoldable pub recalculate_decision : Result DecisionRecord
  recalculate_decision = decide_on (select_preferred alternatives hard_block)
