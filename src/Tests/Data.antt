-- ===== src/Tests/Data.antt =====
-- A staging instance that is idle, a run about it, and services that answer from fixed values.
use ghost_busters.Prelude.{ℕ, String, true, false, none, some, List, [], ◌∷◌, if◌then◌else◌, ◌==◌}
use ghost_busters.Prelude.Int.{whole}
use ghost_busters.Prelude.Ratio.{ratio}
use ghost_busters.Prelude.Json.{Fields, boolean, number, text, object, end, field}
use ghost_busters.Model.{
  Action, Alternative, EvidenceItem, Freshness, TerraformResourceChange, InvestigationPlan,
  DecisionRecord, ConfidenceBreakdown, FinalStatus, PolicyResult, PolicyStatus, PolicyEngine,
  RunStatus, WorkflowRun, HumanReviewRequest, ReviewAction, OrganizationRole,
  GitHubTerraformResourceChange,
}
use ghost_busters.ConftestPolicy.{ConftestPolicyEvaluator, not_found}
use ghost_busters.Retry.{RetryConfig, Attempt, value, raises, http}
use ghost_busters.Result.{ok}
use ghost_busters.RunStore.{RunStore}
use ghost_busters.RemediationPr.{GitHubClient}
use ghost_busters.Workflow.Decide.{Services}
use ghost_busters.Workflow.Review.{Reviewer}

abbrev pub instance : TerraformResourceChange
instance = record {
  address = "aws_instance.demo";
  resource_type = "aws_instance";
  actions = "update" ∷ [];
  before = none;
  after = none;
  environment = some "staging";
  current_instance_type = some "m5.2xlarge";
  proposed_instance_type = some "m5.large";
  destructive = false;
  tags = some (field "owner" (text "team-a") end);
}

abbrev item : String → Fields → Fields → EvidenceItem
item source content metadata = record {
  source = source;
  tool_name = source;
  claim = "observed";
  value = object content;
  resource_id = "aws_instance.demo";
  collected_at = 1;
  freshness_status = Freshness.fresh;
  reliability = 9500;
  metadata = metadata;
  source_mode = some "live";
}

abbrev pub pricing : EvidenceItem
pricing =
    item "pricing"
      (field "current_monthly_cost" (number (whole 300))
        (field "proposed_monthly_cost" (number (whole 100)) end))
      (field "source" (text "price list") (
        field "region" (text "eu-west-1") (
          field "resource_type" (text "aws_instance") (
            field "pricing_model" (text "on-demand") (
              field "checked_at" (text "2024-01-01")
                (field "assumptions" (text "730 hours") (field "currency" (text "USD") end)))))))

abbrev pub utilization : EvidenceItem
utilization =
    item "utilization"
      (field "average_cpu_pct" (number (whole 10)) (field "peak_cpu_pct" (number (whole 40)) end))
      end

abbrev pub dependencies : EvidenceItem
dependencies = item "dependencies" (field "has_active_dependencies" (boolean false) end) end

abbrev pub evidence : List EvidenceItem
evidence = pricing ∷ utilization ∷ dependencies ∷ []

abbrev pub tools : List String
tools = "pricing" ∷ "utilization" ∷ "dependencies" ∷ []

abbrev pub evaluator : ConftestPolicyEvaluator
evaluator = record {
  enabled = true;
  policy_dir_present = true;
  minimum_confidence = ratio 70 100;
  conftest = λ input. not_found;
}

abbrev pub plan : InvestigationPlan
plan = record {
  goal = "save";
  resource_id = "aws_instance.demo";
  selected_tools = tools;
  skipped_tools = [];
  planning_notes = [];
}

abbrev pub none_yet : ConfidenceBreakdown
none_yet = record {
  evidence_completeness = ratio 0 1;
  evidence_reliability = ratio 0 1;
  evidence_freshness = ratio 0 1;
  conflict_penalty = ratio 0 1;
  policy_certainty = ratio 0 1;
  final_confidence = ratio 0 1;
}

abbrev pub allowed : PolicyResult
allowed = record {
  allowed = true;
  status = PolicyStatus.passed;
  blocking_reasons = [];
  warnings = [];
  evaluated_rules = [];
  requires_human_approval = true;
  engine = PolicyEngine.python;
  policy_version = "1.0";
  violations = [];
  fallback_reason = none;
}

abbrev pub downsizing : Alternative
downsizing = record {
  action = Action.downsize;
  description = "smaller";
  proposed_instance_type = some "m5.large";
  estimated_monthly_cost = some (whole 100);
  estimated_monthly_savings = whole 200;
  estimated_annual_savings = whole 2400;
  supporting_evidence = [];
  risks = [];
  assumptions = [];
  eligible = true;
  rejection_reasons = [];
  score = 9000;
}

abbrev pub no_decision : DecisionRecord
no_decision = record {
  goal = "save";
  resource_id = "aws_instance.demo";
  investigation_plan = plan;
  tool_executions = [];
  evidence = evidence;
  conflicts = [];
  missing_evidence = [];
  alternatives = downsizing ∷ [];
  preferred_action = Action.downsize;
  confidence = none_yet;
  verifier_findings = [];
  policy_result = allowed;
  final_status = FinalStatus.recommendation_ready;
  final_summary = "";
  human_question = none;
  termination_reason = none;
}

abbrev pub quick : ℕ → Attempt (List EvidenceItem)
quick attempt = record {
  cancelled_before = false;
  outcome = value (utilization ∷ []);
  elapsed = ratio 1 10;
  cancelled_after = false;
  random_value = ratio 1 2;
}

-- unavailable at first, then there
abbrev pub flaky : ℕ → Attempt (List EvidenceItem)
flaky attempt =
    if attempt == 1
    then record (quick attempt) {
      outcome = raises (record { raised = http 503 none; type_name = "HTTPStatusError" });
    }
    else quick attempt

abbrev pub retries : RetryConfig
retries = record {
  enabled = true;
  max_attempts = 3;
  initial_delay_seconds = ratio 1 4;
  multiplier = ratio 2 1;
  max_delay_seconds = ratio 2 1;
  jitter_seconds = ratio 1 10;
  timeout_seconds = ratio 5 1;
}

abbrev pub services : Services
services = record {
  evaluator = evaluator;
  retry_config = retries;
  tool_names = tools;
  collect = λ scenario resource tool. quick;
  load_scenario = λ name. ok "plan.json";
  parse_terraform_plan = λ file. ok instance;
  github = none;
}

abbrev pub pending_run : WorkflowRun
pending_run = record {
  id = 7;
  organization_id = 1;
  goal = "save";
  scenario_name = "safe";
  status = RunStatus.pending_human_review;
  created_at = 0;
  updated_at = 0;
  decision_record = some no_decision;
  human_reviews = [];
  audit_events = [];
  mock_pr = none;
  github_source = none;
  real_pr = none;
  version = 1;
  idempotency_key = none;
  error = none;
  data_source_mode = "Fixture-backed";
  execution_mode = "scenario";
  plan_revisions = [];
  stop_reason = none;
  final_outcome = none;
}

abbrev pub store : RunStore
store = record { runs = (7, pending_run) ∷ [] }

abbrev pub asks : ReviewAction → HumanReviewRequest
asks action = record {
  action = action;
  reviewer = "Ada";
  comment = none;
  requested_sources = "utilization" ∷ [];
  modified_action = some Action.downsize;
  human_context = some "The owner agrees.";
}

abbrev pub ada : Reviewer
ada = record {
  organization_id = 1;
  user_id = some 5;
  email = some "ada@example.com";
  role = some OrganizationRole.reviewer;
}

abbrev pub resized : GitHubTerraformResourceChange
resized = record {
  address = "aws_instance.demo";
  provider = "aws";
  resource_type = "aws_instance";
  resource_name = "demo";
  actions = "update" ∷ [];
  before = some (field "instance_type" (text "m5.large") end);
  after = some (field "instance_type" (text "m5.2xlarge") end);
  changed_attributes = "instance_type" ∷ [];
  destructive = false;
  replacement = false;
  source_file = "main.tf";
}

abbrev pub github_run : WorkflowRun
github_run = record pending_run {
  github_source = some (record {
    repository = "acme/infra";
    pull_request_number = 3;
    base_branch = "main";
    head_branch = "resize";
    head_sha = "abc";
    changed_files = "main.tf" ∷ [];
    terraform_files = "main.tf" ∷ [];
    resource_changes = resized ∷ [];
    environment = some "staging";
  });
}

abbrev pub github : GitHubClient
github = record {
  get_file_content = λ owner repo path sha. ok "instance_type = m5.2xlarge";
  list_open_pull_requests = λ owner repo branch. ok [];
  has_branch = λ owner repo branch. ok false;
  create_branch = λ owner repo branch sha. ok tt;
  update_or_create_file = λ owner repo branch path content. ok tt;
  compare_branches =
      λ owner repo base branch. ok (record { status = "ahead"; ahead_by = 1; behind_by = 0 });
  create_pull_request = λ owner repo title branch base. ok (4, "https://github.example/4");
  substitute = λ attribute before after content. ("instance_type = m5.large", 1);
}
