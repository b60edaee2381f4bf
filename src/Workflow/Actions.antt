-- ===== src/Workflow/Actions.antt =====
-- The handlers of the review actions of core/workflow_service.py, each on a copy of the run.
pub mod Step
pub mod Approving
pub mod Reassessing
pub mod Modifying
use ghost_busters.Prelude.{
  ℕ, ◌+◌, String, Bool, true, false, not, ◌&&◌, ◌||◌, Option, none, some, List, [], ◌∷◌, ◌++◌, map,
  first, is_empty, is_none, keep_if, if◌then◌else◌, get_or_else,
}
use ghost_busters.Prelude.Text.{append, join, mem, sorted_set, ◌==◌}
use ghost_busters.Prelude.Json.{text, end, field}
use ghost_busters.Model.{
  Action, action_name, same_action, is_remediation, Alternative, RunStatus, WorkflowRun, Actor,
  DecisionRecord, EvidenceItem, Freshness, InvestigationPlan, HumanReviewRecord, HumanReviewRequest,
  MockPullRequest, RealPullRequest, TerraformResourceChange, PolicyResult, ConfidenceBreakdown,
  ToolExecutionRecord,
}
use ghost_busters.Result.{
  Result, ok, err, Error, conflict, validation, ◌>>=◌, ◌>>◌, require, or_raise,
}
use ghost_busters.Audit.{append_audit_event}
use ghost_busters.HumanReview.{
  status_in, ensure_can_approve, ensure_can_reject, ensure_can_request_evidence,
  ensure_can_add_context, ensure_can_modify,
}
use ghost_busters.MockPr.{create_mock_pull_request}
use ghost_busters.RemediationPr.{GitHubClient, create_remediation}
use ghost_busters.Investigator.{ToolRegistry, Collection, collect_evidence}
use ghost_busters.ReasoningEngine.{find_action, final_status_of, policy_status_name}
use ghost_busters.Workflow.Trail.{tools_audit, policy_audit}
use ghost_busters.Workflow.Decide.{
  Services, map_final_status, resource_for_run, recalculate_decision, findings_for, policy_on,
  confidence_on,
}

abbrev pub set_status : RunStatus → WorkflowRun → WorkflowRun
set_status status run = record run { status = status }

-- `run.human_reviews.append(record)`
abbrev pub add_review : HumanReviewRecord → WorkflowRun → WorkflowRun
add_review review run = record run { human_reviews = run.human_reviews ++ review ∷ [] }

-- `run.plan_revisions.append(..)`, a revision by its reason
abbrev pub add_revision : String → WorkflowRun → WorkflowRun
add_revision reason run = record run { plan_revisions = run.plan_revisions ++ reason ∷ [] }

-- the new decision and the status that it gives
abbrev pub set_decision : DecisionRecord → WorkflowRun → WorkflowRun
set_decision decision run = record run {
  decision_record = some decision;
  status = map_final_status decision.final_status;
}

module _ (services : Services) (now : ℕ) where
  -- the events after a real pull request, by whether it was there before
  abbrev real_pr_audit : Bool → WorkflowRun → WorkflowRun
  real_pr_audit true run =
      append_audit_event now "github_remediation_pr_reused" Actor.agent
        "Existing open remediation pull request reused." run
  real_pr_audit false run =
      append_audit_event now "github_remediation_pr_created" Actor.agent
        "GitHub confirmed remediation pull request creation."
        (append_audit_event now "github_file_updated" Actor.tool
          "Validated Terraform file committed to remediation branch."
          (append_audit_event now "github_branch_created" Actor.tool
            "Dedicated remediation branch created." run))

  -- a failed validation is kept on the run; any other exception goes up
  abbrev after_real_pr : WorkflowRun → Result RealPullRequest → Result WorkflowRun
  after_real_pr run (ok pr) =
      ok (real_pr_audit pr.reused (record run { real_pr = some pr; status = RunStatus.pr_created }))
  after_real_pr run (err (validation message)) = ok (
      append_audit_event now "remediation_validation_failed" Actor.agent message
        (record run { status = RunStatus.failed_safely; error = some message }))
  after_real_pr run (err e) = err e

  abbrev mock_pr_for :
      ℕ
      → DecisionRecord
      → HumanReviewRecord
      → TerraformResourceChange
      → WorkflowRun
      → Result WorkflowRun
  mock_pr_for pr_number decision review resource run = do
    pr ← create_mock_pull_request pr_number now decision resource review
    ok (
        append_audit_event now "mock_pr_created" Actor.agent "Simulated remediation PR created."
          (record run { mock_pr = some pr; status = RunStatus.pr_created }))

  abbrev remediate :
      ℕ
      → DecisionRecord
      → HumanReviewRecord
      → TerraformResourceChange
      → WorkflowRun
      → Option (WorkflowRun → Result RealPullRequest)
      → Result WorkflowRun
  remediate pr_number decision review resource run none =
      mock_pr_for pr_number decision review resource run
  remediate pr_number decision review resource run (some create) =
      let started =
        append_audit_event now "remediation_validation_started" Actor.agent
          "Validating real GitHub remediation proposal." run in
      after_real_pr started (create started)

  -- the service with its client and its branch prefix
  abbrev creation : Option (GitHubClient × String) → Option (WorkflowRun → Result RealPullRequest)
  creation none = none
  creation (some (client, prefix)) = some (create_remediation client prefix now)

  -- a real pull request is only made for a run that came from GitHub
  abbrev real_pr_of : WorkflowRun → Option (WorkflowRun → Result RealPullRequest)
  real_pr_of run = if is_none run.github_source then none else creation services.github

  abbrev received : String → HumanReviewRecord → WorkflowRun → WorkflowRun
  received summary review run =
      append_audit_event now "human_review_received" Actor.human summary (add_review review run)

  abbrev is_proposal_only : WorkflowRun → Bool
  is_proposal_only run = (run.execution_mode == "connected_read_only") && is_none run.github_source

  abbrev carry_out :
      Bool → ℕ → DecisionRecord → HumanReviewRecord → WorkflowRun → Result WorkflowRun
  carry_out true pr_number decision review run = ok (
      append_audit_event now "remediation_proposal_prepared" Actor.agent
        "Approved connected recommendation was prepared as a proposal. No GitHub pull request, Terraform apply, or cloud mutation was performed."
        (set_status RunStatus.remediation_proposal_prepared run))
  carry_out false pr_number decision review run = do
    resource ← resource_for_run services run
    remediate pr_number decision review resource run (real_pr_of run)

  -- `pr_number` is the number of runs in the store plus 100
  unfoldable pub approve : ℕ → HumanReviewRecord → WorkflowRun → Result WorkflowRun
  approve pr_number review run = do
    decision ← ensure_can_approve run
    let approved = set_status RunStatus.approved (received "Approval received." review run)
    carry_out (is_proposal_only approved) pr_number decision review approved

  unfoldable pub reject : HumanReviewRecord → WorkflowRun → Result WorkflowRun
  reject review run = do
    ensure_can_reject run
    ok (set_status RunStatus.rejected (received "Run rejected." review run))

  unfoldable pub revoke_approval : HumanReviewRecord → WorkflowRun → Result WorkflowRun
  revoke_approval review run = do
    require (status_in run.status (RunStatus.approved ∷ RunStatus.pr_created ∷ []))
        "Only approved cases can have approval revoked."
    ok (
        append_audit_event now "approval_revoked" Actor.human
          "Approval revoked. No rollback, Terraform apply, or GitHub pull-request closure was performed."
          (set_status RunStatus.approval_revoked (add_review review run)))

  unfoldable pub reopen_case : HumanReviewRecord → WorkflowRun → Result WorkflowRun
  reopen_case review run = do
    require
        (status_in run.status (
          RunStatus.rejected ∷ RunStatus.approval_revoked ∷ RunStatus.pr_created
          ∷ RunStatus.approved ∷ []))
        "Only rejected, revoked, approved, or PR-created cases can be reopened."
    ok (
        append_audit_event now "case_reopened" Actor.human "Case reopened for human review."
          (set_status RunStatus.reopened (add_review review run)))

  abbrev unknown_sources : List String → List String
  unknown_sources requested =
      sorted_set (keep_if (λ source. not (mem source services.tool_names)) requested)

  abbrev evidence_plan : List String → TerraformResourceChange → WorkflowRun → InvestigationPlan
  evidence_plan sources resource run = record {
    goal = run.goal;
    resource_id = resource.address;
    selected_tools = sources;
    skipped_tools = [];
    planning_notes =
        map (λ source. append "Selected " (append source ": requested by human reviewer.")) sources;
  }

  abbrev registry_for : String → TerraformResourceChange → ToolRegistry
  registry_for scenario resource = record {
    names = services.tool_names;
    collect = services.collect scenario resource;
  }

  -- what was known from other sources, then what the requested ones answer now
  abbrev merged_evidence : List String → DecisionRecord → List EvidenceItem → List EvidenceItem
  merged_evidence sources decision items =
      keep_if (λ (item : EvidenceItem). not (mem item.source sources)) decision.evidence ++ items

  abbrev requested : List String → HumanReviewRecord → WorkflowRun → WorkflowRun
  requested sources review run =
      append_audit_event now "plan_revised" Actor.agent
        "Plan revised to collect requested evidence."
        (add_revision "Human requested additional evidence." (
          append_audit_event now "additional_evidence_requested" Actor.human
            "Additional evidence requested." (add_review review run)))

  abbrev collected : List String → TerraformResourceChange → WorkflowRun → Collection
  collected sources resource run =
      collect_evidence now (registry_for run.scenario_name resource) services.retry_config
        (evidence_plan sources resource run) resource

  abbrev resumed : String → DecisionRecord → WorkflowRun → WorkflowRun
  resumed summary decision run =
      append_audit_event now "workflow_resumed" Actor.agent summary
        (policy_audit now decision.policy_result (set_decision decision run))

  unfoldable pub request_evidence :
      HumanReviewRequest → HumanReviewRecord → WorkflowRun → Result WorkflowRun
  request_evidence request review run = do
    decision ← ensure_can_request_evidence run
    let sources = request.requested_sources
    require (not (is_empty sources)) "requested_sources is required."
    require (is_empty (unknown_sources sources))
        (append "Unknown evidence source(s): " (join ", " (unknown_sources sources)))
    _ ← services.load_scenario run.scenario_name
    resource ← resource_for_run services run
    let found = collected sources resource run
    again ←
        recalculate_decision services.evaluator run.id run.scenario_name decision resource
          (merged_evidence sources decision found.evidence)
          (decision.tool_executions ++ found.records)
    ok (
        resumed "Workflow resumed after evidence request." again
          (tools_audit now found.records (requested sources review run)))

  abbrev context_item :
      TerraformResourceChange → HumanReviewRequest → HumanReviewRecord → EvidenceItem
  context_item resource request review = record {
    source = "human_review";
    tool_name = "human_context";
    claim = "human supplied context";
    value = text (get_or_else request.human_context "");
    resource_id = resource.address;
    collected_at = now;
    freshness_status = Freshness.fresh;
    reliability = 10000;
    metadata = field "reviewer" (text request.reviewer) end;
    source_mode = none;
  }

  abbrev context_added : DecisionRecord → WorkflowRun → WorkflowRun
  context_added decision run =
      append_audit_event now "workflow_resumed" Actor.agent "Workflow resumed after human context."
        (append_audit_event now "plan_revised" Actor.agent
          "Plan revised after human context arrived."
          (append_audit_event now "human_context_added" Actor.human "Human context added."
            (policy_audit now decision.policy_result (set_decision decision run))))

  unfoldable pub add_context :
      HumanReviewRequest → HumanReviewRecord → WorkflowRun → Result WorkflowRun
  add_context request review run = do
    decision ← ensure_can_add_context run request
    resource ← resource_for_run services run
    again ←
        recalculate_decision services.evaluator run.id run.scenario_name decision resource
          (decision.evidence ++ context_item resource request review ∷ []) decision.tool_executions
    ok (context_added again (add_revision "Human context arrived." (add_review review run)))

  module _ (run : WorkflowRun) (resource : TerraformResourceChange)
      (decision : DecisionRecord) where
    abbrev modified_policy : Alternative → PolicyResult
    modified_policy alternative =
        policy_on services.evaluator run.id run.scenario_name resource
          decision.investigation_plan.selected_tools decision.evidence decision.missing_evidence
          decision.conflicts alternative

    abbrev modified_confidence : Alternative → ConfidenceBreakdown
    modified_confidence alternative =
        confidence_on services.evaluator run.id run.scenario_name resource
          decision.investigation_plan.selected_tools decision.evidence decision.missing_evidence
          decision.conflicts alternative

    abbrev modified : Action → Alternative → DecisionRecord
    modified action alternative = record decision {
      preferred_action = action;
      verifier_findings =
          findings_for services.evaluator run.id run.scenario_name resource
            decision.investigation_plan.selected_tools decision.evidence decision.missing_evidence
            decision.conflicts alternative;
      policy_result = modified_policy alternative;
      confidence = modified_confidence alternative;
      final_status = final_status_of alternative (modified_policy alternative);
      final_summary = append "Preferred action modified to " (
          append (action_name alternative.action) (
            append ". Policy status is "
              (append (policy_status_name (modified_policy alternative).status) ".")));
    }

  abbrev with_modified :
      Alternative → DecisionRecord → HumanReviewRecord → WorkflowRun → WorkflowRun
  with_modified alternative decision review run =
      append_audit_event now "preferred_action_modified" Actor.human
        (append "Preferred action modified to " (append (action_name alternative.action) "."))
        (policy_audit now decision.policy_result (
          set_status RunStatus.pending_human_review
            (add_review review (record run { decision_record = some decision }))))

  unfoldable pub modify : HumanReviewRequest → HumanReviewRecord → WorkflowRun → Result WorkflowRun
  modify request review run = do
    allowed ← ensure_can_modify run request
    let decision = allowed.0
    let action = allowed.1
    alternative ←
        or_raise (find_action decision.alternatives action)
          (conflict "Requested action is not in generated alternatives.")
    require alternative.eligible "Requested alternative is not eligible."
    require
        (not (
          same_action action Action.request_evidence
          || same_action action Action.abstain
          || same_action action Action.keep))
        "Only remediation alternatives can be modified for approval."
    resource ← resource_for_run services run
    let revised = modified run resource decision action alternative
    require revised.policy_result.allowed "Policy does not allow the modified action."
    ok (with_modified alternative revised review run)
