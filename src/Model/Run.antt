-- ===== src/Model/Run.antt =====
-- The workflow run, its reviews, its audit trail and its pull requests, of app/models.py.
use ghost_busters.Prelude.{ℕ, String, Bool, Option, List}
use ghost_busters.Prelude.Int.{ℤ}
use ghost_busters.Prelude.Ratio.{Ratio}
use ghost_busters.Prelude.Json.{Fields}
use ghost_busters.Model.Decision.{Action, DecisionRecord}

pub data RunStatus : Type 0 where
  created planning investigating verifying blocked abstained keep pending_human_review : RunStatus
  needs_more_evidence approved rejected approval_revoked reopened : RunStatus
  remediation_proposal_prepared remediation_pr_created pr_created failed_safely canceled : RunStatus

pub data OrganizationRole : Type 0 where
  owner admin reviewer viewer : OrganizationRole

pub data ReviewAction : Type 0 where
  approve reject request_evidence modify add_context : ReviewAction
  revoke_approval reopen_case add_follow_up_context : ReviewAction

pub record HumanReviewRequest : Type 0 where
  pub action : ReviewAction
  pub reviewer : String
  pub comment : Option String
  pub requested_sources : List String
  pub modified_action : Option Action
  pub human_context : Option String

pub record HumanReviewRecord : Type 0 where
  pub reviewer : String
  pub reviewer_user_id : Option ℕ
  pub reviewer_email : Option String
  pub reviewer_role : Option OrganizationRole
  pub organization_id : ℕ
  pub action : ReviewAction
  pub comment : Option String
  pub requested_sources : List String
  pub modified_action : Option Action
  pub human_context : Option String
  pub created_at : ℕ

pub data Actor : Type 0 where
  agent human policy system tool : Actor

pub record AuditEvent : Type 0 where
  pub sequence_number : ℕ
  pub timestamp : ℕ
  pub event_type : String
  pub actor : Actor
  pub summary : String

pub record MockPullRequest : Type 0 where
  pub pr_number : ℕ
  pub repository : String
  pub branch : String
  pub base_branch : String
  pub title : String
  pub created_at : ℕ
  pub status : String
  pub resource_id : String
  pub chosen_action : Action
  pub current_instance_type : Option String
  pub proposed_instance_type : String
  pub terraform_patch_preview : String
  pub monthly_savings : ℤ
  pub annual_savings : ℤ
  pub confidence : Ratio
  pub policy_summary : String
  pub evidence_summary : List String
  pub human_approval_summary : String

pub record RealPullRequest : Type 0 where
  pub repository : String
  pub number : ℕ
  pub url : String
  pub branch : String
  pub base_branch : String
  pub title : String
  pub created_at : ℕ
  pub idempotency_key : String
  pub reused : Bool

pub record GitHubTerraformResourceChange : Type 0 where
  pub address : String
  pub provider : String
  pub resource_type : String
  pub resource_name : String
  pub actions : List String
  pub before : Option Fields
  pub after : Option Fields
  pub changed_attributes : List String
  pub destructive : Bool
  pub replacement : Bool
  pub source_file : String

pub record GitHubTerraformChange : Type 0 where
  pub repository : String
  pub pull_request_number : ℕ
  pub base_branch : String
  pub head_branch : String
  pub head_sha : String
  pub changed_files : List String
  pub terraform_files : List String
  pub resource_changes : List GitHubTerraformResourceChange
  pub environment : Option String

pub record WorkflowRun : Type 0 where
  pub id : ℕ
  pub organization_id : ℕ
  pub goal : String
  pub scenario_name : String
  pub status : RunStatus
  pub created_at : ℕ
  pub updated_at : ℕ
  pub decision_record : Option DecisionRecord
  pub human_reviews : List HumanReviewRecord
  pub audit_events : List AuditEvent
  pub mock_pr : Option MockPullRequest
  pub github_source : Option GitHubTerraformChange
  pub real_pr : Option RealPullRequest
  pub version : ℕ
  pub idempotency_key : Option String
  pub error : Option String
  pub data_source_mode : String
  pub execution_mode : String
  pub plan_revisions : List String
  pub stop_reason : Option String
  pub final_outcome : Option String
