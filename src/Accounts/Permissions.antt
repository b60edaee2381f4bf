-- ===== src/Accounts/Permissions.antt =====
-- app/auth.py: the permission names, the permissions of a role, and the principal of a request. A set
-- of permissions is a list without order.
use ghost_busters.Prelude.{ℕ, String, Bool, Option, none, some, List, [], ◌∷◌, ◌++◌, if◌then◌else◌}
use ghost_busters.Model.{OrganizationRole}
use ghost_busters.Accounts.Entities.{User, Organization, OrganizationMembership}

abbrev pub workspace_read : String
workspace_read = "workspace.read"

abbrev pub workspace_manage : String
workspace_manage = "workspace.manage"

abbrev pub members_read : String
members_read = "members.read"

abbrev pub members_invite : String
members_invite = "members.invite"

abbrev pub members_manage_roles : String
members_manage_roles = "members.manage_roles"

abbrev pub members_cancel_invitation : String
members_cancel_invitation = "members.cancel_invitation"

abbrev pub members_disable : String
members_disable = "members.disable"

abbrev pub ownership_transfer : String
ownership_transfer = "ownership.transfer"

abbrev pub integrations_read : String
integrations_read = "integrations.read"

abbrev pub integrations_manage : String
integrations_manage = "integrations.manage"

abbrev pub integrations_aws_read : String
integrations_aws_read = "integrations.aws.read"

abbrev pub integrations_aws_manage : String
integrations_aws_manage = "integrations.aws.manage"

abbrev pub integrations_github_read : String
integrations_github_read = "integrations.github.read"

abbrev pub integrations_github_manage : String
integrations_github_manage = "integrations.github.manage"

abbrev pub integrations_jira_read : String
integrations_jira_read = "integrations.jira.read"

abbrev pub integrations_jira_manage : String
integrations_jira_manage = "integrations.jira.manage"

abbrev pub business_context_read : String
business_context_read = "business_context.read"

abbrev pub repository_context_read : String
repository_context_read = "repository_context.read"

abbrev pub policies_read : String
policies_read = "policies.read"

abbrev pub policies_manage : String
policies_manage = "policies.manage"

abbrev pub pr_reviews_read : String
pr_reviews_read = "pr_reviews.read"

abbrev pub goals_read : String
goals_read = "goals.read"

abbrev pub goals_run : String
goals_run = "goals.run"

abbrev pub goals_cancel : String
goals_cancel = "goals.cancel"

abbrev pub cloud_hunts_read : String
cloud_hunts_read = "cloud_hunts.read"

abbrev pub cloud_hunts_run : String
cloud_hunts_run = "cloud_hunts.run"

abbrev pub cloud_hunts_schedule_read : String
cloud_hunts_schedule_read = "cloud_hunts.schedule.read"

abbrev pub cloud_hunts_schedule_manage : String
cloud_hunts_schedule_manage = "cloud_hunts.schedule.manage"

abbrev pub outcomes_read : String
outcomes_read = "outcomes.read"

abbrev pub outcomes_start : String
outcomes_start = "outcomes.start"

abbrev pub outcomes_refresh : String
outcomes_refresh = "outcomes.refresh"

abbrev pub outcomes_complete : String
outcomes_complete = "outcomes.complete"

abbrev pub outcomes_reopen : String
outcomes_reopen = "outcomes.reopen"

abbrev pub overview_read : String
overview_read = "overview.read"

abbrev pub approvals_read : String
approvals_read = "approvals.read"

abbrev pub approvals_decide : String
approvals_decide = "approvals.decide"

abbrev pub approvals_reject : String
approvals_reject = "approvals.reject"

abbrev pub approvals_revoke : String
approvals_revoke = "approvals.revoke"

abbrev pub approvals_reopen : String
approvals_reopen = "approvals.reopen"

abbrev pub approvals_request_evidence : String
approvals_request_evidence = "approvals.request_evidence"

abbrev pub approvals_add_context : String
approvals_add_context = "approvals.add_context"

abbrev pub approvals_modify : String
approvals_modify = "approvals.modify"

abbrev pub audit_read : String
audit_read = "audit.read"

abbrev pub activity_read : String
activity_read = "activity.read"

abbrev pub activity_export : String
activity_export = "activity.export"

abbrev pub billing_read : String
billing_read = "billing.read"

abbrev pub billing_manage : String
billing_manage = "billing.manage"

-- ROLE_LABELS
abbrev pub role_label : OrganizationRole → String
role_label OrganizationRole.owner = "Owner"
role_label OrganizationRole.admin = "Admin"
role_label OrganizationRole.reviewer = "Reviewer"
role_label OrganizationRole.viewer = "Viewer"

-- ROLE_PERMISSIONS
abbrev pub role_permissions : OrganizationRole → List String
role_permissions OrganizationRole.owner =
    workspace_read ∷ workspace_manage ∷ members_read ∷ members_invite ∷ members_manage_roles
    ∷ members_cancel_invitation ∷ members_disable ∷ ownership_transfer ∷ integrations_read
    ∷ integrations_manage ∷ integrations_aws_read ∷ integrations_aws_manage
    ∷ integrations_github_read ∷ integrations_github_manage ∷ integrations_jira_read
    ∷ integrations_jira_manage ∷ business_context_read ∷ repository_context_read ∷ policies_read
    ∷ policies_manage ∷ pr_reviews_read ∷ goals_read ∷ goals_run ∷ goals_cancel ∷ cloud_hunts_read
    ∷ cloud_hunts_run ∷ cloud_hunts_schedule_read ∷ cloud_hunts_schedule_manage ∷ outcomes_read
    ∷ outcomes_start ∷ outcomes_refresh ∷ outcomes_complete ∷ outcomes_reopen ∷ overview_read
    ∷ approvals_read ∷ approvals_decide ∷ approvals_reject ∷ approvals_revoke ∷ approvals_reopen
    ∷ approvals_request_evidence ∷ approvals_add_context ∷ approvals_modify ∷ audit_read
    ∷ activity_read ∷ activity_export ∷ billing_read ∷ billing_manage ∷ []
role_permissions OrganizationRole.admin =
    workspace_read ∷ members_read ∷ members_invite ∷ members_manage_roles
    ∷ members_cancel_invitation ∷ members_disable ∷ integrations_read ∷ integrations_manage
    ∷ integrations_aws_read ∷ integrations_aws_manage ∷ integrations_github_read
    ∷ integrations_github_manage ∷ integrations_jira_read ∷ integrations_jira_manage
    ∷ business_context_read ∷ repository_context_read ∷ policies_read ∷ policies_manage
    ∷ pr_reviews_read ∷ goals_read ∷ goals_run ∷ goals_cancel ∷ cloud_hunts_read ∷ cloud_hunts_run
    ∷ cloud_hunts_schedule_read ∷ cloud_hunts_schedule_manage ∷ outcomes_read ∷ outcomes_start
    ∷ outcomes_refresh ∷ outcomes_complete ∷ outcomes_reopen ∷ overview_read ∷ approvals_read
    ∷ approvals_decide ∷ approvals_reject ∷ approvals_revoke ∷ approvals_reopen
    ∷ approvals_request_evidence ∷ approvals_add_context ∷ approvals_modify ∷ audit_read
    ∷ activity_read ∷ activity_export ∷ []
role_permissions OrganizationRole.reviewer =
    workspace_read ∷ pr_reviews_read ∷ goals_read ∷ cloud_hunts_read ∷ approvals_read
    ∷ approvals_decide ∷ approvals_reject ∷ approvals_revoke ∷ approvals_reopen
    ∷ approvals_request_evidence ∷ approvals_add_context ∷ approvals_modify ∷ audit_read ∷ []
role_permissions OrganizationRole.viewer =
    workspace_read ∷ overview_read ∷ pr_reviews_read ∷ cloud_hunts_read ∷ approvals_read
    ∷ audit_read ∷ []

-- what `approval_permission_enabled` adds
abbrev pub approval_permissions : List String
approval_permissions =
    approvals_decide ∷ approvals_reject ∷ approvals_revoke ∷ approvals_reopen
    ∷ approvals_request_evidence ∷ approvals_add_context ∷ approvals_modify ∷ []

-- what the demo mode adds
abbrev pub demo_permissions : List String
demo_permissions =
    workspace_manage ∷ cloud_hunts_run ∷ goals_read ∷ goals_run ∷ goals_cancel
    ∷ integrations_aws_read ∷ integrations_aws_manage ∷ integrations_github_read
    ∷ integrations_github_manage ∷ integrations_jira_read ∷ integrations_jira_manage
    ∷ business_context_read ∷ repository_context_read ∷ cloud_hunts_schedule_read
    ∷ cloud_hunts_schedule_manage ∷ outcomes_read ∷ outcomes_start ∷ outcomes_refresh
    ∷ outcomes_complete ∷ outcomes_reopen ∷ overview_read ∷ []

pub record Principal : Type 0 where
  pub user : Option User
  pub organization : Organization
  pub membership : OrganizationMembership
  pub permissions : List String
  pub authenticated : Bool
  pub demo_mode : Bool
  pub csrf_token : Option String

unfoldable pub make_principal :
    Option User → Organization → OrganizationMembership → Bool → Bool → Option String → Principal
make_principal user organization membership authenticated demo_mode csrf_token = record {
  user = user;
  organization = organization;
  membership = membership;
  permissions =
      role_permissions membership.role
      ++ (if membership.approval_permission_enabled then approval_permissions else [])
      ++ (if demo_mode then demo_permissions else []);
  authenticated = authenticated;
  demo_mode = demo_mode;
  csrf_token = csrf_token;
}

-- principal.reviewer_name
abbrev pub reviewer_name : Principal → String
reviewer_name principal = elim principal.user [
  | none ↦ "Demo Reviewer"
  | some user ↦ user.display_name
]

-- `principal.user.id if principal.user else None`
abbrev pub actor_id : Principal → Option ℕ
actor_id principal = elim principal.user [ none ↦ none | some user ↦ some user.id ]
