-- ===== src/Tests/Organizations.antt =====
-- Two organizations, their owners, an admin and an accepted invitation, in a store of accounts.
use ghost_busters.Prelude.{ℕ, ◌+◌, refl, true, false, none, some, [], ◌∷◌, arith}
use ghost_busters.Prelude.Text.{◌==◌ as text_eq, append}
use ghost_busters.Prelude.Json.{end}
use ghost_busters.Prelude.Table.{lookup}
use ghost_busters.Model.{OrganizationRole}
use ghost_busters.Accounts.Entities.{
  AccountStatus, InvitationStatus, Organization, User, OrganizationMembership, Invitation,
  AuthStore, Environment,
}
use ghost_busters.Accounts.Permissions.{Principal}
use ghost_busters.Accounts.Members.Owners.{IsKeyed}
use ghost_busters.Accounts.Commands.{IsFresh}

abbrev pub env : Environment
env = record {
  now = 1000;
  uuid = λ n. 100 + n;
  token = "t1";
  hash_password = λ password. append "h:" password;
  verify_password = λ password encoded. text_eq encoded (append "h:" password);
  hash_token = λ token. append "#" token;
  is_timezone = λ _. true;
  login_rate_limit_window_seconds = 900;
  login_rate_limit_attempts = 2;
  invitation_expiry_seconds = 3600;
}

abbrev organization : ℕ → Organization
organization id = record {
  id = id;
  name = "Acme";
  slug = "acme";
  status = AccountStatus.active;
  timezone = "UTC";
  created_at = 1;
  updated_at = 1;
  version = 1;
}

abbrev pub ann : User
ann = record {
  id = 10;
  email = "ann@acme.org";
  display_name = "Ann";
  status = AccountStatus.active;
  created_at = 1;
  updated_at = 1;
  last_login_at = none;
}

abbrev pub member : ℕ → ℕ → ℕ → OrganizationRole → OrganizationMembership
member id organization_id user_id role = record {
  id = id;
  organization_id = organization_id;
  user_id = user_id;
  role = role;
  approval_permission_enabled = false;
  status = AccountStatus.active;
  invited_by_user_id = none;
  joined_at = some 1;
  created_at = 1;
  updated_at = 1;
}

abbrev pub accepted_invitation : Invitation
accepted_invitation = record {
  id = 40;
  organization_id = 11;
  email = "bob@acme.org";
  normalized_email = "bob@acme.org";
  role = OrganizationRole.admin;
  approval_permission_enabled = false;
  status = InvitationStatus.accepted;
  token_hash = "";
  expires_at = 5000;
  accepted_at = some 2;
  canceled_at = none;
  invited_by_user_id = 10;
  invited_by_membership_id = some 12;
  created_at = 1;
  updated_at = 2;
  resend_count = 0;
  last_sent_at = some 1;
  metadata = end;
}

abbrev pub store : AuthStore
store = record {
  users_by_id = (10, ann) ∷ [];
  users_by_email = ("ann@acme.org", ann) ∷ [];
  password_hashes = (10, "h:secret") ∷ [];
  organizations = (11, organization 11) ∷ (31, organization 31) ∷ [];
  memberships =
      (12, member 12 11 10 OrganizationRole.owner)
      ∷ (13, member 13 11 20 OrganizationRole.admin)
      ∷ (32, member 32 31 30 OrganizationRole.owner)
      ∷ [];
  invitations = (40, accepted_invitation) ∷ [];
  activity_events = [];
  login_failures = [];
}

abbrev pub empty_store : AuthStore
empty_store = record {
  users_by_id = [];
  users_by_email = [];
  password_hashes = [];
  organizations = [];
  memberships = [];
  invitations = [];
  activity_events = [];
  login_failures = [];
}

-- the principal of a membership
abbrev pub principal : OrganizationMembership → Principal
principal m = record {
  user = none;
  organization = organization m.organization_id;
  membership = m;
  permissions = [];
  authenticated = true;
  demo_mode = false;
  csrf_token = none;
}

pub store-IsKeyed : IsKeyed store
unfolding lookup
store-IsKeyed k m h = ground arith

pub store-IsFresh : IsFresh env store
unfolding lookup
store-IsFresh = record { no_membership = refl; no_invitation = refl }
