-- ===== src/Accounts/Acceptances.antt =====
-- app/auth.py: the acceptance of an invitation.
use ghost_busters.Prelude.{
  String, Bool, true, false, not, ◌&&◌, ◌||◌, Option, none, some, if◌then◌else◌, ◌==◌, is_some,
}
use ghost_busters.Prelude.Text.{◌==◌ as text_eq}
use ghost_busters.Prelude.Json.{field, end, Value}
use ghost_busters.Prelude.Table.{lookup, put}
use ghost_busters.Prelude.Strip.{strip}
use ghost_busters.Accounts.Entities.{
  AccountStatus, InvitationStatus, User, OrganizationMembership, Invitation, AuthStore, Environment,
  refused, returned, Outcome, after,
}
use ghost_busters.Accounts.Names.{normalize_email}
use ghost_busters.Accounts.Permissions.{Principal, role_label}
use ghost_busters.Accounts.Activity.{record_activity}
use ghost_busters.Accounts.Login.{Account, new_user, add_user, answer_in, organization_of}
use ghost_busters.Accounts.Invitations.{
  membership_for_user_org, put_invitation, email_details, validate_invitation_token,
}

-- `principal and principal.authenticated and principal.user`
abbrev pub signed_in : Option Principal → Option User
signed_in none = none
signed_in (some principal) = if principal.authenticated then principal.user else none

-- Python's truth of an optional text
abbrev pub given : Option String → Bool
given none = false
given (some s) = not (text_eq s "")

abbrev pub same_text : Option String → Option String → Bool
same_text none none = true
same_text (some a) (some b) = text_eq a b
same_text _ _ = false

abbrev text_of : Option String → String
text_of none = ""
text_of (some s) = s

-- The form of an acceptance.
pub record Acceptance : Type 0 where
  pub display_name : Option String
  pub password : Option String
  pub confirm_password : Option String

-- the account of the invited address: the signed-in user's, one that exists, or a new one
unfoldable pub accepting_user :
    Environment → Acceptance → Option Principal → Invitation → AuthStore → Outcome User
unfolding normalize_email lookup put strip record_activity
accepting_user env form principal invitation store = elim (signed_in principal) [
  | some user ↦
      if not (text_eq (normalize_email user.email) invitation.normalized_email)
      then (
        refused 403
            "This invitation was sent to another email address. Sign in with the invited account.",
        store,
      )
      else (returned user, store)
  | none ↦ elim (lookup text_eq invitation.normalized_email store.users_by_email) [
    | some user ↦
        if given form.password || given form.display_name
        then (
          refused 409 "An account already exists. Sign in instead to accept this invitation.",
          store,
        )
        else (returned user, store)
    | none ↦
        if not (given form.display_name)
        then (refused 422 "Display name is required.", store)
        else if not (given form.password && same_text form.password form.confirm_password)
        then (refused 422 "Passwords do not match.", store)
        else let user =
            new_user env invitation.normalized_email (strip (text_of form.display_name)) in
          (
            returned user,
            record_activity env 1 invitation.organization_id
                "user_account_created_through_invitation" (some user.id) (email_details user.email)
                (add_user env user (text_of form.password) store),
          )
  ]
]

abbrev pub invited_membership : Environment → Invitation → User → OrganizationMembership
invited_membership env invitation user = record {
  id = env.uuid 2;
  organization_id = invitation.organization_id;
  user_id = user.id;
  role = invitation.role;
  approval_permission_enabled = invitation.approval_permission_enabled;
  status = AccountStatus.active;
  invited_by_user_id = some invitation.invited_by_user_id;
  joined_at = some env.now;
  created_at = env.now;
  updated_at = env.now;
}

abbrev pub accepted_copy : Environment → Invitation → Invitation
accepted_copy env invitation = record invitation {
  status = InvitationStatus.accepted;
  accepted_at = some env.now;
  updated_at = env.now;
  token_hash = "";
}

-- the membership is written, and the invitation is accepted and loses its token
unfoldable pub join_organization : Environment → Invitation → User → AuthStore → Outcome Account
unfolding put record_activity
join_organization env invitation user store =
    if is_some (membership_for_user_org user.id invitation.organization_id store)
    then (refused 409 "This account is already a member of the organization.", store)
    else let membership = invited_membership env invitation user in
      let joined =
        put_invitation (accepted_copy env invitation)
          (record store { memberships = put ◌==◌ membership.id membership store.memberships }) in
      let first_event =
        record_activity env 3 invitation.organization_id "invitation_accepted" (some user.id)
          (email_details user.email) joined in
      let last =
        record_activity env 4 invitation.organization_id "membership_activated" (some user.id)
          (field "role" (Value.text (role_label membership.role)) end) first_event in
      after (answer_in (organization_of invitation.organization_id last) last)
        (λ organization s. (returned (user, organization, membership), s))

unfoldable pub accept_invitation :
    Environment → String → Acceptance → Option Principal → AuthStore → Outcome Account
unfolding validate_invitation_token accepting_user join_organization
accept_invitation env token form principal store =
    after (validate_invitation_token env token store) (λ invitation s.
      after (accepting_user env form principal invitation s)
        (λ user t. join_organization env invitation user t))
