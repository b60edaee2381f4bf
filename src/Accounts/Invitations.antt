-- ===== src/Accounts/Invitations.antt =====
-- app/auth.py: invitations, from the invite to their expiry, resending and cancelling.
pub mod Joining
pub mod Lifecycle
pub mod Evolution
use ghost_busters.Prelude.{
  ℕ, ◌+◌, ◌≤◌, String, Bool, true, false, not, ◌&&◌, ◌||◌, Option, none, some, List, [], ◌∷◌, first,
  if◌then◌else◌, ◌==◌, ltb, leb, is_some, is_none,
}
use ghost_busters.Prelude.Text.{◌==◌ as text_eq}
use ghost_busters.Prelude.Json.{Fields, field, end, Value}
use ghost_busters.Prelude.Table.{Table, lookup, put, values}
use ghost_busters.Prelude.Strip.{strip}
use ghost_busters.Model.{OrganizationRole}
use ghost_busters.Accounts.Entities.{
  AccountStatus, InvitationStatus, Organization, User, OrganizationMembership, Invitation,
  AuthStore, Environment, Answer, refused, returned, Outcome, after, same_account_status,
  same_invitation_status, same_role,
}
use ghost_busters.Accounts.Names.{normalize_email, is_valid_email}
use ghost_busters.Accounts.Permissions.{Principal, role_label, actor_id}
use ghost_busters.Accounts.Activity.{is_membership_of, record_activity}
use ghost_busters.Accounts.Login.{Account, new_user, add_user, answer_in, organization_of}

-- what `_ensure_invitable_role` raises
abbrev uninvitable : Principal → OrganizationRole → Option String
uninvitable principal role =
    if same_role role OrganizationRole.owner
    then some "Owner invitations are not supported in this flow."
    else if same_role principal.membership.role OrganizationRole.admin
        && same_role role OrganizationRole.admin
    then some "Admin invitation requires explicit Owner authority."
    else none

abbrev pub membership_for_user_org : ℕ → ℕ → AuthStore → Option OrganizationMembership
membership_for_user_org user_id organization_id store =
    first (is_membership_of user_id organization_id) (values store.memberships)

-- `_active_membership_for_email(..)` is not None
abbrev is_active_member : ℕ → String → AuthStore → Bool
is_active_member organization_id email store = elim (lookup text_eq email store.users_by_email) [
  | none ↦ false
  | some user ↦ elim (membership_for_user_org user.id organization_id store) [
    | none ↦ false
    | some membership ↦ same_account_status membership.status AccountStatus.active
  ]
]

abbrev is_pending_for : Environment → ℕ → String → Invitation → Bool
is_pending_for env organization_id email item =
    item.organization_id == organization_id
    && text_eq item.normalized_email email
    && same_invitation_status item.status InvitationStatus.pending
    && ltb env.now item.expires_at

abbrev pub is_pending_email : Environment → ℕ → String → AuthStore → Bool
is_pending_email env organization_id email store =
    is_some (first (is_pending_for env organization_id email) (values store.invitations))

-- `principal.user.id if principal.user else principal.membership.user_id`
abbrev inviter_id : Principal → ℕ
inviter_id principal = elim principal.user [
  | none ↦ principal.membership.user_id
  | some user ↦ user.id
]

abbrev note_fields : Option String → Fields
note_fields none = end
note_fields (some note) = if text_eq note "" then end else field "note" (Value.text note) end

abbrev new_invitation :
    Environment → Principal → String → OrganizationRole → Bool → Option String → Invitation
new_invitation env principal normalized role approval note = record {
  id = env.uuid 0;
  organization_id = principal.organization.id;
  email = normalized;
  normalized_email = normalized;
  role = role;
  approval_permission_enabled = approval;
  status = InvitationStatus.pending;
  token_hash = env.hash_token env.token;
  expires_at = env.now + env.invitation_expiry_seconds;
  accepted_at = none;
  canceled_at = none;
  invited_by_user_id = inviter_id principal;
  invited_by_membership_id = some principal.membership.id;
  created_at = env.now;
  updated_at = env.now;
  resend_count = 0;
  last_sent_at = some env.now;
  metadata = note_fields note;
}

-- `self.invitations[invitation.id] = invitation`
abbrev pub put_invitation : Invitation → AuthStore → AuthStore
put_invitation invitation store = record store {
  invitations = put ◌==◌ invitation.id invitation store.invitations;
}

abbrev pub email_details : String → Fields
email_details email = field "email" (Value.text email) end

unfoldable pub invite :
    Environment
    → Principal
    → String
    → OrganizationRole
    → Bool
    → Option String
    → AuthStore
    → Outcome (Invitation × String)
unfolding normalize_email is_valid_email lookup put record_activity
invite env principal email role approval note store =
    let normalized = normalize_email email in
    if not (is_valid_email normalized)
    then (refused 422 "Enter a valid email address.", store)
    else elim (uninvitable principal role) [
      | some detail ↦ (refused 403 detail, store)
      | none ↦
          if approval && same_role role OrganizationRole.viewer
          then (refused 422 "Approval permission is not available for Viewer.", store)
          else if is_active_member principal.organization.id normalized store
          then (refused 409 "This email is already an active member.", store)
          else if is_pending_email env principal.organization.id normalized store
          then (refused 409 "An invitation is already pending for this email.", store)
          else let invitation = new_invitation env principal normalized role approval note in
            let created =
              record_activity env 1 principal.organization.id "invitation_created"
                (actor_id principal)
                (field "email" (Value.text invitation.email)
                  (field "role" (Value.text (role_label role)) end))
                (put_invitation invitation store) in
            (
              returned (invitation, env.token),
              record_activity env 2 principal.organization.id
                  "invitation_link_generated_development" (actor_id principal)
                  (email_details invitation.email) created,
            )
    ]

abbrev is_overdue : Environment → Invitation → Bool
is_overdue env invitation =
    same_invitation_status invitation.status InvitationStatus.pending
    && leb invitation.expires_at env.now

abbrev expired_copy : Environment → Invitation → Invitation
expired_copy env invitation = record invitation {
  status = InvitationStatus.expired;
  updated_at = env.now;
}

-- `_refresh_invitation_status`; the event has the id that the call draws first
unfoldable pub refresh_invitation_status :
    Environment → Invitation → AuthStore → Invitation × AuthStore
unfolding put record_activity
refresh_invitation_status env invitation store =
    let updated = expired_copy env invitation in
    if is_overdue env invitation
    then (
      updated,
      record_activity env 0 updated.organization_id "invitation_expired" none
          (email_details updated.email) (put_invitation updated store),
    )
    else (invitation, store)

-- the first invitation that still has the hash of the token
unfoldable pub invitation_for_token : Environment → String → AuthStore → Option Invitation
invitation_for_token env token store =
    first
      (λ (item : Invitation).
        not (text_eq item.token_hash "") && text_eq item.token_hash (env.hash_token token))
      (values store.invitations)

abbrev status_word : InvitationStatus → String
status_word InvitationStatus.pending = "Invitation is pending."
status_word InvitationStatus.accepted = "Invitation is accepted."
status_word InvitationStatus.expired = "Invitation is expired."
status_word InvitationStatus.canceled = "Invitation is canceled."

abbrev still_pending : Invitation × AuthStore → Outcome Invitation
still_pending refreshed =
    if same_invitation_status refreshed.0.status InvitationStatus.pending
    then (returned refreshed.0, refreshed.1)
    else (refused 409 (status_word refreshed.0.status), refreshed.1)

unfoldable pub validate_invitation_token : Environment → String → AuthStore → Outcome Invitation
unfolding refresh_invitation_status invitation_for_token
validate_invitation_token env token store = elim (invitation_for_token env token store) [
  | none ↦ (refused 404 "Invitation is invalid.", store)
  | some invitation ↦ still_pending (refresh_invitation_status env invitation store)
]

-- `_scoped_invitation`
unfoldable pub scoped_invitation : Environment → Principal → ℕ → AuthStore → Outcome Invitation
unfolding lookup refresh_invitation_status
scoped_invitation env principal invitation_id store =
    elim (lookup ◌==◌ invitation_id store.invitations) [
      | none ↦ (refused 404 "Invitation not found.", store)
      | some invitation ↦
          if not (invitation.organization_id == principal.organization.id)
          then (refused 404 "Invitation not found.", store)
          else let refreshed = refresh_invitation_status env invitation store in
            (returned refreshed.0, refreshed.1)
    ]

abbrev resent_copy : Environment → Invitation → Invitation
resent_copy env invitation = record invitation {
  status = InvitationStatus.pending;
  token_hash = env.hash_token env.token;
  expires_at = env.now + env.invitation_expiry_seconds;
  updated_at = env.now;
  last_sent_at = some env.now;
  resend_count = invitation.resend_count + 1;
}

abbrev is_resendable : InvitationStatus → Bool
is_resendable status =
    same_invitation_status status InvitationStatus.pending
    || same_invitation_status status InvitationStatus.expired

-- the statements after `invitation = self._scoped_invitation(..)`
abbrev resend_step :
    Environment → Principal → Invitation → AuthStore → Outcome (Invitation × String)
resend_step env principal invitation s =
    if not (is_resendable invitation.status)
    then (refused 409 "Only pending or expired invitations can be resent.", s)
    else elim (uninvitable principal invitation.role) [
      | some detail ↦ (refused 403 detail, s)
      | none ↦
          let updated = resent_copy env invitation in
          (
            returned (updated, env.token),
            record_activity env 1 principal.organization.id "invitation_resent" (actor_id principal)
                (email_details updated.email) (put_invitation updated s),
          )
    ]

unfoldable pub resend_invitation :
    Environment → Principal → ℕ → AuthStore → Outcome (Invitation × String)
unfolding scoped_invitation put record_activity
resend_invitation env principal invitation_id store =
    after (scoped_invitation env principal invitation_id store) (resend_step env principal)

abbrev canceled_copy : Environment → Invitation → Invitation
canceled_copy env invitation = record invitation {
  status = InvitationStatus.canceled;
  canceled_at = some env.now;
  updated_at = env.now;
  token_hash = "";
}

-- the statements after `invitation = self._scoped_invitation(..)`
abbrev cancel_step : Environment → Principal → Invitation → AuthStore → Outcome Invitation
cancel_step env principal invitation s =
    let updated = canceled_copy env invitation in
    if not (same_invitation_status invitation.status InvitationStatus.pending)
    then (refused 409 "Only pending invitations can be canceled.", s)
    else (
      returned updated,
      record_activity env 1 principal.organization.id "invitation_canceled" (actor_id principal)
          (email_details updated.email) (put_invitation updated s),
    )

unfoldable pub cancel_invitation : Environment → Principal → ℕ → AuthStore → Outcome Invitation
unfolding scoped_invitation put record_activity
cancel_invitation env principal invitation_id store =
    after (scoped_invitation env principal invitation_id store) (cancel_step env principal)
