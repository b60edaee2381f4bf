-- ===== src/Accounts/Members.antt =====
-- app/auth.py: what members of an organization change on it and on one another.
pub mod Owners
pub mod Revisions
use ghost_busters.Prelude.{
  ℕ, ◌+◌, String, Bool, true, false, not, ◌&&◌, Option, none, some, if◌then◌else◌, ◌==◌, leb,
  is_some, get_or_else,
}
use ghost_busters.Prelude.Text.{◌==◌ as text_eq, show}
use ghost_busters.Prelude.Json.{Fields, field, end, Value}
use ghost_busters.Prelude.Table.{lookup, put, values, count}
use ghost_busters.Prelude.Strip.{strip}
use ghost_busters.Model.{OrganizationRole}
use ghost_busters.Accounts.Entities.{
  AccountStatus, Organization, OrganizationMembership, AuthStore, Environment, refused, returned,
  Outcome, after, same_account_status, same_role,
}
use ghost_busters.Accounts.Permissions.{Principal, actor_id}
use ghost_busters.Accounts.Activity.{
  ActivityOptions, no_options, record_activity, record_activity_with,
}
use ghost_busters.Accounts.Login.{answer_in, organization_of}

abbrev pub is_active_owner_of : ℕ → OrganizationMembership → Bool
is_active_owner_of organization_id item =
    item.organization_id == organization_id
    && same_role item.role OrganizationRole.owner
    && same_account_status item.status AccountStatus.active

-- _active_owner_count
abbrev pub active_owner_count : ℕ → AuthStore → ℕ
active_owner_count organization_id store =
    count (is_active_owner_of organization_id) (values store.memberships)

abbrev own_membership : Principal → Option OrganizationMembership → Option OrganizationMembership
own_membership principal none = none
own_membership principal (some membership) =
    if membership.organization_id == principal.organization.id then some membership else none

-- the membership with the id, where it is one of the principal's organization
abbrev pub scoped_membership : Principal → ℕ → AuthStore → Option OrganizationMembership
scoped_membership principal membership_id store =
    own_membership principal (lookup ◌==◌ membership_id store.memberships)

-- `self.memberships[updated.id] = updated`
abbrev pub put_membership : OrganizationMembership → AuthStore → AuthStore
put_membership membership store = record store {
  memberships = put ◌==◌ membership.id membership store.memberships;
}

-- `str(role)`, the value of the enumeration
abbrev role_value : OrganizationRole → String
role_value OrganizationRole.owner = "OWNER"
role_value OrganizationRole.admin = "ADMIN"
role_value OrganizationRole.reviewer = "REVIEWER"
role_value OrganizationRole.viewer = "VIEWER"

abbrev with_role :
    Environment → OrganizationRole → Option Bool → OrganizationMembership → OrganizationMembership
with_role env role approval membership = record membership {
  role = role;
  approval_permission_enabled = get_or_else approval membership.approval_permission_enabled;
  updated_at = env.now;
}

unfoldable pub change_role :
    Environment
    → Principal
    → ℕ
    → OrganizationRole
    → Option Bool
    → AuthStore
    → Outcome OrganizationMembership
unfolding lookup put record_activity
change_role env principal membership_id role approval store =
    elim (scoped_membership principal membership_id store) [
      | none ↦ (refused 404 "Membership not found.", store)
      | some membership ↦
          let to_owner = same_role role OrganizationRole.owner in
          let by_owner = same_role principal.membership.role OrganizationRole.owner in
          if membership.user_id == principal.membership.user_id && to_owner && not by_owner
          then (refused 403 "Self-elevation is not allowed.", store)
          else if same_role membership.role OrganizationRole.owner
              && not to_owner
              && leb (active_owner_count principal.organization.id store) 1
          then (refused 409 "The last active Owner cannot be changed to another role.", store)
          else if to_owner && not by_owner
          then (refused 403 "Only an Owner can assign Owner role.", store)
          else let updated = with_role env role approval membership in
            (
              returned updated,
              record_activity env 0 principal.organization.id "member_role_changed"
                  (actor_id principal)
                  (field "membership_id" (Value.text (show updated.id))
                    (field "role" (Value.text (role_value role)) end))
                  (put_membership updated store),
            )
    ]

abbrev with_status : Environment → AccountStatus → OrganizationMembership → OrganizationMembership
with_status env status membership = record membership { status = status; updated_at = env.now }

-- the membership with a status, and the event that says so
abbrev set_status :
    Environment
    → Principal
    → AccountStatus
    → String
    → OrganizationMembership
    → AuthStore
    → Outcome OrganizationMembership
set_status env principal status event_type membership store =
    let updated = with_status env status membership in
    (
      returned updated,
      record_activity env 0 principal.organization.id event_type (actor_id principal)
          (field "membership_id" (Value.text (show updated.id)) end) (put_membership updated store),
    )

unfoldable pub disable_member :
    Environment → Principal → ℕ → AuthStore → Outcome OrganizationMembership
unfolding lookup put record_activity
disable_member env principal membership_id store =
    elim (scoped_membership principal membership_id store) [
      | none ↦ (refused 404 "Membership not found.", store)
      | some membership ↦
          if same_role membership.role OrganizationRole.owner
            && leb (active_owner_count principal.organization.id store) 1
          then (refused 409 "The last active Owner cannot be disabled.", store)
          else set_status env principal AccountStatus.disabled "member_disabled" membership store
    ]

unfoldable pub reactivate_member :
    Environment → Principal → ℕ → AuthStore → Outcome OrganizationMembership
unfolding lookup put record_activity
reactivate_member env principal membership_id store =
    elim (scoped_membership principal membership_id store) [
      | none ↦ (refused 404 "Membership not found.", store)
      | some membership ↦
          set_status env principal AccountStatus.active "member_reactivated" membership store
    ]

-- the version that the caller saw is another one
abbrev is_stale : Option ℕ → Organization → Bool
is_stale none current = false
is_stale (some expected) current = not (expected == current.version)

abbrev is_blank : Option String → Bool
is_blank none = false
is_blank (some name) = text_eq (strip name) ""

abbrev is_unknown_zone : Environment → Option String → Bool
is_unknown_zone env none = false
is_unknown_zone env (some zone) = not (env.is_timezone zone)

abbrev renamed : Environment → Option String → Option String → Organization → Organization
renamed env name timezone_name current = record current {
  updated_at = env.now;
  name = elim name [ none ↦ current.name | some given ↦ strip given ];
  timezone = get_or_else timezone_name current.timezone;
  version = current.version + 1;
}

abbrev workspace_options : Organization → ActivityOptions
workspace_options updated = record no_options {
  actor_type = some "User";
  category = some "Workspace";
  target_type = some "workspace";
  target_id = some (show updated.id);
  target_display_name = some updated.name;
}

unfoldable pub update_organization :
    Environment
    → Principal
    → Option String
    → Option String
    → Option ℕ
    → AuthStore
    → Outcome Organization
unfolding lookup put strip record_activity_with
update_organization env principal name timezone_name expected_version store =
    after (answer_in (organization_of principal.organization.id store) store) (λ current s.
      if is_stale expected_version current
      then (refused 409 "Workspace settings changed elsewhere. Refresh and try again.", s)
      else if is_blank name
      then (refused 422 "Organization name cannot be empty.", s)
      else if is_unknown_zone env timezone_name
      then (refused 422 "Unknown organization timezone.", s)
      else let updated = renamed env name timezone_name current in
        let stored = record s { organizations = put ◌==◌ updated.id updated s.organizations } in
        (
          returned updated,
          record_activity_with (workspace_options updated) env 0 principal.organization.id
              "workspace_updated" (actor_id principal)
              (field "organization_id" (Value.text (show updated.id))
                (field "timezone" (Value.text updated.timezone) end))
              stored,
        ))
