-- ===== src/Accounts/Login.antt =====
-- app/auth.py: registration, login and the principal of a user.
pub mod Limits
pub mod Registration
use ghost_busters.Prelude.{
  ℕ, zero, ◌+◌, String, Bool, true, false, not, ◌&&◌, ◌||◌, Option, none, some, List, [], ◌∷◌, ◌++◌,
  first, keep_if, length, if◌then◌else◌, ◌==◌, ltb, leb, is_some, get_or_else,
}
use ghost_busters.Prelude.Text.{◌==◌ as text_eq, append}
use ghost_busters.Prelude.Json.{Fields, field, end, Value}
use ghost_busters.Prelude.Table.{lookup, put, values}
use ghost_busters.Prelude.Strip.{strip}
use ghost_busters.Model.{OrganizationRole}
use ghost_busters.Accounts.Entities.{
  AccountStatus, Organization, User, OrganizationMembership, AuthStore, Environment, Answer,
  refused, returned, Outcome, after, same_account_status,
}
use ghost_busters.Accounts.Names.{normalize_email, slugify}
use ghost_busters.Accounts.Permissions.{Principal, make_principal}
use ghost_busters.Accounts.Activity.{record_activity}

-- the user, the organization and the membership that a call answers with
abbrev pub Account : Type 0
Account = User × Organization × OrganizationMembership

abbrev pub new_user : Environment → String → String → User
new_user env email display_name = record {
  id = env.uuid 0;
  email = email;
  display_name = display_name;
  status = AccountStatus.active;
  created_at = env.now;
  updated_at = env.now;
  last_login_at = none;
}

-- `slug or organization_name`
abbrev slug_source : Option String → String → String
slug_source none organization_name = organization_name
slug_source (some slug) organization_name = if text_eq slug "" then organization_name else slug

abbrev new_organization : Environment → String → String → Option String → Organization
new_organization env organization_name timezone_name slug = record {
  id = env.uuid 1;
  name = strip organization_name;
  slug = slugify env.token (slug_source slug organization_name);
  status = AccountStatus.active;
  timezone = if text_eq timezone_name "" then "UTC" else timezone_name;
  created_at = env.now;
  updated_at = env.now;
  version = 1;
}

abbrev pub owner_membership : Environment → OrganizationMembership
owner_membership env = record {
  id = env.uuid 2;
  organization_id = env.uuid 1;
  user_id = env.uuid 0;
  role = OrganizationRole.owner;
  approval_permission_enabled = false;
  status = AccountStatus.active;
  invited_by_user_id = none;
  joined_at = some env.now;
  created_at = env.now;
  updated_at = env.now;
}

-- a new user with a password, under the id and under the email address
abbrev pub add_user : Environment → User → String → AuthStore → AuthStore
add_user env user password store = record store {
  users_by_id = put ◌==◌ user.id user store.users_by_id;
  users_by_email = put text_eq user.email user store.users_by_email;
  password_hashes = put ◌==◌ user.id (env.hash_password password) store.password_hashes;
}

-- without a database nothing after the writes raises, so nothing is removed again
unfoldable pub register_owner :
    Environment
    → String
    → String
    → String
    → String
    → String
    → Option String
    → AuthStore
    → Outcome Account
unfolding normalize_email put slugify lookup record_activity
register_owner env email display_name password organization_name timezone_name slug store =
    let normalized = normalize_email email in
    if is_some (lookup text_eq normalized store.users_by_email)
    then (refused 409 "Email already registered.", store)
    else let user = new_user env normalized (strip display_name) in
      let organization = new_organization env organization_name timezone_name slug in
      let membership = owner_membership env in
      let written = add_user env user password store in
      let stored = record written {
        organizations = put ◌==◌ organization.id organization written.organizations;
        memberships = put ◌==◌ membership.id membership written.memberships;
      } in
      let registered =
        record_activity env 3 organization.id "user_registered" (some user.id)
          (field "email" (Value.text user.email) end) stored in
      (
        returned (user, organization, membership),
        record_activity env 4 organization.id "workspace_created" (some user.id)
            (field "name" (Value.text organization.name) end) registered,
      )

abbrev is_in_organization : Option ℕ → OrganizationMembership → Bool
is_in_organization none item = true
is_in_organization (some organization_id) item = item.organization_id == organization_id

-- the first membership of the user, which has to be active
unfoldable pub membership_for_user : ℕ → Option ℕ → AuthStore → Answer OrganizationMembership
membership_for_user user_id organization_id store =
    elim (first
      (λ (item : OrganizationMembership).
        item.user_id == user_id && is_in_organization organization_id item)
      (values store.memberships)) [
        | none ↦ refused 403 "Workspace membership is not active."
        | some membership ↦
            if same_account_status membership.status AccountStatus.active
            then returned membership
            else refused 403 "Workspace membership is not active."
      ]

-- `self.organizations[id]`; a missing key raises KeyError, which the server answers with 500
abbrev pub organization_of : ℕ → AuthStore → Answer Organization
organization_of id store = elim (lookup ◌==◌ id store.organizations) [
  | none ↦ refused 500 "Internal Server Error"
  | some organization ↦ returned organization
]

-- f"{normalize_email(email)}:{remote_addr}"
abbrev pub failure_key : String → String → String
failure_key email remote_addr = append (normalize_email email) (append ":" remote_addr)

-- the failures of the window; `item > now - window` is written without a subtraction
abbrev pub recent_failures : Environment → String → AuthStore → List ℕ
recent_failures env key store =
    keep_if (λ (item : ℕ). ltb env.now (item + env.login_rate_limit_window_seconds))
      (get_or_else (lookup text_eq key store.login_failures) [])

abbrev pub with_failures : String → List ℕ → AuthStore → AuthStore
with_failures key failures store = record store {
  login_failures = put text_eq key failures store.login_failures;
}

-- the known user whose password is right
abbrev pub verified_user : Environment → String → String → AuthStore → Option User
verified_user env email password store =
    elim (lookup text_eq (normalize_email email) store.users_by_email) [
      | none ↦ none
      | some user ↦
          if env.verify_password password
            (get_or_else (lookup ◌==◌ user.id store.password_hashes) "")
          then some user
          else none
    ]

-- a call without a state change of its own
abbrev pub answer_in {ℓ} : {A : Type ℓ} → Answer A → AuthStore → Outcome A
answer_in answer store = (answer, store)

-- the failure is kept in any case; a known user's is also an event of the user's organization
abbrev pub refuse_login : Environment → String → AuthStore → Outcome Account
refuse_login env email store = elim (lookup text_eq (normalize_email email) store.users_by_email) [
  | none ↦ (refused 401 "Invalid email or password.", store)
  | some user ↦ after (answer_in (membership_for_user user.id none store) store) (λ membership s. (
    refused 401 "Invalid email or password.",
    record_activity env 0 membership.organization_id "login_failed" (some user.id) end s,
  ))
]

abbrev pub admit : Environment → User → AuthStore → Outcome Account
admit env user store =
    if not (same_account_status user.status AccountStatus.active)
    then (refused 403 "Account is disabled.", store)
    else after (answer_in (membership_for_user user.id none store) store) (λ membership s.
      after (answer_in (organization_of membership.organization_id s) s) (λ organization t.
        let updated = record user { last_login_at = some env.now; updated_at = env.now } in
        let stored = record t {
          users_by_id = put ◌==◌ updated.id updated t.users_by_id;
          users_by_email = put text_eq updated.email updated t.users_by_email;
        } in
        (
          returned (updated, organization, membership),
          record_activity env 0 organization.id "login_succeeded" (some updated.id) end stored,
        )))

unfoldable pub authenticate : Environment → String → String → String → AuthStore → Outcome Account
unfolding normalize_email lookup put record_activity membership_for_user
authenticate env email password remote_addr store =
    let key = failure_key email remote_addr in
    let failures = recent_failures env key store in
    let pruned = with_failures key failures store in
    if leb env.login_rate_limit_attempts (length failures)
    then (refused 429 "Too many login attempts. Try again later.", pruned)
    else elim (verified_user env email password pruned) [
      | none ↦ refuse_login env email (with_failures key (failures ++ env.now ∷ []) pruned)
      | some user ↦ admit env user pruned
    ]

unfoldable pub principal_for_user : ℕ → Option String → Option ℕ → AuthStore → Answer Principal
unfolding lookup membership_for_user make_principal
principal_for_user user_id csrf_token organization_id store =
    elim (lookup ◌==◌ user_id store.users_by_id) [
      | none ↦ refused 401 "Authentication required."
      | some user ↦
          if not (same_account_status user.status AccountStatus.active)
          then refused 401 "Authentication required."
          else elim (membership_for_user user.id organization_id store) [
            | refused status detail ↦ refused status detail
            | returned membership ↦ elim (organization_of membership.organization_id store) [
              | refused status detail ↦ refused status detail
              | returned organization ↦
                  returned
                    (make_principal (some user) organization membership true false csrf_token)
            ]
          ]
    ]
