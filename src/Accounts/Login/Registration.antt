-- ===== src/Accounts/Login/Registration.antt =====
-- app/auth.py: a registration followed by a login.
use ghost_busters.Prelude.{
  ℕ, ◌<◌, ◌≡◌, refl, true, false, ◌&&◌, String, Option, none, some, ◌==◌, ==_refl, arith, inl, inr,
  Option-cases, leb, length, first, get_or_else,
}
use ghost_busters.Prelude.Text.{◌==◌ as text_eq, eq_refl}
use ghost_busters.Prelude.Table.{lookup, put, values, lookup-put_same}
use ghost_busters.Prelude.Table.Keys.{lookup-put_written, first-put_new}
use ghost_busters.Accounts.Entities.{
  AccountStatus, User, Organization, OrganizationMembership, AuthStore, Environment, returned,
  same_account_status,
}
use ghost_busters.Accounts.Names.{normalize_email}
use ghost_busters.Accounts.Activity.{record_activity, record_activity_with}
use ghost_busters.Accounts.Login.{
  Account, authenticate, register_owner, recent_failures, failure_key, membership_for_user,
  organization_of, owner_membership,
}

admitted_lem :
    (env : Environment) (email password remote_addr : String) (store : AuthStore) (user : User)
    (organization : Organization) (membership : OrganizationMembership)
    → leb env.login_rate_limit_attempts
        (length (recent_failures env (failure_key email remote_addr) store))
      ≡ false
    → lookup text_eq (normalize_email email) store.users_by_email ≡ some user
    → env.verify_password password (get_or_else (lookup ◌==◌ user.id store.password_hashes) "")
      ≡ true
    → same_account_status user.status AccountStatus.active ≡ true
    → membership_for_user user.id none store ≡ returned membership
    → organization_of membership.organization_id store ≡ returned organization
    → (authenticate env email password remote_addr store).0
      ≡ returned (
        record user { last_login_at = some env.now; updated_at = env.now },
        organization,
        membership,
      )
unfolding authenticate membership_for_user
admitted_lem env email password remote_addr store user organization membership room known right
      active member found =
    rw (room, known, right, active, authenticate) (ground (arith, member, found))

-- The store of a registration whose address is new.
registered_lem :
    (env : Environment) (email name password organization zone : String) (slug : Option String)
    (store : AuthStore) (account : Account)
    → (register_owner env email name password organization zone slug store).0 ≡ returned account
    → (lookup text_eq (normalize_email email) store.users_by_email ≡ none)
      × (account.0.id ≡ env.uuid 0)
      × (account.0.status ≡ AccountStatus.active)
      × (account.1.id ≡ env.uuid 1)
      × (account.2 ≡ owner_membership env)
      × ((register_owner env email name password organization zone slug store).1.users_by_email
          ≡ put text_eq (normalize_email email) account.0 store.users_by_email)
      × ((register_owner env email name password organization zone slug store).1.password_hashes
          ≡ put ◌==◌ (env.uuid 0) (env.hash_password password) store.password_hashes)
      × ((register_owner env email name password organization zone slug store).1.organizations
          ≡ put ◌==◌ (env.uuid 1) account.1 store.organizations)
      × ((register_owner env email name password organization zone slug store).1.login_failures
          ≡ store.login_failures)
      × ((register_owner env email name password organization zone slug store).1.memberships
          ≡ put ◌==◌ (env.uuid 2) (owner_membership env) store.memberships)
unfolding register_owner record_activity record_activity_with
registered_lem env email name password organization zone slug store account h =
    elim (Option-cases (lookup text_eq (normalize_email email) store.users_by_email)) [
      | inr (user, known) ↦ absurd (ground (arith, rw (known, register_owner) at h))
      | inl new ↦
          let made = rw (new, register_owner) at h in
          rw (new, register_owner) (ground (arith, made))
    ]

membership_for_user_lem :
    (user_id : ℕ) (m : OrganizationMembership) (store : AuthStore)
    → first
        (λ (item : OrganizationMembership). item.user_id == user_id && true)
        (values store.memberships)
      ≡ some m
    → same_account_status m.status AccountStatus.active ≡ true
    → membership_for_user user_id none store ≡ returned m
unfolding membership_for_user
membership_for_user_lem user_id m store found active = rw (found, active, membership_for_user) refl

organization_of_lem :
    (id : ℕ) (organization : Organization) (store : AuthStore)
    → lookup ◌==◌ id store.organizations ≡ some organization
    → organization_of id store ≡ returned organization
organization_of_lem id organization store found = rw (found, organization_of) refl

-- Who has registered can log in: after a registration that succeeds, a login with the same address and
-- password answers with the registered user, organization and Owner's membership, where the hash
-- verifies its password, the address has fewer recent failures than the limit, the membership's id is
-- not in use, and no membership is the new user's.
pub register_owner-authenticate :
    (env later : Environment) (email name password organization zone remote_addr : String)
    (slug : Option String) (store : AuthStore) (account : Account)
    → (register_owner env email name password organization zone slug store).0 ≡ returned account
    → later.verify_password password (env.hash_password password) ≡ true
    → length (recent_failures later (failure_key email remote_addr) store)
      < later.login_rate_limit_attempts
    → lookup ◌==◌ (env.uuid 2) store.memberships ≡ none
    → first
        (λ (item : OrganizationMembership). item.user_id == env.uuid 0 && true)
        (values store.memberships)
      ≡ none
    → (authenticate later email password remote_addr
        (register_owner env email name password organization zone slug store).1).0
      ≡ returned (
        record account.0 { last_login_at = some later.now; updated_at = later.now },
        account.1,
        account.2,
      )
register_owner-authenticate env later email name password organization zone remote_addr slug store
      account h verifies room free unused =
    let made = registered_lem env email name password organization zone slug store account h in
    let (new, user, active, org, member, emails, hashes, orgs, failures, members) = made in
    let s = (register_owner env email name password organization zone slug store).1 in
    let known : lookup text_eq (normalize_email email) s.users_by_email ≡ some account.0 =
      rw emails (lookup-put_written text_eq (normalize_email email) account.0 _ (eq_refl _)) in
    let hash : lookup ◌==◌ account.0.id s.password_hashes ≡ some (env.hash_password password) =
      rw (hashes, user) (lookup-put_same (env.uuid 0) _ store.password_hashes) in
    let first_member =
      first-put_new ◌==◌ (λ (item : OrganizationMembership). item.user_id == env.uuid 0 && true)
        (env.uuid 2) (owner_membership env) store.memberships free unused
        (ground (arith, ==_refl (env.uuid 0))) in
    let of_owner : membership_for_user (env.uuid 0) none s ≡ returned (owner_membership env) =
      membership_for_user_lem (env.uuid 0) (owner_membership env) s (rw members first_member)
        refl in
    let joined : membership_for_user account.0.id none s ≡ returned account.2 =
      rw (user, member) of_owner in
    let stored : lookup ◌==◌ (env.uuid 1) s.organizations ≡ some account.1 =
      rw orgs (lookup-put_same (env.uuid 1) account.1 store.organizations) in
    let org_found : organization_of account.2.organization_id s ≡ returned account.1 =
      rw member (organization_of_lem (env.uuid 1) account.1 s stored) in
    admitted_lem later email password remote_addr s account.0 account.1 account.2
      (rw failures (ground (arith, room))) known (rw hash verifies) (rw active refl) joined
      org_found
