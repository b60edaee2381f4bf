-- ===== src/Accounts/Login/Limits.antt =====
-- app/auth.py: the failed logins that the store keeps, and what a login has checked.
use ghost_busters.Prelude.{
  ℕ, ◌+◌, ◌<◌, ◌≡◌, ◌∙◌, ap, true, String, none, some, List, [], ◌∷◌, ◌++◌, ◌==◌, arith, inl, inr,
  Bool-cases, Option-cases, leb, ltb, length, length-append, all, get_or_else, if◌then◌else◌, ◌&&◌,
  first, first-holds,
}
use ghost_busters.Prelude.Text.{◌==◌ as text_eq}
use ghost_busters.Prelude.Table.{lookup, values}
use ghost_busters.Prelude.Table.Keys.{length-keep_if, all-put, all-lookup}
use ghost_busters.Accounts.Entities.{
  AccountStatus, User, OrganizationMembership, AuthStore, Environment, returned,
  same_account_status,
}
use ghost_busters.Accounts.Names.{normalize_email}
use ghost_busters.Accounts.Activity.{record_activity, record_activity_with}
use ghost_busters.Accounts.Login.{
  Account, authenticate, recent_failures, failure_key, verified_user, with_failures,
  membership_for_user, refuse_login, admit, organization_of,
}

-- No address has more than `n` failures on record.
abbrev pub IsLimited : ℕ → AuthStore → Type 0
IsLimited n store =
    all (λ (failures : List ℕ). leb (length failures) n) (values store.login_failures) ≡ true

recent-bound :
    (env : Environment) (key : String) (n : ℕ) (store : AuthStore)
    → IsLimited n store
    → leb (length (recent_failures env key store)) n ≡ true
recent-bound env key n store h = elim (Option-cases (lookup text_eq key store.login_failures)) [
  | inl absent ↦ rw absent (ground arith)
  | inr (failures, there) ↦
      let bound =
        all-lookup text_eq (λ (failures : List ℕ). leb (length failures) n) key failures
          store.login_failures h there in
      let kept =
        length-keep_if (λ (item : ℕ). ltb env.now (item + env.login_rate_limit_window_seconds))
          failures in
      rw there (ground (arith, bound, kept))
]

refuse_login-failures :
    (env : Environment) (email : String) (store : AuthStore)
    → (refuse_login env email store).1.login_failures ≡ store.login_failures
unfolding record_activity record_activity_with
refuse_login-failures env email store = ground arith

admit-failures :
    (env : Environment) (user : User) (store : AuthStore)
    → (admit env user store).1.login_failures ≡ store.login_failures
unfolding record_activity record_activity_with
admit-failures env user store = ground arith

-- The failures on record stay within the limit on attempts: if no address has more failures on record
-- than the limit allows, then none has after a login attempt, whatever its outcome.
pub authenticate-IsLimited :
    (env : Environment) (email password remote_addr : String) (store : AuthStore)
    → IsLimited env.login_rate_limit_attempts store
    → IsLimited env.login_rate_limit_attempts (authenticate env email password remote_addr store).1
unfolding authenticate
authenticate-IsLimited env email password remote_addr store h =
    let key = failure_key email remote_addr in
    let failures = recent_failures env key store in
    let n = env.login_rate_limit_attempts in
    let p = λ (failures : List ℕ). leb (length failures) n in
    let pruned = with_failures key failures store in
    let within =
      all-put text_eq p key failures store.login_failures h (recent-bound env key n store h) in
    elim (Bool-cases (leb n (length failures))) [
      | inl full ↦ rw (full, authenticate) within
      | inr room ↦ elim (Option-cases (verified_user env email password pruned)) [
        | inr (user, verified) ↦
            rw (room, verified, authenticate, admit-failures env user pruned) within
        | inl wrong ↦
            let one_more : leb (length (failures ++ env.now ∷ [])) n ≡ true =
              ground (arith, length-append failures (env.now ∷ []), room) in
            rw (room, wrong, authenticate, refuse_login-failures env email _)
              (all-put text_eq p key (failures ++ env.now ∷ []) pruned.login_failures within
                one_more)
      ]
    ]

-- What an admitted login has checked of the user.
pub record IsAdmitted (env : Environment) (email password : String) (store : AuthStore)
    (account : Account) : Type 0 where
  pub user : User
  pub known : lookup text_eq (normalize_email email) store.users_by_email ≡ some user
  pub right_password :
      env.verify_password password (get_or_else (lookup ◌==◌ user.id store.password_hashes) "")
      ≡ true
  pub active : same_account_status user.status AccountStatus.active ≡ true
  pub same_user : account.0.id ≡ user.id
  pub active_member : same_account_status account.2.status AccountStatus.active ≡ true
  pub own_member : (account.2.user_id == user.id) ≡ true
  pub first_member :
      first
        (λ (item : OrganizationMembership). item.user_id == user.id && true)
        (values store.memberships)
      ≡ some account.2
  pub organization : organization_of account.2.organization_id store ≡ returned account.1

admit-membership :
    (env : Environment) (user : User) (store : AuthStore) (account : Account)
    → (admit env user store).0 ≡ returned account
    → (same_account_status user.status AccountStatus.active ≡ true)
      × (account.0.id ≡ user.id)
      × (membership_for_user user.id none store ≡ returned account.2)
      × (organization_of account.2.organization_id store ≡ returned account.1)
admit-membership env user store account h = ground arith

-- The membership that a login finds is the user's first one, and active.
membership_for_user_lem :
    (id : ℕ) (store : AuthStore) (m : OrganizationMembership)
    → membership_for_user id none store ≡ returned m
    → (first
          (λ (item : OrganizationMembership). item.user_id == id && true)
          (values store.memberships)
        ≡ some m)
      × (same_account_status m.status AccountStatus.active ≡ true)
      × ((m.user_id == id) ≡ true)
unfolding membership_for_user
membership_for_user_lem id store m h =
    let own = λ (item : OrganizationMembership). item.user_id == id && true in
    elim (Option-cases (first own (values store.memberships))) [
      | inl absent ↦ cc (rw (absent, membership_for_user) at h)
      | inr (found, there) ↦
          elim (Bool-cases (same_account_status found.status AccountStatus.active)) [
            | inr other ↦ cc (rw (there, other, membership_for_user) at h)
            | inl active ↦
                let one : found ≡ m =
                  ground (arith, rw (there, active, membership_for_user) at h) in
                let holds = first-holds own found (values store.memberships) there in
                (there ∙ ap some one, rw (← one) active, rw (← one) (ground (arith, holds)))
          ]
    ]

verified_lem :
    (env : Environment) (email password : String) (store : AuthStore) (user : User)
    → verified_user env email password store ≡ some user
    → (lookup text_eq (normalize_email email) store.users_by_email ≡ some user)
      × (env.verify_password password (get_or_else (lookup ◌==◌ user.id store.password_hashes) "")
          ≡ true)
verified_lem env email password store user h =
    elim (Option-cases (lookup text_eq (normalize_email email) store.users_by_email)) [
      | inl absent ↦ cc (rw (absent, verified_user) at h)
      | inr (found, there) ↦
          let e = rw (there, verified_user) at h in
          let pass = found_password found e in (there ∙ ap some pass.0, rw (← pass.0) pass.1)
    ]
  where
    found_password :
        (found : User)
        → (if env.verify_password password
              (get_or_else (lookup ◌==◌ found.id store.password_hashes) "")
            then some found
            else none)
          ≡ some user
        → (found ≡ user)
          × (env.verify_password password
                (get_or_else (lookup ◌==◌ found.id store.password_hashes) "")
              ≡ true)
    found_password found e = ground arith

-- A login is admitted only with fewer recent failures of the address than the limit, for a known and
-- active user whose stored hash verifies the password, with the first membership of that user, which is
-- active, and its organization.
pub authenticate_sound :
    (env : Environment) (email password remote_addr : String) (store : AuthStore)
    (account : Account)
    → (authenticate env email password remote_addr store).0 ≡ returned account
    → (length (recent_failures env (failure_key email remote_addr) store)
        < env.login_rate_limit_attempts)
      × IsAdmitted env email password store account
unfolding authenticate
authenticate_sound env email password remote_addr store account h =
    let key = failure_key email remote_addr in
    let failures = recent_failures env key store in
    let pruned = with_failures key failures store in
    elim (Bool-cases (leb env.login_rate_limit_attempts (length failures))) [
      | inl full ↦ cc (rw (full, authenticate) at h)
      | inr room ↦ elim (Option-cases (verified_user env email password pruned)) [
        | inl wrong ↦ absurd (ground (arith, rw (room, wrong, authenticate) at h))
        | inr (user, verified) ↦
            let checked = verified_lem env email password pruned user verified in
            let within =
              admit-membership env user pruned account (rw (room, verified, authenticate) at h) in
            let found = membership_for_user_lem user.id pruned account.2 within.2 in
            (
              ground (arith, room),
              record {
                user = user;
                known = checked.0;
                right_password = checked.1;
                active = within.0;
                same_user = within.1;
                first_member = found.0;
                active_member = found.1;
                own_member = found.2;
                organization = within.3;
              },
            )
      ]
    ]
