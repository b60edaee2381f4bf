-- ===== src/Accounts/Sessions/Roundtrip.antt =====
-- app/auth.py and app/main.py: a login followed by requests with its session, and its end.
use ghost_busters.Prelude.{
  ℕ, ◌+◌, ◌<◌, ◌≡◌, refl, Bool, true, false, ◌||◌, String, Option, none, some, arith, leb,
  if◌then◌else◌,
}
use ghost_busters.Prelude.Text.{◌==◌ as text_eq, eq_refl, mem}
use ghost_busters.Prelude.Table.{lookup}
use ghost_busters.Prelude.Table.Keys.{lookup-put_written, lookup-drop_new}
use ghost_busters.Accounts.Entities.{AuthStore, Environment, Answer, refused, returned, User}
use ghost_busters.Accounts.Permissions.{Principal, make_principal}
use ghost_busters.Accounts.Login.{Account, authenticate, principal_for_user}
use ghost_busters.Accounts.Sessions.{
  Session, SessionStore, create, get, revoke, Request, DemoSettings, NewSession, login,
  current_principal, csrf_protect, principal_dependency, opened, safe_methods, tokens_agree,
}

-- A session that was created is found under its id while it lasts, with its user and token, and no
-- longer at its end or after it has been revoked, where its id was not in use before.
pub create-get :
    (session_id : String) (user_id : ℕ) (csrf_token : String) (expires_at now : ℕ)
    (sessions : SessionStore)
    → lookup text_eq session_id sessions ≡ none
    → ((get now session_id (create session_id user_id csrf_token expires_at sessions)).0 ≡ (
        if leb expires_at now
        then none
        else some (record { user_id = user_id; csrf_token = csrf_token; expires_at = expires_at })))
      × ((get now session_id
            (revoke session_id (create session_id user_id csrf_token expires_at sessions))).0
          ≡ none)
unfolding create get revoke
create-get session_id user_id csrf_token expires_at now sessions free =
    let session : Session = record {
      user_id = user_id;
      csrf_token = csrf_token;
      expires_at = expires_at;
    } in
    let found = lookup-put_written text_eq session_id session sessions (eq_refl session_id) in
    let gone = lookup-drop_new text_eq session_id session sessions free (eq_refl session_id) in
    (rw (found, get, create) (ground arith), rw (gone, get, revoke, create) refl)

-- The account that a successful login has authenticated, and the session that it opens.
login-opened :
    (env : Environment) (fresh : NewSession) (email password remote_addr : String)
    (store : AuthStore) (sessions : SessionStore) (p : Principal)
    → (login env fresh email password remote_addr store sessions).0.0 ≡ returned p
    → (account : Account) × ((login env fresh email password remote_addr store sessions).1
        ≡ opened env fresh account.0 sessions)
      × (principal_for_user account.0.id
            (some fresh.csrf_token)
            none
            (login env fresh email password remote_addr store sessions).0.1
          ≡ returned p)
unfolding login
login-opened env fresh email password remote_addr store sessions p h =
    by_answer (authenticate env email password remote_addr store).0 refl
  where
    by_answer :
        (answer : Answer Account)
        → (authenticate env email password remote_addr store).0 ≡ answer
        → (account : Account) × ((login env fresh email password remote_addr store sessions).1
            ≡ opened env fresh account.0 sessions)
          × (principal_for_user account.0.id
                (some fresh.csrf_token)
                none
                (login env fresh email password remote_addr store sessions).0.1
              ≡ returned p)
    by_answer (refused status detail) e = absurd (ground (arith, rw (e, login) at h))
    by_answer (returned account) e =
        (account, rw (e, login) refl, rw (e, login) (rw (e, login) at h))

principal-csrf :
    (user_id : ℕ) (token : String) (organization : Option ℕ) (store : AuthStore) (p : Principal)
    → principal_for_user user_id (some token) organization store ≡ returned p
    → (p.csrf_token ≡ some token) × (p.authenticated ≡ true)
unfolding principal_for_user make_principal
principal-csrf user_id token organization store p h = ground arith

-- The principal of a request whose cookie names a stored session.
guarded :
    (now : ℕ) (demo : DemoSettings) (request : Request) (store : AuthStore)
    (sessions : SessionStore) (session_id : String) (session : Session) (p : Principal)
    → request.session_cookie ≡ some session_id
    → text_eq session_id "" ≡ false
    → get now session_id sessions ≡ (some session, sessions)
    → principal_for_user session.user_id (some session.csrf_token) none store ≡ returned p
    → current_principal now demo request store sessions ≡ (returned p, sessions)
unfolding current_principal
guarded now demo request store sessions session_id session p cookie filled found principal =
    rw (cookie, filled, found, principal, current_principal) refl

opened-get :
    (env : Environment) (fresh : NewSession) (user : User) (sessions : SessionStore) (now : ℕ)
    → now < env.now + fresh.session_ttl_seconds
    → get now fresh.session_id (opened env fresh user sessions) ≡ (
      some (record {
        user_id = user.id;
        csrf_token = fresh.csrf_token;
        expires_at = env.now + fresh.session_ttl_seconds;
      }),
      opened env fresh user sessions,
    )
unfolding create get
opened-get env fresh user sessions now live =
    let session : Session = record {
      user_id = user.id;
      csrf_token = fresh.csrf_token;
      expires_at = env.now + fresh.session_ttl_seconds;
    } in
    let stored =
      lookup-put_written text_eq fresh.session_id session sessions (eq_refl fresh.session_id) in
    rw (stored, get, create) (ground (arith, live))

csrf_protect_lem :
    (request : Request) (p : Principal) (token : String)
    → p.csrf_token ≡ some token
    → p.authenticated ≡ true
    → csrf_protect request p ≡ (
        if mem request.method safe_methods || tokens_agree (some token) request.csrf_header
        then returned tt
        else refused 403 "CSRF token is missing or invalid.")
unfolding csrf_protect
csrf_protect_lem request p token e authenticated =
    rw (e, authenticated, csrf_protect) (ground arith)

dependency_lem :
    (now : ℕ) (demo : DemoSettings) (request : Request) (store : AuthStore)
    (sessions : SessionStore) (p : Principal) (passes : Bool)
    → current_principal now demo request store sessions ≡ (returned p, sessions)
    → csrf_protect request p
      ≡ (if passes then returned tt else refused 403 "CSRF token is missing or invalid.")
    → principal_dependency now demo request store sessions
      ≡ ((if passes then returned p else refused 403 "CSRF token is missing or invalid."), sessions)
unfolding principal_dependency
dependency_lem now demo request store sessions p true e f = rw (e, f, principal_dependency) refl
dependency_lem now demo request store sessions p false e f = rw (e, f, principal_dependency) refl

-- After a login that answers with a principal, a request with the session's cookie, while the session
-- lasts, has that same principal if its method is safe or its header agrees with the session's token,
-- and is refused with 403 otherwise; the session is kept in both cases. The session's id and token are
-- not empty.
pub login-principal_dependency :
    (env : Environment) (fresh : NewSession) (email password remote_addr : String)
    (store : AuthStore) (sessions : SessionStore) (p : Principal) (now : ℕ) (demo : DemoSettings)
    (request : Request)
    → (login env fresh email password remote_addr store sessions).0.0 ≡ returned p
    → text_eq fresh.session_id "" ≡ false
    → text_eq fresh.csrf_token "" ≡ false
    → now < env.now + fresh.session_ttl_seconds
    → request.session_cookie ≡ some fresh.session_id
    → principal_dependency now demo request
        (login env fresh email password remote_addr store sessions).0.1
        (login env fresh email password remote_addr store sessions).1
      ≡ (
        (if mem request.method safe_methods
              || tokens_agree (some fresh.csrf_token) request.csrf_header
            then returned p
            else refused 403 "CSRF token is missing or invalid."),
        (login env fresh email password remote_addr store sessions).1,
      )
login-principal_dependency env fresh email password remote_addr store sessions p now demo request h
      sid token live cookie =
    let (account, kept, principal) =
      login-opened env fresh email password remote_addr store sessions p h in
    let s = (login env fresh email password remote_addr store sessions).0.1 in
    let current =
      guarded now demo request s (opened env fresh account.0 sessions) fresh.session_id _ p cookie
        sid (opened-get env fresh account.0 sessions now live) principal in
    let csrf = principal-csrf account.0.id fresh.csrf_token none s p principal in
    let checked = csrf_protect_lem request p fresh.csrf_token csrf.0 csrf.1 in
    rw kept
      (dependency_lem now demo request s (opened env fresh account.0 sessions) p _ current checked)
