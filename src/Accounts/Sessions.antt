-- ===== src/Accounts/Sessions.antt =====
-- app/auth.py: InMemorySessionStore and the checks on a request, and the login of app/main.py.
pub mod Roundtrip
use ghost_busters.Prelude.{
  ℕ, ◌+◌, String, Bool, true, false, not, ◌&&◌, ◌||◌, Option, none, some, List, [], ◌∷◌,
  if◌then◌else◌, ◌==◌, leb,
}
use ghost_busters.Prelude.Text.{◌==◌ as text_eq, mem}
use ghost_busters.Prelude.Json.{field, end, Value}
use ghost_busters.Prelude.Table.{Table, lookup, put, drop}
use ghost_busters.Accounts.Entities.{
  User, Organization, OrganizationMembership, AuthStore, Environment, Answer, refused, returned,
  Outcome, after,
}
use ghost_busters.Accounts.Permissions.{Principal, make_principal, actor_id}
use ghost_busters.Accounts.Activity.{record_activity}
use ghost_busters.Accounts.Login.{
  Account, authenticate, principal_for_user, membership_for_user, organization_of, answer_in,
}

pub record Session : Type 0 where
  pub user_id : ℕ
  pub csrf_token : String
  pub expires_at : ℕ

abbrev pub SessionStore : Type 0
SessionStore = Table String Session

-- InMemorySessionStore.create under the random id `session_id`
unfoldable pub create : String → ℕ → String → ℕ → SessionStore → SessionStore
unfolding put
create session_id user_id csrf_token expires_at sessions =
    put text_eq session_id
      (record { user_id = user_id; csrf_token = csrf_token; expires_at = expires_at }) sessions

-- InMemorySessionStore.get; a session that is over is forgotten
unfoldable pub get : ℕ → String → SessionStore → Option Session × SessionStore
unfolding lookup drop
get now session_id sessions = elim (lookup text_eq session_id sessions) [
  | none ↦ (none, sessions)
  | some session ↦
      if leb session.expires_at now
      then (none, drop text_eq session_id sessions)
      else (some session, sessions)
]

unfoldable pub revoke : String → SessionStore → SessionStore
unfolding drop
revoke session_id sessions = drop text_eq session_id sessions

-- What is read of a request: its method, its session cookie and its X-CSRF-Token header.
pub record Request : Type 0 where
  pub method : String
  pub session_cookie : Option String
  pub csrf_header : Option String

-- The settings of the demo mode, with the ids of its user and its organization.
pub record DemoSettings : Type 0 where
  pub demo_mode_enabled : Bool
  pub auth_required : Bool
  pub demo_user_id : ℕ
  pub default_organization_id : ℕ

unfoldable pub demo_principal : DemoSettings → AuthStore → Answer Principal
unfolding membership_for_user make_principal lookup
demo_principal demo store =
    elim (membership_for_user demo.demo_user_id (some demo.default_organization_id) store) [
      | refused status detail ↦ refused status detail
      | returned membership ↦ elim (organization_of demo.default_organization_id store) [
        | refused status detail ↦ refused status detail
        | returned organization ↦
            returned (make_principal none organization membership false true none)
      ]
    ]

abbrev without_session : DemoSettings → AuthStore → Answer Principal
without_session demo store =
    if demo.demo_mode_enabled && not demo.auth_required
    then demo_principal demo store
    else refused 401 "Authentication required."

-- a session cookie that is there and not empty
abbrev pub sent_session : ℕ → Option String → SessionStore → Option Session × SessionStore
sent_session now none sessions = (none, sessions)
sent_session now (some session_id) sessions =
    if text_eq session_id "" then (none, sessions) else get now session_id sessions

unfoldable pub current_principal :
    ℕ → DemoSettings → Request → AuthStore → SessionStore → Answer Principal × SessionStore
unfolding get demo_principal principal_for_user
current_principal now demo request store sessions =
    let found = sent_session now request.session_cookie sessions in
    (
      elim found.0 [
        | some session ↦ principal_for_user session.user_id (some session.csrf_token) none store
        | none ↦ without_session demo store
      ],
      found.1,
    )

abbrev pub safe_methods : List String
safe_methods = "GET" ∷ "HEAD" ∷ "OPTIONS" ∷ []

-- both tokens are there, not empty, and equal
abbrev pub tokens_agree : Option String → Option String → Bool
tokens_agree (some expected) (some supplied) =
    not (text_eq expected "") && not (text_eq supplied "") && text_eq expected supplied
tokens_agree _ _ = false

unfoldable pub csrf_protect : Request → Principal → Answer (Unit {0})
csrf_protect request principal =
    if not principal.authenticated || mem request.method safe_methods
    then returned tt
    else if tokens_agree principal.csrf_token request.csrf_header
    then returned tt
    else refused 403 "CSRF token is missing or invalid."

-- principal_dependency of app/main.py
unfoldable pub principal_dependency :
    ℕ → DemoSettings → Request → AuthStore → SessionStore → Answer Principal × SessionStore
principal_dependency now demo request store sessions =
    let found = current_principal now demo request store sessions in
    (
      elim found.0 [
        | refused status detail ↦ refused status detail
        | returned principal ↦ elim (csrf_protect request principal) [
          | refused status detail ↦ refused status detail
          | returned _ ↦ returned principal
        ]
      ],
      found.1,
    )

unfoldable pub require_permission :
    Environment → Principal → String → AuthStore → Outcome (Unit {0})
unfolding record_activity
require_permission env principal permission store =
    if mem permission principal.permissions then (returned tt, store) else (
      refused 403 "You do not have permission to perform this action.",
      record_activity env 0 principal.organization.id "permission_denied" (actor_id principal)
          (field "permission" (Value.text permission) end) store,
    )

-- The session of a login: its two random tokens and its lifetime.
pub record NewSession : Type 0 where
  pub session_id : String
  pub csrf_token : String
  pub session_ttl_seconds : ℕ

abbrev pub opened : Environment → NewSession → User → SessionStore → SessionStore
opened env fresh user sessions =
    create fresh.session_id user.id fresh.csrf_token (env.now + fresh.session_ttl_seconds) sessions

-- the login route of app/main.py after its rate limit; the answer is the principal of the response
unfoldable pub login :
    Environment
    → NewSession
    → String
    → String
    → String
    → AuthStore
    → SessionStore
    → (Answer Principal × AuthStore) × SessionStore
unfolding authenticate create principal_for_user
login env fresh email password remote_addr store sessions =
    let outcome = authenticate env email password remote_addr store in
    elim outcome.0 [
      | refused status detail ↦ ((refused status detail, outcome.1), sessions)
      | returned account ↦ (
        (principal_for_user account.0.id (some fresh.csrf_token) none outcome.1, outcome.1),
        opened env fresh account.0 sessions,
      )
    ]
