-- ===== src/Tests/Accounts.antt =====
-- The theorems on accounts and sessions, applied to a store of two organizations.
use ghost_busters.Prelude.{
  ◌&&◌, ◌||◌, not, ◌≡◌, ◌≢◌, ◌≤◌, ◌<◌, refl, true, false, none, some, [], ◌==◌, arith, length,
}
use ghost_busters.Prelude.Text.{◌==◌ as text_eq, lower}
use ghost_busters.Prelude.Strip.{strip}
use ghost_busters.Prelude.Table.{lookup}
use ghost_busters.Model.{OrganizationRole}
use ghost_busters.Accounts.Entities.{Answer, refused, returned}
use ghost_busters.Accounts.Names.{normalize_email}
use ghost_busters.Accounts.Permissions.{Principal}
use ghost_busters.Accounts.Login.{
  Account, register_owner, authenticate, recent_failures, failure_key,
}
use ghost_busters.Accounts.Login.Limits.{
  IsLimited, IsAdmitted, authenticate-IsLimited, authenticate_sound,
}
use ghost_busters.Accounts.Login.Registration.{register_owner-authenticate}
use ghost_busters.Accounts.Members.{active_owner_count}
use ghost_busters.Accounts.Members.Owners.{IsKeyed}
use ghost_busters.Accounts.Sessions.{
  Session, create, get, revoke, login, NewSession, Request, DemoSettings, principal_dependency,
}
use ghost_busters.Accounts.Sessions.Roundtrip.{create-get, login-principal_dependency}
use ghost_busters.Accounts.Commands.{Command, apply, go, stop, call}
use ghost_busters.Accounts.Commands.Effects.{reviser, apply-lookup_foreign}
use ghost_busters.Accounts.Commands.Ownership.{calls_keep_owner}
use ghost_busters.Accounts.Commands.Settled.{IsOrdered, calls_keep_settled}
use ghost_busters.Accounts.Commands.Authority.{
  has_owner_at, is_registration, is_owner, IsInvitable, apply-owner_authority,
}
use ghost_busters.Tests.Organizations.{
  env, ann, member, accepted_invitation, store, empty_store, principal, store-IsKeyed,
  store-IsFresh,
}

-- the owner of the first organization disables herself, which is refused
abbrev disable_ann : Command
disable_ann = Command.disable (principal (member 12 11 10 OrganizationRole.owner)) 12

abbrev promote : Command
promote =
    Command.change (principal (member 13 11 20 OrganizationRole.admin)) 13 OrganizationRole.reviewer
      none

abbrev disable_foreign : Command
disable_foreign = Command.disable (principal (member 32 31 30 OrganizationRole.owner)) 12

has_owner : 1 ≤ active_owner_count 11 store
has_owner = omega arith

calls_keep_owner_example :
    IsKeyed (apply env disable_ann store)
    × (1 ≤ active_owner_count 11 (apply env disable_ann store))
calls_keep_owner_example =
    calls_keep_owner 11 store-IsKeyed has_owner (go stop (call env disable_ann store-IsFresh))

ann_stored : lookup ◌==◌ 12 store.memberships ≡ some (member 12 11 10 OrganizationRole.owner)
unfolding lookup
ann_stored = refl

apart :
    (p : Principal)
    → some (principal (member 32 31 30 OrganizationRole.owner)) ≡ some p
    → 11 ≢ p.organization.id
apart p e = λ same. ground arith

apply-lookup_foreign_example :
    lookup ◌==◌ 12 (apply env disable_foreign store).memberships
    ≡ some (member 12 11 10 OrganizationRole.owner)
apply-lookup_foreign_example =
    apply-lookup_foreign env disable_foreign store 12 (member 12 11 10 OrganizationRole.owner)
      store-IsFresh store-IsKeyed ann_stored apart

store-IsOrdered : IsOrdered store
unfolding lookup
store-IsOrdered = (refl, refl, tt)

store-IsInvitable : IsInvitable store
unfolding lookup
store-IsInvitable k i h = ground arith

apply-owner_authority_example :
    IsInvitable (apply env promote store)
    × ((has_owner_at 12 (apply env promote store).memberships
          && not (
              has_owner_at 12 store.memberships
              || is_registration promote
              || is_owner (reviser promote)))
        ≡ false)
apply-owner_authority_example =
    apply-owner_authority env promote store 12 store-IsFresh store-IsKeyed store-IsOrdered
      store-IsInvitable

abbrev try_token : Command
try_token = Command.validate_token "t0"

accepted_stored : lookup ◌==◌ 40 store.invitations ≡ some accepted_invitation
unfolding lookup
accepted_stored = refl

calls_keep_settled_example :
    IsOrdered (apply env try_token store)
    × (lookup ◌==◌ 40 (apply env try_token store).invitations ≡ some accepted_invitation)
calls_keep_settled_example =
    calls_keep_settled 40 accepted_invitation store-IsOrdered accepted_stored refl
      (go stop (call env try_token store-IsFresh))

authenticate-IsLimited_example :
    IsLimited 2 (authenticate env "ann@acme.org" "wrong" "10.0.0.1" store).1
authenticate-IsLimited_example =
    authenticate-IsLimited env "ann@acme.org" "wrong" "10.0.0.1" store refl

-- the value of an answer
abbrev answer_of {ℓ} : {A : Type ℓ} → Answer A → A → A
answer_of (refused status detail) other = other
answer_of (returned a) other = a

abbrev some_account : Account
some_account = (
  ann,
  (principal (member 12 11 10 OrganizationRole.owner)).organization,
  member 12 11 10 OrganizationRole.owner,
)

abbrev registered : Account
registered =
    answer_of (register_owner env "ann@acme.org" "Ann" "secret" "Acme" "UTC" none empty_store).0
      some_account

registers :
    (register_owner env "ann@acme.org" "Ann" "secret" "Acme" "UTC" none empty_store).0
    ≡ returned registered
unfolding register_owner lookup
registers = refl

abbrev logged_in : Account
logged_in = answer_of (authenticate env "ann@acme.org" "secret" "10.0.0.1" store).0 some_account

authenticates : (authenticate env "ann@acme.org" "secret" "10.0.0.1" store).0 ≡ returned logged_in
unfolding authenticate lookup normalize_email strip lower
authenticates = refl

authenticate_sound_example :
    (length (recent_failures env (failure_key "ann@acme.org" "10.0.0.1") store) < 2)
    × IsAdmitted env "ann@acme.org" "secret" store logged_in
authenticate_sound_example =
    authenticate_sound env "ann@acme.org" "secret" "10.0.0.1" store logged_in authenticates

no_failures : length (recent_failures env (failure_key "ann@acme.org" "10.0.0.1") empty_store) < 2
unfolding lookup
no_failures = omega arith

none_stored : lookup ◌==◌ 102 empty_store.memberships ≡ none
unfolding lookup
none_stored = refl

register_owner-authenticate_example :
    (authenticate env "ann@acme.org" "secret" "10.0.0.1"
      (register_owner env "ann@acme.org" "Ann" "secret" "Acme" "UTC" none empty_store).1).0
    ≡ returned (
      record registered.0 { last_login_at = some 1000; updated_at = 1000 },
      registered.1,
      registered.2,
    )
register_owner-authenticate_example =
    register_owner-authenticate env env "ann@acme.org" "Ann" "secret" "Acme" "UTC" "10.0.0.1" none
      empty_store registered registers refl no_failures none_stored refl

no_session : lookup {A = Session} text_eq "s1" [] ≡ none
unfolding lookup
no_session = refl

create-get_example :
    ((get 5 "s1" (create "s1" 10 "c1" 9 [])).0
      ≡ some (record { user_id = 10; csrf_token = "c1"; expires_at = 9 }))
    × ((get 5 "s1" (revoke "s1" (create "s1" 10 "c1" 9 []))).0 ≡ none)
create-get_example = create-get "s1" 10 "c1" 9 5 [] no_session

abbrev fresh : NewSession
fresh = record { session_id = "s1"; csrf_token = "c1"; session_ttl_seconds = 600 }

abbrev demo : DemoSettings
demo = record {
  demo_mode_enabled = false;
  auth_required = true;
  demo_user_id = 2;
  default_organization_id = 1;
}

abbrev post : Request
post = record { method = "POST"; session_cookie = some "s1"; csrf_header = some "c1" }

abbrev signed_in : Principal
signed_in =
    answer_of (login env fresh "ann@acme.org" "secret" "10.0.0.1" store []).0.0
      (principal (member 12 11 10 OrganizationRole.owner))

logs_in : (login env fresh "ann@acme.org" "secret" "10.0.0.1" store []).0.0 ≡ returned signed_in
unfolding login authenticate lookup normalize_email strip lower
logs_in = refl

login-principal_dependency_example :
    principal_dependency 1500 demo post
      (login env fresh "ann@acme.org" "secret" "10.0.0.1" store []).0.1
      (login env fresh "ann@acme.org" "secret" "10.0.0.1" store []).1
    ≡ (returned signed_in, (login env fresh "ann@acme.org" "secret" "10.0.0.1" store []).1)
login-principal_dependency_example =
    login-principal_dependency env fresh "ann@acme.org" "secret" "10.0.0.1" store [] signed_in 1500
      demo post logs_in refl refl (omega arith) refl
