-- ===== src/Accounts/Commands/Frames.antt =====
-- app/auth.py: which calls leave the memberships and the invitations alone.
use ghost_busters.Prelude.{
  ℕ, ◌≡◌, refl, ◌⊎◌, is_some, String, Bool, Option, ◌==◌, arith, inl, inr, Bool-cases,
}
use ghost_busters.Prelude.Table.{lookup, put}
use ghost_busters.Model.{OrganizationRole}
use ghost_busters.Accounts.Entities.{AuthStore, Environment}
use ghost_busters.Accounts.Permissions.{Principal}
use ghost_busters.Accounts.Activity.{record_activity, record_activity_with}
use ghost_busters.Accounts.Login.{register_owner, owner_membership, authenticate}
use ghost_busters.Accounts.Names.{normalize_email}
use ghost_busters.Prelude.Text.{◌==◌ as text_eq}
use ghost_busters.Accounts.Invitations.{
  invite, validate_invitation_token, resend_invitation, cancel_invitation,
  refresh_invitation_status, scoped_invitation,
}
use ghost_busters.Accounts.Members.{update_organization}

pub register_owner-memberships :
    (env : Environment) (email name password organization place : String) (slug : Option String)
    (store : AuthStore)
    → ((register_owner env email name password organization place slug store).1.memberships
        ≡ store.memberships)
      ⊎ ((register_owner env email name password organization place slug store).1.memberships
          ≡ put ◌==◌ (env.uuid 2) (owner_membership env) store.memberships)
unfolding register_owner record_activity record_activity_with
register_owner-memberships env email name password organization place slug store =
    elim (Bool-cases (is_some (lookup text_eq (normalize_email email) store.users_by_email))) [
      | inl known ↦ inl (rw (known, register_owner) refl)
      | inr new ↦ inr (rw (new, register_owner) refl)
    ]

pub authenticate-memberships :
    (env : Environment) (email password remote_addr : String) (store : AuthStore)
    → (authenticate env email password remote_addr store).1.memberships ≡ store.memberships
unfolding authenticate record_activity record_activity_with
authenticate-memberships env email password remote_addr store = ground arith

pub invite-memberships :
    (env : Environment) (principal : Principal) (email : String) (role : OrganizationRole)
    (approval : Bool) (message : Option String) (store : AuthStore)
    → (invite env principal email role approval message store).1.memberships ≡ store.memberships
unfolding invite record_activity record_activity_with
invite-memberships env principal email role approval message store = ground arith

pub validate-memberships :
    (env : Environment) (token : String) (store : AuthStore)
    → (validate_invitation_token env token store).1.memberships ≡ store.memberships
unfolding validate_invitation_token refresh_invitation_status record_activity record_activity_with
validate-memberships env token store = ground arith

pub resend-memberships :
    (env : Environment) (principal : Principal) (id : ℕ) (store : AuthStore)
    → (resend_invitation env principal id store).1.memberships ≡ store.memberships
unfolding resend_invitation scoped_invitation refresh_invitation_status record_activity
    record_activity_with
resend-memberships env principal id store = ground arith

pub cancel-memberships :
    (env : Environment) (principal : Principal) (id : ℕ) (store : AuthStore)
    → (cancel_invitation env principal id store).1.memberships ≡ store.memberships
unfolding cancel_invitation scoped_invitation refresh_invitation_status record_activity
    record_activity_with
cancel-memberships env principal id store = ground arith

pub update-memberships :
    (env : Environment) (principal : Principal) (name place : Option String) (version : Option ℕ)
    (store : AuthStore)
    → (update_organization env principal name place version store).1.memberships ≡ store.memberships
unfolding update_organization record_activity_with
update-memberships env principal name place version store = ground arith
