-- ===== src/Accounts/Commands.antt =====
-- app/auth.py: one call of AuthStore as a step of the store, answered or refused.
pub mod Frames
pub mod Effects
pub mod Ownership
pub mod Settled
pub mod Once
pub mod Authority
use ghost_busters.Prelude.{ℕ, ◌≡◌, String, Bool, Option, none, ◌==◌}
use ghost_busters.Prelude.Table.{Table, lookup}
use ghost_busters.Model.{OrganizationRole}
use ghost_busters.Accounts.Entities.{OrganizationMembership, Invitation, AuthStore, Environment}
use ghost_busters.Accounts.Permissions.{Principal}
use ghost_busters.Accounts.Login.{register_owner, authenticate}
use ghost_busters.Accounts.Invitations.{
  invite, validate_invitation_token, resend_invitation, cancel_invitation,
}
use ghost_busters.Accounts.Acceptances.{Acceptance, accept_invitation}
use ghost_busters.Accounts.Members.{
  change_role, disable_member, reactivate_member, update_organization,
}

-- A call with its arguments.
pub data Command : Type 0 where
  register : String → String → String → String → String → Option String → Command
  log_in : String → String → String → Command
  invite_member : Principal → String → OrganizationRole → Bool → Option String → Command
  validate_token : String → Command
  accept : String → Acceptance → Option Principal → Command
  resend : Principal → ℕ → Command
  cancel : Principal → ℕ → Command
  change : Principal → ℕ → OrganizationRole → Option Bool → Command
  disable : Principal → ℕ → Command
  reactivate : Principal → ℕ → Command
  update_workspace : Principal → Option String → Option String → Option ℕ → Command

-- The store that the call leaves behind.
unfoldable pub apply : Environment → Command → AuthStore → AuthStore
unfolding register_owner authenticate invite validate_invitation_token accept_invitation
    resend_invitation cancel_invitation change_role disable_member reactivate_member
    update_organization
apply env (Command.register email name password organization zone slug) store =
    (register_owner env email name password organization zone slug store).1
apply env (Command.log_in email password remote_addr) store =
    (authenticate env email password remote_addr store).1
apply env (Command.invite_member principal email role approval note) store =
    (invite env principal email role approval note store).1
apply env (Command.validate_token token) store = (validate_invitation_token env token store).1
apply env (Command.accept token form principal) store =
    (accept_invitation env token form principal store).1
apply env (Command.resend principal id) store = (resend_invitation env principal id store).1
apply env (Command.cancel principal id) store = (cancel_invitation env principal id store).1
apply env (Command.change principal id role approval) store =
    (change_role env principal id role approval store).1
apply env (Command.disable principal id) store = (disable_member env principal id store).1
apply env (Command.reactivate principal id) store = (reactivate_member env principal id store).1
apply env (Command.update_workspace principal name zone version) store =
    (update_organization env principal name zone version store).1

-- The ids that a call draws for a membership and an invitation are not in use.
pub record IsFresh (env : Environment) (store : AuthStore) : Type 0 where
  pub no_membership : lookup ◌==◌ (env.uuid 2) store.memberships ≡ none
  pub no_invitation : lookup ◌==◌ (env.uuid 0) store.invitations ≡ none

infix 10 ◌⟶◌
pub data ◌⟶◌ (store : AuthStore) : AuthStore → Type 0 where
  call :
      (env : Environment) (command : Command) → IsFresh env store → store ⟶ apply env command store

-- Any number of calls.
infix 10 ◌⟶*◌
pub data ◌⟶*◌ (store : AuthStore) : AuthStore → Type 0 where
  stop : store ⟶* store
  go : {middle last : AuthStore} → store ⟶* middle → middle ⟶ last → store ⟶* last
