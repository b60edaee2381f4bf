-- ===== src/Accounts/Commands/Ownership.antt =====
-- app/auth.py: the owners of an organization over any calls of the store.
use ghost_busters.Prelude.{ℕ, ◌≤◌, ◌≡◌, String, Option, none, ◌==◌, arith, inl, inr}
use ghost_busters.Prelude.Table.{Table, lookup, put, values, count, count-put}
use ghost_busters.Accounts.Entities.{OrganizationMembership, AuthStore, Environment}
use ghost_busters.Accounts.Permissions.{Principal}
use ghost_busters.Accounts.Login.{register_owner}
use ghost_busters.Accounts.Acceptances.{Acceptance, accept_invitation}
use ghost_busters.Accounts.Invitations.Joining.{accept-IsJoined}
use ghost_busters.Accounts.Members.{is_active_owner_of, active_owner_count}
use ghost_busters.Accounts.Members.Owners.{
  IsKeyed, change_role-owners, disable_member-owners, reactivate_member-owners,
}
use ghost_busters.Accounts.Commands.{Command, apply, IsFresh, ◌⟶*◌, call, stop, go}
use ghost_busters.Accounts.Commands.Effects.{apply-IsKeyed}
use ghost_busters.Accounts.Commands.Frames.{
  register_owner-memberships, authenticate-memberships, invite-memberships, validate-memberships,
  resend-memberships, cancel-memberships, update-memberships,
}

owners-put_new :
    (o k : ℕ) (new : OrganizationMembership) (t : Table ℕ OrganizationMembership)
    → lookup ◌==◌ k t ≡ none
    → count (is_active_owner_of o) (values t)
      ≤ count (is_active_owner_of o) (values (put ◌==◌ k new t))
owners-put_new o k new t h =
    let counted = count-put ◌==◌ (is_active_owner_of o) k new t in omega (arith, rw h at counted)

register_owner-owners :
    (env : Environment) (email name password organization zone : String) (slug : Option String)
    (o : ℕ) (store : AuthStore)
    → lookup ◌==◌ (env.uuid 2) store.memberships ≡ none
    → active_owner_count o store
      ≤ active_owner_count o (register_owner env email name password organization zone slug store).1
register_owner-owners env email name password organization zone slug o store h =
    elim (register_owner-memberships env email name password organization zone slug store) [
      | inl same ↦ rw same (omega arith)
      | inr new ↦ rw new (owners-put_new o (env.uuid 2) _ store.memberships h)
    ]

accept-owners :
    (env : Environment) (token : String) (form : Acceptance) (principal : Option Principal) (o : ℕ)
    (store : AuthStore)
    → lookup ◌==◌ (env.uuid 2) store.memberships ≡ none
    → active_owner_count o store
      ≤ active_owner_count o (accept_invitation env token form principal store).1
accept-owners env token form principal o store h =
    elim (accept-IsJoined env token form principal store) [
      | inl same ↦ rw same (omega arith)
      | inr (invitation, user, valid, new) ↦
          rw new (owners-put_new o (env.uuid 2) _ store.memberships h)
    ]

-- A call keeps an owner of the organization, where the new ids are not in use.
apply-owners :
    (env : Environment) (command : Command) (o : ℕ) (store : AuthStore)
    → IsFresh env store
    → IsKeyed store
    → 1 ≤ active_owner_count o store
    → 1 ≤ active_owner_count o (apply env command store)
unfolding apply
apply-owners env (Command.register email name password organization zone slug) o store fresh k h =
    omega (
      arith,
      h,
      register_owner-owners env email name password organization zone slug o store
          fresh.no_membership,
    )
apply-owners env (Command.log_in email password remote) o store fresh k h =
    rw (authenticate-memberships env email password remote store) h
apply-owners env (Command.invite_member principal email role approval note) o store fresh k h =
    rw (invite-memberships env principal email role approval note store) h
apply-owners env (Command.validate_token token) o store fresh k h =
    rw (validate-memberships env token store) h
apply-owners env (Command.accept token form principal) o store fresh k h =
    omega (arith, h, accept-owners env token form principal o store fresh.no_membership)
apply-owners env (Command.resend principal id) o store fresh k h =
    rw (resend-memberships env principal id store) h
apply-owners env (Command.cancel principal id) o store fresh k h =
    rw (cancel-memberships env principal id store) h
apply-owners env (Command.change principal id role approval) o store fresh k h =
    change_role-owners env principal id role approval o store k h
apply-owners env (Command.disable principal id) o store fresh k h =
    disable_member-owners env principal id o store k h
apply-owners env (Command.reactivate principal id) o store fresh k h =
    reactivate_member-owners env principal id o store k h
apply-owners env (Command.update_workspace principal name zone version) o store fresh k h =
    rw (update-memberships env principal name zone version store) h

-- An organization that has an active Owner has one after any calls of the store, answered or refused:
-- registration, login, invitations, role changes, disabling and the rest, where memberships are stored
-- under their ids and each call's new ids are not in use.
pub calls_keep_owner :
    (o : ℕ) {store last : AuthStore}
    → IsKeyed store
    → 1 ≤ active_owner_count o store
    → store ⟶* last
    → IsKeyed last × (1 ≤ active_owner_count o last)
calls_keep_owner o keyed h stop = (keyed, h)
calls_keep_owner o keyed h (go {middle} path (call env command fresh)) =
    let before = calls_keep_owner o keyed h path in
    (
      apply-IsKeyed env command middle before.0,
      apply-owners env command o middle fresh before.0 before.1,
    )
