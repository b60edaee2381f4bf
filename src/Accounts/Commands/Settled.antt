-- ===== src/Accounts/Commands/Settled.antt =====
-- app/auth.py: the invitations of the store over any calls.
use ghost_busters.Prelude.{
  ℕ, ◌≡◌, ◌∙◌, refl, Bool, true, false, String, Option, some, ◌==◌, arith, inl, inr, Bool-cases,
  is_some,
}
use ghost_busters.Prelude.Text.{◌==◌ as text_eq}
use ghost_busters.Prelude.Table.{Table, lookup, lookup-put_other}
use ghost_busters.Prelude.Table.Indexed.{IsIndexed, put-IsIndexed}
use ghost_busters.Model.{OrganizationRole}
use ghost_busters.Accounts.Entities.{Invitation, InvitationStatus, AuthStore, Environment}
use ghost_busters.Accounts.Names.{normalize_email}
use ghost_busters.Accounts.Permissions.{Principal}
use ghost_busters.Accounts.Activity.{record_activity, record_activity_with}
use ghost_busters.Accounts.Login.{register_owner, authenticate}
use ghost_busters.Accounts.Invitations.Lifecycle.{◌⇒◌, Evolves}
use ghost_busters.Accounts.Invitations.Evolution.{
  validate-Evolves, accept-Evolves, resend-Evolves, cancel-Evolves, invite-Evolves,
}
use ghost_busters.Accounts.Members.{
  change_role, disable_member, reactivate_member, update_organization,
}
use ghost_busters.Accounts.Commands.{Command, apply, IsFresh, ◌⟶*◌, call, stop, go}

-- Invitations stand under their ids, which are distinct.
abbrev pub IsOrdered : AuthStore → Type 0
IsOrdered store = IsIndexed (λ (i : Invitation). i.id) store.invitations

register_owner-invitations :
    (env : Environment) (email name password organization zone : String) (slug : Option String)
    (store : AuthStore)
    → (register_owner env email name password organization zone slug store).1.invitations
      ≡ store.invitations
unfolding register_owner record_activity record_activity_with
register_owner-invitations env email name password organization zone slug store =
    elim (Bool-cases (is_some (lookup text_eq (normalize_email email) store.users_by_email))) [
      | inl known ↦ rw (known, register_owner) refl
      | inr new ↦ rw (new, register_owner) refl
    ]

authenticate-invitations :
    (env : Environment) (email password remote_addr : String) (store : AuthStore)
    → (authenticate env email password remote_addr store).1.invitations ≡ store.invitations
unfolding authenticate record_activity record_activity_with
authenticate-invitations env email password remote_addr store = ground arith

change_role-invitations :
    (env : Environment) (principal : Principal) (id : ℕ) (role : OrganizationRole)
    (approval : Option Bool) (store : AuthStore)
    → (change_role env principal id role approval store).1.invitations ≡ store.invitations
unfolding change_role record_activity record_activity_with
change_role-invitations env principal id role approval store = ground arith

disable_member-invitations :
    (env : Environment) (principal : Principal) (id : ℕ) (store : AuthStore)
    → (disable_member env principal id store).1.invitations ≡ store.invitations
unfolding disable_member record_activity record_activity_with
disable_member-invitations env principal id store = ground arith

reactivate_member-invitations :
    (env : Environment) (principal : Principal) (id : ℕ) (store : AuthStore)
    → (reactivate_member env principal id store).1.invitations ≡ store.invitations
unfolding reactivate_member record_activity record_activity_with
reactivate_member-invitations env principal id store = ground arith

update-invitations :
    (env : Environment) (principal : Principal) (name place : Option String) (version : Option ℕ)
    (store : AuthStore)
    → (update_organization env principal name place version store).1.invitations ≡ store.invitations
unfolding update_organization record_activity_with
update-invitations env principal name place version store = ground arith

still : (t u : Table ℕ Invitation) → u ≡ t → Evolves t u
still t u e = rw e Evolves.unchanged

pub apply-Evolves :
    (env : Environment) (command : Command) (store : AuthStore)
    → IsFresh env store
    → IsOrdered store
    → Evolves store.invitations (apply env command store).invitations
unfolding apply
apply-Evolves env (Command.register email name password organization zone slug) store fresh h =
    still _ _ (register_owner-invitations env email name password organization zone slug store)
apply-Evolves env (Command.log_in email password remote) store fresh h =
    still _ _ (authenticate-invitations env email password remote store)
apply-Evolves env (Command.invite_member principal email role approval note) store fresh h =
    invite-Evolves env principal email role approval note store fresh.no_invitation
apply-Evolves env (Command.validate_token token) store fresh h = validate-Evolves env token store h
apply-Evolves env (Command.accept token form principal) store fresh h =
    accept-Evolves env token form principal store h
apply-Evolves env (Command.resend principal id) store fresh h =
    resend-Evolves env principal id store h
apply-Evolves env (Command.cancel principal id) store fresh h =
    cancel-Evolves env principal id store h
apply-Evolves env (Command.change principal id role approval) store fresh h =
    still _ _ (change_role-invitations env principal id role approval store)
apply-Evolves env (Command.disable principal id) store fresh h =
    still _ _ (disable_member-invitations env principal id store)
apply-Evolves env (Command.reactivate principal id) store fresh h =
    still _ _ (reactivate_member-invitations env principal id store)
apply-Evolves env (Command.update_workspace principal name zone version) store fresh h =
    still _ _ (update-invitations env principal name zone version store)

⇒-id : (old new : Invitation) → old ⇒ new → new.id ≡ old.id
⇒-id old new (◌⇒◌.expire env h) = refl
⇒-id old new (◌⇒◌.accept env h) = refl
⇒-id old new (◌⇒◌.resend env h) = refl
⇒-id old new (◌⇒◌.cancel env h) = refl

pub ⇒-role : (old new : Invitation) → old ⇒ new → new.role ≡ old.role
⇒-role old new (◌⇒◌.expire env h) = refl
⇒-role old new (◌⇒◌.accept env h) = refl
⇒-role old new (◌⇒◌.resend env h) = refl
⇒-role old new (◌⇒◌.cancel env h) = refl

-- accepted or canceled
abbrev pub is_settled : InvitationStatus → Bool
is_settled InvitationStatus.accepted = true
is_settled InvitationStatus.canceled = true
is_settled _ = false

⇒-open : (old new : Invitation) → old ⇒ new → is_settled old.status ≡ false
⇒-open old new (◌⇒◌.expire env h) = ground arith
⇒-open old new (◌⇒◌.accept env h) = ground arith
⇒-open old new (◌⇒◌.resend env h) = ground arith
⇒-open old new (◌⇒◌.cancel env h) = ground arith

pub Evolves-IsIndexed :
    (t u : Table ℕ Invitation)
    → IsIndexed (λ (i : Invitation). i.id) t
    → Evolves t u
    → IsIndexed (λ (i : Invitation). i.id) u
Evolves-IsIndexed t u h Evolves.unchanged = h
Evolves-IsIndexed t u h (Evolves.changed v old new e stored step) =
    put-IsIndexed (λ (i : Invitation). i.id) old.id new v (⇒-id old new step)
      (Evolves-IsIndexed t v h e)
Evolves-IsIndexed t u h (Evolves.issued new free role) =
    put-IsIndexed (λ (i : Invitation). i.id) new.id new t refl h

pub Evolves-lookup_settled :
    (k : ℕ) (i : Invitation) (t u : Table ℕ Invitation)
    → lookup ◌==◌ k t ≡ some i
    → is_settled i.status ≡ true
    → Evolves t u
    → lookup ◌==◌ k u ≡ some i
Evolves-lookup_settled k i t u h settled Evolves.unchanged = h
Evolves-lookup_settled k i t u h settled (Evolves.changed v old new e stored step) =
    let before = Evolves-lookup_settled k i t v h settled e in
    let live = ⇒-open old new step in
    lookup-put_other k old.id new v (λ here. let one : old ≡ i = cc in cc) ∙ before
Evolves-lookup_settled k i t u h settled (Evolves.issued new free role) =
    lookup-put_other k new.id new t (λ here. cc) ∙ h

-- An invitation that has been accepted or canceled stays exactly as it is over any calls of the store,
-- answered or refused, and the invitations stay stored under distinct ids, where they were and each
-- call's new ids are not in use.
pub calls_keep_settled :
    (k : ℕ) (i : Invitation) {store last : AuthStore}
    → IsOrdered store
    → lookup ◌==◌ k store.invitations ≡ some i
    → is_settled i.status ≡ true
    → store ⟶* last
    → IsOrdered last × (lookup ◌==◌ k last.invitations ≡ some i)
calls_keep_settled k i ordered h settled stop = (ordered, h)
calls_keep_settled k i ordered h settled (go {middle} path (call env command fresh)) =
    let before = calls_keep_settled k i ordered h settled path in
    let evolved = apply-Evolves env command middle fresh before.0 in
    (
      Evolves-IsIndexed _ _ before.0 evolved,
      Evolves-lookup_settled k i _ _ before.1 settled evolved,
    )
