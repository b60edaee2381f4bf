-- ===== src/Accounts/Commands/Effects.antt =====
-- app/auth.py: what one call may do to the memberships, whichever call it is.
use ghost_busters.Prelude.{
  ℕ, ◌≡◌, ◌≢◌, refl, sym, ◌∙◌, false, Option, none, some, ◌==◌, arith, inl, inr, Bool-cases, ==_iff,
}
use ghost_busters.Prelude.Table.{Table, lookup, put, lookup-put_same, lookup-put_other}
use ghost_busters.Accounts.Entities.{OrganizationMembership, AuthStore, Environment}
use ghost_busters.Accounts.Permissions.{Principal}
use ghost_busters.Accounts.Login.{owner_membership}
use ghost_busters.Accounts.Acceptances.{invited_membership}
use ghost_busters.Accounts.Invitations.Joining.{accept-IsJoined}
use ghost_busters.Accounts.Members.{scoped_membership}
use ghost_busters.Accounts.Members.Owners.{IsKeyed, scoped_lem}
use ghost_busters.Accounts.Members.Revisions.{
  is_elevation, IsRevised, change_role-IsRevised, disable_member-IsRevised,
  reactivate_member-IsRevised,
}
use ghost_busters.Accounts.Commands.{Command, apply, IsFresh}
use ghost_busters.Accounts.Commands.Frames.{
  register_owner-memberships, authenticate-memberships, invite-memberships, validate-memberships,
  resend-memberships, cancel-memberships, update-memberships,
}

-- The principal whose call revises memberships.
abbrev pub reviser : Command → Option Principal
reviser (Command.change principal id role approval) = some principal
reviser (Command.disable principal id) = some principal
reviser (Command.reactivate principal id) = some principal
reviser _ = none

-- The memberships after a call: unchanged, with one added under the id that the call drew, or with
-- one of the caller's own organization revised.
pub data IsChanged (env : Environment) (store : AuthStore)
    : Option Principal → Table ℕ OrganizationMembership → Type 0 where
  same : (o : Option Principal) → IsChanged env store o store.memberships
  added :
      (o : Option Principal) (new : OrganizationMembership)
      → new.id ≡ env.uuid 2
      → IsChanged env store o (put ◌==◌ (env.uuid 2) new store.memberships)
  changed :
      (principal : Principal) (id : ℕ) (old new : OrganizationMembership)
      → scoped_membership principal id store ≡ some old
      → new.id ≡ old.id
      → new.organization_id ≡ old.organization_id
      → is_elevation principal old new ≡ false
      → IsChanged env store (some principal) (put ◌==◌ old.id new store.memberships)

unchanged :
    (env : Environment) (store : AuthStore) (o : Option Principal)
    (t : Table ℕ OrganizationMembership)
    → t ≡ store.memberships
    → IsChanged env store o t
unchanged env store o t e = rw e (IsChanged.same o)

of_revision :
    (env : Environment) (principal : Principal) (id : ℕ) (store : AuthStore)
    (t : Table ℕ OrganizationMembership)
    → IsRevised principal id store t
    → IsChanged env store (some principal) t
of_revision env principal id store t IsRevised.kept = IsChanged.same (some principal)
of_revision env principal id store t (IsRevised.revised old new found i o e) =
    IsChanged.changed principal id old new found i o e

pub apply-IsChanged :
    (env : Environment) (command : Command) (store : AuthStore)
    → IsChanged env store (reviser command) (apply env command store).memberships
unfolding apply
apply-IsChanged env (Command.register email name password organization zone slug) store =
    elim (register_owner-memberships env email name password organization zone slug store) [
      | inl e ↦ unchanged env store none _ e
      | inr e ↦ rw e (IsChanged.added none (owner_membership env) refl)
    ]
apply-IsChanged env (Command.log_in email password remote) store =
    unchanged env store none _ (authenticate-memberships env email password remote store)
apply-IsChanged env (Command.invite_member principal email role approval note) store =
    unchanged env store none _ (invite-memberships env principal email role approval note store)
apply-IsChanged env (Command.validate_token token) store =
    unchanged env store none _ (validate-memberships env token store)
apply-IsChanged env (Command.accept token form principal) store =
    elim (accept-IsJoined env token form principal store) [
      | inl e ↦ unchanged env store none _ e
      | inr (invitation, user, valid, e) ↦
          rw e (IsChanged.added none (invited_membership env invitation user) refl)
    ]
apply-IsChanged env (Command.resend principal id) store =
    unchanged env store none _ (resend-memberships env principal id store)
apply-IsChanged env (Command.cancel principal id) store =
    unchanged env store none _ (cancel-memberships env principal id store)
apply-IsChanged env (Command.change principal id role approval) store =
    of_revision env principal id store _
      (change_role-IsRevised env principal id role approval store)
apply-IsChanged env (Command.disable principal id) store =
    of_revision env principal id store _ (disable_member-IsRevised env principal id store)
apply-IsChanged env (Command.reactivate principal id) store =
    of_revision env principal id store _ (reactivate_member-IsRevised env principal id store)
apply-IsChanged env (Command.update_workspace principal name zone version) store =
    unchanged env store none _ (update-memberships env principal name zone version store)

-- Every entry of the table has its id as its key.
abbrev IsKeyedTable : Table ℕ OrganizationMembership → Type 0
IsKeyedTable t = (k : ℕ) (m : OrganizationMembership) → lookup ◌==◌ k t ≡ some m → m.id ≡ k

put-IsKeyedTable :
    (j : ℕ) (new : OrganizationMembership) (t : Table ℕ OrganizationMembership)
    → new.id ≡ j
    → IsKeyedTable t
    → IsKeyedTable (put ◌==◌ j new t)
put-IsKeyedTable j new t i keyed k m h = elim (Bool-cases (k == j)) [
  | inl here ↦
      let e : k ≡ j = (==_iff k j).0 here in
      let there = lookup-put_same j new t in
      let found : lookup ◌==◌ k (put ◌==◌ j new t) ≡ some new = rw e there in
      let same : new ≡ m = cc in cc
  | inr other ↦
      let ne : k ≢ j = λ e. ground (arith, e, other) in
      keyed k m (sym (lookup-put_other k j new t ne) ∙ h)
]

pub apply-IsKeyed :
    (env : Environment) (command : Command) (store : AuthStore)
    → IsKeyed store
    → IsKeyed (apply env command store)
apply-IsKeyed env command store keyed =
    preserved (reviser command) (apply env command store).memberships
      (apply-IsChanged env command store)
  where
    preserved :
        (o : Option Principal) (t : Table ℕ OrganizationMembership)
        → IsChanged env store o t
        → IsKeyedTable t
    preserved o t (IsChanged.same _) = keyed
    preserved o t (IsChanged.added _ new i) = put-IsKeyedTable (env.uuid 2) new _ i keyed
    preserved o t (IsChanged.changed principal id old new found i org e) =
        put-IsKeyedTable old.id new _ i keyed

-- A call leaves every membership of another organization as it is: a stored membership is still there
-- unchanged after the call, where the call's new ids are not in use, memberships are stored under
-- their ids, and the caller who revises memberships, if the call is of that kind, acts for another
-- organization.
pub apply-lookup_foreign :
    (env : Environment) (command : Command) (store : AuthStore) (k : ℕ) (m : OrganizationMembership)
    → IsFresh env store
    → IsKeyed store
    → lookup ◌==◌ k store.memberships ≡ some m
    → ((principal : Principal)
        → reviser command ≡ some principal
        → m.organization_id ≢ principal.organization.id)
    → lookup ◌==◌ k (apply env command store).memberships ≡ some m
apply-lookup_foreign env command store k m fresh keyed h foreign =
    preserved (reviser command) (apply env command store).memberships foreign
      (apply-IsChanged env command store)
  where
    preserved :
        (o : Option Principal) (t : Table ℕ OrganizationMembership)
        → ((principal : Principal)
            → o ≡ some principal
            → m.organization_id ≢ principal.organization.id)
        → IsChanged env store o t
        → lookup ◌==◌ k t ≡ some m
    preserved o t apart (IsChanged.same _) = h
    preserved o t apart (IsChanged.added _ new i) =
        let free = fresh.no_membership in lookup-put_other k (env.uuid 2) new _ (λ e. cc) ∙ h
    preserved o t apart (IsChanged.changed principal id old new found i org e) =
        let there = scoped_lem principal id store old keyed found in
        let own : old.organization_id ≡ principal.organization.id = (==_iff _ _).0 there.2 in
        lookup-put_other k old.id new _
          (λ here. let at_old = there.0 in let one : old ≡ m = cc in apart principal refl (cc))
        ∙ h
