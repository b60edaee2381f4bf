-- ===== src/Accounts/Commands/Authority.antt =====
-- app/auth.py: who can make an Owner.
use ghost_busters.Prelude.{
  ℕ, ◌≡◌, ◌≢◌, ◌∙◌, refl, sym, ap, Bool, true, false, not, ◌&&◌, ◌||◌, String, Option, none, some,
  Option-cases, ◌==◌, arith, inl, inr, Bool-cases, ==_iff,
}
use ghost_busters.Prelude.Table.{Table, lookup, put, lookup-put_same, lookup-put_other}
use ghost_busters.Model.{OrganizationRole}
use ghost_busters.Accounts.Entities.{
  OrganizationMembership, Invitation, AuthStore, Environment, Outcome, returned, same_role,
}
use ghost_busters.Accounts.Permissions.{Principal}
use ghost_busters.Accounts.Invitations.{validate_invitation_token}
use ghost_busters.Accounts.Acceptances.{Acceptance, accept_invitation, invited_membership}
use ghost_busters.Accounts.Invitations.Joining.{accept-IsJoined}
use ghost_busters.Accounts.Invitations.Lifecycle.{Evolves, IsFound, validate-IsFound}
use ghost_busters.Accounts.Members.Owners.{IsKeyed, scoped_lem}
use ghost_busters.Accounts.Members.Revisions.{
  IsRevised, change_role-IsRevised, disable_member-IsRevised, reactivate_member-IsRevised,
}
use ghost_busters.Accounts.Commands.{Command, apply, IsFresh}
use ghost_busters.Accounts.Commands.Frames.{
  authenticate-memberships, invite-memberships, validate-memberships, resend-memberships,
  cancel-memberships, update-memberships,
}
use ghost_busters.Accounts.Commands.Effects.{reviser}
use ghost_busters.Accounts.Commands.Settled.{IsOrdered, ⇒-role, apply-Evolves}

-- No invitation is for an Owner.
abbrev IsInvitableTable : Table ℕ Invitation → Type 0
IsInvitableTable t =
    (k : ℕ) (i : Invitation)
    → lookup ◌==◌ k t ≡ some i
    → same_role i.role OrganizationRole.owner ≡ false

abbrev pub IsInvitable : AuthStore → Type 0
IsInvitable store = IsInvitableTable store.invitations

put-IsInvitableTable :
    (j : ℕ) (new : Invitation) (t : Table ℕ Invitation)
    → same_role new.role OrganizationRole.owner ≡ false
    → IsInvitableTable t
    → IsInvitableTable (put ◌==◌ j new t)
put-IsInvitableTable j new t role h k i found = elim (Bool-cases (k == j)) [
  | inl here ↦
      let e : k ≡ j = (==_iff k j).0 here in
      let there = lookup-put_same j new t in let one : new ≡ i = cc in rw (← one) role
  | inr other ↦
      let ne : k ≢ j = λ e. ground (arith, e, other) in
      h k i (sym (lookup-put_other k j new t ne) ∙ found)
]

Evolves-IsInvitable :
    (t u : Table ℕ Invitation) → IsInvitableTable t → Evolves t u → IsInvitableTable u
Evolves-IsInvitable t u h Evolves.unchanged = h
Evolves-IsInvitable t u h (Evolves.changed v old new e stored step) =
    let before = Evolves-IsInvitable t v h e in
    let role = before old.id old stored in
    put-IsInvitableTable old.id new v (rw (⇒-role old new step) role) before
Evolves-IsInvitable t u h (Evolves.issued new free role) = put-IsInvitableTable new.id new t role h

-- The invitation that a token opens is not for an Owner.
validated_role :
    (env : Environment) (token : String) (store : AuthStore) (i : Invitation)
    → IsOrdered store
    → IsInvitable store
    → (validate_invitation_token env token store).0 ≡ returned i
    → same_role i.role OrganizationRole.owner ≡ false
validated_role env token store i ordered h valid =
    role (validate_invitation_token env token store) (validate-IsFound env token store ordered)
      valid
  where
    role :
        (outcome : Outcome Invitation)
        → IsFound store.invitations true outcome
        → outcome.0 ≡ returned i
        → same_role i.role OrganizationRole.owner ≡ false
    role outcome (IsFound.stopped status detail s e) f = cc
    role outcome (IsFound.at_hand j s at _) f =
        let one : j ≡ i = cc in
        let before = Evolves-IsInvitable store.invitations s.invitations h at.evolves in
        rw (← one) (before j.id j at.stored)

-- a membership of an Owner that stands in the table under the key
abbrev pub OwnerAt : ℕ → Table ℕ OrganizationMembership → Type 0
OwnerAt k t =
    (m : OrganizationMembership) × (lookup ◌==◌ k t ≡ some m)
    × (same_role m.role OrganizationRole.owner ≡ true)

kept_owner : (k : ℕ) (t u : Table ℕ OrganizationMembership) → u ≡ t → OwnerAt k u → OwnerAt k t
kept_owner k t u e (m, found, owner) = (m, sym (ap (lookup ◌==◌ k) e) ∙ found, owner)

revised_owner :
    (k : ℕ) (principal : Principal) (id : ℕ) (store : AuthStore)
    (u : Table ℕ OrganizationMembership)
    → IsKeyed store
    → same_role principal.membership.role OrganizationRole.owner ≡ false
    → IsRevised principal id store u
    → OwnerAt k u
    → OwnerAt k store.memberships
revised_owner k principal id store u keyed plain IsRevised.kept owner = owner
revised_owner k principal id store u keyed plain (IsRevised.revised old new found i o e) owner =
    elim (Bool-cases (k == old.id)) [
      | inl here ↦
          let at : k ≡ old.id = (==_iff _ _).0 here in
          let there = scoped_lem principal id store old keyed found in
          let stored = there.0 in
          let written = lookup-put_same old.id new store.memberships in
          let seen = owner.1 in
          let one : new ≡ owner.0 = cc in
          let role : same_role new.role OrganizationRole.owner ≡ true = rw one owner.2 in
          (old, rw at stored, ground (arith, role, e, plain))
      | inr other ↦
          let ne : k ≢ old.id = λ p. ground (arith, p, other) in
          (owner.0, sym (lookup-put_other k old.id new store.memberships ne) ∙ owner.1, owner.2)
    ]

abbrev pub is_registration : Command → Bool
is_registration (Command.register email name password organization zone slug) = true
is_registration _ = false

joined_owner :
    (env : Environment) (token : String) (form : Acceptance) (principal : Option Principal) (k : ℕ)
    (store : AuthStore)
    → IsOrdered store
    → IsInvitable store
    → OwnerAt k (accept_invitation env token form principal store).1.memberships
    → OwnerAt k store.memberships
joined_owner env token form principal k store ordered invitable owner =
    elim (accept-IsJoined env token form principal store) [
      | inl e ↦ kept_owner k _ _ e owner
      | inr (i, user, valid, e) ↦
          let plain = validated_role env token store i ordered invitable valid in
          let seen = sym (ap (lookup ◌==◌ k) e) ∙ owner.1 in
          elim (Bool-cases (k == env.uuid 2)) [
            | inl here ↦
                let at : k ≡ env.uuid 2 = (==_iff _ _).0 here in
                let written =
                  lookup-put_same (env.uuid 2) (invited_membership env i user) store.memberships in
                let one : invited_membership env i user ≡ owner.0 = cc in
                let role : same_role i.role OrganizationRole.owner ≡ true =
                  ap (λ (m : OrganizationMembership). same_role m.role OrganizationRole.owner) one
                  ∙ owner.2 in
                cc
            | inr other ↦
                let ne : k ≢ env.uuid 2 = λ p. ground (arith, p, other) in
                (
                  owner.0,
                  sym (lookup-put_other k (env.uuid 2) _ store.memberships ne) ∙ seen,
                  owner.2,
                )
          ]
    ]

-- A call that is no registration and no revision by an Owner makes no Owner.
owner_kept :
    (env : Environment) (command : Command) (store : AuthStore) (k : ℕ)
    → IsKeyed store
    → IsOrdered store
    → IsInvitable store
    → is_registration command ≡ false
    → ((principal : Principal)
        → reviser command ≡ some principal
        → same_role principal.membership.role OrganizationRole.owner ≡ false)
    → OwnerAt k (apply env command store).memberships
    → OwnerAt k store.memberships
unfolding apply
owner_kept env command store k keyed ordered invitable other plain owner =
    before command other plain owner
  where
    before :
        (c : Command)
        → is_registration c ≡ false
        → ((principal : Principal)
            → reviser c ≡ some principal
            → same_role principal.membership.role OrganizationRole.owner ≡ false)
        → OwnerAt k (apply env c store).memberships
        → OwnerAt k store.memberships
    before (Command.register email name password organization zone slug) o p w = cc
    before (Command.log_in email password remote) o p w =
        kept_owner k _ _ (authenticate-memberships env email password remote store) w
    before (Command.invite_member principal email role approval note) o p w =
        kept_owner k _ _ (invite-memberships env principal email role approval note store) w
    before (Command.validate_token token) o p w =
        kept_owner k _ _ (validate-memberships env token store) w
    before (Command.accept token form principal) o p w =
        joined_owner env token form principal k store ordered invitable w
    before (Command.resend principal id) o p w =
        kept_owner k _ _ (resend-memberships env principal id store) w
    before (Command.cancel principal id) o p w =
        kept_owner k _ _ (cancel-memberships env principal id store) w
    before (Command.change principal id role approval) o p w =
        revised_owner k principal id store _ keyed (p principal refl)
          (change_role-IsRevised env principal id role approval store) w
    before (Command.disable principal id) o p w =
        revised_owner k principal id store _ keyed (p principal refl)
          (disable_member-IsRevised env principal id store) w
    before (Command.reactivate principal id) o p w =
        revised_owner k principal id store _ keyed (p principal refl)
          (reactivate_member-IsRevised env principal id store) w
    before (Command.update_workspace principal name zone version) o p w =
        kept_owner k _ _ (update-memberships env principal name zone version store) w

-- whether an Owner's membership is stored under the key
abbrev pub has_owner_at : ℕ → Table ℕ OrganizationMembership → Bool
has_owner_at k t = elim (lookup ◌==◌ k t) [
  | none ↦ false
  | some m ↦ same_role m.role OrganizationRole.owner
]

abbrev pub is_owner : Option Principal → Bool
is_owner none = false
is_owner (some principal) = same_role principal.membership.role OrganizationRole.owner

has_owner_at-true :
    (k : ℕ) (t : Table ℕ OrganizationMembership) → has_owner_at k t ≡ true → OwnerAt k t
has_owner_at-true k t h = elim (Option-cases (lookup ◌==◌ k t)) [
  | inl absent ↦ cc (rw (absent, has_owner_at) at h)
  | inr (m, found) ↦ (m, found, rw (found, has_owner_at) at h)
]

OwnerAt-true : (k : ℕ) (t : Table ℕ OrganizationMembership) → OwnerAt k t → has_owner_at k t ≡ true
OwnerAt-true k t (m, found, owner) = rw (found, has_owner_at) owner

is_owner-false :
    (reviser : Option Principal)
    → is_owner reviser ≡ false
    → (principal : Principal) → reviser ≡ some principal
    → same_role principal.membership.role OrganizationRole.owner ≡ false
is_owner-false reviser h principal e = rw e at h

-- Only a registration and a member's revision by an Owner make an Owner: any other call leaves no
-- membership with the role Owner under a key where none was before. No call, a registration and an
-- Owner's included, leaves an invitation for an Owner. Both hold where no invitation was for an Owner,
-- memberships and invitations are stored under their ids, and the call's new ids are not in use.
pub apply-owner_authority :
    (env : Environment) (command : Command) (store : AuthStore) (k : ℕ)
    → IsFresh env store
    → IsKeyed store
    → IsOrdered store
    → IsInvitable store
    → IsInvitable (apply env command store)
      × ((has_owner_at k (apply env command store).memberships
            && not (
                has_owner_at k store.memberships
                || is_registration command
                || is_owner (reviser command)))
          ≡ false)
apply-owner_authority env command store k fresh keyed ordered invitable = (
  Evolves-IsInvitable _ _ invitable (apply-Evolves env command store fresh ordered),
  elim (Bool-cases (has_owner_at k (apply env command store).memberships)) [
    | inr none_after ↦ rw none_after refl
    | inl owner ↦ elim (Bool-cases (is_registration command || is_owner (reviser command))) [
      | inl may ↦ ground (arith, may)
      | inr may_not ↦
          let before = OwnerAt-true k store.memberships (
            owner_kept env command store k keyed ordered invitable (ground (arith, may_not))
              (is_owner-false (reviser command) (ground (arith, may_not)))
              (has_owner_at-true k (apply env command store).memberships owner)) in
          ground (arith, before)
    ]
  ],
)
