-- ===== src/Accounts/Members/Revisions.antt =====
-- app/auth.py: what the operations of members do to the memberships.
use ghost_busters.Prelude.{
  ℕ, ◌≡◌, ◌⊎◌, refl, Bool, false, not, ◌&&◌, Option, some, ◌==◌, arith, Option-cases, inl, inr,
}
use ghost_busters.Prelude.Table.{Table, put}
use ghost_busters.Model.{OrganizationRole}
use ghost_busters.Accounts.Entities.{
  AccountStatus, OrganizationMembership, AuthStore, Environment, same_role,
}
use ghost_busters.Accounts.Permissions.{Principal}
use ghost_busters.Accounts.Activity.{record_activity, record_activity_with}
use ghost_busters.Accounts.Members.{
  scoped_membership, change_role, disable_member, reactivate_member, with_role, with_status,
}

-- `new` is an Owner's where `old` is not, and the principal is no Owner
abbrev pub is_elevation : Principal → OrganizationMembership → OrganizationMembership → Bool
is_elevation principal old new =
    same_role new.role OrganizationRole.owner
    && not (same_role old.role OrganizationRole.owner)
    && not (same_role principal.membership.role OrganizationRole.owner)

-- The memberships after a call: unchanged, or with one of the principal's organization revised, which
-- keeps its id, its organization and its user, and becomes an Owner's only by an Owner.
pub data IsRevised (principal : Principal) (id : ℕ) (store : AuthStore)
    : Table ℕ OrganizationMembership → Type 0 where
  kept : IsRevised principal id store store.memberships
  revised :
      (old new : OrganizationMembership)
      → scoped_membership principal id store ≡ some old
      → new.id ≡ old.id
      → new.organization_id ≡ old.organization_id
      → is_elevation principal old new ≡ false
      → IsRevised principal id store (put ◌==◌ old.id new store.memberships)

-- A membership that an operation finds, with what it writes.
choose :
    (principal : Principal) (id : ℕ) (store : AuthStore) (old new : OrganizationMembership)
    (t : Table ℕ OrganizationMembership)
    → scoped_membership principal id store ≡ some old
    → new.id ≡ old.id
    → new.organization_id ≡ old.organization_id
    → (t ≡ store.memberships)
      ⊎ ((t ≡ put ◌==◌ old.id new store.memberships) × (is_elevation principal old new ≡ false))
    → IsRevised principal id store t
choose principal id store old new t found i o (inl e) = rw e IsRevised.kept
choose principal id store old new t found i o (inr e) =
    rw e.0 (IsRevised.revised old new found i o e.1)

pub change_role-IsRevised :
    (env : Environment) (principal : Principal) (id : ℕ) (role : OrganizationRole)
    (approval : Option Bool) (store : AuthStore)
    → IsRevised principal id store (change_role env principal id role approval store).1.memberships
unfolding change_role record_activity record_activity_with
change_role-IsRevised env principal id role approval store =
    elim (Option-cases (scoped_membership principal id store)) [
      | inl absent ↦ rw (absent, change_role) IsRevised.kept
      | inr (m, found) ↦
          choose principal id store m (with_role env role approval m) _ found refl refl
            (rw (found, change_role) (ground arith))
    ]

pub disable_member-IsRevised :
    (env : Environment) (principal : Principal) (id : ℕ) (store : AuthStore)
    → IsRevised principal id store (disable_member env principal id store).1.memberships
unfolding disable_member record_activity record_activity_with
disable_member-IsRevised env principal id store =
    elim (Option-cases (scoped_membership principal id store)) [
      | inl absent ↦ rw (absent, disable_member) IsRevised.kept
      | inr (m, found) ↦
          choose principal id store m (with_status env AccountStatus.disabled m) _ found refl refl
            (rw (found, disable_member) (ground arith))
    ]

pub reactivate_member-IsRevised :
    (env : Environment) (principal : Principal) (id : ℕ) (store : AuthStore)
    → IsRevised principal id store (reactivate_member env principal id store).1.memberships
unfolding reactivate_member record_activity record_activity_with
reactivate_member-IsRevised env principal id store =
    elim (Option-cases (scoped_membership principal id store)) [
      | inl absent ↦ rw (absent, reactivate_member) IsRevised.kept
      | inr (m, found) ↦
          choose principal id store m (with_status env AccountStatus.active m) _ found refl refl
            (rw (found, reactivate_member) (ground arith))
    ]
