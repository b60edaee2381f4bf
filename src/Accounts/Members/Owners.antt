-- ===== src/Accounts/Members/Owners.antt =====
-- app/auth.py: the owners of an organization, over the operations on memberships.
use ghost_busters.Prelude.{
  ℕ, ◌+◌, ◌≤◌, ◌≡◌, Bool, true, Option, some, ◌==◌, arith, Option-cases, inl, inr,
}
use ghost_busters.Prelude.Table.{Table, lookup, put, values, count, one_if, count-put}
use ghost_busters.Model.{OrganizationRole}
use ghost_busters.Accounts.Entities.{AccountStatus, OrganizationMembership, AuthStore, Environment}
use ghost_busters.Accounts.Permissions.{Principal}
use ghost_busters.Accounts.Activity.{record_activity, record_activity_with}
use ghost_busters.Accounts.Members.{
  is_active_owner_of, active_owner_count, scoped_membership, change_role, disable_member,
  reactivate_member, with_role, with_status,
}

-- A membership is stored under its id.
abbrev pub IsKeyed : AuthStore → Type 0
IsKeyed store =
    (k : ℕ) (m : OrganizationMembership) → lookup ◌==◌ k store.memberships ≡ some m → m.id ≡ k

-- A store without owner events and other parts: the owners are counted on the memberships.
pub owners-put :
    (o : ℕ) (old new : OrganizationMembership) (t : Table ℕ OrganizationMembership)
    → lookup ◌==◌ old.id t ≡ some old
    → count (is_active_owner_of o) (values (put ◌==◌ old.id new t))
        + one_if (is_active_owner_of o old)
      ≡ count (is_active_owner_of o) (values t) + one_if (is_active_owner_of o new)
owners-put o old new t h =
    let counted = count-put ◌==◌ (is_active_owner_of o) old.id new t in rw h at counted

-- The membership that an operation of the principal works on.
pub scoped_lem :
    (principal : Principal) (id : ℕ) (store : AuthStore) (m : OrganizationMembership)
    → IsKeyed store
    → scoped_membership principal id store ≡ some m
    → (lookup ◌==◌ m.id store.memberships ≡ some m)
      × (m.id ≡ id)
      × ((m.organization_id == principal.organization.id) ≡ true)
scoped_lem principal id store m keyed h = elim (Option-cases (lookup ◌==◌ id store.memberships)) [
  | inl absent ↦ cc (rw absent at h)
  | inr (found, there) ↦
      let e = rw there at h in
      let same : found ≡ m = ground arith in
      let key = keyed id found there in (cc, cc, ground arith)
]

pub change_role-owners :
    (env : Environment) (principal : Principal) (id : ℕ) (role : OrganizationRole)
    (approval : Option Bool) (o : ℕ) (store : AuthStore)
    → IsKeyed store
    → 1 ≤ active_owner_count o store
    → 1 ≤ active_owner_count o (change_role env principal id role approval store).1
unfolding change_role record_activity record_activity_with
change_role-owners env principal id role approval o store keyed h =
    elim (Option-cases (scoped_membership principal id store)) [
      | inl absent ↦ rw (absent, change_role) h
      | inr (m, found) ↦
          let there = scoped_lem principal id store m keyed found in
          let counted = owners-put o m (with_role env role approval m) store.memberships there.0 in
          rw (found, change_role) (ground (arith, there.2, counted))
    ]

pub disable_member-owners :
    (env : Environment) (principal : Principal) (id : ℕ) (o : ℕ) (store : AuthStore)
    → IsKeyed store
    → 1 ≤ active_owner_count o store
    → 1 ≤ active_owner_count o (disable_member env principal id store).1
unfolding disable_member record_activity record_activity_with
disable_member-owners env principal id o store keyed h =
    elim (Option-cases (scoped_membership principal id store)) [
      | inl absent ↦ rw (absent, disable_member) h
      | inr (m, found) ↦
          let there = scoped_lem principal id store m keyed found in
          let counted =
            owners-put o m (with_status env AccountStatus.disabled m) store.memberships there.0 in
          rw (found, disable_member) (ground (arith, there.2, counted))
    ]

pub reactivate_member-owners :
    (env : Environment) (principal : Principal) (id : ℕ) (o : ℕ) (store : AuthStore)
    → IsKeyed store
    → 1 ≤ active_owner_count o store
    → 1 ≤ active_owner_count o (reactivate_member env principal id store).1
unfolding reactivate_member record_activity record_activity_with
reactivate_member-owners env principal id o store keyed h =
    elim (Option-cases (scoped_membership principal id store)) [
      | inl absent ↦ rw (absent, reactivate_member) h
      | inr (m, found) ↦
          let there = scoped_lem principal id store m keyed found in
          let counted =
            owners-put o m (with_status env AccountStatus.active m) store.memberships there.0 in
          rw (found, reactivate_member) (ground (arith, there.2, counted))
    ]
