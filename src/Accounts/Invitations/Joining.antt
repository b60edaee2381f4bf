-- ===== src/Accounts/Invitations/Joining.antt =====
-- app/auth.py: what the acceptance of an invitation does to the memberships.
use ghost_busters.Prelude.{
  ℕ, ◌≡◌, refl, ◌∙◌, String, Option, ◌==◌, arith, ◌⊎◌, inl, inr, is_some, Bool-cases,
}
use ghost_busters.Prelude.Table.{Table, put}
use ghost_busters.Accounts.Entities.{
  User, OrganizationMembership, Invitation, AuthStore, Environment, refused, returned, Outcome,
  after,
}
use ghost_busters.Accounts.Permissions.{Principal}
use ghost_busters.Accounts.Activity.{record_activity, record_activity_with}
use ghost_busters.Accounts.Invitations.{
  validate_invitation_token, refresh_invitation_status, membership_for_user_org,
}
use ghost_busters.Accounts.Acceptances.{
  Acceptance, accept_invitation, accepting_user, join_organization, invited_membership,
}

accepting_user-memberships :
    (env : Environment) (form : Acceptance) (principal : Option Principal) (invitation : Invitation)
    (store : AuthStore)
    → (accepting_user env form principal invitation store).1.memberships ≡ store.memberships
unfolding accepting_user record_activity record_activity_with
accepting_user-memberships env form principal invitation store = ground arith

validate-memberships :
    (env : Environment) (token : String) (store : AuthStore)
    → (validate_invitation_token env token store).1.memberships ≡ store.memberships
unfolding validate_invitation_token refresh_invitation_status record_activity record_activity_with
validate-memberships env token store = ground arith

-- The memberships after an acceptance: unchanged, or with the one that a validated invitation gives.
abbrev pub IsJoined : Environment → String → AuthStore → Table ℕ OrganizationMembership → Type 0
IsJoined env token store after_call =
    (after_call ≡ store.memberships)
    ⊎ ((invitation : Invitation) × (user : User) × ((validate_invitation_token env token store).0
          ≡ returned invitation)
        × (after_call
            ≡ put ◌==◌ (env.uuid 2) (invited_membership env invitation user) store.memberships))

join-cases :
    (env : Environment) (invitation : Invitation) (user : User) (store : AuthStore)
    (t : Table ℕ OrganizationMembership)
    → store.memberships ≡ t
    → ((join_organization env invitation user store).1.memberships ≡ t)
      ⊎ ((join_organization env invitation user store).1.memberships
          ≡ put ◌==◌ (env.uuid 2) (invited_membership env invitation user) t)
unfolding join_organization record_activity record_activity_with
join-cases env invitation user store t e =
    elim (Bool-cases (is_some (membership_for_user_org user.id invitation.organization_id store))) [
      | inl member ↦ inl (rw (member, join_organization) e)
      | inr new ↦ inr (rw (new, join_organization) (ground arith))
    ]

pub accept-IsJoined :
    (env : Environment) (token : String) (form : Acceptance) (principal : Option Principal)
    (store : AuthStore)
    → IsJoined env token store (accept_invitation env token form principal store).1.memberships
unfolding accept_invitation
accept-IsJoined env token form principal store =
    validated (validate_invitation_token env token store) refl
      (validate-memberships env token store)
  where
    accepting :
        (invitation : Invitation) (outcome : Outcome User)
        → (validate_invitation_token env token store).0 ≡ returned invitation
        → outcome.1.memberships ≡ store.memberships
        → IsJoined env token store
            (after outcome (λ user t. join_organization env invitation user t)).1.memberships
    accepting invitation (refused status detail, t) valid e = inl e
    accepting invitation (returned user, t) valid e =
        elim (join-cases env invitation user t store.memberships e) [
          | inl same ↦ inl same
          | inr new ↦ inr (invitation, user, valid, new)
        ]

    validated :
        (outcome : Outcome Invitation)
        → (validate_invitation_token env token store).0 ≡ outcome.0
        → outcome.1.memberships ≡ store.memberships
        → IsJoined env token store
            (after outcome (λ invitation s.
              after
                (accepting_user env form principal invitation s)
                (λ user t. join_organization env invitation user t))).1.memberships
    validated (refused status detail, s) valid e = inl e
    validated (returned invitation, s) valid e =
        accepting invitation (accepting_user env form principal invitation s) valid
          (accepting_user-memberships env form principal invitation s ∙ e)
