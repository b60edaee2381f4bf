-- ===== src/Accounts/Invitations/Evolution.antt =====
-- app/auth.py: each call on invitations as steps of the invitations that the store holds.
use ghost_busters.Prelude.{
  ℕ, ◌≡◌, refl, Bool, true, false, String, Option, none, some, ◌==◌, arith, inl, inr, ◌⊎◌,
  Bool-cases, Option-cases, is_some,
}
use ghost_busters.Prelude.Table.{Table, lookup, put}
use ghost_busters.Prelude.Table.Indexed.{IsIndexed, lookup-id}
use ghost_busters.Model.{OrganizationRole}
use ghost_busters.Accounts.Entities.{
  Invitation, InvitationStatus, AuthStore, Environment, Outcome, refused, returned, after,
  same_invitation_status, same_role, User,
}
use ghost_busters.Accounts.Names.{normalize_email}
use ghost_busters.Accounts.Permissions.{Principal}
use ghost_busters.Accounts.Activity.{record_activity, record_activity_with}
use ghost_busters.Accounts.Invitations.{
  resent_copy, canceled_copy, is_resendable, validate_invitation_token, new_invitation,
  scoped_invitation, resend_invitation, cancel_invitation, membership_for_user_org, uninvitable,
  invite, resend_step, cancel_step,
}
use ghost_busters.Accounts.Acceptances.{
  Acceptance, accepted_copy, accepting_user, join_organization, accept_invitation,
}
use ghost_busters.Accounts.Invitations.Lifecycle.{
  ◌⇒◌, Evolves, IsAtHand, IsFound, refresh-IsAtHand, validate-IsFound,
}

pub validate-Evolves :
    (env : Environment) (token : String) (store : AuthStore)
    → IsIndexed (λ (i : Invitation). i.id) store.invitations
    → Evolves store.invitations (validate_invitation_token env token store).1.invitations
validate-Evolves env token store indexed =
    left (validate_invitation_token env token store) (validate-IsFound env token store indexed)
  where
    left :
        (outcome : Outcome Invitation)
        → IsFound store.invitations true outcome
        → Evolves store.invitations outcome.1.invitations
    left outcome (IsFound.stopped status detail s e) = e
    left outcome (IsFound.at_hand i s h _) = h.evolves

accepting_user-invitations :
    (env : Environment) (form : Acceptance) (principal : Option Principal) (invitation : Invitation)
    (store : AuthStore)
    → (accepting_user env form principal invitation store).1.invitations ≡ store.invitations
unfolding accepting_user record_activity record_activity_with
accepting_user-invitations env form principal invitation store = ground arith

join-Evolves :
    (t : Table ℕ Invitation) (env : Environment) (i : Invitation) (user : User) (store : AuthStore)
    → Evolves t store.invitations
    → lookup ◌==◌ i.id store.invitations ≡ some i
    → same_invitation_status i.status InvitationStatus.pending ≡ true
    → Evolves t (join_organization env i user store).1.invitations
unfolding join_organization record_activity record_activity_with
join-Evolves t env i user store e h pending =
    elim (Bool-cases (is_some (membership_for_user_org user.id i.organization_id store))) [
      | inl member ↦ rw (member, join_organization) e
      | inr new ↦
          let moved =
            Evolves.changed store.invitations i (accepted_copy env i) e h
              (◌⇒◌.accept env pending) in
          let result : (join_organization env i user store).1.invitations
              ≡ put ◌==◌ i.id (accepted_copy env i) store.invitations =
            rw (new, join_organization) (ground arith) in
          rw result moved
    ]

pub accept-Evolves :
    (env : Environment) (token : String) (form : Acceptance) (principal : Option Principal)
    (store : AuthStore)
    → IsIndexed (λ (i : Invitation). i.id) store.invitations
    → Evolves store.invitations (accept_invitation env token form principal store).1.invitations
unfolding accept_invitation
accept-Evolves env token form principal store indexed =
    validated (validate_invitation_token env token store) (validate-IsFound env token store indexed)
  where
    accepting :
        (i : Invitation) (s : AuthStore) (outcome : Outcome User)
        → IsAtHand store.invitations i s
        → same_invitation_status i.status InvitationStatus.pending ≡ true
        → outcome.1.invitations ≡ s.invitations
        → Evolves store.invitations
            (after outcome (λ user t. join_organization env i user t)).1.invitations
    accepting i s (refused status detail, t) h pending e = rw e h.evolves
    accepting i s (returned user, t) h pending e =
        join-Evolves store.invitations env i user t (rw e h.evolves) (rw e h.stored) pending

    validated :
        (outcome : Outcome Invitation)
        → IsFound store.invitations true outcome
        → Evolves store.invitations
            (after outcome (λ i s.
              after
                (accepting_user env form principal i s)
                (λ user t. join_organization env i user t))).1.invitations
    validated outcome (IsFound.stopped status detail s e) = e
    validated outcome (IsFound.at_hand i s h pending) =
        accepting i s (accepting_user env form principal i s) h (pending refl)
          (accepting_user-invitations env form principal i s)

scoped-IsFound :
    (env : Environment) (principal : Principal) (id : ℕ) (store : AuthStore)
    → IsIndexed (λ (i : Invitation). i.id) store.invitations
    → IsFound store.invitations false (scoped_invitation env principal id store)
unfolding scoped_invitation
scoped-IsFound env principal id store indexed =
    elim (Option-cases (lookup ◌==◌ id store.invitations)) [
      | inl absent ↦ rw (absent, scoped_invitation) (IsFound.stopped 404 _ store Evolves.unchanged)
      | inr (i, found) ↦
          let key = lookup-id (λ (i : Invitation). i.id) id i store.invitations indexed found in
          let stored : lookup ◌==◌ i.id store.invitations ≡ some i = cc in
          elim (Bool-cases (i.organization_id == principal.organization.id)) [
            | inl own ↦
                rw (found, own, scoped_invitation)
                  (IsFound.at_hand _ _ (refresh-IsAtHand env i store stored) (λ e. cc))
            | inr foreign ↦
                rw (found, foreign, scoped_invitation)
                  (IsFound.stopped 404 _ store Evolves.unchanged)
          ]
    ]

pub resend-Evolves :
    (env : Environment) (principal : Principal) (id : ℕ) (store : AuthStore)
    → IsIndexed (λ (i : Invitation). i.id) store.invitations
    → Evolves store.invitations (resend_invitation env principal id store).1.invitations
unfolding resend_invitation record_activity record_activity_with
resend-Evolves env principal id store indexed =
    sent (scoped_invitation env principal id store) (scoped-IsFound env principal id store indexed)
  where
    sent :
        (outcome : Outcome Invitation)
        → IsFound store.invitations false outcome
        → Evolves store.invitations (after outcome (resend_step env principal)).1.invitations
    sent outcome (IsFound.stopped status detail s e) = e
    sent outcome (IsFound.at_hand i s h _) = elim (Bool-cases (is_resendable i.status)) [
      | inr closed ↦ rw closed h.evolves
      | inl live ↦ elim (Option-cases (uninvitable principal i.role)) [
        | inr (detail, refusal) ↦ rw (live, refusal) h.evolves
        | inl fine ↦
            rw (live, fine)
              (Evolves.changed s.invitations i (resent_copy env i) h.evolves h.stored
                (◌⇒◌.resend env live))
      ]
    ]

pub cancel-Evolves :
    (env : Environment) (principal : Principal) (id : ℕ) (store : AuthStore)
    → IsIndexed (λ (i : Invitation). i.id) store.invitations
    → Evolves store.invitations (cancel_invitation env principal id store).1.invitations
unfolding cancel_invitation record_activity record_activity_with
cancel-Evolves env principal id store indexed =
    sent (scoped_invitation env principal id store) (scoped-IsFound env principal id store indexed)
  where
    sent :
        (outcome : Outcome Invitation)
        → IsFound store.invitations false outcome
        → Evolves store.invitations (after outcome (cancel_step env principal)).1.invitations
    sent outcome (IsFound.stopped status detail s e) = e
    sent outcome (IsFound.at_hand i s h _) =
        elim (Bool-cases (same_invitation_status i.status InvitationStatus.pending)) [
          | inr closed ↦ rw closed h.evolves
          | inl live ↦ rw live (
              Evolves.changed s.invitations i (canceled_copy env i) h.evolves h.stored
                (◌⇒◌.cancel env live))
        ]

uninvitable_owner :
    (principal : Principal) (role : OrganizationRole)
    → uninvitable principal role ≡ none
    → same_role role OrganizationRole.owner ≡ false
uninvitable_owner principal role h = ground arith

pub invite-Evolves :
    (env : Environment) (principal : Principal) (email : String) (role : OrganizationRole)
    (approval : Bool) (note : Option String) (store : AuthStore)
    → lookup ◌==◌ (env.uuid 0) store.invitations ≡ none
    → Evolves store.invitations (invite env principal email role approval note store).1.invitations
unfolding invite record_activity record_activity_with
invite-Evolves env principal email role approval note store free =
    elim (Option-cases (uninvitable principal role)) [
      | inr (detail, refusal) ↦
          let kept : (invite env principal email role approval note store).1.invitations
              ≡ store.invitations =
            rw (refusal, invite) (ground arith) in
          rw kept Evolves.unchanged
      | inl fine ↦
          let new = new_invitation env principal (normalize_email email) role approval note in
          elim (outcome fine) [
            | inl kept ↦ rw kept Evolves.unchanged
            | inr made ↦ rw made (Evolves.issued new free (uninvitable_owner principal role fine))
          ]
    ]
  where
    outcome :
        uninvitable principal role ≡ none
        → ((invite env principal email role approval note store).1.invitations ≡ store.invitations)
          ⊎ ((invite env principal email role approval note store).1.invitations
              ≡ put ◌==◌
                  (env.uuid 0)
                  (new_invitation env principal (normalize_email email) role approval note)
                  store.invitations)
    outcome fine = rw (fine, invite) (ground arith)
