-- ===== src/Accounts/Commands/Once.antt =====
-- app/auth.py: an invitation that has been accepted is not accepted again.
use ghost_busters.Prelude.{
  ℕ, ◌≡◌, ◌≢◌, ==_iff, refl, Bool, true, false, String, Option, some, ◌==◌, arith, inl, inr,
  Bool-cases, is_some,
}
use ghost_busters.Prelude.Table.{lookup, put, lookup-put_same}
use ghost_busters.Accounts.Entities.{
  User, Invitation, InvitationStatus, AuthStore, Environment, Answer, Outcome, refused, returned,
  after, same_invitation_status,
}
use ghost_busters.Accounts.Permissions.{Principal}
use ghost_busters.Accounts.Activity.{record_activity, record_activity_with}
use ghost_busters.Accounts.Login.{Account}
use ghost_busters.Accounts.Invitations.{validate_invitation_token, membership_for_user_org}
use ghost_busters.Accounts.Acceptances.{
  Acceptance, accept_invitation, accepting_user, join_organization, accepted_copy,
}
use ghost_busters.Accounts.Invitations.Lifecycle.{IsFound, validate-IsFound}
use ghost_busters.Accounts.Invitations.Evolution.{accept-Evolves}
use ghost_busters.Accounts.Commands.{◌⟶*◌}
use ghost_busters.Accounts.Commands.Settled.{
  IsOrdered, Evolves-IsIndexed, Evolves-lookup_settled, calls_keep_settled,
}

join-lookup :
    (env : Environment) (i : Invitation) (user : User) (store : AuthStore) (account : Account)
    → (join_organization env i user store).0 ≡ returned account
    → lookup ◌==◌ i.id (join_organization env i user store).1.invitations
      ≡ some (accepted_copy env i)
unfolding join_organization record_activity record_activity_with
join-lookup env i user store account h =
    elim (Bool-cases (is_some (membership_for_user_org user.id i.organization_id store))) [
      | inl member ↦ cc (rw (member, join_organization) at h)
      | inr new ↦
          let result : (join_organization env i user store).1.invitations
              ≡ put ◌==◌ i.id (accepted_copy env i) store.invitations =
            rw (new, join_organization) (ground arith) in
          rw result (lookup-put_same i.id (accepted_copy env i) store.invitations)
    ]

-- After an acceptance that succeeds, the invitation that the token has opened is stored accepted.
accept-lookup :
    (env : Environment) (token : String) (form : Acceptance) (principal : Option Principal)
    (store : AuthStore) (account : Account)
    → (accept_invitation env token form principal store).0 ≡ returned account
    → (i : Invitation) × ((validate_invitation_token env token store).0 ≡ returned i)
      × (lookup ◌==◌ i.id (accept_invitation env token form principal store).1.invitations
          ≡ some (accepted_copy env i))
unfolding accept_invitation
accept-lookup env token form principal store account =
    validated (validate_invitation_token env token store)
  where
    accepting :
        (i : Invitation) (outcome : Outcome User)
        → (after outcome (λ user t. join_organization env i user t)).0 ≡ returned account
        → lookup ◌==◌ i.id (after outcome (λ user t. join_organization env i user t)).1.invitations
          ≡ some (accepted_copy env i)
    accepting i (refused status detail, t) h = cc
    accepting i (returned user, t) h = join-lookup env i user t account h

    validated :
        (outcome : Outcome Invitation)
        → (after outcome (λ i s.
            after
              (accepting_user env form principal i s)
              (λ user t. join_organization env i user t))).0
          ≡ returned account
        → (i : Invitation) × (outcome.0 ≡ returned i)
          × (lookup ◌==◌ i.id
                (after outcome (λ i s.
                  after
                    (accepting_user env form principal i s)
                    (λ user t. join_organization env i user t))).1.invitations
              ≡ some (accepted_copy env i))
    validated (refused status detail, s) h = cc
    validated (returned i, s) h = (i, refl, accepting i (accepting_user env form principal i s) h)

-- A token never opens an invitation that is stored accepted.
validate-not_accepted :
    (env : Environment) (token : String) (store : AuthStore) (done v : Invitation)
    → IsOrdered store
    → lookup ◌==◌ done.id store.invitations ≡ some done
    → done.status ≡ InvitationStatus.accepted
    → (validate_invitation_token env token store).0 ≡ returned v
    → v.id ≢ done.id
validate-not_accepted env token store done v ordered stored accepted =
    opened (validate_invitation_token env token store) (validate-IsFound env token store ordered)
  where
    opened :
        (outcome : Outcome Invitation)
        → IsFound store.invitations true outcome
        → outcome.0 ≡ returned v
        → v.id ≢ done.id
    opened outcome (IsFound.stopped status detail s e) h = cc
    opened outcome (IsFound.at_hand j s at pending) h = λ same.
        let one : j ≡ v = cc in
        let still =
          Evolves-lookup_settled done.id done store.invitations s.invitations stored
            (rw accepted refl) at.evolves in
        let here : lookup ◌==◌ done.id s.invitations ≡ some j = rw (← same, ← one) at.stored in
        let both : done ≡ j = cc in
        let waits = pending refl in
        let settled : same_invitation_status j.status InvitationStatus.pending ≡ false =
          rw (← both, accepted) refl in
        cc

-- whether the answer is the invitation with this id
abbrev pub is_opened : ℕ → Answer Invitation → Bool
is_opened id (refused status detail) = false
is_opened id (returned v) = v.id == id

-- An invitation gives at most one membership: where invitations are stored under distinct ids, after an
-- acceptance that succeeds and any later calls, answered or refused, whose new ids are not in use, the
-- invitation that the token has opened stands accepted and without a token, and no token opens it again.
pub accept_once :
    (env later : Environment) (token other : String) (form : Acceptance)
    (principal : Option Principal) (account : Account) (store last : AuthStore)
    → IsOrdered store
    → (accept_invitation env token form principal store).0 ≡ returned account
    → (accept_invitation env token form principal store).1 ⟶* last
    → (i done : Invitation) × ((validate_invitation_token env token store).0 ≡ returned i)
      × (lookup ◌==◌ i.id last.invitations ≡ some done)
      × (done.status ≡ InvitationStatus.accepted)
      × (done.token_hash ≡ "")
      × (is_opened i.id (validate_invitation_token later other last).0 ≡ false)
accept_once env later token other form principal account store last ordered h path =
    let (i, valid, stored) = accept-lookup env token form principal store account h in
    let after_call =
      Evolves-IsIndexed _ _ ordered (accept-Evolves env token form principal store ordered) in
    let kept = calls_keep_settled i.id (accepted_copy env i) after_call stored refl path in
    (
      i,
      accepted_copy env i,
      valid,
      kept.1,
      refl,
      refl,
      not_opened (accepted_copy env i) kept.0 kept.1 refl
          (validate_invitation_token later other last).0 refl,
    )
  where
    not_opened :
        (done : Invitation)
        → IsOrdered last
        → lookup ◌==◌ done.id last.invitations ≡ some done
        → done.status ≡ InvitationStatus.accepted
        → (answer : Answer Invitation) → (validate_invitation_token later other last).0 ≡ answer
        → is_opened done.id answer ≡ false
    not_opened done kept stored accepted (refused status detail) e = refl
    not_opened done kept stored accepted (returned v) e =
        let apart = validate-not_accepted later other last done v kept stored accepted e in
        elim (Bool-cases (v.id == done.id)) [
          | inl same ↦ absurd (apart ((==_iff _ _).0 same))
          | inr differ ↦ differ
        ]
