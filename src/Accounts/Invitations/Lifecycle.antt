-- ===== src/Accounts/Invitations/Lifecycle.antt =====
-- app/auth.py: the states of an invitation, and the invitations of the store over its calls.
use ghost_busters.Prelude.{
  ℕ, ◌≡◌, Bool, true, false, String, none, some, ◌==◌, inl, inr, Bool-cases, Option-cases,
}
use ghost_busters.Prelude.Table.{Table, lookup, put, lookup-put_same}
use ghost_busters.Prelude.Table.Indexed.{IsIndexed, first-lookup}
use ghost_busters.Model.{OrganizationRole}
use ghost_busters.Accounts.Entities.{
  Invitation, InvitationStatus, AuthStore, Environment, Outcome, refused, returned,
  same_invitation_status, same_role,
}
use ghost_busters.Accounts.Activity.{record_activity, record_activity_with}
use ghost_busters.Accounts.Invitations.{
  is_overdue, expired_copy, resent_copy, canceled_copy, is_resendable, refresh_invitation_status,
  invitation_for_token, still_pending, validate_invitation_token,
}
use ghost_busters.Accounts.Acceptances.{accepted_copy}

-- One change of an invitation, with the state that it starts from.
infix 10 ◌⇒◌
pub data ◌⇒◌ (i : Invitation) : Invitation → Type 0 where
  expire : (env : Environment) → is_overdue env i ≡ true → i ⇒ expired_copy env i
  accept :
      (env : Environment)
      → same_invitation_status i.status InvitationStatus.pending ≡ true
      → i ⇒ accepted_copy env i
  resend : (env : Environment) → is_resendable i.status ≡ true → i ⇒ resent_copy env i
  cancel :
      (env : Environment)
      → same_invitation_status i.status InvitationStatus.pending ≡ true
      → i ⇒ canceled_copy env i

-- The invitations after a call: changed by steps of invitations that are there, or one issued under
-- an id that is free.
pub data Evolves (t : Table ℕ Invitation) : Table ℕ Invitation → Type 0 where
  unchanged : Evolves t t
  changed :
      (u : Table ℕ Invitation) (old new : Invitation)
      → Evolves t u
      → lookup ◌==◌ old.id u ≡ some old
      → old ⇒ new
      → Evolves t (put ◌==◌ old.id new u)
  issued :
      (new : Invitation)
      → lookup ◌==◌ new.id t ≡ none
      → same_role new.role OrganizationRole.owner ≡ false
      → Evolves t (put ◌==◌ new.id new t)

-- A call that works on one invitation: how the table has changed so far, and that the invitation
-- at hand is the stored one.
pub record IsAtHand (t : Table ℕ Invitation) (i : Invitation) (store : AuthStore) : Type 0 where
  pub evolves : Evolves t store.invitations
  pub stored : lookup ◌==◌ i.id store.invitations ≡ some i

pub refresh-IsAtHand :
    (env : Environment) (i : Invitation) (store : AuthStore)
    → lookup ◌==◌ i.id store.invitations ≡ some i
    → IsAtHand store.invitations
        (refresh_invitation_status env i store).0
        (refresh_invitation_status env i store).1
unfolding refresh_invitation_status record_activity record_activity_with
refresh-IsAtHand env i store h = elim (Bool-cases (is_overdue env i)) [
  | inl overdue ↦
      rw (overdue, refresh_invitation_status)
        (record {
          evolves =
              Evolves.changed store.invitations i (expired_copy env i) Evolves.unchanged h
                (◌⇒◌.expire env overdue);
          stored = lookup-put_same i.id (expired_copy env i) store.invitations;
        })
  | inr fine ↦
      rw (fine, refresh_invitation_status) (record { evolves = Evolves.unchanged; stored = h })
]

-- What a call that finds an invitation leaves to the statements after it.
pub data IsFound (t : Table ℕ Invitation) (pending : Bool) : Outcome Invitation → Type 0 where
  stopped :
      (status : ℕ) (detail : String) (s : AuthStore)
      → Evolves t s.invitations
      → IsFound t pending (refused status detail, s)
  at_hand :
      (i : Invitation) (s : AuthStore)
      → IsAtHand t i s
      → (pending ≡ true → same_invitation_status i.status InvitationStatus.pending ≡ true)
      → IsFound t pending (returned i, s)

still_pending-IsFound :
    (t : Table ℕ Invitation) (r : Invitation × AuthStore)
    → IsAtHand t r.0 r.1
    → IsFound t true (still_pending r)
still_pending-IsFound t r h =
    elim (Bool-cases (same_invitation_status r.0.status InvitationStatus.pending)) [
      | inl yes_pending ↦ rw yes_pending (IsFound.at_hand r.0 r.1 h (λ _. yes_pending))
      | inr other ↦ rw other (IsFound.stopped 409 _ r.1 h.evolves)
    ]

pub validate-IsFound :
    (env : Environment) (token : String) (store : AuthStore)
    → IsIndexed (λ (i : Invitation). i.id) store.invitations
    → IsFound store.invitations true (validate_invitation_token env token store)
unfolding validate_invitation_token invitation_for_token
validate-IsFound env token store indexed =
    elim (Option-cases (invitation_for_token env token store)) [
      | inl absent ↦
          rw (absent, validate_invitation_token) (IsFound.stopped 404 _ store Evolves.unchanged)
      | inr (i, found) ↦
          let stored =
            first-lookup (λ (i : Invitation). i.id) _ i store.invitations indexed found in
          rw (found, validate_invitation_token)
            (still_pending-IsFound store.invitations _ (refresh-IsAtHand env i store stored))
    ]
