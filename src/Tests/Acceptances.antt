-- ===== src/Tests/Acceptances.antt =====
-- An invitation that is accepted by a new account, and a later call with another token.
use ghost_busters.Prelude.{◌≡◌, refl, false, none, some, ◌∷◌, ◌==◌}
use ghost_busters.Prelude.Text.{lower}
use ghost_busters.Prelude.Strip.{strip}
use ghost_busters.Prelude.Table.{lookup, put}
use ghost_busters.Model.{OrganizationRole}
use ghost_busters.Accounts.Entities.{
  Invitation, InvitationStatus, AuthStore, Answer, returned, refused,
}
use ghost_busters.Accounts.Names.{normalize_email}
use ghost_busters.Accounts.Activity.{record_activity, record_activity_with}
use ghost_busters.Accounts.Login.{Account}
use ghost_busters.Accounts.Invitations.{validate_invitation_token}
use ghost_busters.Accounts.Acceptances.{Acceptance, accept_invitation}
use ghost_busters.Accounts.Commands.{stop}
use ghost_busters.Accounts.Commands.Settled.{IsOrdered}
use ghost_busters.Accounts.Commands.Once.{is_opened, accept_once}
use ghost_busters.Tests.Organizations.{env, ann, member, principal, accepted_invitation, store}

abbrev open_invitation : Invitation
open_invitation = record accepted_invitation {
  id = 41;
  status = InvitationStatus.pending;
  token_hash = "#t9";
  accepted_at = none;
}

abbrev waiting : AuthStore
waiting = record store { invitations = (41, open_invitation) ∷ store.invitations }

abbrev form : Acceptance
form = record { display_name = some "Bob"; password = some "pw"; confirm_password = some "pw" }

abbrev account_of : Answer Account → Account
account_of (refused status detail) = (
  ann,
  (principal (member 12 11 10 OrganizationRole.owner)).organization,
  member 12 11 10 OrganizationRole.owner,
)
account_of (returned account) = account

abbrev joined : Account
joined = account_of (accept_invitation env "t9" form none waiting).0

joins : (accept_invitation env "t9" form none waiting).0 ≡ returned joined
unfolding accept_invitation lookup put normalize_email strip lower record_activity
    record_activity_with
joins = refl

waiting-IsOrdered : IsOrdered waiting
unfolding lookup
waiting-IsOrdered = (refl, refl, (refl, refl, tt))

accept_once_example :
    (i done : Invitation) × ((validate_invitation_token env "t9" waiting).0 ≡ returned i)
    × (lookup ◌==◌ i.id (accept_invitation env "t9" form none waiting).1.invitations ≡ some done)
    × (done.status ≡ InvitationStatus.accepted)
    × (done.token_hash ≡ "")
    × (is_opened i.id
          (validate_invitation_token env "t9" (accept_invitation env "t9" form none waiting).1).0
        ≡ false)
accept_once_example =
    accept_once env env "t9" "t9" form none joined waiting
      (accept_invitation env "t9" form none waiting).1 waiting-IsOrdered joins stop
