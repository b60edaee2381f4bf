-- ===== src/Accounts/Entities.antt =====
-- The accounts part of app/models.py, and the state, the answers and the surroundings of AuthStore in
-- app/auth.py. The store is the one of a deployment without a database.
use ghost_busters.Prelude.{ℕ, String, Bool, true, false, Option, List, ◌==◌}
use ghost_busters.Prelude.Json.{Value, Fields}
use ghost_busters.Prelude.Table.{Table}
use ghost_busters.Model.{OrganizationRole}

-- AccountStatus, OrganizationStatus and MembershipStatus, which have the same two members
pub data AccountStatus : Type 0 where
  active disabled : AccountStatus

pub data InvitationStatus : Type 0 where
  pending accepted expired canceled : InvitationStatus

pub record Organization : Type 0 where
  pub id : ℕ
  pub name : String
  pub slug : String
  pub status : AccountStatus
  pub timezone : String
  pub created_at : ℕ
  pub updated_at : ℕ
  pub version : ℕ

pub record User : Type 0 where
  pub id : ℕ
  pub email : String
  pub display_name : String
  pub status : AccountStatus
  pub created_at : ℕ
  pub updated_at : ℕ
  pub last_login_at : Option ℕ

pub record OrganizationMembership : Type 0 where
  pub id : ℕ
  pub organization_id : ℕ
  pub user_id : ℕ
  pub role : OrganizationRole
  pub approval_permission_enabled : Bool
  pub status : AccountStatus
  pub invited_by_user_id : Option ℕ
  pub joined_at : Option ℕ
  pub created_at : ℕ
  pub updated_at : ℕ

pub record Invitation : Type 0 where
  pub id : ℕ
  pub organization_id : ℕ
  pub email : String
  pub normalized_email : String
  pub role : OrganizationRole
  pub approval_permission_enabled : Bool
  pub status : InvitationStatus
  pub token_hash : String
  pub expires_at : ℕ
  pub accepted_at : Option ℕ
  pub canceled_at : Option ℕ
  pub invited_by_user_id : ℕ
  pub invited_by_membership_id : Option ℕ
  pub created_at : ℕ
  pub updated_at : ℕ
  pub resend_count : ℕ
  pub last_sent_at : Option ℕ
  pub metadata : Fields

-- One entry of `activity_events`.
pub record ActivityEvent : Type 0 where
  pub id : ℕ
  pub organization_id : ℕ
  pub actor_type : String
  pub actor_user_id : Option ℕ
  pub actor_display_name : String
  pub actor_role_snapshot : Option String
  pub category : String
  pub action : String
  pub target_type : String
  pub target_id : Option String
  pub target_display_name : String
  pub result : String
  pub summary : String
  pub metadata : Fields
  pub correlation_id : Value
  pub related_case_id : Option String
  pub related_run_id : Option String
  pub created_at : ℕ
  pub event_type : String
  pub details : Fields

-- AuthStore; a user is held under the id and under the email address.
pub record AuthStore : Type 0 where
  pub users_by_id : Table ℕ User
  pub users_by_email : Table String User
  pub password_hashes : Table ℕ String
  pub organizations : Table ℕ Organization
  pub memberships : Table ℕ OrganizationMembership
  pub invitations : Table ℕ Invitation
  pub activity_events : List ActivityEvent
  pub login_failures : Table String (List ℕ)

-- What a call reads from outside: the settings, the clock, the ids of `uuid4` in the order in which
-- the call draws them, the random token, and the library's hashes and time zones. `hash_password` is
-- the hash under the salt that this call draws.
pub record Environment : Type 0 where
  pub now : ℕ
  pub uuid : ℕ → ℕ
  pub token : String
  pub hash_password : String → String
  pub verify_password : String → String → Bool
  pub hash_token : String → String
  pub is_timezone : String → Bool
  pub login_rate_limit_window_seconds : ℕ
  pub login_rate_limit_attempts : ℕ
  pub invitation_expiry_seconds : ℕ

-- An HTTPException with its status and detail, or the value returned.
pub data Answer {ℓ} (A : Type ℓ) : Type ℓ where
  refused : ℕ → String → Answer A
  returned : A → Answer A

-- A call may change the store and raise after that, so the store stands beside the answer.
abbrev pub Outcome {ℓ} : Type ℓ → Type ℓ
Outcome A = Answer A × AuthStore

-- The statements after a call that may raise.
abbrev pub after {ℓ κ} :
    {A : Type ℓ} {B : Type κ} → Outcome A → (A → AuthStore → Outcome B) → Outcome B
after (refused status detail, store) continue = (refused status detail, store)
after (returned a, store) continue = continue a store

abbrev pub same_account_status : AccountStatus → AccountStatus → Bool
same_account_status AccountStatus.active AccountStatus.active = true
same_account_status AccountStatus.disabled AccountStatus.disabled = true
same_account_status _ _ = false

abbrev invitation_rank : InvitationStatus → ℕ
invitation_rank InvitationStatus.pending = 0
invitation_rank InvitationStatus.accepted = 1
invitation_rank InvitationStatus.expired = 2
invitation_rank InvitationStatus.canceled = 3

abbrev pub same_invitation_status : InvitationStatus → InvitationStatus → Bool
same_invitation_status a b = invitation_rank a == invitation_rank b

abbrev role_rank : OrganizationRole → ℕ
role_rank OrganizationRole.owner = 0
role_rank OrganizationRole.admin = 1
role_rank OrganizationRole.reviewer = 2
role_rank OrganizationRole.viewer = 3

abbrev pub same_role : OrganizationRole → OrganizationRole → Bool
same_role a b = role_rank a == role_rank b
