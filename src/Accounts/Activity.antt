-- ===== src/Accounts/Activity.antt =====
-- app/auth.py: the workspace events of AuthStore, which are appended and never changed.
use Prim.Native.String.{char_at}
use ghost_busters.Prelude.{
  ℕ, String, Bool, ◌&&◌, Option, none, some, List, [], ◌∷◌, ◌++◌, any, first, keep_if,
  if◌then◌else◌, ◌==◌, is_none, or_else, get_or_else,
}
use ghost_busters.Prelude.Text.{contains, lower}
use ghost_busters.Prelude.Json.{Value, Fields, get, truthy, str_value}
use ghost_busters.Prelude.Table.{lookup, values}
use ghost_busters.Prelude.Strip.{strip, replace_char, capitalize}
use ghost_busters.Accounts.Entities.{
  User, OrganizationMembership, ActivityEvent, AuthStore, Environment,
}
use ghost_busters.Accounts.Permissions.{role_label}

-- `any(token in value for token in tokens)`
abbrev pub mentions : String → List String → Bool
mentions value tokens = any (λ (token : String). contains value token) tokens

unfoldable pub activity_category : String → String
unfolding lower
activity_category event_type =
    let value = lower event_type in
    if mentions value (
      "human_decision" ∷ "approval" ∷ "rejection" ∷ "evidence" ∷ "context"
      ∷ "recommendation_modified" ∷ "preferred_action" ∷ [])
    then "Human Decisions"
    else if mentions value
        ("cloud_hunt" ∷ "candidate" ∷ "provider_inventory" ∷ "resource_normalized" ∷ [])
    then "Cloud Hunt"
    else if mentions value ("member" ∷ "invitation" ∷ "user_account" ∷ [])
    then "Members"
    else if mentions value ("role" ∷ "permission" ∷ [])
    then "Roles and Access"
    else if mentions value ("integration" ∷ "github" ∷ "terraform" ∷ [])
    then "Integrations"
    else if contains value "policy"
    then "Policies"
    else if mentions value ("login" ∷ "logout" ∷ "authentication" ∷ [])
    then "Authentication"
    else if mentions value ("workspace" ∷ "registered" ∷ [])
    then "Workspace"
    else "System"

unfoldable pub activity_summary : String → Fields → String
unfolding get strip replace_char capitalize
activity_summary event_type details =
    if truthy (get details "summary")
    then str_value (get details "summary")
    else capitalize (strip (replace_char (char_at "_" 0) (char_at " " 0) event_type))

-- The optional arguments of `record_activity`.
pub record ActivityOptions : Type 0 where
  pub actor_type : Option String
  pub category : Option String
  pub action : Option String
  pub target_type : Option String
  pub target_id : Option String
  pub target_display_name : Option String
  pub result : String
  pub summary : Option String
  pub correlation_id : Option String
  pub related_case_id : Option String
  pub related_run_id : Option String

abbrev pub no_options : ActivityOptions
no_options = record {
  actor_type = none;
  category = none;
  action = none;
  target_type = none;
  target_id = none;
  target_display_name = none;
  result = "success";
  summary = none;
  correlation_id = none;
  related_case_id = none;
  related_run_id = none;
}

-- `str(details.get(key))` where it is truthy
abbrev detail : Fields → String → Option String
detail details key = if truthy (get details key) then some (str_value (get details key)) else none

-- `item.user_id == user_id and item.organization_id == organization_id`
abbrev pub is_membership_of : ℕ → ℕ → OrganizationMembership → Bool
is_membership_of user_id organization_id item =
    item.user_id == user_id && item.organization_id == organization_id

abbrev actor_user : Option ℕ → AuthStore → Option User
actor_user none store = none
actor_user (some id) store = lookup ◌==◌ id store.users_by_id

abbrev actor_membership : ℕ → Option ℕ → AuthStore → Option OrganizationMembership
actor_membership organization_id none store = none
actor_membership organization_id (some id) store =
    first (is_membership_of id organization_id) (values store.memberships)

unfoldable pub activity_event :
    Environment → ℕ → ℕ → String → Option ℕ → Fields → ActivityOptions → AuthStore → ActivityEvent
unfolding get lookup activity_category activity_summary
activity_event env draw organization_id event_type actor_user_id details options store =
    let target_id =
      or_else options.target_id (or_else (detail details "case_id") (detail details "run_id")) in
    record {
      id = env.uuid draw;
      organization_id = organization_id;
      actor_type =
          get_or_else options.actor_type (if is_none actor_user_id then "System" else "User");
      actor_user_id = actor_user_id;
      actor_display_name = elim (actor_user actor_user_id store) [
        | some user ↦ user.display_name
        | none ↦ if is_none actor_user_id then "System" else "Unknown user"
      ];
      actor_role_snapshot = elim (actor_membership organization_id actor_user_id store) [
        | some membership ↦ some (role_label membership.role)
        | none ↦ if is_none actor_user_id then some "System" else none
      ];
      category = get_or_else options.category (activity_category event_type);
      action = get_or_else options.action event_type;
      target_type =
          get_or_else options.target_type
            (if truthy (get details "case_id") then "case" else "workspace");
      target_id = target_id;
      target_display_name =
          get_or_else options.target_display_name
            (get_or_else (or_else (detail details "target_display_name") target_id) "Workspace");
      result = options.result;
      summary = get_or_else options.summary (activity_summary event_type details);
      metadata = details;
      correlation_id = elim options.correlation_id [
        | some id ↦ Value.text id
        | none ↦ get details "correlation_id"
      ];
      related_case_id = or_else options.related_case_id (detail details "case_id");
      related_run_id = or_else options.related_run_id (detail details "run_id");
      created_at = env.now;
      event_type = event_type;
      details = details;
    }

-- `draw` says which of the ids drawn by the call is the event's
unfoldable pub record_activity_with :
    ActivityOptions → Environment → ℕ → ℕ → String → Option ℕ → Fields → AuthStore → AuthStore
record_activity_with options env draw organization_id event_type actor_user_id details store =
    record store {
      activity_events =
          store.activity_events
          ++ activity_event env draw organization_id event_type actor_user_id details options store
            ∷ [];
    }

unfoldable pub record_activity :
    Environment → ℕ → ℕ → String → Option ℕ → Fields → AuthStore → AuthStore
unfolding record_activity_with
record_activity = record_activity_with no_options

unfoldable pub list_activity_events : ℕ → AuthStore → List ActivityEvent
list_activity_events organization_id store =
    keep_if (λ (event : ActivityEvent). event.organization_id == organization_id)
      store.activity_events

unfoldable pub get_activity_event : ℕ → ℕ → AuthStore → Option ActivityEvent
get_activity_event organization_id event_id store =
    first
      (λ (event : ActivityEvent). event.id == event_id && event.organization_id == organization_id)
      store.activity_events
