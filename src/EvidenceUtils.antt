-- ===== src/EvidenceUtils.antt =====
-- core/evidence_utils.py: how the services read the collected evidence.
use ghost_busters.Prelude.{
  String, Bool, true, false, not, ◌&&◌, ◌||◌, Option, none, some, List, [], ◌∷◌, first, any,
  if◌then◌else◌, is_none,
}
use ghost_busters.Prelude.Text.{◌==◌, lower, mem}
use ghost_busters.Prelude.Int.{ℤ, pos, ◌-ℤ◌, leb_ℤ, ltb_ℤ, whole}
use ghost_busters.Prelude.Json.{
  Value, Fields, end, null, text, array, nil, object, get, as_object, truthy, as_number, is_present,
  str_value,
}
use ghost_busters.Model.{EvidenceItem, is_unavailable}

unfoldable pub item_by_source : List EvidenceItem → String → Option EvidenceItem
item_by_source evidence source = first (λ item. item.source == source) evidence

abbrev value_of : Option EvidenceItem → Fields
value_of none = end
value_of (some item) = as_object item.value

-- An item with no mapping for a value reads as the empty mapping.
unfoldable pub value_for : List EvidenceItem → String → Fields
unfolding item_by_source
value_for evidence source = value_of (item_by_source evidence source)

abbrev is_absent : Option EvidenceItem → Bool
is_absent none = true
is_absent (some item) = is_unavailable item.freshness_status

unfoldable pub source_unavailable : List EvidenceItem → String → Bool
unfolding item_by_source
source_unavailable evidence source = is_absent (item_by_source evidence source)

abbrev pub required_pricing_fields : List String
required_pricing_fields =
    "source" ∷ "region" ∷ "resource_type" ∷ "pricing_model" ∷ "checked_at" ∷ "assumptions"
    ∷ "currency" ∷ []

-- `value in (None, "", [])`
abbrev is_blank : Value → Bool
is_blank null = true
is_blank (text s) = s == ""
is_blank (array nil) = true
is_blank _ = false

abbrev is_verified_mode : Option String → Bool
is_verified_mode none = false
is_verified_mode (some mode) = mem mode ("live" ∷ "verified_cached" ∷ [])

abbrev is_object : Value → Bool
is_object (object _) = true
is_object _ = false

abbrev lacks_field : EvidenceItem → String → Bool
lacks_field item field =
    is_blank (get (as_object item.value) field) && is_blank (get item.metadata field)

abbrev if_verified : EvidenceItem → Option EvidenceItem
if_verified item =
    if is_unavailable item.freshness_status || not (is_verified_mode item.source_mode)
    then none
    else if not (is_object item.value)
    then none
    else if any (lacks_field item) required_pricing_fields
    then none
    else if is_none (as_number (get (as_object item.value) "current_monthly_cost"))
        || is_none (as_number (get (as_object item.value) "proposed_monthly_cost"))
    then none
    else some item

abbrev if_priced : Option EvidenceItem → Option EvidenceItem
if_priced none = none
if_priced (some item) = if_verified item

unfoldable pub verified_pricing_item : List EvidenceItem → Option EvidenceItem
unfolding item_by_source get
verified_pricing_item evidence = if_priced (item_by_source evidence "pricing")

-- The pair of one mapping's two numbers; what is no number is `None`.
abbrev pub number_pair : Fields → String → String → Option ℤ × Option ℤ
number_pair fs a b = (as_number (get fs a), as_number (get fs b))

abbrev costs_of : Option EvidenceItem → Option ℤ × Option ℤ
costs_of none = (none, none)
costs_of (some item) =
    number_pair (as_object item.value) "current_monthly_cost" "proposed_monthly_cost"

unfoldable pub verified_pricing_values : List EvidenceItem → Option ℤ × Option ℤ
unfolding verified_pricing_item get
verified_pricing_values evidence = costs_of (verified_pricing_item evidence)

unfoldable pub utilization_values : List EvidenceItem → Option ℤ × Option ℤ
unfolding value_for get
utilization_values evidence =
    number_pair (value_for evidence "utilization") "average_cpu_pct" "peak_cpu_pct"

unfoldable pub pricing_values : List EvidenceItem → Option ℤ × Option ℤ
unfolding value_for get
pricing_values evidence =
    number_pair (value_for evidence "pricing") "current_monthly_cost" "proposed_monthly_cost"

unfoldable pub active_dependencies : List EvidenceItem → Bool
unfolding value_for get
active_dependencies evidence =
    truthy (get (value_for evidence "dependencies") "has_active_dependencies")

abbrev status_word : Value → Option String
status_word v = if is_present v then some (lower (str_value v)) else none

unfoldable pub jira_status : List EvidenceItem → Option String
unfolding value_for get lower
jira_status evidence = status_word (get (value_for evidence "jira") "status")

abbrev pub above : ℤ → Option ℤ → Bool
above bound none = false
above bound (some x) = ltb_ℤ bound x

abbrev pub at_least : ℤ → Option ℤ → Bool
at_least bound none = false
at_least bound (some x) = leb_ℤ bound x

abbrev pub at_most : ℤ → Option ℤ → Bool
at_most bound none = false
at_most bound (some x) = leb_ℤ x bound

-- `days_threshold` is 7, which no caller changes.
unfoldable pub recent_git_activity : List EvidenceItem → Bool
unfolding value_for get
recent_git_activity evidence =
    let git = value_for evidence "git_activity" in
    above (pos 0) (as_number (get git "recent_commit_count"))
    || at_most (whole 7) (as_number (get git "days_since_last_commit"))

abbrev difference : Option ℤ × Option ℤ → ℤ
difference (some current, some proposed) = current -ℤ proposed
difference (_, _) = pos 0

unfoldable pub monthly_savings : List EvidenceItem → ℤ
unfolding pricing_values ◌-ℤ◌
monthly_savings evidence = difference (pricing_values evidence)
