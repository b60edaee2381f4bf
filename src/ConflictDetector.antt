-- ===== src/ConflictDetector.antt =====
-- core/conflict_detector.py: the conflicts that the evidence shows.
use ghost_busters.Prelude.{
  String, Bool, false, ◌&&◌, Option, none, some, List, [], ◌∷◌, note, is_some,
}
use ghost_busters.Prelude.Text.{◌==◌}
use ghost_busters.Prelude.Int.{whole}
use ghost_busters.Prelude.Json.{Value, null, object}
use ghost_busters.Model.{EvidenceItem, ConflictSeverity, ConflictRecord, is_stale}
use ghost_busters.EvidenceUtils.{
  item_by_source, value_for, utilization_values, active_dependencies, jira_status,
  recent_git_activity, at_least, at_most,
}

-- `status == word` for an optional status
abbrev pub is_word : Option String → String → Bool
is_word none word = false
is_word (some status) word = status == word

abbrev value_or_null : Option EvidenceItem → Value
value_or_null none = null
value_or_null (some item) = item.value

abbrev stale_item : Option EvidenceItem → Bool
stale_item none = false
stale_item (some item) = is_stale item.freshness_status

abbrev pub jira_git_claim : String
jira_git_claim = "Jira completed but Git activity is recent"

abbrev pub dependency_claim : String
dependency_claim = "Active dependency risk"

abbrev jira_git_conflict : List EvidenceItem → ConflictRecord
jira_git_conflict evidence = record {
  claim = jira_git_claim;
  sources = "jira" ∷ "git_activity" ∷ [];
  values = object (value_for evidence "jira") ∷ object (value_for evidence "git_activity") ∷ [];
  severity = ConflictSeverity.high;
  explanation = "Completed Jira work conflicts with recent code activity.";
}

abbrev jira_utilization_conflict : List EvidenceItem → ConflictRecord
jira_utilization_conflict evidence = record {
  claim = "Jira inactive but utilization is high";
  sources = "jira" ∷ "utilization" ∷ [];
  values = object (value_for evidence "jira") ∷ object (value_for evidence "utilization") ∷ [];
  severity = ConflictSeverity.high;
  explanation = "Inactive project status conflicts with high observed usage.";
}

abbrev peak_conflict : List EvidenceItem → ConflictRecord
peak_conflict evidence = record {
  claim = "Low average CPU but high peak CPU";
  sources = "utilization" ∷ [];
  values = object (value_for evidence "utilization") ∷ [];
  severity = ConflictSeverity.medium;
  explanation = "Average utilization looks low, but peak demand may not have enough headroom.";
}

abbrev dependency_conflict : List EvidenceItem → ConflictRecord
dependency_conflict evidence = record {
  claim = dependency_claim;
  sources = "dependencies" ∷ [];
  values = value_or_null (item_by_source evidence "dependencies") ∷ [];
  severity = ConflictSeverity.high;
  explanation = "Dependency evidence shows active downstream consumers.";
}

abbrev stale_conflict : List EvidenceItem → ConflictRecord
stale_conflict evidence = record {
  claim = "Stale utilization data used for current recommendation";
  sources = "utilization" ∷ [];
  values = value_or_null (item_by_source evidence "utilization") ∷ [];
  severity = ConflictSeverity.medium;
  explanation = "Utilization evidence is stale and should not drive an automated recommendation.";
}

unfoldable pub detect_conflicts : List EvidenceItem → List ConflictRecord
detect_conflicts evidence =
    let status = jira_status evidence in
    let avg_cpu : Option _ = (utilization_values evidence).0 in
    let peak_cpu : Option _ = (utilization_values evidence).1 in
    note (is_word status "completed" && recent_git_activity evidence) (jira_git_conflict evidence) (
      note (is_word status "inactive" && at_least (whole 75) peak_cpu)
        (jira_utilization_conflict evidence)
        (note (at_most (whole 30) avg_cpu && at_least (whole 75) peak_cpu) (peak_conflict evidence)
          (note (is_some (item_by_source evidence "dependencies") && active_dependencies evidence)
            (dependency_conflict evidence)
            (note (stale_item (item_by_source evidence "utilization")) (stale_conflict evidence)
              []))))
