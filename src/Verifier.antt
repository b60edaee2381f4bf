-- ===== src/Verifier.antt =====
-- core/verifier.py: the checks that challenge the preferred action. The explanations are left out.
pub mod Critical
use ghost_busters.Prelude.{
  String, Bool, true, false, not, ◌&&◌, ◌||◌, Option, none, some, List, [], ◌∷◌, map, any, is_empty,
  if◌then◌else◌, is_none, keep_if, ltb,
}
use ghost_busters.Prelude.Text.{◌==◌}
use ghost_busters.Prelude.Int.{pos, leb_ℤ, ltb_ℤ, whole}
use ghost_busters.Model.{
  EvidenceItem, TerraformResourceChange, ConflictRecord, Alternative, Action, same_action,
  is_remediation, VerifierFinding, VerifierStatus, VerifierSeverity, is_unavailable, is_stale,
}
use ghost_busters.EvidenceUtils.{
  item_by_source, utilization_values, pricing_values, active_dependencies, monthly_savings,
  at_least,
}
use ghost_busters.ConflictDetector.{jira_git_claim}
use ghost_busters.AlternativeGenerator.{is_production}

-- `add(check, "failed" if bad else "passed", severity if bad else "info", ..)`
abbrev check : String → Bool → VerifierSeverity → List String → VerifierFinding
check name bad severity sources = record {
  check_name = name;
  status = if bad then VerifierStatus.failed else VerifierStatus.passed;
  severity = if bad then severity else VerifierSeverity.info;
  evidence_sources = sources;
}

abbrev stale_utilization : Option EvidenceItem → Bool
stale_utilization none = false
stale_utilization (some item) = is_stale item.freshness_status

-- `not value` for an optional text
abbrev pub is_blank_text : Option String → Bool
is_blank_text none = true
is_blank_text (some s) = s == ""

-- RELIABILITY_THRESHOLD is 0.75.
abbrev unreliable : EvidenceItem → Bool
unreliable item = not (is_unavailable item.freshness_status) && ltb item.reliability 7500

module _ (resource : TerraformResourceChange) (evidence : List EvidenceItem)
    (conflicts : List ConflictRecord) (preferred : Alternative) where
  abbrev preferred_remediation : Bool
  preferred_remediation = is_remediation preferred.action

  abbrev downsizing : Bool
  downsizing = same_action preferred.action Action.downsize

  abbrev pub git_conflict : Bool
  git_conflict = any (λ conflict. conflict.claim == jira_git_claim) conflicts

  abbrev pub no_headroom : Bool
  no_headroom =
      is_none (utilization_values evidence).1 || at_least (whole 70) (utilization_values evidence).1

  abbrev unpriced : Bool
  unpriced = is_none (pricing_values evidence).0 || is_none (pricing_values evidence).1

  abbrev context_finding : VerifierFinding
  context_finding = record {
    check_name = "missing_ownership_or_project_context";
    status =
        if is_none (item_by_source evidence "jira")
        then VerifierStatus.warning
        else VerifierStatus.passed;
    severity =
        if is_none (item_by_source evidence "jira")
        then VerifierSeverity.medium
        else VerifierSeverity.info;
    evidence_sources = "jira" ∷ [];
  }

  abbrev low_reliability : List String
  low_reliability = map (λ item. item.source) (keep_if unreliable evidence)

  -- SAVINGS_THRESHOLD is 20.0.
  unfoldable pub run_verifier : List VerifierFinding
  run_verifier =
      check "production_environment" (preferred_remediation && is_production resource)
        VerifierSeverity.critical ("terraform" ∷ [])
      ∷ check "terraform_delete_or_replacement" (preferred_remediation && resource.destructive)
          VerifierSeverity.critical ("terraform" ∷ [])
      ∷ check "active_dependencies" (preferred_remediation && active_dependencies evidence)
          VerifierSeverity.critical ("dependencies" ∷ [])
      ∷ check "peak_utilization_headroom" (downsizing && no_headroom) VerifierSeverity.critical
          ("utilization" ∷ [])
      ∷ check "missing_utilization" (downsizing && is_none (item_by_source evidence "utilization"))
          VerifierSeverity.critical ("utilization" ∷ [])
      ∷ check "stale_utilization"
          (downsizing && stale_utilization (item_by_source evidence "utilization"))
          VerifierSeverity.high ("utilization" ∷ [])
      ∷ context_finding
      ∷ check "jira_git_conflict" (preferred_remediation && git_conflict) VerifierSeverity.critical
          ("jira" ∷ "git_activity" ∷ [])
      ∷ check "minimum_monthly_savings" (downsizing && ltb_ℤ (monthly_savings evidence) (whole 20))
          VerifierSeverity.high ("pricing" ∷ [])
      ∷ check "positive_savings"
          (downsizing && (unpriced || leb_ℤ (monthly_savings evidence) (pos 0)))
          VerifierSeverity.critical ("pricing" ∷ [])
      ∷ check "proposed_instance_type_present"
          (downsizing && is_blank_text resource.proposed_instance_type) VerifierSeverity.critical
          ("terraform" ∷ [])
      ∷ check "evidence_reliability_threshold"
          (preferred_remediation && not (is_empty low_reliability)) VerifierSeverity.high
          low_reliability
      ∷ []
