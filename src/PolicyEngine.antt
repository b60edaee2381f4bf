-- ===== src/PolicyEngine.antt =====
-- core/policy_engine.py: the deterministic hard safety policy.
pub mod Safety
pub mod Shape
use ghost_busters.Prelude.{
  ℕ, String, Bool, true, false, not, ◌&&◌, ◌||◌, Option, none, some, List, [], ◌∷◌, ◌++◌, map, note,
  any, is_empty, if◌then◌else◌, is_none, keep_if,
}
use ghost_busters.Prelude.Text.{append, contains, sorted_set}
use ghost_busters.Prelude.Int.{ℤ, pos, leb_ℤ, whole}
use ghost_busters.Prelude.Ratio.{Ratio, ltb_ratio, fixed2}
use ghost_busters.Model.{
  EvidenceItem, TerraformResourceChange, ConflictRecord, ConflictSeverity, MissingEvidenceRecord,
  Alternative, Action, same_action, is_remediation, VerifierFinding, is_critical_failure,
  PolicyResult, PolicyStatus, PolicyEngine, PolicyViolation, is_high,
}
use ghost_busters.Prelude.Text.{◌==◌}
use ghost_busters.EvidenceUtils.{utilization_values, active_dependencies, monthly_savings, at_least}
use ghost_busters.AlternativeGenerator.{is_production}

unfoldable pub violation_code : String → String
violation_code reason =
    if contains reason "Production"
    then "PRODUCTION_REMEDIATION_BLOCKED"
    else if contains reason "Terraform delete"
    then "DESTRUCTIVE_ACTION_BLOCKED"
    else if contains reason "ownership"
    then "UNKNOWN_OWNERSHIP"
    else if contains reason "dependency"
    then "ACTIVE_DEPENDENCY"
    else if contains reason "Missing critical" || contains reason "Missing critical utilization"
    then "MISSING_CRITICAL_EVIDENCE"
    else if contains reason "verifier"
    then "CRITICAL_VERIFIER_FAILURE"
    else if contains reason "Confidence"
    then "LOW_CONFIDENCE"
    else "POLICY_VIOLATION"

abbrev evaluated_rule_names : List String
evaluated_rule_names =
    "terraform_delete_blocks_remediation" ∷ "replacement_containing_delete_blocks_remediation"
    ∷ "production_blocks_automated_remediation" ∷ "active_dependency_prevents_remediation"
    ∷ "missing_critical_utilization_prevents_downsizing"
    ∷ "high_peak_utilization_prevents_downsizing" ∷ "positive_savings_required_for_downsizing"
    ∷ "human_approval_required_for_remediation" ∷ "known_ownership_required_for_remediation"
    ∷ "minimum_confidence_required_for_remediation" ∷ []

abbrev pub below : Option Ratio → Ratio → Bool
below none minimum = false
below (some score) minimum = ltb_ratio score minimum

abbrev confidence_reason : Option Ratio → Ratio → String
confidence_reason none minimum = ""
confidence_reason (some score) minimum = append "Confidence " (
    append (fixed2 score)
      (append " is below the required threshold " (append (fixed2 minimum) ".")))

abbrev severity_name : ConflictSeverity → String
severity_name ConflictSeverity.low = "low"
severity_name ConflictSeverity.medium = "medium"
severity_name ConflictSeverity.high = "high"

abbrev missing_utilization : List MissingEvidenceRecord → Bool
missing_utilization = any (λ item. item.source == "utilization" && item.critical)

module _ (resource : TerraformResourceChange) (evidence : List EvidenceItem)
    (missing_evidence : List MissingEvidenceRecord) (preferred : Alternative)
    (verifier_findings : List VerifierFinding) (conflicts : List ConflictRecord)
    (ownership_known : Bool) (confidence_score : Option Ratio) (minimum_confidence : Ratio) where
  abbrev remediation : Bool
  remediation = is_remediation preferred.action

  abbrev acts : Action → Bool
  acts action = same_action preferred.action action

  -- the rules of the `if preferred.action == "downsize":` block
  abbrev downsize_rules : List String → List String
  downsize_rules rest =
      note
        (acts Action.downsize
          && (missing_utilization missing_evidence
              || is_none (utilization_values evidence).0
              || is_none (utilization_values evidence).1))
        "Missing critical utilization evidence prevents downsizing."
        (note (acts Action.downsize && at_least (whole 70) (utilization_values evidence).1)
          "High peak utilization prevents downsizing."
          (note (acts Action.downsize && leb_ℤ (monthly_savings evidence) (pos 0))
            "Negative or zero savings prevents downsizing." rest))

  unfoldable pub blocking : List String
  blocking =
      note (acts Action.blocked && resource.destructive)
        "Terraform delete or replacement containing delete blocks remediation."
        (note (acts Action.blocked && is_production resource)
          "Production resource blocks automated remediation."
          (note (remediation && resource.destructive)
            "Terraform delete or replacement containing delete blocks remediation."
            (note (remediation && is_production resource)
              "Production resource blocks automated remediation."
              (note (remediation && not ownership_known)
                "Resource ownership is unknown; remediation is blocked."
                (note (remediation && any (λ item. item.critical) missing_evidence)
                  "Missing critical evidence prevents remediation."
                  (note (remediation && below confidence_score minimum_confidence)
                    (confidence_reason confidence_score minimum_confidence)
                    (note ((remediation || acts Action.abstain) && active_dependencies evidence)
                      "Active dependency prevents remediation."
                      (downsize_rules (
                        note (any is_critical_failure verifier_findings)
                          "Critical verifier failure prevents approval eligibility." [])))))))))

  abbrev found_context : List String
  found_context =
      map
        (λ (item : MissingEvidenceRecord).
          append "Critical missing evidence from "
            (append item.source (append ": " item.claim_needed)))
        (keep_if (λ item. item.critical) missing_evidence)
      ++ map
          (λ (item : ConflictRecord).
            append "Unresolved "
              (append (severity_name item.severity) (append " conflict: " item.claim)))
          (keep_if (λ item. is_high item.severity) conflicts)

  abbrev or_default : List String → List String
  or_default reasons =
      if is_empty reasons
      then "Additional human context was requested before making a recommendation." ∷ []
      else reasons

  unfoldable pub context_reasons : List String
  context_reasons = if acts Action.request_evidence then or_default found_context else []

  abbrev policy_warnings : List String
  policy_warnings = note remediation "Human approval is mandatory before any remediation action." []

  abbrev violation : String → PolicyViolation
  violation reason = record {
    code = violation_code reason;
    message = reason;
    severity = "critical";
  }

  abbrev verdict : Bool → PolicyStatus → List String → Bool → List PolicyViolation → PolicyResult
  verdict allowed status reasons approval violations = record {
    allowed = allowed;
    status = status;
    blocking_reasons = reasons;
    warnings = policy_warnings;
    evaluated_rules = evaluated_rule_names;
    requires_human_approval = approval;
    engine = PolicyEngine.python;
    policy_version = "1.0";
    violations = violations;
    fallback_reason = none;
  }

  unfoldable pub evaluate_policy : PolicyResult
  evaluate_policy =
      if not (is_empty blocking)
      then verdict false PolicyStatus.blocked (sorted_set blocking) false
          (map violation (sorted_set blocking))
      else if not (is_empty context_reasons)
      then verdict false PolicyStatus.needs_human_context (sorted_set context_reasons) false []
      else verdict true PolicyStatus.passed [] remediation []
