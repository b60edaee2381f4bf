-- ===== src/AlternativeGenerator.antt =====
-- core/alternative_generator.py: the remediation alternatives, each with its rejection reasons.
pub mod Eligibility
use ghost_busters.Prelude.{
  ℕ, ◌-◌, ◌*◌, ◌/◌, min, String, Bool, true, false, not, ◌&&◌, ◌||◌, Option, none, some, List, [],
  ◌∷◌, ◌++◌, map, note, any, is_empty, length, if◌then◌else◌, is_none, get_or_else, keep_if,
}
use ghost_busters.Prelude.Text.{◌==◌, lower}
use ghost_busters.Prelude.Int.{ℤ, pos, pos_part, leb_ℤ, whole, at_least_zero}
use ghost_busters.Model.{
  EvidenceItem, TerraformResourceChange, ConflictRecord, MissingEvidenceRecord, Alternative, Action,
  is_high, is_fresh, is_unavailable,
}
use ghost_busters.EvidenceUtils.{
  item_by_source, source_unavailable, utilization_values, pricing_values, active_dependencies,
  jira_status, recent_git_activity, monthly_savings, above, at_least,
}
use ghost_busters.ConflictDetector.{is_word, dependency_claim}

-- `(resource.environment or "").lower() == "production"`
unfoldable pub is_production : TerraformResourceChange → Bool
unfolding lower
is_production resource = lower (get_or_else resource.environment "") == "production"

-- max(0.0, min(1.0, base - 0.15 * rejection_count)) in ten-thousandths
unfoldable pub score_of : ℕ → ℕ → ℕ
score_of base rejection_count = min 10000 (base - 1500 * rejection_count)

abbrev pub fresh_item : Option EvidenceItem → Bool
fresh_item none = false
fresh_item (some item) = is_fresh item.freshness_status

abbrev twelve : ℤ → ℤ
twelve x = pos (pos_part x * 12)

-- max(0.0, savings * 0.5), a half unit rounded down
abbrev half : ℤ → ℤ
half x = pos (pos_part x / 2)

module _ (resource : TerraformResourceChange) (evidence : List EvidenceItem)
    (missing_evidence : List MissingEvidenceRecord) (conflicts : List ConflictRecord) where
  abbrev pub high_conflict : Bool
  high_conflict = any (λ conflict. is_high conflict.severity) conflicts

  abbrev pub critical_missing : Bool
  critical_missing = any (λ item. item.critical) missing_evidence

  abbrev utilization_fresh : Bool
  utilization_fresh = fresh_item (item_by_source evidence "utilization")

  abbrev avg_cpu : Option ℤ
  avg_cpu = (utilization_values evidence).0

  abbrev peak_cpu : Option ℤ
  peak_cpu = (utilization_values evidence).1

  abbrev keep_alternative : Alternative
  keep_alternative = record {
    action = Action.keep;
    description = "Keep the Terraform change unchanged for now.";
    proposed_instance_type = resource.current_instance_type;
    estimated_monthly_cost = none;
    estimated_monthly_savings = pos 0;
    estimated_annual_savings = pos 0;
    supporting_evidence = "terraform" ∷ [];
    risks = "Cost opportunity may remain unrealized." ∷ [];
    assumptions = "No automated remediation is safer than an unsupported change." ∷ [];
    eligible = true;
    rejection_reasons = [];
    score = 3500;
  }

  abbrev blocked_alternative : Alternative
  blocked_alternative = record {
    action = Action.blocked;
    description = "Hard safety policy blocks automated remediation for this resource.";
    proposed_instance_type = none;
    estimated_monthly_cost = none;
    estimated_monthly_savings = pos 0;
    estimated_annual_savings = pos 0;
    supporting_evidence = "terraform" ∷ [];
    risks = "Automated remediation is prohibited by deterministic safety policy." ∷ [];
    assumptions = "Policy blocks override optimizer preferences." ∷ [];
    eligible = true;
    rejection_reasons = [];
    score = 10000;
  }

  abbrev utilization_missing : Bool
  utilization_missing = is_none avg_cpu || is_none peak_cpu

  pub downsize_rejections : List String
  downsize_rejections =
      note (is_production resource)
        "Production resources are not eligible for automated downsizing."
        (note resource.destructive "Terraform delete or replacement is destructive." (
          note (active_dependencies evidence) "Active downstream dependency exists." (
            note utilization_missing "Utilization evidence is missing." (
              note (not utilization_missing && above (whole 30) avg_cpu) "Average CPU is not low." (
                note (not utilization_missing && at_least (whole 70) peak_cpu)
                  "Peak CPU exceeds safe headroom threshold."
                  (note (not utilization_fresh) "Utilization evidence is not fresh." (
                    note (source_unavailable evidence "pricing") "Pricing data is unavailable." (
                      note (leb_ℤ (monthly_savings evidence) (pos 0))
                        "Monthly savings are not positive."
                        (note high_conflict "High-severity conflict prevents safe downsizing."
                          [])))))))))

  abbrev downsize_alternative : Alternative
  downsize_alternative =
      let savings : ℤ = at_least_zero (monthly_savings evidence) in
      record {
        action = Action.downsize;
        description = "Apply the proposed instance type change as a cost optimization.";
        proposed_instance_type = resource.proposed_instance_type;
        estimated_monthly_cost = (pricing_values evidence).1;
        estimated_monthly_savings = savings;
        estimated_annual_savings = twelve savings;
        supporting_evidence = "pricing" ∷ "utilization" ∷ "dependencies" ∷ [];
        risks = "Performance regression if utilization changes after evidence collection." ∷ [];
        assumptions = "Verified pricing evidence represents the expected monthly cost." ∷ [];
        eligible = is_empty downsize_rejections;
        rejection_reasons = downsize_rejections;
        score =
            if is_empty downsize_rejections
            then 9000
            else score_of 4500 (length downsize_rejections);
      }

  abbrev idle_project : Bool
  idle_project =
      is_word (jira_status evidence) "completed" || is_word (jira_status evidence) "inactive"

  pub schedule_rejections : List String
  schedule_rejections =
      note (is_production resource)
        "Production workloads are assumed to require continuous availability."
        (note (active_dependencies evidence) "Active dependency may require continuous uptime." (
          note (not idle_project || recent_git_activity evidence)
            "Project context does not clearly support intermittent use." []))

  abbrev schedule_alternative : Alternative
  schedule_alternative =
      let savings : ℤ = half (monthly_savings evidence) in
      record {
        action = Action.schedule;
        description = "Add an off-hours schedule instead of changing instance size.";
        proposed_instance_type = resource.current_instance_type;
        estimated_monthly_cost = none;
        estimated_monthly_savings = savings;
        estimated_annual_savings = twelve savings;
        supporting_evidence = "jira" ∷ "git_activity" ∷ "dependencies" ∷ [];
        risks = "Incorrect schedule can interrupt expected availability." ∷ [];
        assumptions =
            "Completed or inactive project context indicates intermittent use may be acceptable."
            ∷ [];
        eligible = is_empty schedule_rejections;
        rejection_reasons = schedule_rejections;
        score =
            if is_empty schedule_rejections
            then 7500
            else score_of 4000 (length schedule_rejections);
      }

  abbrev pub request_eligible : Bool
  request_eligible =
      critical_missing
      || any (λ conflict. is_high conflict.severity && not (conflict.claim == dependency_claim))
          conflicts

  abbrev request_alternative : Alternative
  request_alternative = record {
    action = Action.request_evidence;
    description = "Request more evidence before recommending remediation.";
    proposed_instance_type = none;
    estimated_monthly_cost = none;
    estimated_monthly_savings = pos 0;
    estimated_annual_savings = pos 0;
    supporting_evidence =
        map (λ item. item.source)
          (keep_if (λ item. not (is_unavailable item.freshness_status)) evidence);
    risks = "Delays remediation until evidence improves." ∷ [];
    assumptions = "Human-provided or refreshed evidence can resolve the risk." ∷ [];
    eligible = request_eligible;
    rejection_reasons =
        if request_eligible then [] else "No critical missing evidence or high-risk conflict." ∷ [];
    score = if request_eligible then 8000 else 2000;
  }

  abbrev pub abstain_eligible : Bool
  abstain_eligible = active_dependencies evidence || critical_missing || high_conflict

  abbrev abstain_alternative : Alternative
  abstain_alternative = record {
    action = Action.abstain;
    description = "Abstain from remediation because safety cannot be justified.";
    proposed_instance_type = none;
    estimated_monthly_cost = none;
    estimated_monthly_savings = pos 0;
    estimated_annual_savings = pos 0;
    supporting_evidence = map (λ conflict. conflict.claim) conflicts;
    risks = "Cost opportunity remains, but unsafe automation is avoided." ∷ [];
    assumptions = "Safety policy is more important than cost savings." ∷ [];
    eligible = abstain_eligible;
    rejection_reasons =
        if abstain_eligible then [] else "Evidence does not justify abstaining." ∷ [];
    score = if abstain_eligible then 8500 else 2500;
  }

  unfoldable pub generate_alternatives : List Alternative
  unfolding downsize_rejections schedule_rejections
  generate_alternatives =
      keep_alternative
      ∷ note (resource.destructive || is_production resource) blocked_alternative (
          downsize_alternative ∷ schedule_alternative ∷ request_alternative ∷ abstain_alternative
          ∷ [])
