-- ===== src/PolicyEngine/Safety.antt =====
-- What the Python policy of core/policy_engine.py lets through.
use ghost_busters.Prelude.{
  Bool, true, false, ◌&&◌, ◌≡◌, refl, ◌↔◌, Option, none, some, List, any, ◌<◌, is_some, is_none,
  arith,
}
use ghost_busters.Prelude.Int.{ℤ, pos, negsuc, pos_part, whole, leb_ℤ}
use ghost_busters.Prelude.Text.{◌==◌}
use ghost_busters.Prelude.Ratio.{Ratio}
use ghost_busters.Model.{
  EvidenceItem, TerraformResourceChange, ConflictRecord, MissingEvidenceRecord, Alternative, Action,
  VerifierFinding, is_critical_failure, PolicyResult,
}
use ghost_busters.EvidenceUtils.{utilization_values, active_dependencies, monthly_savings, at_least}
use ghost_busters.AlternativeGenerator.{is_production}
use ghost_busters.PolicyEngine.{evaluate_policy, blocking, context_reasons, below}

module _ (resource : TerraformResourceChange) (evidence : List EvidenceItem)
    (missing_evidence : List MissingEvidenceRecord) (preferred : Alternative)
    (verifier_findings : List VerifierFinding) (conflicts : List ConflictRecord)
    (ownership_known : Bool) (confidence_score : Option Ratio) (minimum_confidence : Ratio) where
  -- What has to hold of every remediation.
  pub record IsSafe : Type 0 where
    pub not_destructive : resource.destructive ≡ false
    pub not_production : is_production resource ≡ false
    pub owned : ownership_known ≡ true
    pub complete : any (λ item. item.critical) missing_evidence ≡ false
    pub confident : below confidence_score minimum_confidence ≡ false
    pub independent : active_dependencies evidence ≡ false
    pub verified : any is_critical_failure verifier_findings ≡ false

  abbrev answer : PolicyResult
  answer =
      evaluate_policy resource evidence missing_evidence preferred verifier_findings conflicts
        ownership_known confidence_score minimum_confidence

  -- What has to hold of a downsizing besides: measured headroom and a positive saving.
  pub record HasHeadroom : Type 0 where
    pub recorded :
        any (λ item. (item.source == "utilization") && item.critical) missing_evidence ≡ false
    pub has_average : is_some (utilization_values evidence).0 ≡ true
    pub has_peak :
        (peak : ℤ) × ((utilization_values evidence).1 ≡ some peak) × (pos_part peak < 700000)
    pub saves : 0 < pos_part (monthly_savings evidence)

  peak_of :
      is_none (utilization_values evidence).1 ≡ false
      → at_least (whole 70) (utilization_values evidence).1 ≡ false
      → (peak : ℤ) × ((utilization_values evidence).1 ≡ some peak) × (pos_part peak < 700000)
  peak_of = go (utilization_values evidence).1
    where
      go :
          (o : Option ℤ)
          → is_none o ≡ false
          → at_least (whole 70) o ≡ false
          → (peak : ℤ) × (o ≡ some peak) × (pos_part peak < 700000)
      go none h k = cc
      go (some (pos n)) h k = (pos n, refl, ground arith)
      go (some (negsuc n)) h k = (negsuc n, refl, omega arith)

  schedule_iff : preferred.action ≡ Action.schedule → (answer.allowed ≡ true) ↔ IsSafe
  unfolding evaluate_policy blocking context_reasons
  schedule_iff a = (λ h. ground arith, λ h. ground arith)

  -- `ground` reads the saving through its sign.
  saves_of :
      leb_ℤ (monthly_savings evidence) (pos 0) ≡ false → 0 < pos_part (monthly_savings evidence)
  saves_of = go (monthly_savings evidence)
    where
      go : (x : ℤ) → leb_ℤ x (pos 0) ≡ false → 0 < pos_part x
      go (pos n) h = ground arith
      go (negsuc n) h = ground arith

  downsize_sound : preferred.action ≡ Action.downsize → answer.allowed ≡ true → IsSafe × HasHeadroom
  unfolding evaluate_policy blocking context_reasons
  downsize_sound a h = (
    ground arith,
    record {
      recorded = ground arith;
      has_average = ground arith;
      has_peak = peak_of (ground arith) (ground arith);
      saves = saves_of (ground arith);
    },
  )

  unsaved :
      0 < pos_part (monthly_savings evidence) → leb_ℤ (monthly_savings evidence) (pos 0) ≡ false
  unsaved = go (monthly_savings evidence)
    where
      go : (x : ℤ) → 0 < pos_part x → leb_ℤ x (pos 0) ≡ false
      go (pos n) h = ground arith
      go (negsuc n) h = ground arith

  low_peak :
      (peak : ℤ)
      → (utilization_values evidence).1 ≡ some peak
      → pos_part peak < 700000
      → at_least (whole 70) (utilization_values evidence).1 ≡ false
  low_peak (pos n) e h = rw e (ground arith)
  low_peak (negsuc n) e h = rw e (ground arith)

  downsize_complete :
      preferred.action ≡ Action.downsize → IsSafe → HasHeadroom → answer.allowed ≡ true
  unfolding evaluate_policy blocking context_reasons
  downsize_complete a s h =
      let low = low_peak h.has_peak.0 h.has_peak.1 h.has_peak.2 in
      let saved = unsaved h.saves in let peak = h.has_peak.1 in ground arith

  -- The policy allows a scheduling exactly when it is safe: not destructive, outside production, of a
  -- known owner, with no critical evidence missing, no score below the minimum, no active dependency
  -- and no critical finding.
  pub evaluate_policy-schedule :
      preferred.action ≡ Action.schedule → (answer.allowed ≡ true) ↔ IsSafe
  evaluate_policy-schedule a = schedule_iff a

  -- The policy allows a downsizing exactly when it is safe as a scheduling is, and besides the average
  -- and the peak load are known, the peak is below 70 percent, no critical utilization evidence is
  -- missing, and the change saves money.
  pub evaluate_policy-downsize :
      preferred.action ≡ Action.downsize → (answer.allowed ≡ true) ↔ (IsSafe × HasHeadroom)
  evaluate_policy-downsize a = (downsize_sound a, λ h. downsize_complete a h.0 h.1)
