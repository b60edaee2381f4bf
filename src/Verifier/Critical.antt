-- ===== src/Verifier/Critical.antt =====
-- The critical failures among the findings of core/verifier.py.
use ghost_busters.Prelude.{
  String, Bool, true, false, ◌&&◌, ◌||◌, ◌≡◌, refl, List, any, is_none, arith,
}
use ghost_busters.Prelude.Int.{pos, leb_ℤ}
use ghost_busters.Model.{
  EvidenceItem, TerraformResourceChange, ConflictRecord, Alternative, VerifierSeverity,
  is_critical_failure,
}
use ghost_busters.EvidenceUtils.{item_by_source, active_dependencies, monthly_savings}
use ghost_busters.AlternativeGenerator.{is_production}
use ghost_busters.Verifier.{
  check, preferred_remediation, downsizing, git_conflict, no_headroom, unpriced, is_blank_text,
  context_finding, run_verifier,
}

check-critical :
    (name : String) (bad : Bool) (sources : List String)
    → is_critical_failure (check name bad VerifierSeverity.critical sources) ≡ bad
check-critical name true sources = refl
check-critical name false sources = refl

check-high :
    (name : String) (bad : Bool) (sources : List String)
    → is_critical_failure (check name bad VerifierSeverity.high sources) ≡ false
check-high name true sources = refl
check-high name false sources = refl

module _ (resource : TerraformResourceChange) (evidence : List EvidenceItem)
    (conflicts : List ConflictRecord) (preferred : Alternative) where
  context_finding-calm :
      is_critical_failure (context_finding resource evidence conflicts preferred) ≡ false
  context_finding-calm = ground arith

  -- what speaks against any remediation
  abbrev pub unsafe : Bool
  unsafe =
      is_production resource
      || (resource.destructive
          || (active_dependencies evidence || git_conflict resource evidence conflicts preferred))

  -- what speaks against a downsizing besides
  abbrev pub unfit : Bool
  unfit =
      no_headroom resource evidence conflicts preferred
      || (is_none (item_by_source evidence "utilization")
          || (unpriced resource evidence conflicts preferred
              || (leb_ℤ (monthly_savings evidence) (pos 0)
                  || is_blank_text resource.proposed_instance_type)))

  group :
      (r d p x a g h u s l b : Bool)
      → (r && p
          || (r && x
              || (r && a
                  || (d && h
                      || (d && u
                          || (false
                              || (false
                                  || (r && g
                                      || (false
                                          || (d && (s || l)
                                              || (d && b || (false || false))))))))))))
        ≡ (r && (p || (x || (a || g))) || d && (h || (u || (s || (l || b)))))
  group r d p x a g h u s l b = ground arith

  -- The verifier reports a critical failure exactly for a remediation in production, by a destructive
  -- change, with an active dependency or against a conflict of Jira and Git, and for a downsizing
  -- without measured headroom, without utilization or price, without a saving, or without a proposed
  -- type.
  pub run_verifier-critical :
      any is_critical_failure (run_verifier resource evidence conflicts preferred) ≡ (
        preferred_remediation resource evidence conflicts preferred && unsafe
        || downsizing resource evidence conflicts preferred && unfit)
  unfolding run_verifier
  run_verifier-critical =
      simp (check-critical, context_finding-calm, check-high)
        (group (preferred_remediation resource evidence conflicts preferred)
          (downsizing resource evidence conflicts preferred) (is_production resource)
          resource.destructive (active_dependencies evidence)
          (git_conflict resource evidence conflicts preferred)
          (no_headroom resource evidence conflicts preferred)
          (is_none (item_by_source evidence "utilization"))
          (unpriced resource evidence conflicts preferred)
          (leb_ℤ (monthly_savings evidence) (pos 0))
          (is_blank_text resource.proposed_instance_type))
