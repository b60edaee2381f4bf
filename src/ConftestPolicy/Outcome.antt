-- ===== src/ConftestPolicy/Outcome.antt =====
-- The results of core/conftest_policy.py, by how the Conftest process ends.
use ghost_busters.Prelude.{
  ℕ, String, Bool, true, false, not, ◌≡◌, refl, Option, none, some, List, [], ◌∷◌, map, is_empty,
  if◌then◌else◌,
}
use ghost_busters.Prelude.Json.{Value, to_list}
use ghost_busters.Model.{
  EvidenceItem, TerraformResourceChange, ConflictRecord, MissingEvidenceRecord, Alternative,
  VerifierFinding, PolicyResult, PolicyViolation, ConfidenceBreakdown,
}
use ghost_busters.PolicyEngine.Shape.{IsConsistent, evaluate_policy-IsConsistent}
use ghost_busters.ConftestPolicy.{
  ConftestPolicyEvaluator, ConftestRun, Collected, evaluate, fallback, parse_output,
  conftest_result, parse_results, with_violations, ownership_known, read_run, policy_input,
  or_malformed, read_output, collect, violations_of,
}

is_empty-messages : (vs : List PolicyViolation) → is_empty (map (λ v. v.message) vs) ≡ is_empty vs
is_empty-messages [] = refl
is_empty-messages (v ∷ vs) = refl

module _ (preferred : Alternative) where
  conftest_result-IsConsistent :
      (found : Collected) (violations : List PolicyViolation)
      → IsConsistent preferred.action (conftest_result preferred found violations)
  conftest_result-IsConsistent found [] = record {
    passed = (λ h. refl, λ h. refl);
    reasons = refl;
    approval = refl;
    violations = λ h. cc;
  }
  conftest_result-IsConsistent found (v ∷ vs) = record {
    passed = (λ h. cc, λ h. cc);
    reasons = refl;
    approval = refl;
    violations = λ h. refl;
  }

  -- what a parsed answer is, whichever way the parsing went
  abbrev Consistent : Option PolicyResult → Type 0
  Consistent none = Unit
  Consistent (some r) = IsConsistent preferred.action r

  with_violations-Consistent :
      (found : Collected) (o : Option (List PolicyViolation))
      → Consistent (with_violations preferred found o)
  with_violations-Consistent found none = tt
  with_violations-Consistent found (some vs) = conftest_result-IsConsistent found vs

  parse_results-Consistent : (o : Option Collected) → Consistent (parse_results preferred o)
  parse_results-Consistent none = tt
  parse_results-Consistent (some found) =
      with_violations-Consistent found (violations_of found.failures)

  parse_output-Consistent : (v : Value) → Consistent (parse_output preferred v)
  unfolding parse_output
  parse_output-Consistent (Value.object fs) =
      parse_results-Consistent (collect (Value.object fs ∷ []))
  parse_output-Consistent (Value.array vs) = parse_results-Consistent (collect (to_list vs))
  parse_output-Consistent _ = tt

  read_output-Consistent : (o : Option Value) → Consistent (read_output preferred o)
  read_output-Consistent none = tt
  read_output-Consistent (some v) = parse_output-Consistent v

module _ (evaluator : ConftestPolicyEvaluator) (resource : TerraformResourceChange)
    (evidence : List EvidenceItem) (missing_evidence : List MissingEvidenceRecord)
    (preferred : Alternative) (verifier_findings : List VerifierFinding)
    (conflicts : List ConflictRecord) (confidence : ConfidenceBreakdown) (run_id : Option ℕ)
    (scenario_name : Option String) where
  abbrev fall : String → PolicyResult
  fall =
      fallback evaluator resource evidence missing_evidence preferred verifier_findings conflicts
        confidence run_id scenario_name

  fallback-IsConsistent : (reason : String) → IsConsistent preferred.action (fall reason)
  unfolding fallback
  fallback-IsConsistent reason =
      let base =
        evaluate_policy-IsConsistent resource evidence missing_evidence preferred verifier_findings
          conflicts (ownership_known resource evidence) (some confidence.final_confidence)
          evaluator.minimum_confidence in
      record {
        passed = base.passed;
        reasons = base.reasons;
        approval = base.approval;
        violations = base.violations;
      }

  abbrev read : ConftestRun → PolicyResult
  read =
      read_run evaluator resource evidence missing_evidence preferred verifier_findings conflicts
        confidence run_id scenario_name

  or_malformed-IsConsistent :
      (o : Option PolicyResult)
      → Consistent preferred o
      → IsConsistent preferred.action (
          or_malformed evaluator resource evidence missing_evidence preferred verifier_findings
            conflicts confidence run_id scenario_name o)
  or_malformed-IsConsistent none h =
      fallback-IsConsistent "Conftest returned malformed JSON output."
  or_malformed-IsConsistent (some r) h = h

  IsConsistent-if :
      (b : Bool) (r s : PolicyResult)
      → IsConsistent preferred.action r
      → IsConsistent preferred.action s
      → IsConsistent preferred.action (if b then r else s)
  IsConsistent-if true r s hr hs = hr
  IsConsistent-if false r s hr hs = hs

  read_run-IsConsistent : (run : ConftestRun) → IsConsistent preferred.action (read run)
  read_run-IsConsistent ConftestRun.not_found = fallback-IsConsistent _
  read_run-IsConsistent ConftestRun.timed_out = fallback-IsConsistent _
  read_run-IsConsistent ConftestRun.os_error = fallback-IsConsistent _
  read_run-IsConsistent (ConftestRun.exited code stdout) =
      IsConsistent-if _ _ _
        (or_malformed-IsConsistent (read_output preferred stdout)
          (read_output-Consistent preferred stdout))
        (fallback-IsConsistent _)

  -- Disabled, missing, timed out, failing, unreadable or answering: in every case the result is
  -- allowed exactly when it has passed and gives no reason, asks for an approval exactly for an
  -- allowed remediation, and has a violation for each reason of a block.
  pub evaluate-IsConsistent : IsConsistent preferred.action (
      evaluate evaluator resource evidence missing_evidence preferred verifier_findings conflicts
        confidence run_id scenario_name)
  unfolding evaluate
  evaluate-IsConsistent =
      IsConsistent-if (not evaluator.enabled) _ _
        (fallback-IsConsistent "Conftest is disabled by configuration.")
        (IsConsistent-if (not evaluator.policy_dir_present) _ _
          (fallback-IsConsistent "Conftest policy directory is unavailable.")
          (read_run-IsConsistent (
            evaluator.conftest (
              policy_input evaluator resource evidence missing_evidence preferred verifier_findings
                conflicts confidence run_id scenario_name))))
