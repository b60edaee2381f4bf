-- ===== src/PolicyEngine/Shape.antt =====
-- How the fields of a policy result hang together.
use ghost_busters.Prelude.{
  String, Bool, true, ◌&&◌, ◌≡◌, refl, ap, ◌↔◌, inl, inr, Option, List, [], ◌∷◌, map, is_empty,
  arith, Bool-cases,
}
use ghost_busters.Prelude.Text.{is_empty-sorted_set, sorted_set}
use ghost_busters.Prelude.Ratio.{Ratio}
use ghost_busters.Model.{
  EvidenceItem, TerraformResourceChange, ConflictRecord, MissingEvidenceRecord, Alternative, Action,
  is_remediation, VerifierFinding, PolicyResult, PolicyStatus, PolicyViolation,
}
use ghost_busters.PolicyEngine.{evaluate_policy, blocking, context_reasons}

-- A result is allowed exactly when it has passed and when it gives no reason; it asks for a human
-- approval exactly for an allowed remediation; a blocked one has a violation for each reason.
pub record IsConsistent (action : Action) (r : PolicyResult) : Type 0 where
  pub passed : (r.allowed ≡ true) ↔ (r.status ≡ PolicyStatus.passed)
  pub reasons : is_empty r.blocking_reasons ≡ r.allowed
  pub approval : r.requires_human_approval ≡ (is_remediation action && r.allowed)
  pub violations :
      r.status ≡ PolicyStatus.blocked → map (λ v. v.message) r.violations ≡ r.blocking_reasons

module _ (resource : TerraformResourceChange) (evidence : List EvidenceItem)
    (missing_evidence : List MissingEvidenceRecord) (preferred : Alternative)
    (verifier_findings : List VerifierFinding) (conflicts : List ConflictRecord)
    (ownership_known : Bool) (confidence_score : Option Ratio) (minimum_confidence : Ratio) where
  abbrev blocking' : List String
  blocking' =
      blocking resource evidence missing_evidence preferred verifier_findings conflicts
        ownership_known confidence_score minimum_confidence

  abbrev context' : List String
  context' =
      context_reasons resource evidence missing_evidence preferred verifier_findings conflicts
        ownership_known confidence_score minimum_confidence

  abbrev answer : PolicyResult
  answer =
      evaluate_policy resource evidence missing_evidence preferred verifier_findings conflicts
        ownership_known confidence_score minimum_confidence

  messages :
      (code : String → String) (reasons : List String)
      → map
          (λ (v : PolicyViolation). v.message)
          (map
            (λ reason. record { code = code reason; message = reason; severity = "critical" })
            reasons)
        ≡ reasons
  messages code [] = refl
  messages code (r ∷ rs) = ap (λ l. r ∷ l) (messages code rs)

  -- A result of the Python policy is allowed exactly when it has passed and exactly when it gives no
  -- reason, it asks for a human approval exactly for an allowed remediation, and one that is blocked has
  -- a violation for each reason.
  pub evaluate_policy-IsConsistent : IsConsistent preferred.action answer
  unfolding evaluate_policy
  evaluate_policy-IsConsistent = elim (Bool-cases (is_empty blocking')) [
    | inl free ↦ elim (Bool-cases (is_empty context')) [
      | inl quiet ↦
          rw (free, quiet)
            (record {
              passed = (λ h. refl, λ h. refl);
              reasons = refl;
              approval = ground arith;
              violations = λ h. cc;
            })
      | inr asked ↦
          rw (free, asked)
            (record {
              passed = (λ h. cc, λ h. cc);
              reasons = rw (is_empty-sorted_set context', asked);
              approval = ground arith;
              violations = λ h. cc;
            })
    ]
    | inr found ↦ rw found (record {
      passed = (λ h. cc, λ h. cc);
      reasons = rw (is_empty-sorted_set blocking', found);
      approval = ground arith;
      violations = λ h. messages _ (sorted_set blocking');
    })
  ]
