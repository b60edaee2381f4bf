-- ===== src/ReasoningEngine/Guarantee.antt =====
-- The decisions that core/reasoning_engine.py builds.
use ghost_busters.Prelude.{
  ℕ, String, Bool, true, false, not, ◌&&◌, ◌||◌, ◌≡◌, refl, ap, Option, none, some, List, [], arith,
  Bool-cases, Option-cases, ◌∙◌, inl, inr, ◌⊎◌,
}
use mathlib.Core.Path.{subst, subst₂}
use ghost_busters.Prelude.Text.{◌==◌}
use ghost_busters.Model.{
  EvidenceItem, TerraformResourceChange, ConflictRecord, MissingEvidenceRecord, Alternative, Action,
  is_remediation, VerifierFinding, PolicyResult, FinalStatus, InvestigationPlan,
  ToolExecutionRecord, DecisionRecord,
}
use ghost_busters.EvidenceUtils.{active_dependencies}
use ghost_busters.ConflictDetector.{detect_conflicts}
use ghost_busters.AlternativeGenerator.{generate_alternatives, is_production}
use ghost_busters.Verifier.{run_verifier}
use ghost_busters.ConftestPolicy.{ConftestPolicyEvaluator}
use ghost_busters.PolicyEngine.Shape.{IsConsistent}
use ghost_busters.ConftestPolicy.Outcome.{evaluate-IsConsistent}
use ghost_busters.ReasoningEngine.{
  find_action, select_preferred, first_eligible, preference, final_status_of, hard_block,
  initial_choice, policy_for, choose, settle, override, build_decision,
}
use ghost_busters.ReasoningEngine.Selection.{
  IsPreferred, find_action-keep, find_action-request, find_action-action,
  first_eligible-IsPreferred, select_preferred-total,
}

-- What a remediation that was recommended is known to be.
pub record IsSafeChoice (resource : TerraformResourceChange) (evidence : List EvidenceItem)
    (action : Action) (policy : PolicyResult) : Type 0 where
  pub remediation : is_remediation action ≡ true
  pub allowed : policy.allowed ≡ true
  pub approval : policy.requires_human_approval ≡ true
  pub not_production : is_production resource ≡ false
  pub not_destructive : resource.destructive ≡ false
  pub independent : active_dependencies evidence ≡ false

-- Only an allowed remediation is a recommendation.
pub final_status_of-ready :
    (p : Alternative) (policy : PolicyResult)
    → final_status_of p policy ≡ FinalStatus.recommendation_ready
    → (is_remediation p.action ≡ true) × (policy.allowed ≡ true)
unfolding final_status_of
final_status_of-ready p policy h = ground arith

remediation-cases :
    (a : Action) → is_remediation a ≡ true → (a ≡ Action.downsize) ⊎ (a ≡ Action.schedule)
remediation-cases Action.downsize h = inl refl
remediation-cases Action.schedule h = inr refl
remediation-cases Action.keep h = cc
remediation-cases Action.request_evidence h = cc
remediation-cases Action.abstain h = cc
remediation-cases Action.blocked h = cc

-- A remediation among the preferred ones stands on what its eligibility checked.
IsPreferred-safe :
    (resource : TerraformResourceChange) (evidence : List EvidenceItem)
    (missing : List MissingEvidenceRecord) (conflicts : List ConflictRecord) (p : Alternative)
    → IsPreferred resource evidence missing conflicts p
    → is_remediation p.action ≡ true
    → (is_production resource ≡ false) × (active_dependencies evidence ≡ false)
IsPreferred-safe resource evidence missing conflicts p h r = elim h.eligible [
  | inl e ↦ elim (remediation-cases p.action r) [
    | inl d ↦ let facts = h.generated.downsize_safe d e in (facts.0, facts.2)
    | inr s ↦ let facts = h.generated.schedule_safe s e in (facts.0, facts.1)
  ]
  | inr k ↦ absurd (kept p.action k r)
]
  where
    kept : (a : Action) → a ≡ Action.keep → is_remediation a ≡ true → ⊥
    kept a k r = ground arith

module _ (evaluator : ConftestPolicyEvaluator) (run_id : Option ℕ) (scenario_name : String)
    (resource : TerraformResourceChange) (selected_tools : List String)
    (evidence : List EvidenceItem) (missing : List MissingEvidenceRecord) where
  abbrev initial : Option Alternative
  initial = initial_choice evaluator run_id scenario_name resource selected_tools evidence missing

  abbrev blocked_hard : Bool
  blocked_hard = hard_block evaluator run_id scenario_name resource selected_tools evidence missing

  abbrev conflicts : List ConflictRecord
  conflicts = detect_conflicts evidence

  blocked_hard-cause : blocked_hard ≡ true → (resource.destructive || is_production resource) ≡ true
  unfolding hard_block
  blocked_hard-cause h = ground arith

  abbrev generated : List Alternative
  generated = generate_alternatives resource evidence missing conflicts

  override-total :
      (audit : Bool) (p : Alternative)
      → (q : Alternative) × (override audit generated (some p) ≡ some q)
  override-total true p = find_action-request resource evidence missing conflicts
  override-total false p = (p, refl)

  -- The choice exists.
  initial-total : (p : Alternative) × (initial ≡ some p)
  unfolding initial_choice
  initial-total =
      let picked =
        select_preferred-total resource evidence missing conflicts blocked_hard
          blocked_hard-cause in
      rw picked.1 (override-total (scenario_name == "conflicting") picked.0)

  abbrev policy_of : Alternative → List VerifierFinding → PolicyResult
  policy_of = policy_for evaluator run_id scenario_name resource selected_tools evidence missing

  policy_of-IsConsistent :
      (p : Alternative) (findings : List VerifierFinding)
      → IsConsistent p.action (policy_of p findings)
  unfolding policy_for
  policy_of-IsConsistent p findings =
      evaluate-IsConsistent evaluator resource evidence missing p _ conflicts _ run_id
        (some scenario_name)

  wrong_action : (a b : Action) → a ≡ b → is_remediation b ≡ false → is_remediation a ≡ true → ⊥
  wrong_action a b e h r = cc

  found_wrong :
      (b : Action) (p : Alternative)
      → is_remediation b ≡ false
      → find_action generated b ≡ some p
      → is_remediation p.action ≡ true
      → ⊥
  found_wrong b p h e r =
      wrong_action p.action b (find_action-action resource evidence missing conflicts b p e) h r

  -- A remediation comes from the loop, with no hard block and no audit.
  remediation-source :
      (hard audit : Bool) (p : Alternative)
      → override audit generated (select_preferred generated hard) ≡ some p
      → is_remediation p.action ≡ true
      → (hard ≡ false) × (audit ≡ false) × (first_eligible generated preference ≡ some p)
  remediation-source hard audit p h r = elim (Option-cases (select_preferred generated hard)) [
    | inl absent ↦ absurd (missing_choice audit (rw absent at h))
    | inr (q, found) ↦ by_audit hard audit q found (rw found at h)
  ]
    where
      missing_choice : (audit : Bool) → override audit generated none ≡ some p → ⊥
      missing_choice audit e = cc

      by_audit :
          (hard audit : Bool) (q : Alternative)
          → select_preferred generated hard ≡ some q
          → override audit generated (some q) ≡ some p
          → (hard ≡ false) × (audit ≡ false) × (first_eligible generated preference ≡ some p)
      by_audit hard true q found e = absurd (found_wrong Action.request_evidence p refl e r)
      by_audit true false q found e =
          absurd (found_wrong Action.blocked p refl (unfold select_preferred in (found ∙ e)) r)
      by_audit false false q found e = (refl, refl, unfold select_preferred in (found ∙ e))

  abbrev settled : Alternative → PolicyResult → Option (Alternative × PolicyResult)
  settled = settle evaluator run_id scenario_name resource selected_tools evidence missing

  -- A denied remediation is replaced by a `keep`; a remediation that is left was the first choice.
  settled-source :
      (p q : Alternative) (policy result : PolicyResult)
      → settled p policy ≡ some (q, result)
      → is_remediation q.action ≡ true
      → (p ≡ q) × (policy ≡ result)
  settled-source p q policy result h r =
      elim (Bool-cases (not policy.allowed && is_remediation p.action)) [
        | inl denied ↦ absurd (elim (Option-cases (find_action generated Action.keep)) [
          | inl absent ↦ cc (rw (denied, absent) at h)
          | inr (k, found) ↦ kept k found (rw (denied, found) at h)
        ])
        | inr fine ↦ let e = rw fine at h in (cc e, cc e)
      ]
    where
      kept :
          (k : Alternative)
          → find_action generated Action.keep ≡ some k
          → ◌≡◌ {A = Option (Alternative × PolicyResult)}
              (some (k, policy_of k (run_verifier resource evidence conflicts k)))
              (some (q, result))
          → ⊥
      kept k found e =
          let same : k ≡ q = cc e in found_wrong Action.keep q refl (rw same at found) r

  abbrev chosen : Option (Alternative × PolicyResult)
  chosen = choose evaluator run_id scenario_name resource selected_tools evidence missing

  chosen-safe :
      (q : Alternative) (result : PolicyResult)
      → chosen ≡ some (q, result)
      → final_status_of q result ≡ FinalStatus.recommendation_ready
      → IsSafeChoice resource evidence q.action result
  unfolding choose
  chosen-safe q result h ready =
      let first_choice = initial-total in
      let p = first_choice.0 in
      let fin = final_status_of-ready q result ready in
      let src = settled-source p q (policy_of p []) result (rw first_choice.1 at h) fin.0 in
      let start : initial ≡ some q = first_choice.1 ∙ ap (λ x. some x) src.0 in
      let origin =
        remediation-source blocked_hard (scenario_name == "conflicting") q
          (unfold initial_choice in start) fin.0 in
      let facts =
        IsPreferred-safe resource evidence missing conflicts q
          (first_eligible-IsPreferred resource evidence missing conflicts preference q origin.2)
          fin.0 in
      let shape : IsConsistent q.action result =
        subst₂ (λ (a : Alternative) r. IsConsistent a.action r) src.0 src.1
          (policy_of-IsConsistent p []) in
      record {
        remediation = fin.0;
        allowed = fin.1;
        approval = shape.approval ∙ both (is_remediation q.action) result.allowed fin.0 fin.1;
        not_production = facts.0;
        not_destructive =
            soft resource.destructive (scenario_name == "conflicting") (is_production resource)
              (unfold hard_block in origin.0) origin.1;
        independent = facts.1;
      }
    where
      both : (a b : Bool) → a ≡ true → b ≡ true → (a && b) ≡ true
      both a b h k = ground arith

      soft : (d a p : Bool) → (d && not a || p) ≡ false → a ≡ false → d ≡ false
      soft d a p h k = ground arith

  chosen-total : (q : Alternative) × (result : PolicyResult) × (chosen ≡ some (q, result))
  unfolding choose
  chosen-total =
      let first_choice = initial-total in
      rw first_choice.1 (go first_choice.0 (policy_of first_choice.0 []))
    where
      go :
          (p : Alternative) (policy : PolicyResult)
          → (q : Alternative) × (result : PolicyResult) × (settled p policy ≡ some (q, result))
      go p policy = elim (Bool-cases (not policy.allowed && is_remediation p.action)) [
        | inl denied ↦
            let k = find_action-keep resource evidence missing conflicts in
            (k.0, policy_of k.0 (run_verifier resource evidence conflicts k.0), rw (denied, k.1))
        | inr fine ↦ (p, policy, rw fine)
      ]

  module _ (goal : String) (plan : InvestigationPlan) (executions : List ToolExecutionRecord) where
    abbrev built : Option DecisionRecord
    built =
        build_decision evaluator run_id scenario_name resource selected_tools evidence missing goal
          plan executions

    -- Every analysis ends in a decision record: no search for an alternative comes back empty.
    pub build_decision-total : (d : DecisionRecord) × (built ≡ some d)
    unfolding build_decision
    build_decision-total = let c = chosen-total in rw c.2 (_, refl)

    -- Whatever the external policy engine answers, a decision that is ready for review recommends a
    -- downsizing or a scheduling, that the policy allows with a human approval, of a resource outside
    -- production with no active dependency, by a change that is not destructive.
    pub build_decision-safe :
        (d : DecisionRecord)
        → built ≡ some d
        → d.final_status ≡ FinalStatus.recommendation_ready
        → IsSafeChoice resource evidence d.preferred_action d.policy_result
    unfolding build_decision
    build_decision-safe d h ready =
        let c = chosen-total in keep_fact _ d (chosen-safe c.0 c.1 c.2) (rw c.2 at h) ready
      where
        keep_fact :
            (x d : DecisionRecord)
            → (x.final_status ≡ FinalStatus.recommendation_ready
                → IsSafeChoice resource evidence x.preferred_action x.policy_result)
            → some x ≡ some d
            → d.final_status ≡ FinalStatus.recommendation_ready
            → IsSafeChoice resource evidence d.preferred_action d.policy_result
        keep_fact x d fact e =
            let same : x ≡ d = cc e in
            subst
              (λ (y : DecisionRecord).
                y.final_status ≡ FinalStatus.recommendation_ready
                → IsSafeChoice resource evidence y.preferred_action y.policy_result)
              same fact
