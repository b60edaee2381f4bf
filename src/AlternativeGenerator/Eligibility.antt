-- ===== src/AlternativeGenerator/Eligibility.antt =====
-- What an eligible remediation of core/alternative_generator.py rests on.
use ghost_busters.Prelude.{
  ℕ, ◌≤◌, String, Bool, true, false, ◌||◌, ◌≡◌, refl, some, List, [], ◌∷◌, is_empty, length, first,
  if◌then◌else◌, arith, note, any, Option-cases, Bool-cases, inl, inr,
}
use mathlib.Core.Path.{subst}
use ghost_busters.Model.{
  is_high, EvidenceItem, TerraformResourceChange, ConflictRecord, MissingEvidenceRecord,
  Alternative, Action,
}
use ghost_busters.AlternativeGenerator.{
  generate_alternatives, is_production, downsize_rejections, schedule_rejections, score_of,
  keep_alternative, blocked_alternative, downsize_alternative, schedule_alternative, fresh_item,
  request_alternative, abstain_alternative, request_eligible, abstain_eligible,
}
use ghost_busters.Prelude.Int.{ℤ, pos, leb_ℤ, ltb_ℤ}
use ghost_busters.EvidenceUtils.{
  active_dependencies, item_by_source, source_unavailable, utilization_values, monthly_savings,
  recent_git_activity, jira_status,
}
use ghost_busters.ConflictDetector.{is_word}

-- A predicate of every element.
abbrev pub All {ℓ κ} : {A : Type ℓ} → (A → Type κ) → List A → Type κ
All P [] = Unit
All P (x ∷ xs) = P x × All P xs

pub All-first {ℓ κ} :
    {A : Type ℓ} (P : A → Type κ) (test : A → Bool) (x : A) (xs : List A)
    → All P xs
    → first test xs ≡ some x
    → P x × (test x ≡ true)
All-first P test x [] h e = cc
All-first P test x (y ∷ ys) h e = elim (Bool-cases (test y)) [
  | inl hit ↦ let same : y ≡ x = ground arith in (subst P same h.0, ground arith)
  | inr miss ↦ All-first P test x ys h.1 (ground arith)
]

-- The machine has measured headroom: fresh utilization, an average load of at most 30 percent and a
-- peak load below 70 percent.
pub record HasHeadroom (evidence : List EvidenceItem) : Type 0 where
  pub average : ℤ
  pub peak : ℤ
  pub average_measured : (utilization_values evidence).0 ≡ some average
  pub peak_measured : (utilization_values evidence).1 ≡ some peak
  pub low_average : ltb_ℤ (pos 300000) average ≡ false
  pub low_peak : leb_ℤ (pos 700000) peak ≡ false
  pub fresh : fresh_item (item_by_source evidence "utilization") ≡ true

-- What is true of a generated alternative, by its action.
pub record IsGenerated (resource : TerraformResourceChange) (evidence : List EvidenceItem)
    (conflicts : List ConflictRecord) (a : Alternative) : Type 0 where
  pub downsize_safe :
      a.action ≡ Action.downsize
      → a.eligible ≡ true
      → (is_production resource ≡ false)
        × (resource.destructive ≡ false)
        × (active_dependencies evidence ≡ false)
        × HasHeadroom evidence
        × (source_unavailable evidence "pricing" ≡ false)
        × (leb_ℤ (monthly_savings evidence) (pos 0) ≡ false)
        × (any (λ (item : ConflictRecord). is_high item.severity) conflicts ≡ false)
  pub schedule_safe :
      a.action ≡ Action.schedule
      → a.eligible ≡ true
      → (is_production resource ≡ false)
        × (active_dependencies evidence ≡ false)
        × (recent_git_activity evidence ≡ false)
        × ((is_word (jira_status evidence) "completed" || is_word (jira_status evidence) "inactive")
            ≡ true)
  pub score_bound : a.score ≤ 10000
  pub reasons : a.eligible ≡ is_empty a.rejection_reasons

score_of-le : (base n : ℕ) → score_of base n ≤ 10000
unfolding score_of
score_of-le base n = omega arith

empty-if : (b : Bool) (m : String) → b ≡ is_empty (if b then [] else m ∷ [])
empty-if true m = refl
empty-if false m = refl

module _ (resource : TerraformResourceChange) (evidence : List EvidenceItem)
    (missing_evidence : List MissingEvidenceRecord) (conflicts : List ConflictRecord) where
  abbrev alternatives : List Alternative
  alternatives = generate_alternatives resource evidence missing_evidence conflicts

  measured_facts :
      (average peak : ℤ)
      → (utilization_values evidence).0 ≡ some average
      → (utilization_values evidence).1 ≡ some peak
      → is_empty (downsize_rejections resource evidence missing_evidence conflicts) ≡ true
      → (is_production resource ≡ false)
        × (resource.destructive ≡ false)
        × (active_dependencies evidence ≡ false)
        × (ltb_ℤ (pos 300000) average ≡ false)
        × (leb_ℤ (pos 700000) peak ≡ false)
        × (fresh_item (item_by_source evidence "utilization") ≡ true)
        × (source_unavailable evidence "pricing" ≡ false)
        × (leb_ℤ (monthly_savings evidence) (pos 0) ≡ false)
        × (any (λ (item : ConflictRecord). is_high item.severity) conflicts ≡ false)
  unfolding downsize_rejections
  measured_facts average peak e f h = ground (arith, rw (e, f) at h)

  downsize_facts :
      is_empty (downsize_rejections resource evidence missing_evidence conflicts) ≡ true
      → (is_production resource ≡ false)
        × (resource.destructive ≡ false)
        × (active_dependencies evidence ≡ false)
        × HasHeadroom evidence
        × (source_unavailable evidence "pricing" ≡ false)
        × (leb_ℤ (monthly_savings evidence) (pos 0) ≡ false)
        × (any (λ (item : ConflictRecord). is_high item.severity) conflicts ≡ false)
  unfolding downsize_rejections
  downsize_facts h = elim (Option-cases (utilization_values evidence).0) [
    | inl e ↦ absurd (ground (arith, rw e at h))
    | inr (average, e) ↦ elim (Option-cases (utilization_values evidence).1) [
      | inl f ↦ absurd (ground (arith, rw (e, f) at h))
      | inr (peak, f) ↦
          let facts = measured_facts average peak e f h in
          (
            facts.0,
            facts.1,
            facts.2,
            record {
              average = average;
              peak = peak;
              average_measured = e;
              peak_measured = f;
              low_average = facts.3;
              low_peak = facts.4;
              fresh = facts.5;
            },
            facts.6,
            facts.7,
            facts.8,
          )
    ]
  ]

  schedule_facts :
      is_empty (schedule_rejections resource evidence missing_evidence conflicts) ≡ true
      → (is_production resource ≡ false)
        × (active_dependencies evidence ≡ false)
        × (recent_git_activity evidence ≡ false)
        × ((is_word (jira_status evidence) "completed" || is_word (jira_status evidence) "inactive")
            ≡ true)
  unfolding schedule_rejections
  schedule_facts h = ground arith

  abbrev Generated : Alternative → Type 0
  Generated = IsGenerated resource evidence conflicts

  if_score : (b : Bool) (x y : ℕ) → x ≤ 10000 → y ≤ 10000 → (if b then x else y) ≤ 10000
  if_score true x y hx hy = hx
  if_score false x y hx hy = hy

  keep-Generated : Generated (keep_alternative resource evidence missing_evidence conflicts)
  keep-Generated = record {
    downsize_safe = λ e h. cc;
    schedule_safe = λ e h. cc;
    score_bound = omega arith;
    reasons = refl;
  }

  blocked-Generated : Generated (blocked_alternative resource evidence missing_evidence conflicts)
  blocked-Generated = record {
    downsize_safe = λ e h. cc;
    schedule_safe = λ e h. cc;
    score_bound = omega arith;
    reasons = refl;
  }

  downsize-Generated : Generated (downsize_alternative resource evidence missing_evidence conflicts)
  downsize-Generated = record {
    downsize_safe = λ e h. downsize_facts h;
    schedule_safe = λ e h. cc;
    score_bound = if_score _ 9000 _ (omega arith) (
        score_of-le 4500
          (length (downsize_rejections resource evidence missing_evidence conflicts)));
    reasons = refl;
  }

  schedule-Generated : Generated (schedule_alternative resource evidence missing_evidence conflicts)
  schedule-Generated = record {
    downsize_safe = λ e h. cc;
    schedule_safe = λ e h. schedule_facts h;
    score_bound = if_score _ 7500 _ (omega arith) (
        score_of-le 4000
          (length (schedule_rejections resource evidence missing_evidence conflicts)));
    reasons = refl;
  }

  request-Generated : Generated (request_alternative resource evidence missing_evidence conflicts)
  request-Generated = record {
    downsize_safe = λ e h. cc;
    schedule_safe = λ e h. cc;
    score_bound = if_score _ 8000 2000 (omega arith) (omega arith);
    reasons = empty-if (request_eligible resource evidence missing_evidence conflicts) _;
  }

  abstain-Generated : Generated (abstain_alternative resource evidence missing_evidence conflicts)
  abstain-Generated = record {
    downsize_safe = λ e h. cc;
    schedule_safe = λ e h. cc;
    score_bound = if_score _ 8500 2500 (omega arith) (omega arith);
    reasons = empty-if (abstain_eligible resource evidence missing_evidence conflicts) _;
  }

  All-note :
      (b : Bool) (a : Alternative) (rest : List Alternative)
      → Generated a
      → All Generated rest
      → All Generated (note b a rest)
  All-note true a rest h hs = (h, hs)
  All-note false a rest h hs = hs

  -- Every alternative is eligible exactly when it has no rejection reason, and has a score between 0
  -- and 1. An eligible downsizing or scheduling is of a resource outside production and without active
  -- dependencies. For a downsizing, the change is not destructive, the fresh utilization shows an
  -- average load of at most 30 and a peak below 70 percent, pricing is available, the monthly savings
  -- are positive, and no conflict is high; for a scheduling, the Jira project is completed or inactive
  -- and there was no recent Git activity.
  pub generate_alternatives-IsGenerated : All Generated alternatives
  unfolding generate_alternatives
  generate_alternatives-IsGenerated = (
    keep-Generated,
    All-note (resource.destructive || is_production resource)
        (blocked_alternative resource evidence missing_evidence conflicts) _ blocked-Generated
        (downsize-Generated, (schedule-Generated, (request-Generated, (abstain-Generated, tt)))),
  )
