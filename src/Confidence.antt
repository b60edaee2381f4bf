-- ===== src/Confidence.antt =====
-- core/confidence.py: the confidence score, as exact fractions. The explanations are left out.
pub mod Bounds
use ghost_busters.Prelude.{
  ℕ, ◌+◌, ◌*◌, min, String, Bool, true, false, not, ◌&&◌, ◌||◌, List, [], ◌∷◌, map, length,
  is_empty, keep_if, if◌then◌else◌, ltb,
}
use ghost_busters.Prelude.Text.{mem}
use ghost_busters.Prelude.Ratio.{Ratio, ratio, add, sub, mul}
use ghost_busters.Model.{
  EvidenceItem, Freshness, is_unavailable, ConflictRecord, ConflictSeverity, PolicyResult,
  PolicyStatus, ConfidenceBreakdown,
}

-- `_clamp`; a difference has stopped at 0 before
unfoldable pub clamp : Ratio → Ratio
clamp x = if ltb x.den x.num then ratio 1 1 else x

-- `set(xs)`: each text once
unfoldable pub distinct : List String → List String
distinct [] = []
distinct (x ∷ xs) = let rest = distinct xs in if mem x rest then rest else x ∷ rest

abbrev is_unknown : Freshness → Bool
is_unknown Freshness.unknown = true
is_unknown _ = false

abbrev is_known_fresh : EvidenceItem → Bool
is_known_fresh item = not (is_unavailable item.freshness_status || is_unknown item.freshness_status)

abbrev available_sources : List EvidenceItem → List String
available_sources evidence = map (λ item. item.source) (keep_if is_known_fresh evidence)

unfoldable pub completeness : List EvidenceItem → List String → Ratio
unfolding distinct
completeness evidence expected_sources =
    let expected = distinct expected_sources in
    if is_empty expected
    then ratio 1 1
    else ratio (length (keep_if (λ s. mem s (available_sources evidence)) expected))
        (length expected)

unfoldable pub total : List ℕ → ℕ
total [] = 0
total (x ∷ xs) = x + total xs

-- the mean of numbers that count n-ths; 0 of an empty list
unfoldable pub mean : ℕ → List ℕ → Ratio
unfolding total
mean unit xs = if is_empty xs then ratio 0 1 else ratio (total xs) (unit * length xs)

unfoldable pub reliability : List EvidenceItem → Ratio
unfolding mean
reliability evidence = mean 10000 (
    map (λ item. item.reliability)
      (keep_if (λ item. not (is_unavailable item.freshness_status)) evidence))

-- 1.0, 0.5 or 0.0 as a number of halves
abbrev pub freshness_halves : Freshness → ℕ
freshness_halves Freshness.fresh = 2
freshness_halves Freshness.stale = 1
freshness_halves _ = 0

unfoldable pub freshness : List EvidenceItem → Ratio
unfolding mean
freshness evidence = mean 2 (map (λ item. freshness_halves item.freshness_status) evidence)

abbrev severity_penalty : ConflictSeverity → ℕ
severity_penalty ConflictSeverity.high = 25
severity_penalty ConflictSeverity.medium = 15
severity_penalty ConflictSeverity.low = 5

unfoldable pub penalty : List ConflictRecord → Ratio
unfolding total
penalty conflicts =
    ratio (min 50 (total (map (λ item. severity_penalty item.severity) conflicts))) 100

abbrev is_settled : PolicyStatus → Bool
is_settled PolicyStatus.needs_human_context = false
is_settled _ = true

unfoldable pub certainty : PolicyResult → Ratio
certainty policy_result =
    if not policy_result.allowed || is_settled policy_result.status then ratio 1 1 else ratio 3 4

-- 0.30 c + 0.25 r + 0.20 f + 0.25 p - penalty, not below 0
unfoldable pub weighted : Ratio → Ratio → Ratio → Ratio → Ratio → Ratio
weighted c r f p less =
    sub
      (add (add (mul (ratio 30 100) c) (mul (ratio 25 100) r))
        (add (mul (ratio 20 100) f) (mul (ratio 25 100) p)))
      less

unfoldable pub calculate_confidence :
    List EvidenceItem → List ConflictRecord → PolicyResult → List String → ConfidenceBreakdown
unfolding clamp completeness reliability freshness penalty certainty weighted
calculate_confidence evidence conflicts policy_result expected_sources =
    let c = completeness evidence expected_sources in
    let r = reliability evidence in
    let f = freshness evidence in
    let p = certainty policy_result in
    let less = penalty conflicts in
    record {
      evidence_completeness = clamp c;
      evidence_reliability = clamp r;
      evidence_freshness = clamp f;
      conflict_penalty = clamp less;
      policy_certainty = clamp p;
      final_confidence = clamp (weighted c r f p less);
    }
