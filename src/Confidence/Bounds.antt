-- ===== src/Confidence/Bounds.antt =====
-- The range of the scores of core/confidence.py.
use ghost_busters.Prelude.{
  ℕ, ◌+◌, ◌-◌, ◌*◌, ◌≤◌, String, Bool, true, refl, ◌≡◌, List, [], ◌∷◌, map, all, length, keep_if,
  is_empty, leb, Bool-cases, inl, inr, arith,
}
use ghost_busters.Prelude.Ratio.{Ratio, ratio, add, sub, mul}
use ghost_busters.Prelude.Table.Keys.{length-keep_if}
use ghost_busters.Model.{EvidenceItem, ConflictRecord, PolicyResult, ConfidenceBreakdown}
use ghost_busters.Confidence.{
  clamp, calculate_confidence, completeness, reliability, freshness, penalty, certainty, weighted,
  total, mean, distinct, freshness_halves,
}

abbrev IsAtMostOne : Ratio → Type 0
IsAtMostOne x = x.num ≤ x.den

times_le : (k n m : ℕ) → n ≤ m → n * k ≤ m * k
times_le k n m h = grind (arith, h)

-- Two fractions of at most `a` and `b` hundredths add up to at most `a + b` hundredths.
add_hundredths :
    (a b : ℕ) (x y : Ratio)
    → x.num * 100 ≤ a * x.den
    → y.num * 100 ≤ b * y.den
    → (add x y).num * 100 ≤ (a + b) * (add x y).den
add_hundredths a b x y h k =
    omega (
      arith,
      times_le y.den (x.num * 100) (a * x.den) h,
      times_le x.den (y.num * 100) (b * y.den) k,
    )

-- Two fractions of at least `a` and `b` hundredths of `k` add up to at least `a + b` hundredths of it.
add_hundredths_of :
    (a b : ℕ) (k x y : Ratio)
    → a * k.num * x.den ≤ x.num * 100 * k.den
    → b * k.num * y.den ≤ y.num * 100 * k.den
    → (a + b) * k.num * (add x y).den ≤ (add x y).num * 100 * k.den
add_hundredths_of a b k x y h g = omega (
  arith,
  times_le y.den (a * k.num * x.den) (x.num * 100 * k.den) h,
  times_le x.den (b * k.num * y.den) (y.num * 100 * k.den) g,
)

total_le : (xs : List ℕ) → all (λ (x : ℕ). leb x 10000) xs ≡ true → total xs ≤ 10000 * length xs
unfolding total
total_le [] h = omega arith
total_le (x ∷ xs) h = ground (arith, total_le xs (ground (arith, h)), h)

abbrev pub is_reliable : EvidenceItem → Bool
is_reliable item = leb item.reliability 10000

reliabilities :
    (p : EvidenceItem → Bool) (evidence : List EvidenceItem)
    → all is_reliable evidence ≡ true
    → all
        (λ (x : ℕ). leb x 10000)
        (map (λ (item : EvidenceItem). item.reliability) (keep_if p evidence))
      ≡ true
reliabilities p [] h = refl
reliabilities p (item ∷ rest) h = ground (arith, h, reliabilities p rest (ground (arith, h)))

mean_le : (unit : ℕ) (xs : List ℕ) → total xs ≤ unit * length xs → IsAtMostOne (mean unit xs)
unfolding mean
mean_le unit xs h = elim (Bool-cases (is_empty xs)) [
  | inl nothing ↦ rw (nothing, mean) (omega arith)
  | inr some_there ↦ rw (some_there, mean) h
]

halves_le :
    (evidence : List EvidenceItem)
    → total (map (λ (item : EvidenceItem). freshness_halves item.freshness_status) evidence)
      ≤ 2 * length (map (λ (item : EvidenceItem). freshness_halves item.freshness_status) evidence)
unfolding total
halves_le [] = omega arith
halves_le (item ∷ rest) = ground (arith, halves_le rest)

completeness-IsAtMostOne :
    (evidence : List EvidenceItem) (expected : List String)
    → IsAtMostOne (completeness evidence expected)
unfolding completeness
completeness-IsAtMostOne evidence expected = elim (Bool-cases (is_empty (distinct expected))) [
  | inl nothing ↦ rw (nothing, completeness) (omega arith)
  | inr some_there ↦ rw (some_there, completeness) (length-keep_if _ (distinct expected))
]

reliability-IsAtMostOne :
    (evidence : List EvidenceItem)
    → all is_reliable evidence ≡ true
    → IsAtMostOne (reliability evidence)
unfolding reliability
reliability-IsAtMostOne evidence h = mean_le 10000 _ (total_le _ (reliabilities _ evidence h))

freshness-IsAtMostOne : (evidence : List EvidenceItem) → IsAtMostOne (freshness evidence)
unfolding freshness
freshness-IsAtMostOne evidence = mean_le 2 _ (halves_le evidence)

certainty-IsAtMostOne : (policy : PolicyResult) → IsAtMostOne (certainty policy)
unfolding certainty
certainty-IsAtMostOne policy = ground arith

clamp-IsAtMostOne : (x : Ratio) → IsAtMostOne x → clamp x ≡ x
unfolding clamp
clamp-IsAtMostOne x h = ground (arith, h)

-- what the penalty is taken from
abbrev weighed : Ratio → Ratio → Ratio → Ratio → Ratio
weighed c r f p =
    add (add (mul (ratio 30 100) c) (mul (ratio 25 100) r))
      (add (mul (ratio 20 100) f) (mul (ratio 25 100) p))

weighed-IsAtMostOne :
    (c r f p : Ratio)
    → IsAtMostOne c
    → IsAtMostOne r
    → IsAtMostOne f
    → IsAtMostOne p
    → IsAtMostOne (weighed c r f p)
weighed-IsAtMostOne c r f p hc hr hf hp =
    let left =
      add_hundredths 30 25 (mul (ratio 30 100) c) (mul (ratio 25 100) r) (omega (arith, hc))
        (omega (arith, hr)) in
    let right =
      add_hundredths 20 25 (mul (ratio 20 100) f) (mul (ratio 25 100) p) (omega (arith, hf))
        (omega (arith, hp)) in
    let both =
      add_hundredths 55 45 (add (mul (ratio 30 100) c) (mul (ratio 25 100) r))
        (add (mul (ratio 20 100) f) (mul (ratio 25 100) p)) left right in
    omega (arith, both)

-- `x` is at most `y`
abbrev pub IsAtMost : Ratio → Ratio → Type 0
IsAtMost x y = x.num * y.den ≤ y.num * x.den

part_of :
    (w : ℕ) (k x : Ratio)
    → IsAtMost k x
    → w * k.num * (mul (ratio w 100) x).den ≤ (mul (ratio w 100) x).num * 100 * k.den
part_of w k x h = omega (arith, times_le (w * 100) (k.num * x.den) (x.num * k.den) h)

weighed-IsAtMost :
    (k c r f p : Ratio)
    → IsAtMost k c
    → IsAtMost k r
    → IsAtMost k f
    → IsAtMost k p
    → IsAtMost k (weighed c r f p)
weighed-IsAtMost k c r f p hc hr hf hp =
    let left =
      add_hundredths_of 30 25 k (mul (ratio 30 100) c) (mul (ratio 25 100) r) (part_of 30 k c hc)
        (part_of 25 k r hr) in
    let right =
      add_hundredths_of 20 25 k (mul (ratio 20 100) f) (mul (ratio 25 100) p) (part_of 20 k f hf)
        (part_of 25 k p hp) in
    let both =
      add_hundredths_of 55 45 k (add (mul (ratio 30 100) c) (mul (ratio 25 100) r))
        (add (mul (ratio 20 100) f) (mul (ratio 25 100) p)) left right in
    omega (arith, both)

-- A difference that stops at 0, and what was taken away, are at most 1, and at least the minuend.
sub-add_le : (s p : Ratio) → IsAtMostOne s → IsAtMostOne p → IsAtMostOne (add (sub s p) p)
sub-add_le s p hs hp =
    let a = times_le p.den s.num s.den hs in
    let b = times_le s.den p.num p.den hp in
    let both : s.num * p.den - p.num * s.den + p.num * s.den ≤ s.den * p.den =
      omega (arith, a, b) in
    omega
      (arith, times_le p.den (s.num * p.den - p.num * s.den + p.num * s.den) (s.den * p.den) both)

sub-add_ge : (k s p : Ratio) → IsAtMost k s → IsAtMost k (add (sub s p) p)
sub-add_ge k s p h =
    let least : s.num * p.den ≤ s.num * p.den - p.num * s.den + p.num * s.den = omega arith in
    omega (
      arith,
      times_le (p.den * p.den) (k.num * s.den) (s.num * k.den) h,
      times_le (p.den * k.den) (s.num * p.den) (s.num * p.den - p.num * s.den + p.num * s.den)
          least,
    )

sub-IsAtMostOne : (s p : Ratio) → IsAtMostOne s → IsAtMostOne (sub s p)
sub-IsAtMostOne s p hs = omega (arith, times_le p.den s.num s.den hs)

penalty-IsAtMostOne : (conflicts : List ConflictRecord) → IsAtMostOne (penalty conflicts)
unfolding penalty
penalty-IsAtMostOne conflicts = omega arith

pub record IsWithinUnit (lowest : Ratio) (b : ConfidenceBreakdown) : Type 0 where
  pub completeness : IsAtMostOne b.evidence_completeness
  pub reliability : IsAtMostOne b.evidence_reliability
  pub freshness : IsAtMostOne b.evidence_freshness
  pub certainty : IsAtMostOne b.policy_certainty
  pub penalty : IsAtMostOne b.conflict_penalty
  pub final : IsAtMostOne b.final_confidence
  pub above : IsAtMost lowest (add b.final_confidence b.conflict_penalty)
  pub below : IsAtMostOne (add b.final_confidence b.conflict_penalty)

-- Where no reliability is above 1, every part of a confidence is at most 1, and the final confidence is
-- a mean of its four parts less the penalty: together with the penalty it is at most 1, and at least
-- any number that none of the four parts falls below.
pub calculate_confidence-IsWithinUnit :
    (evidence : List EvidenceItem) (conflicts : List ConflictRecord) (policy : PolicyResult)
    (expected : List String) (lowest : Ratio)
    → all is_reliable evidence ≡ true
    → IsAtMost lowest
        (calculate_confidence evidence conflicts policy expected).evidence_completeness
    → IsAtMost lowest (calculate_confidence evidence conflicts policy expected).evidence_reliability
    → IsAtMost lowest (calculate_confidence evidence conflicts policy expected).evidence_freshness
    → IsAtMost lowest (calculate_confidence evidence conflicts policy expected).policy_certainty
    → IsWithinUnit lowest (calculate_confidence evidence conflicts policy expected)
unfolding calculate_confidence weighted
calculate_confidence-IsWithinUnit evidence conflicts policy expected lowest reliable lc lr lf lp =
    let c = completeness evidence expected in
    let r = reliability evidence in
    let f = freshness evidence in
    let p = certainty policy in
    let less = penalty conflicts in
    let s = weighed c r f p in
    let hc = completeness-IsAtMostOne evidence expected in
    let hr = reliability-IsAtMostOne evidence reliable in
    let hf = freshness-IsAtMostOne evidence in
    let hp = certainty-IsAtMostOne policy in
    let hs = weighed-IsAtMostOne c r f p hc hr hf hp in
    let hless = penalty-IsAtMostOne conflicts in
    let hfinal = sub-IsAtMostOne s less hs in
    let same_c = clamp-IsAtMostOne c hc in
    let same_r = clamp-IsAtMostOne r hr in
    let same_f = clamp-IsAtMostOne f hf in
    let same_p = clamp-IsAtMostOne p hp in
    let same_less = clamp-IsAtMostOne less hless in
    let same_final = clamp-IsAtMostOne (sub s less) hfinal in
    let least =
      weighed-IsAtMost lowest c r f p (rw same_c at lc) (rw same_r at lr) (rw same_f at lf)
        (rw same_p at lp) in
    record {
      completeness = rw same_c hc;
      reliability = rw same_r hr;
      freshness = rw same_f hf;
      certainty = rw same_p hp;
      penalty = rw same_less hless;
      final = rw same_final hfinal;
      above = rw (same_less, same_final) (sub-add_ge lowest s less least);
      below = rw (same_less, same_final) (sub-add_le s less hs hless);
    }
