-- ===== src/MockPr.antt =====
-- core/mock_pr.py: the simulated pull request of an approved decision. Its body is left out.
use ghost_busters.Prelude.{
  ℕ, ◌*◌, ◌-◌, suc, String, Bool, true, false, not, ◌&&◌, ◌||◌, Option, none, some, List, [], ◌∷◌,
  map, first, keep_if, if◌then◌else◌, leb, get_or_else,
}
use Prim.Native.Char.{Char, code}
use ghost_busters.Prelude.Text.{append, join, lower, ◌==◌}
use ghost_busters.Prelude.Int.{ℤ, pos, negsuc}
use ghost_busters.Model.{
  EvidenceItem, is_unavailable, Alternative, same_action, action_name, DecisionRecord,
  TerraformResourceChange, HumanReviewRecord, MockPullRequest,
}
use ghost_busters.EvidenceUtils.{monthly_savings}
use ghost_busters.ReasoningEngine.{policy_status_name}
use ghost_busters.Result.{Result, ok, failure, ◌>>=◌, or_raise}

abbrev is_slug_char : Char → Bool
is_slug_char c = let n = code c in leb 97 n && leb n 122 || leb 48 n && leb n 57

-- `re.sub(r"[^a-z0-9]+", "-", text).strip("-")`: a dash is due when a run of other characters lies
-- between two that stay
slug_from : Bool → Bool → String → String
slug_from started due String.[] = ""
slug_from started due (String.◌∷◌ c s) =
    if is_slug_char c
    then append (if due then "-" else "") (String.◌∷◌ c (slug_from true false s))
    else slug_from started started s

unfoldable pub slug : String → String
unfolding slug_from lower
slug value = slug_from false false (lower value)

unfoldable pub selected_alternative : DecisionRecord → Option Alternative
selected_alternative decision =
    first (λ item. same_action item.action decision.preferred_action) decision.alternatives

abbrev is_zero : ℤ → Bool
is_zero (pos n) = leb n 0
is_zero (negsuc _) = false

-- `x or y` on numbers
abbrev or_number : ℤ → ℤ → ℤ
or_number x y = if is_zero x then y else x

abbrev times_twelve : ℤ → ℤ
times_twelve (pos n) = pos (n * 12)
times_twelve (negsuc n) = negsuc (suc n * 12 - 1)

-- `x or y` on optional texts
abbrev or_text : Option String → Option String → Option String
or_text none y = y
or_text (some s) y = if s == "" then y else some s

-- `warnings or blocking_reasons or ["passed"]`
abbrev or_texts : List String → List String → List String
or_texts [] ys = ys
or_texts xs ys = xs

module _ (pr_number now : ℕ) (decision : DecisionRecord) (resource : TerraformResourceChange)
    (approval : HumanReviewRecord) where
  abbrev policy_summary : String
  policy_summary = append (policy_status_name decision.policy_result.status) (
      append ": " (
        join "; " (
          or_texts decision.policy_result.warnings
            (or_texts decision.policy_result.blocking_reasons ("passed" ∷ [])))))

  abbrev pull_request : Alternative → MockPullRequest
  pull_request alternative =
      let monthly =
        or_number alternative.estimated_monthly_savings (monthly_savings decision.evidence) in
      let annual = or_number alternative.estimated_annual_savings (times_twelve monthly) in
      let before : String = get_or_else (or_text resource.current_instance_type none) "unknown" in
      let after : String =
        get_or_else
          (or_text alternative.proposed_instance_type
            (or_text resource.proposed_instance_type none))
          before in
      record {
        pr_number = pr_number;
        repository = "ghostbusters/demo";
        branch = append "ghostbusters/" (
            append (slug (action_name decision.preferred_action))
              (append "-" (slug resource.address)));
        base_branch = "main";
        title =
            append "GhostBusters: "
              (append (action_name decision.preferred_action) (append " " resource.address));
        created_at = now;
        status = "open";
        resource_id = resource.address;
        chosen_action = decision.preferred_action;
        current_instance_type = resource.current_instance_type;
        proposed_instance_type = after;
        terraform_patch_preview =
            append "- instance_type = \""
              (append before (append "\"\n+ instance_type = \"" (append after "\"")));
        monthly_savings = monthly;
        annual_savings = annual;
        confidence = decision.confidence.final_confidence;
        policy_summary = policy_summary;
        evidence_summary =
            map (λ (item : EvidenceItem). append item.source (append ": " item.claim))
              (keep_if (λ item. not (is_unavailable item.freshness_status)) decision.evidence);
        human_approval_summary = append "Approved by " (
            append approval.reviewer
              (append ": " (get_or_else (or_text approval.comment none) "no comment")));
      }

  -- `_selected_alternative` raises where no alternative has the preferred action.
  unfoldable pub create_mock_pull_request : Result MockPullRequest
  unfolding selected_alternative
  create_mock_pull_request = do
    alternative ← or_raise (selected_alternative decision) (failure "StopIteration")
    ok (pull_request alternative)
