-- ===== src/Tests/Decisions.antt =====
-- The theorems on decisions, applied to the idle staging instance.
use ghost_busters.Prelude.{arith, any, false, Option, some, [], ◌≡◌, ◌↔◌, refl, get_or_else, true}
use ghost_busters.Prelude.Text.{lower, sorted_set}
use ghost_busters.Prelude.Json.{get, get_or}
use ghost_busters.Prelude.Ratio.{ratio}
use ghost_busters.Model.{
  is_critical_failure, DecisionRecord, Action, Alternative, PolicyResult, TerraformResourceChange,
}
use ghost_busters.EvidenceUtils.{
  item_by_source, value_for, source_unavailable, verified_pricing_item, utilization_values,
  pricing_values, active_dependencies, jira_status, recent_git_activity, monthly_savings,
}
use ghost_busters.ConflictDetector.{detect_conflicts}
use ghost_busters.AlternativeGenerator.{generate_alternatives, is_production}
use ghost_busters.PolicyEngine.{evaluate_policy, blocking, context_reasons}
use ghost_busters.Verifier.{run_verifier}
use ghost_busters.Confidence.{
  calculate_confidence, clamp, completeness, reliability, freshness, certainty, distinct, mean,
  total,
}
use ghost_busters.Verifier.Critical.{run_verifier-critical}
use ghost_busters.Confidence.Bounds.{IsWithinUnit, calculate_confidence-IsWithinUnit}
use ghost_busters.ConftestPolicy.{evaluate, fallback, ownership_known}
use ghost_busters.ReasoningEngine.{
  build_decision, choose, initial_choice, select_preferred, first_eligible, find_eligible,
  find_action, final_status_of, hard_block, policy_for,
}
use ghost_busters.ReasoningEngine.Guarantee.{
  IsSafeChoice, build_decision-safe, build_decision-total,
}
use ghost_busters.PolicyEngine.Safety.{
  IsSafe, HasHeadroom, evaluate_policy-schedule, evaluate_policy-downsize,
}
use ghost_busters.PolicyEngine.Shape.{IsConsistent, evaluate_policy-IsConsistent}
use ghost_busters.ConftestPolicy.Outcome.{evaluate-IsConsistent}
use ghost_busters.AlternativeGenerator.Eligibility.{
  All, IsGenerated, generate_alternatives-IsGenerated,
}
use ghost_busters.ReasoningEngine.Selection.{select_preferred-total}
use ghost_busters.Tests.Data.{
  evaluator, instance, tools, evidence, plan, no_decision, downsizing, none_yet,
}

abbrev built : Option DecisionRecord
built = build_decision evaluator (some 1) "safe" instance tools evidence [] "save" plan []

abbrev decision : DecisionRecord
decision = get_or_else built no_decision

build_decision-safe_example :
    IsSafeChoice instance evidence decision.preferred_action decision.policy_result
unfolding build_decision choose initial_choice select_preferred first_eligible find_eligible
    find_action final_status_of hard_block policy_for generate_alternatives is_production
    evaluate_policy blocking context_reasons run_verifier calculate_confidence evaluate fallback
    detect_conflicts lower sorted_set get get_or item_by_source value_for source_unavailable
    verified_pricing_item utilization_values pricing_values active_dependencies jira_status
    recent_git_activity monthly_savings ownership_known
build_decision-safe_example =
    build_decision-safe evaluator (some 1) "safe" instance tools evidence [] "save" plan [] decision
      refl refl

build_decision-total_example : (d : DecisionRecord) × (built ≡ some d)
build_decision-total_example =
    build_decision-total evaluator (some 1) "safe" instance tools evidence [] "save" plan []

abbrev production : TerraformResourceChange
production = record instance { environment = some "production" }

select_preferred-total_example :
    (p : Alternative) × (select_preferred (generate_alternatives production evidence [] []) true
      ≡ some p)
unfolding is_production lower
select_preferred-total_example = select_preferred-total production evidence [] [] true (λ e. refl)

generate_alternatives-IsGenerated_example :
    All (IsGenerated instance evidence []) (generate_alternatives instance evidence [] [])
generate_alternatives-IsGenerated_example =
    generate_alternatives-IsGenerated instance evidence [] []

abbrev downsize_policy : PolicyResult
downsize_policy =
    evaluate_policy instance evidence [] downsizing [] [] true (some (ratio 9 10)) (ratio 7 10)

evaluate_policy-downsize_example : (downsize_policy.allowed ≡ true) ↔ (
    IsSafe instance evidence [] downsizing [] [] true (some (ratio 9 10)) (ratio 7 10)
    × HasHeadroom instance evidence [] downsizing [] [] true (some (ratio 9 10)) (ratio 7 10))
evaluate_policy-downsize_example =
    evaluate_policy-downsize instance evidence [] downsizing [] [] true (some (ratio 9 10))
      (ratio 7 10) refl

abbrev scheduling : Alternative
scheduling = record downsizing { action = Action.schedule }

evaluate_policy-schedule_example :
    ((evaluate_policy instance evidence [] scheduling [] [] true
        (some (ratio 9 10))
        (ratio 7 10)).allowed
      ≡ true)
    ↔ IsSafe instance evidence [] scheduling [] [] true (some (ratio 9 10)) (ratio 7 10)
evaluate_policy-schedule_example =
    evaluate_policy-schedule instance evidence [] scheduling [] [] true (some (ratio 9 10))
      (ratio 7 10) refl

evaluate_policy-IsConsistent_example : IsConsistent Action.downsize downsize_policy
evaluate_policy-IsConsistent_example =
    evaluate_policy-IsConsistent instance evidence [] downsizing [] [] true (some (ratio 9 10))
      (ratio 7 10)

evaluate-IsConsistent_example :
    IsConsistent Action.downsize
      (evaluate evaluator instance evidence [] downsizing [] [] none_yet (some 1) (some "safe"))
evaluate-IsConsistent_example =
    evaluate-IsConsistent evaluator instance evidence [] downsizing [] [] none_yet (some 1)
      (some "safe")

calculate_confidence-IsWithinUnit_example :
    IsWithinUnit (ratio 3 4) (calculate_confidence evidence [] downsize_policy tools)
unfolding calculate_confidence clamp completeness reliability freshness certainty distinct mean
    total
calculate_confidence-IsWithinUnit_example =
    calculate_confidence-IsWithinUnit evidence [] downsize_policy tools (ratio 3 4) refl
      (omega arith) (omega arith) (omega arith) (ground arith)

run_verifier-critical_example :
    any is_critical_failure (run_verifier instance evidence [] downsizing) ≡ false
unfolding is_production lower active_dependencies utilization_values monthly_savings item_by_source
    pricing_values
run_verifier-critical_example = run_verifier-critical instance evidence [] downsizing
