-- ===== src/ConftestPolicy.antt =====
-- core/conftest_policy.py: the policy evaluator that runs Conftest and falls back on the Python
-- policy. Conftest itself is a parameter: what its process answers for an input document.
pub mod Outcome
use ghost_busters.Prelude.{
  ℕ, ◌*◌, ◌/◌, suc, String, Bool, true, false, not, ◌&&◌, ◌||◌, Option, none, some, List, [], ◌∷◌,
  ◌++◌, map, note, is_empty, if◌then◌else◌, keep_if, leb, get_or_else,
}
use ghost_busters.Prelude.Text.{append, show, mem, lower}
use ghost_busters.Prelude.Int.{ℤ, pos, negsuc}
use ghost_busters.Prelude.Ratio.{Ratio}
use ghost_busters.Prelude.Json.{
  Value, Fields, end, field, null, boolean, number, text, array, object, get, get_or, as_object,
  truthy, str_value, array_of, to_list, text_or_null, Items, nil,
}
use ghost_busters.Model.{
  EvidenceItem, TerraformResourceChange, ConflictRecord, ConflictSeverity, MissingEvidenceRecord,
  Alternative, Action, action_name, is_remediation, VerifierFinding, VerifierStatus,
  VerifierSeverity, PolicyResult, PolicyStatus, PolicyEngine, PolicyViolation, ConfidenceBreakdown,
}
use ghost_busters.EvidenceUtils.{value_for, active_dependencies}
use ghost_busters.PolicyEngine.{evaluate_policy}

-- How `subprocess.run` of the Conftest executable ends. What it printed is read by `json.loads`:
-- `none` stands for a `JSONDecodeError`.
pub data ConftestRun : Type 0 where
  not_found timed_out os_error : ConftestRun
  exited : ℤ → Option Value → ConftestRun

-- The evaluator's fields, and the process as a function of the document that it is given.
pub record ConftestPolicyEvaluator : Type 0 where
  pub enabled : Bool
  pub policy_dir_present : Bool
  pub minimum_confidence : Ratio
  pub conftest : Value → ConftestRun

abbrev policy_version : String
policy_version = "1.0"

abbrev approval_warning : String
approval_warning = "Human approval is mandatory before any remediation action."

abbrev tag_owner : Fields → Value
tag_owner end = null
tag_owner (field key value tags) =
    if mem (lower key) ("owner" ∷ "team" ∷ "service_owner" ∷ []) then value else tag_owner tags

unfoldable pub ownership_known : TerraformResourceChange → List EvidenceItem → Bool
unfolding lower get
ownership_known resource evidence =
    truthy (tag_owner (get_or_else resource.tags end))
    || truthy (get (value_for evidence "jira") "issue_key")

abbrev conflict_severity_name : ConflictSeverity → String
conflict_severity_name ConflictSeverity.low = "low"
conflict_severity_name ConflictSeverity.medium = "medium"
conflict_severity_name ConflictSeverity.high = "high"

abbrev severity_name : VerifierSeverity → String
severity_name VerifierSeverity.info = "info"
severity_name VerifierSeverity.low = "low"
severity_name VerifierSeverity.medium = "medium"
severity_name VerifierSeverity.high = "high"
severity_name VerifierSeverity.critical = "critical"

abbrev has_failed : VerifierFinding → Bool
has_failed f = elim f.status [ VerifierStatus.failed ↦ true | _ ↦ false ]

abbrev is_reversible : Action → Bool
is_reversible Action.keep = true
is_reversible action = is_remediation action

-- a fraction as a number of ten-thousandths, rounded down
abbrev number_of : Ratio → Value
number_of a = number (pos (a.num * 10000 / a.den))

abbrev pair : String → Value → String → Value → Value
pair j v k w = object (field j v (field k w end))

abbrev id_or_null : Option ℕ → Value
id_or_null none = null
id_or_null (some n) = text (show n)

module _ (minimum_confidence : Ratio) (resource : TerraformResourceChange)
    (evidence : List EvidenceItem) (missing_evidence : List MissingEvidenceRecord)
    (preferred : Alternative) (verifier_findings : List VerifierFinding)
    (conflicts : List ConflictRecord) (confidence : ConfidenceBreakdown) (run_id : Option ℕ)
    (scenario_name : Option String) where
  abbrev resource_input : Value
  resource_input = object (
      field "address" (text resource.address) (
        field "environment" (text_or_null resource.environment) (
          field "terraform_actions" (array_of (map (λ a. text a) resource.actions)) (
            field "destructive" (boolean resource.destructive) (
              field "ownership_status"
                (text (if ownership_known resource evidence then "known" else "unknown"))
                (field "active_dependencies" (boolean (active_dependencies evidence)) end))))))

  abbrev recommendation_input : Value
  recommendation_input = object (
      field "action" (text (action_name preferred.action)) (
        field "expected_monthly_savings" (number preferred.estimated_monthly_savings) (
          field "risk" (text (if is_empty preferred.risks then "low" else "medium")) (
            field "risks" (array_of (map (λ r. text r) preferred.risks))
              (field "reversible" (boolean (is_reversible preferred.action)) end)))))

  abbrev evidence_input : Value
  evidence_input =
      pair "missing_critical"
        (array_of (
          map
            (λ (item : MissingEvidenceRecord).
              pair "source" (text item.source) "claim" (text item.claim_needed))
            (keep_if (λ item. item.critical) missing_evidence)))
        "conflicts"
        (array_of (
          map
            (λ (item : ConflictRecord).
              pair "claim" (text item.claim) "severity"
                (text (conflict_severity_name item.severity)))
            conflicts))

  abbrev failures_input : Value
  failures_input = array_of (
      map
        (λ (item : VerifierFinding).
          pair "check" (text item.check_name) "severity" (text (severity_name item.severity)))
        (keep_if has_failed verifier_findings))

  unfoldable pub build_input : Value
  build_input = object (
      field "policy_version" (text policy_version) (
        field "run_id" (id_or_null run_id) (
          field "scenario_name" (text_or_null scenario_name) (
            field "resource" resource_input (
              field "recommendation" recommendation_input (
                field "evidence" evidence_input (
                  field "verifier_failures" failures_input (
                    field "confidence"
                      (pair "score" (number_of confidence.final_confidence) "minimum_threshold"
                        (number_of minimum_confidence))
                      end))))))))

-- `x or y` on values
abbrev or_value : Value → Value → Value
or_value v w = if truthy v then v else w

-- `_message`
unfoldable pub message : Value → String
unfolding get
message (object item) =
    str_value (or_value (get item "msg") (or_value (get item "message") (text "Policy warning")))
message item = str_value item

-- `PolicyViolation` admits these severities only; any other is a validation error.
abbrev checked_severity : String → String → String → Option PolicyViolation
checked_severity code msg severity =
    if mem severity ("info" ∷ "low" ∷ "medium" ∷ "high" ∷ "critical" ∷ [])
    then some (record { code = code; message = msg; severity = severity })
    else none

-- `_violation`; `none` is the validation error
unfoldable pub violation_of : Value → Option PolicyViolation
unfolding message
violation_of item =
    let metadata = as_object (get (as_object item) "metadata") in
    checked_severity (str_value (or_value (get metadata "code") (text "OPA_POLICY_DENIAL")))
      (message item) (str_value (or_value (get metadata "severity") (text "critical")))

-- What the loop over Conftest's results collects.
pub record Collected : Type 0 where
  pub rules : List String
  pub failures : List Value
  pub warning_messages : List String

abbrev is_mapping : Value → Bool
is_mapping (object _) = true
is_mapping _ = false

abbrev merge : Fields → Value → Value → Option Collected → Option Collected
merge result (array fs) (array ws) (some rest) = some (record {
  rules = note (truthy (get result "namespace")) (str_value (get result "namespace")) rest.rules;
  failures = keep_if is_mapping (to_list fs) ++ rest.failures;
  warning_messages = map message (to_list ws) ++ rest.warning_messages;
})
merge result _ _ _ = none

abbrev collect_one : Value → Option Collected → Option Collected
collect_one (object result) rest =
    merge result (get_or result "failures" (array nil)) (get_or result "warnings" (array nil)) rest
collect_one _ rest = none

-- `none` where an entry is no object, or its failures or warnings are no list
unfoldable pub collect : List Value → Option Collected
unfolding get get_or message
collect [] = some (record { rules = []; failures = []; warning_messages = [] })
collect (result ∷ results) = collect_one result (collect results)

abbrev cons_violation :
    Option PolicyViolation → Option (List PolicyViolation) → Option (List PolicyViolation)
cons_violation (some v) (some vs) = some (v ∷ vs)
cons_violation _ _ = none

unfoldable pub violations_of : List Value → Option (List PolicyViolation)
unfolding violation_of
violations_of [] = some []
violations_of (item ∷ items) = cons_violation (violation_of item) (violations_of items)

abbrev or_namespace : List String → List String
or_namespace [] = "ghostbusters" ∷ []
or_namespace rules = rules

module _ (preferred : Alternative) where
  abbrev conftest_result : Collected → List PolicyViolation → PolicyResult
  conftest_result found violations =
      let clean : Bool = is_empty violations in
      let approval : Bool = is_remediation preferred.action && clean in
      record {
        allowed = clean;
        status = if clean then PolicyStatus.passed else PolicyStatus.blocked;
        blocking_reasons = map (λ v. v.message) violations;
        warnings = found.warning_messages ++ note approval approval_warning [];
        evaluated_rules = or_namespace found.rules;
        requires_human_approval = approval;
        engine = PolicyEngine.conftest;
        policy_version = policy_version;
        violations = violations;
        fallback_reason = none;
      }

  abbrev with_violations : Collected → Option (List PolicyViolation) → Option PolicyResult
  with_violations found none = none
  with_violations found (some violations) = some (conftest_result found violations)

  abbrev parse_results : Option Collected → Option PolicyResult
  parse_results none = none
  parse_results (some found) = with_violations found (violations_of found.failures)

  -- `none` is a `ValueError`, which `evaluate` catches.
  unfoldable pub parse_output : Value → Option PolicyResult
  unfolding collect violations_of
  parse_output (object decoded) = parse_results (collect (object decoded ∷ []))
  parse_output (array decoded) = parse_results (collect (to_list decoded))
  parse_output _ = none

  abbrev read_output : Option Value → Option PolicyResult
  read_output none = none
  read_output (some decoded) = parse_output decoded

abbrev show_code : ℤ → String
show_code (pos n) = show n
show_code (negsuc n) = append "-" (show (suc n))

abbrev is_zero_or_one : ℤ → Bool
is_zero_or_one (pos n) = leb n 1
is_zero_or_one (negsuc _) = false

module _ (evaluator : ConftestPolicyEvaluator) (resource : TerraformResourceChange)
    (evidence : List EvidenceItem) (missing_evidence : List MissingEvidenceRecord)
    (preferred : Alternative) (verifier_findings : List VerifierFinding)
    (conflicts : List ConflictRecord) (confidence : ConfidenceBreakdown) (run_id : Option ℕ)
    (scenario_name : Option String) where
  unfoldable pub fallback : String → PolicyResult
  fallback reason =
      let result =
        evaluate_policy resource evidence missing_evidence preferred verifier_findings conflicts
          (ownership_known resource evidence) (some confidence.final_confidence)
          evaluator.minimum_confidence in
      record result {
        engine = PolicyEngine.python_fallback;
        policy_version = policy_version;
        fallback_reason = some reason;
        warnings =
            result.warnings
            ++ "Conftest was unavailable; deterministic Python policy checks were used." ∷ [];
      }

  abbrev or_malformed : Option PolicyResult → PolicyResult
  or_malformed none = fallback "Conftest returned malformed JSON output."
  or_malformed (some result) = result

  abbrev read_run : ConftestRun → PolicyResult
  read_run ConftestRun.not_found = fallback "Conftest executable was not found."
  read_run ConftestRun.timed_out = fallback "Conftest policy evaluation timed out."
  read_run ConftestRun.os_error = fallback "Conftest could not be executed."
  read_run (ConftestRun.exited returncode stdout) =
      if is_zero_or_one returncode
      then or_malformed (read_output preferred stdout)
      else fallback
          (append "Conftest execution failed with exit code " (append (show_code returncode) "."))

  abbrev policy_input : Value
  policy_input =
      build_input evaluator.minimum_confidence resource evidence missing_evidence preferred
        verifier_findings conflicts confidence run_id scenario_name

  unfoldable pub evaluate : PolicyResult
  unfolding fallback parse_output
  evaluate =
      if not evaluator.enabled
      then fallback "Conftest is disabled by configuration."
      else if not evaluator.policy_dir_present
      then fallback "Conftest policy directory is unavailable."
      else read_run (evaluator.conftest policy_input)
