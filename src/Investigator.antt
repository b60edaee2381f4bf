-- ===== src/Investigator.antt =====
-- core/investigator.py: the evidence tools that a plan selects are run, each with retries; the tools of
-- integrations/registry.py answer by what surrounds the program. The questions of a plan are left out.
pub mod Coverage
use ghost_busters.Prelude.{
  ℕ, ◌*◌, String, Bool, true, false, not, ◌&&◌, Option, none, some, List, [], ◌∷◌, ◌++◌, any, first,
  length, is_none, get_or_else, if◌then◌else◌,
}
use package.text.Mathlib.Text.{starts_with}
use ghost_busters.Prelude.Text.{append, show, mem, ◌==◌}
use ghost_busters.Prelude.Int.{pos}
use ghost_busters.Prelude.Json.{
  Value, null, boolean, number, text, Fields, end, field, text_or_null,
}
use ghost_busters.Model.{
  EvidenceItem, Freshness, is_unavailable, InvestigationPlan, TerraformResourceChange,
  ToolExecutionRecord, ExternalCallEvent, ExternalCallEventType, ExternalCallExecutionResult,
  MissingEvidenceRecord,
}
use ghost_busters.ReasoningEngine.{unavailable_records}
use ghost_busters.Retry.{RetryConfig, Attempt, Outcome, raises, external, RetryExecution, execute}

-- The registered tools by name, and what each answers at each attempt.
pub record ToolRegistry : Type 0 where
  pub names : List String
  pub collect : String → ℕ → Attempt (List EvidenceItem)

-- core/retry.py's InvalidExternalConfigurationError, for a tool that is not registered
abbrev invalid_configuration : Outcome (List EvidenceItem)
invalid_configuration = raises (record {
  raised =
      external "invalid_configuration" false "The external provider configuration is invalid." none;
  type_name = "InvalidExternalConfigurationError";
})

abbrev operation : ToolRegistry → String → ℕ → Attempt (List EvidenceItem)
operation registry tool attempt =
    if mem tool registry.names
    then registry.collect tool attempt
    else record (registry.collect tool attempt) { outcome = invalid_configuration }

abbrev boolean_or_null : Option Bool → Value
boolean_or_null none = null
boolean_or_null (some b) = boolean b

abbrev failure_metadata : ExternalCallExecutionResult → Fields
failure_metadata failure = field "failure_category" (text_or_null failure.failure_category) (
    field "attempts" (number (pos (failure.attempts * 10000))) (
      field "retryable" (boolean_or_null failure.retryable) (
        field "retry_exhausted" (boolean failure.retry_exhausted) (
          field "final_failure_type" (text_or_null failure.final_failure_type)
            (field "reason" (text failure.safe_message) end)))))

-- integrations/base.py's `unavailable_item`, for a tool whose call failed
unfoldable pub unavailable_item : ℕ → String → String → ExternalCallExecutionResult → EvidenceItem
unavailable_item now tool resource_id failure = record {
  source = tool;
  tool_name = tool;
  claim = append tool " evidence unavailable";
  value = null;
  resource_id = resource_id;
  collected_at = now;
  freshness_status = Freshness.unavailable;
  reliability = 0;
  metadata = failure_metadata failure;
  source_mode = some "unavailable";
}

pub record Collection : Type 0 where
  pub evidence : List EvidenceItem
  pub records : List ToolExecutionRecord

abbrev is_alternative : List EvidenceItem → Bool
is_alternative evidence =
    any (λ item. (item.source == "jira") && is_unavailable item.freshness_status) evidence
    && any (λ item. (item.source == "git_activity") && not (is_unavailable item.freshness_status))
        evidence

abbrev with_alternative : ExternalCallExecutionResult → ExternalCallExecutionResult
with_alternative call = record call {
  events =
      call.events
      ++ record {
        event_type = ExternalCallEventType.alternative_evidence_selected;
        attempt = call.attempts;
        maximum_attempts = call.attempts;
        failure_category = none;
        retryable = none;
        retry_delay_seconds = none;
      }
        ∷ [];
}

abbrev mark_call : Option ExternalCallExecutionResult → Option ExternalCallExecutionResult
mark_call none = none
mark_call (some call) = some (with_alternative call)

-- the first record of git_activity, where it has an external call
unfoldable pub mark_first : List ToolExecutionRecord → List ToolExecutionRecord
mark_first [] = []
mark_first (r ∷ rest) =
    let marked = mark_first rest in
    if r.tool_name == "git_activity"
    then record r { external_call = mark_call r.external_call } ∷ rest
    else r ∷ marked

unfoldable pub record_alternative_evidence : Collection → Collection
unfolding mark_first
record_alternative_evidence c =
    if is_alternative c.evidence then record c { records = mark_first c.records } else c

module _ (now : ℕ) (registry : ToolRegistry) (config : RetryConfig) (plan : InvestigationPlan)
    (resource : TerraformResourceChange) where
  abbrev reason : String → String
  reason tool =
      get_or_else
        (first (λ note. starts_with note (append "Selected " (append tool ":")))
          plan.planning_notes)
        "Selected by investigation plan."

  abbrev tool_record :
      String
      → String
      → Option String
      → Option String
      → ExternalCallExecutionResult
      → ToolExecutionRecord
  tool_record tool status output error call = record {
    tool_name = tool;
    selected_because = reason tool;
    status = status;
    input_summary =
        some (append resource.address (append " (" (append resource.resource_type ")")));
    output_summary = output;
    error = error;
    external_call = some call;
  }

  abbrev collected : String → RetryExecution (List EvidenceItem) → Collection
  collected tool execution =
      if execution.result.success
      then record {
        evidence = get_or_else execution.answer [];
        records =
            tool_record tool "completed"
              (some (append (show (length (get_or_else execution.answer []))) " evidence item(s)"))
              none execution.result
            ∷ [];
      }
      else record {
        evidence = unavailable_item now tool resource.address execution.result ∷ [];
        records =
            tool_record tool "failed" none (some execution.result.safe_message) execution.result
            ∷ [];
      }

  -- one pass of the loop over the selected tools
  unfoldable pub run_tool : String → Collection
  run_tool tool = collected tool (execute config tool (operation registry tool) true)

  unfoldable pub run_tools : List String → Collection
  unfolding run_tool
  run_tools [] = record { evidence = []; records = [] }
  run_tools (tool ∷ tools) =
      let here = run_tool tool in
      let rest = run_tools tools in
      record { evidence = here.evidence ++ rest.evidence; records = here.records ++ rest.records }

  unfoldable pub collect_evidence : Collection
  unfolding run_tools record_alternative_evidence
  collect_evidence = record_alternative_evidence (run_tools plan.selected_tools)

  -- the third component of the source's answer
  unfoldable pub missing_evidence : List MissingEvidenceRecord
  unfolding run_tools
  missing_evidence = unavailable_records (run_tools plan.selected_tools).evidence
