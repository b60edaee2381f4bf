-- ===== src/Investigator/Coverage.antt =====
-- What core/investigator.py reports of the tools that it ran.
use ghost_busters.Prelude.{
  ℕ, String, true, ◌≡◌, refl, ap, ◌∙◌, List, [], ◌∷◌, ◌++◌, map, Bool-cases, inl, inr,
}
use ghost_busters.Prelude.Text.{◌==◌}
use ghost_busters.Model.{
  InvestigationPlan, TerraformResourceChange, ToolExecutionRecord, EvidenceItem,
}
use ghost_busters.Retry.{RetryConfig, RetryExecution, execute}
use ghost_busters.Investigator.{
  ToolRegistry, Collection, run_tool, run_tools, collect_evidence, record_alternative_evidence,
  mark_first, collected, operation, is_alternative,
}

abbrev names : List ToolExecutionRecord → List String
names records = map (λ (r : ToolExecutionRecord). r.tool_name) records

mark_first-names : (records : List ToolExecutionRecord) → names (mark_first records) ≡ names records
unfolding mark_first
mark_first-names [] = refl
mark_first-names (r ∷ rest) = elim (Bool-cases (r.tool_name == "git_activity")) [
  | inl git ↦ rw git refl
  | inr other ↦ rw (other, mark_first-names rest) refl
]

alternative-names :
    (c : Collection) → names (record_alternative_evidence c).records ≡ names c.records
unfolding record_alternative_evidence
alternative-names c = elim (Bool-cases (is_alternative c.evidence)) [
  | inl y ↦ rw y (mark_first-names c.records)
  | inr n ↦ rw n refl
]

module _ (now : ℕ) (registry : ToolRegistry) (config : RetryConfig) (plan : InvestigationPlan)
    (resource : TerraformResourceChange) where
  collected-names :
      (tool : String) (execution : RetryExecution (List EvidenceItem))
      (others : List ToolExecutionRecord)
      → names ((collected now registry config plan resource tool execution).records ++ others)
        ≡ tool ∷ names others
  collected-names tool execution others = elim (Bool-cases execution.result.success) [
    | inl y ↦ rw y refl
    | inr n ↦ rw n refl
  ]

  run_tools-names :
      (tools : List String)
      → names (run_tools now registry config plan resource tools).records ≡ tools
  unfolding run_tools run_tool
  run_tools-names [] = refl
  run_tools-names (tool ∷ tools) =
      collected-names tool (execute config tool (operation registry tool) true)
        (run_tools now registry config plan resource tools).records
      ∙ ap (λ rest. tool ∷ rest) (run_tools-names tools)

  -- The collection of evidence leaves one execution record for each tool that the plan selects, in the
  -- plan's order, whether the tool is registered, answers or fails.
  pub collect_evidence-names :
      map
        (λ (r : ToolExecutionRecord). r.tool_name)
        (collect_evidence now registry config plan resource).records
      ≡ plan.selected_tools
  unfolding collect_evidence
  collect_evidence-names =
      alternative-names (run_tools now registry config plan resource plan.selected_tools)
      ∙ run_tools-names plan.selected_tools
