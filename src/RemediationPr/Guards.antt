-- ===== src/RemediationPr/Guards.antt =====
-- What stands between a run and a real pull request in integrations/remediation_pr_service.py.
use ghost_busters.Prelude.{ℕ, String, true, false, ◌≡◌, ◌⊎◌, some, any, ◌==◌}
use ghost_busters.Prelude.Text.{mem, ◌==◌ as text_eq}
use ghost_busters.Prelude.Json.{truthy, str_value}
use ghost_busters.Model.{RealPullRequest, MissingEvidenceRecord}
use ghost_busters.EvidenceUtils.{active_dependencies}
use ghost_busters.Result.{ok}
use ghost_busters.RemediationPr.{
  GitHubClient, Target, is_production_name, equals_text, split_repository, Comparison, has_no_diff,
  branch,
}

-- A change that may be put forward: it destroys nothing, outside production, with no active dependency
-- and no critical evidence missing, in a file of the analysed pull request, from one size to another.
pub record IsRemediable (target : Target) : Type 0 where
  pub not_destructive : target.change.destructive ≡ false
  pub not_replacing : target.change.replacement ≡ false
  pub not_production : is_production_name target.source.environment ≡ false
  pub independent : active_dependencies target.decision.evidence ≡ false
  pub complete :
      any (λ (item : MissingEvidenceRecord). item.critical) target.decision.missing_evidence ≡ false
  pub analysed : mem target.change.source_file target.source.terraform_files ≡ true
  pub changed : mem target.attribute target.change.changed_attributes ≡ true
  pub sized : truthy target.expected ≡ true
  pub different : equals_text target.expected target.replacement ≡ false

-- What GitHub has answered before a pull request is created or reused: the file has the old value
-- exactly once, and there is an open pull request of the branch, or the new branch has a difference.
pub record IsPublished (client : GitHubClient) (prefix : String) (now version : ℕ) (target : Target)
    (pr : RealPullRequest) : Type 0 where
  pub owner : String
  pub repo : String
  pub content : String
  pub names : split_repository target.source.repository ≡ some (owner, repo)
  pub read :
      client.get_file_content owner repo target.change.source_file target.source.head_sha
      ≡ ok content
  pub once :
      (client.substitute target.attribute (str_value target.expected) target.replacement content).1
      ≡ 1
  pub open_or_different :
      (pr.reused ≡ true)
      ⊎ ((comparison : Comparison) × (client.compare_branches owner repo target.source.head_branch
              (branch client prefix now version target)
            ≡ ok comparison)
          × (has_no_diff comparison ≡ false))

module _ (client : GitHubClient) (prefix : String) (now version : ℕ) (target : Target) where
  abbrev Shown : String → String → RealPullRequest → Type 0
  Shown owner repo pr =
      (pr.reused ≡ true)
      ⊎ ((comparison : Comparison) × (client.compare_branches owner repo target.source.head_branch
              (branch client prefix now version target)
            ≡ ok comparison)
          × (has_no_diff comparison ≡ false))
