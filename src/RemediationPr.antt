-- ===== src/RemediationPr.antt =====
-- integrations/remediation_pr_service.py: the guarded creation of a real pull request. GitHub, and the
-- regular expression that rewrites the file, answer as parameters; the body of the request is left out.
pub mod Guards
use ghost_busters.Prelude.{
  ℕ, String, Bool, true, false, not, ◌&&◌, ◌||◌, Option, none, some, List, [], ◌∷◌, any, first, leb,
  ◌==◌, if◌then◌else◌, get_or_else, or_else,
}
use Prim.Native.Char.{Char, code}
use ghost_busters.Prelude.Text.{append, join, lower, show, mem, ◌==◌ as text_eq}
use ghost_busters.Prelude.Json.{Value, text, Fields, end, get, truthy, str_value}
use ghost_busters.Model.{
  WorkflowRun, DecisionRecord, Alternative, same_action, action_name, RealPullRequest,
  GitHubTerraformChange, GitHubTerraformResourceChange, MissingEvidenceRecord,
}
use ghost_busters.EvidenceUtils.{active_dependencies}
use ghost_busters.MockPr.{selected_alternative}
use ghost_busters.Result.{Result, ok, err, Error, validation, failure, ◌>>=◌, ◌>>◌, or_raise}

pub record Comparison : Type 0 where
  pub status : String
  pub ahead_by : ℕ
  pub behind_by : ℕ

-- integrations/github_client.py by what it answers; `has_branch` is `get_branch` with the error of the
-- category "not_found" as `false`. An open pull request is its number, address and title.
pub record GitHubClient : Type 0 where
  pub get_file_content : String → String → String → String → Result String
  pub list_open_pull_requests :
      String → String → String → Result (List (ℕ × String × Option String))
  pub has_branch : String → String → String → Result Bool
  pub create_branch : String → String → String → String → Result (Unit {0})
  pub update_or_create_file : String → String → String → String → String → Result (Unit {0})
  pub compare_branches : String → String → String → String → Result Comparison
  pub create_pull_request : String → String → String → String → String → Result (ℕ × String)
  -- `re.subn` for an attribute, the old and the new value, and a file
  pub substitute : String → String → String → String → String × ℕ

-- `if not test: raise RemediationValidationError(message)`
abbrev pub require_valid : Bool → String → Result (Unit {0})
require_valid true message = ok tt
require_valid false message = err (validation message)

pub record Target : Type 0 where
  pub source : GitHubTerraformChange
  pub decision : DecisionRecord
  pub change : GitHubTerraformResourceChange
  pub attribute : String
  pub expected : Value
  pub replacement : String

abbrev head : {A : Type 0} → List A → Option A
head [] = none
head (x ∷ _) = some x

abbrev target_change : DecisionRecord → GitHubTerraformChange → Option GitHubTerraformResourceChange
target_change decision source =
    or_else (first (λ item. text_eq item.address decision.resource_id) source.resource_changes)
      (head source.resource_changes)

abbrev size_attributes : List String
size_attributes = "instance_type" ∷ "machine_type" ∷ "size" ∷ []

abbrev proposed_of : Option Alternative → Option String
proposed_of none = none
proposed_of (some a) = a.proposed_instance_type

abbrev equals_text : Value → String → Bool
equals_text (text s) t = text_eq s t
equals_text _ t = false

abbrev is_production_name : Option String → Bool
is_production_name environment = text_eq (lower (get_or_else environment "")) "production"

abbrev no_value : String
no_value = "A safe old and new size value could not be validated."

-- The checks before GitHub is asked anything.
unfoldable pub validate : WorkflowRun → Result Target
validate run = do
  source ← or_raise run.github_source (validation "GitHub source metadata is incomplete.")
  decision ← or_raise run.decision_record (validation "GitHub source metadata is incomplete.")
  change ←
      or_raise (target_change decision source) (validation "GitHub source metadata is incomplete.")
  require_valid (not (change.destructive || change.replacement))
      "Destructive remediation is blocked."
  require_valid (not (is_production_name source.environment)) "Production remediation is blocked."
  require_valid (not (active_dependencies decision.evidence))
      "Active dependencies block remediation."
  require_valid
      (not (any (λ (item : MissingEvidenceRecord). item.critical) decision.missing_evidence))
      "Critical evidence is missing."
  require_valid (mem change.source_file source.terraform_files)
      "Target file was not part of the analysed Terraform pull request."
  attribute ←
      or_raise (first (λ name. mem name change.changed_attributes) size_attributes)
        (validation "Only simple size-attribute remediation is supported.")
  let expected = get (get_or_else change.after end) attribute
  replacement ← or_raise (proposed_of (selected_alternative decision)) (validation no_value)
  require_valid
      (not (not (truthy expected) || text_eq replacement "" || equals_text expected replacement))
      no_value
  ok (record {
    source = source;
    decision = decision;
    change = change;
    attribute = attribute;
    expected = expected;
    replacement = replacement;
  })

-- `repository.split("/", 1)`; without a slash the unpacking raises
unfoldable pub split_repository : String → Option (String × String)
split_repository String.[] = none
split_repository (String.◌∷◌ c s) =
    let rest = split_repository s in
    if code c == 47
    then some ("", s)
    else elim rest [ none ↦ none | some parts ↦ some (String.◌∷◌ c parts.0, parts.1) ]

abbrev stays : Char → Bool
stays c = let n = code c in leb 97 n && leb n 122 || leb 48 n && leb n 57 || n == 45

-- `re.sub(r"[^a-z0-9-]+", "-", text)`: `inside` a run of other characters nothing is added
collapse : Bool → String → String
collapse inside String.[] = ""
collapse inside (String.◌∷◌ c s) =
    if stays c
    then String.◌∷◌ c (collapse false s)
    else append (if inside then "" else "-") (collapse true s)

strip_left : String → String
strip_left String.[] = ""
strip_left (String.◌∷◌ c s) =
    let rest = strip_left s in if code c == 45 then rest else String.◌∷◌ c s

strip_right : String → String
strip_right String.[] = ""
strip_right (String.◌∷◌ c s) =
    let rest = strip_right s in if code c == 45 && text_eq rest "" then "" else String.◌∷◌ c rest

unfoldable pub branch_slug : String → String
unfolding collapse strip_left strip_right lower
branch_slug name = strip_right (strip_left (collapse false (lower name)))

abbrev has_no_diff : Comparison → Bool
has_no_diff c =
    text_eq c.status "identical" || text_eq c.status "same" || c.ahead_by == 0 && c.behind_by == 0

module _ (client : GitHubClient) (prefix : String) (now : ℕ) (version : ℕ) (target : Target) where
  abbrev branch : String
  branch = join "" (
      prefix
      ∷ "/pr-"
      ∷ show target.source.pull_request_number
      ∷ "-"
      ∷ branch_slug target.change.resource_name
      ∷ [])

  abbrev key : String
  key = join ":" (
      target.source.repository
      ∷ show target.source.pull_request_number
      ∷ target.change.address
      ∷ action_name target.decision.preferred_action
      ∷ append "v" (show version)
      ∷ [])

  abbrev request : ℕ → String → String → Bool → RealPullRequest
  request number url title reused = record {
    repository = target.source.repository;
    number = number;
    url = url;
    branch = branch;
    base_branch = target.source.head_branch;
    title = title;
    created_at = now;
    idempotency_key = key;
    reused = reused;
  }

  abbrev ensure_branch : String → String → Bool → Result (Unit {0})
  ensure_branch owner repo true = ok tt
  ensure_branch owner repo false = client.create_branch owner repo branch target.source.head_sha

  abbrev title : String
  title = append "GhostBusters: Right-size " target.change.resource_name

  -- no open request for the branch: commit the rewritten file and open one
  abbrev open_request : String → String → String → Result RealPullRequest
  open_request owner repo updated = do
    found ← client.has_branch owner repo branch
    ensure_branch owner repo found
    client.update_or_create_file owner repo branch target.change.source_file updated
    comparison ← client.compare_branches owner repo target.source.head_branch branch
    require_valid (not (has_no_diff comparison))
        "Remediation branch has no diff against the selected base branch."
    created ← client.create_pull_request owner repo title branch target.source.head_branch
    ok (request created.0 created.1 title false)

  abbrev reuse_or_open :
      String → String → String → List (ℕ × String × Option String) → Result RealPullRequest
  reuse_or_open owner repo updated ((number, url, name) ∷ _) =
      ok (request number url (get_or_else name "GhostBusters remediation") true)
  reuse_or_open owner repo updated [] = open_request owner repo updated

  unfoldable pub publish : Result RealPullRequest
  unfolding split_repository branch_slug
  publish = do
    names ← or_raise (split_repository target.source.repository) (failure "ValueError")
    content ←
        client.get_file_content names.0 names.1 target.change.source_file target.source.head_sha
    let rewritten =
        client.substitute target.attribute (str_value target.expected) target.replacement content
    require_valid (rewritten.1 == 1)
        "Expected old value was not found exactly once; source may be stale."
    existing ← client.list_open_pull_requests names.0 names.1 (append names.0 (append ":" branch))
    reuse_or_open names.0 names.1 rewritten.0 existing

unfoldable pub create_remediation : GitHubClient → String → ℕ → WorkflowRun → Result RealPullRequest
create_remediation client prefix now run = do
  target ← validate run
  publish client prefix now run.version target
