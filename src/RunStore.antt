-- ===== src/RunStore.antt =====
-- core/run_store.py: the in-memory store of runs, a dict from run ids in insertion order. A caller
-- gets copies, so a run changes only through the store.
pub mod Laws
pub mod Keys
use ghost_busters.Prelude.{
  ℕ, ◌+◌, String, Bool, true, false, not, ◌&&◌, ◌||◌, Option, none, some, List, [], ◌∷◌, map, first,
  keep_if, if◌then◌else◌, ◌==◌, is_some, get_or_else,
}
use ghost_busters.Prelude.Text.{◌==◌ as text_eq}
use ghost_busters.Model.{WorkflowRun}
use ghost_busters.Result.{Result, ok, err, run_not_found, duplicate_key, ◌>>=◌, ◌>>◌, or_raise}

pub record RunStore : Type 0 where
  pub runs : List (ℕ × WorkflowRun)

-- DEFAULT_DEVELOPMENT_ORGANIZATION_ID
abbrev pub default_organization : ℕ
default_organization = 1

unfoldable pub lookup : ℕ → List (ℕ × WorkflowRun) → Option WorkflowRun
lookup id [] = none
lookup id ((i, run) ∷ rest) = if id == i then some run else lookup id rest

-- `self._runs[id] = run`
unfoldable pub insert : ℕ → WorkflowRun → List (ℕ × WorkflowRun) → List (ℕ × WorkflowRun)
insert id run [] = (id, run) ∷ []
insert id run ((i, old) ∷ rest) = if id == i then (i, run) ∷ rest else (i, old) ∷ insert id run rest

abbrev has_key : String → WorkflowRun → Bool
has_key key run = elim run.idempotency_key [ none ↦ false | some k ↦ text_eq k key ]

unfoldable pub find_by_key_unlocked : String → RunStore → Option WorkflowRun
find_by_key_unlocked key store =
    first (has_key key) (map (λ (entry : ℕ × WorkflowRun). entry.1) store.runs)

-- `run.idempotency_key and self._find_by_key_unlocked(..) is not None`
abbrev is_taken : Option String → RunStore → Bool
is_taken none store = false
is_taken (some key) store = not (text_eq key "") && is_some (find_by_key_unlocked key store)

unfoldable pub create : WorkflowRun → RunStore → Result (WorkflowRun × RunStore)
unfolding insert find_by_key_unlocked
create run store =
    if is_taken run.idempotency_key store
    then err duplicate_key
    else ok (run, record { runs = insert run.id run store.runs })

-- `organization_id is not None and run.organization_id != organization_id`
abbrev pub is_foreign : Option ℕ → WorkflowRun → Bool
is_foreign none run = false
is_foreign (some organization) run = not (run.organization_id == organization)

abbrev visible : Option ℕ → Option WorkflowRun → Option WorkflowRun
visible organization none = none
visible organization (some run) = if is_foreign organization run then none else some run

unfoldable pub get : ℕ → Option ℕ → RunStore → Result WorkflowRun
unfolding lookup
get id organization store = or_raise (visible organization (lookup id store.runs)) run_not_found

-- no organization means the default one here, unlike in the other methods
unfoldable pub list : Option ℕ → RunStore → List WorkflowRun
list organization store =
    keep_if (λ run. run.organization_id == get_or_else organization default_organization)
      (map (λ (entry : ℕ × WorkflowRun). entry.1) store.runs)

unfoldable pub update :
    ℕ → (WorkflowRun → Result WorkflowRun) → Option ℕ → RunStore → Result (WorkflowRun × RunStore)
unfolding get insert
update id updater organization store = do
  current ← get id organization store
  replacement ← updater current
  let stored = record replacement { version = current.version + 1 }
  ok (stored, record { runs = insert id stored store.runs })

unfoldable pub find_by_idempotency_key : String → Option ℕ → RunStore → Option WorkflowRun
unfolding find_by_key_unlocked
find_by_idempotency_key key organization store =
    visible organization (find_by_key_unlocked key store)

unfoldable pub delete_all : RunStore → RunStore
delete_all store = record { runs = [] }

unfoldable pub delete_fixture_runs : ℕ → RunStore → RunStore
delete_fixture_runs organization store = record {
  runs =
      keep_if
        (λ (entry : ℕ × WorkflowRun).
          not (entry.1.organization_id == organization)
          || not (text_eq entry.1.data_source_mode "Fixture-backed"))
        store.runs;
}
