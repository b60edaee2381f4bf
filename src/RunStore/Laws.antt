-- ===== src/RunStore/Laws.antt =====
-- How the operations of core/run_store.py go together.
use ghost_busters.Prelude.{
  ℕ, ◌+◌, ◌≡◌, ◌≢◌, refl, sym, ap, ◌∙◌, Option, none, some, List, [], ◌∷◌, arith, Bool-cases, inl,
  inr, ◌==◌, ==_iff, ==_refl,
}
use mathlib.Core.Path.{subst₂}
use ghost_busters.Model.{WorkflowRun}
use ghost_busters.Result.{Result, ok, or_raise-eq-ok, >>=-eq-ok}
use ghost_busters.RunStore.{RunStore, lookup, insert, get, update, visible}

-- What is stored under a key afterwards.
pub lookup-insert :
    (id : ℕ) (run : WorkflowRun) (runs : List (ℕ × WorkflowRun))
    → lookup id (insert id run runs) ≡ some run
unfolding lookup insert
lookup-insert id run [] = ground (arith, ==_refl id)
lookup-insert id run ((i, old) ∷ rest) = ground (arith, lookup-insert id run rest, ==_refl id)

-- The other keys are not touched.
pub lookup-insert-other :
    (id other : ℕ) (run : WorkflowRun) (runs : List (ℕ × WorkflowRun))
    → other ≢ id
    → lookup other (insert id run runs) ≡ lookup other runs
unfolding lookup insert
lookup-insert-other id other run [] n = ground arith
lookup-insert-other id other run ((i, old) ∷ rest) n =
    ground (arith, lookup-insert-other id other run rest n)

visible-some :
    (organization : ℕ) (o : Option WorkflowRun) (run : WorkflowRun)
    → visible (some organization) o ≡ some run
    → (o ≡ some run) × (run.organization_id ≡ organization)
visible-some organization none run h = cc
visible-some organization (some found) run h =
    elim (Bool-cases (found.organization_id == organization)) [
      | inl own ↦
          let same : found ≡ run = cc (rw own at h) in
          (
            ap (λ x. some x) same,
            ap (λ (x : WorkflowRun). x.organization_id) (sym same) ∙ (==_iff _ _).0 own,
          )
      | inr foreign ↦ cc (rw foreign at h)
    ]

-- What `get` answers for an organization is the run under that id, and it is the organization's own.
pub get-own :
    (id organization : ℕ) (store : RunStore) (run : WorkflowRun)
    → get id (some organization) store ≡ ok run
    → (lookup id store.runs ≡ some run) × (run.organization_id ≡ organization)
unfolding get
get-own id organization store run h =
    visible-some organization (lookup id store.runs) run (or_raise-eq-ok _ _ run h)

-- A run that is there is answered to its own organization.
pub get-stored :
    (id : ℕ) (store : RunStore) (run : WorkflowRun)
    → lookup id store.runs ≡ some run
    → get id (some run.organization_id) store ≡ ok run
unfolding get
get-stored id store run h = rw (h, ==_refl run.organization_id) refl

-- What a change through the store has done.
pub record IsUpdated (id : ℕ) (change : WorkflowRun → Result WorkflowRun) (store next : RunStore)
    (current stored : WorkflowRun) : Type 0 where
  pub before : lookup id store.runs ≡ some current
  pub after : lookup id next.runs ≡ some stored
  pub replacement : WorkflowRun
  pub changed : change current ≡ ok replacement
  pub versioned : stored ≡ record replacement { version = current.version + 1 }
  pub others : (other : ℕ) → other ≢ id → lookup other next.runs ≡ lookup other store.runs

-- A change that an organization makes through the store is of a run of its own, stores the answer of
-- the change under that id with the next version, and leaves the runs under all other ids.
pub update-IsUpdated :
    (id organization : ℕ) (change : WorkflowRun → Result WorkflowRun) (store next : RunStore)
    (stored : WorkflowRun)
    → update id change (some organization) store ≡ ok (stored, next)
    → (current : WorkflowRun) × IsUpdated id change store next current stored
      × (current.organization_id ≡ organization)
unfolding update
update-IsUpdated id organization change store next stored h =
    let a = >>=-eq-ok (get id (some organization) store) _ (stored, next) h in
    let b = >>=-eq-ok (change a.0) _ (stored, next) a.2 in
    let own = get-own id organization store a.0 a.1 in
    let made : WorkflowRun = record b.0 { version = a.0.version + 1 } in
    let saved : RunStore = record { runs = insert id made store.runs } in
    let first : made ≡ stored = cc b.2 in
    let second : saved ≡ next = cc b.2 in
    (
      a.0,
      subst₂ (λ (r : WorkflowRun) (s : RunStore). IsUpdated id change store s a.0 r) first second
          (record {
            before = own.0;
            after = lookup-insert id made store.runs;
            replacement = b.0;
            changed = b.1;
            versioned = refl;
            others = λ other n. lookup-insert-other id other made store.runs n;
          }),
      own.1,
    )
