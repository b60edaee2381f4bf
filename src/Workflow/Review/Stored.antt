-- ===== src/Workflow/Review/Stored.antt =====
-- What a review of core/workflow_service.py does to the store.
use ghost_busters.Prelude.{
  ℕ, ◌+◌, Bool, true, false, not, ◌&&◌, ◌≡◌, refl, ap, ◌∙◌, inl, inr, Option, none, some, length,
  Bool-cases, arith,
}
use mathlib.Core.Path.{subst, subst₂}
use ghost_busters.Model.{RunStatus, ReviewAction, WorkflowRun, HumanReviewRequest}
use ghost_busters.Result.{Result, ok, >>=-eq-ok, require, require-eq-ok}
use ghost_busters.HumanReview.{same_status}
use ghost_busters.RunStore.{RunStore, get, list, update, lookup}
use ghost_busters.RunStore.Laws.{IsUpdated, update-IsUpdated, get-own, get-stored}
use ghost_busters.Workflow.Decide.{Services}
use ghost_busters.Workflow.Review.{Reviewer, apply_review, review_run, is_approve, is_stale_version}
use ghost_busters.Workflow.Review.Outcome.{reviewed}

same_status-pr_created :
    (s : RunStatus) → same_status s RunStatus.pr_created ≡ true → s ≡ RunStatus.pr_created
same_status-pr_created s h = ground arith

and-true : (a b : Bool) → (a && b) ≡ true → (a ≡ true) × (b ≡ true)
and-true a b h = ground arith

module _ (services : Services) (now run_id : ℕ) (request : HumanReviewRequest) (reviewer : Reviewer)
    (expected : Option ℕ) (store : RunStore) where
  abbrev change : WorkflowRun → Result WorkflowRun
  change = apply_review services now (length (list none store) + 100) request reviewer expected

  -- The two ways in which a review succeeds: the pull request of an approval is there already and
  -- nothing changes, or the run is changed through the store.
  pub data IsStored (run : WorkflowRun) (next : RunStore) : Type 0 where
    unchanged :
        is_approve request.action ≡ true
        → run.status ≡ RunStatus.pr_created
        → lookup run_id store.runs ≡ some run
        → next ≡ store
        → IsStored run next
    changed :
        (current : WorkflowRun)
        → IsUpdated run_id change store next current run
        → is_stale_version expected current ≡ false
        → IsStored run next

  change-fresh :
      (run next : WorkflowRun) → change run ≡ ok next → is_stale_version expected run ≡ false
  unfolding apply_review
  change-fresh run next h =
      let parts =
        >>=-eq-ok
          (require (not (is_stale_version expected run))
            "Case version is stale. Refresh and try again.")
          _ next h in
      opposite (is_stale_version expected run) (require-eq-ok _ _ parts.0 parts.1)
    where
      opposite : (b : Bool) → not b ≡ true → b ≡ false
      opposite b h = ground arith

  changed_as :
      (run : WorkflowRun) (next : RunStore)
      → update run_id change (some reviewer.organization_id) store ≡ ok (run, next)
      → IsStored run next × (run.organization_id ≡ reviewer.organization_id)
  changed_as run next h =
      let found = update-IsUpdated run_id reviewer.organization_id change store next run h in
      let u = found.1 in
      (
        IsStored.changed found.0 u (change-fresh found.0 u.replacement u.changed),
        ap (λ (r : WorkflowRun). r.organization_id) u.versioned
            ∙ (reviewed services now _ request reviewer expected found.0 u.replacement
                u.changed).organization_id
            ∙ found.2,
      )

  module _ (run : WorkflowRun) (created : Bool) (next : RunStore)
      (done : review_run services now run_id request reviewer expected store
        ≡ ok ((run, created), next)) where
    stored_as : IsStored run next × (run.organization_id ≡ reviewer.organization_id)
    unfolding review_run
    stored_as =
        let a =
          >>=-eq-ok (get run_id (some reviewer.organization_id) store) _ ((run, created), next)
            done in
        let own = get-own run_id reviewer.organization_id store a.0 a.1 in
        elim (Bool-cases
          (is_approve request.action && same_status a.0.status RunStatus.pr_created)) [
            | inl there ↦
                let e = rw there at a.2 in
                let same : a.0 ≡ run = cc e in
                let kept : next ≡ store = cc e in
                let tests = and-true (is_approve request.action) _ there in
                subst
                  (λ (r : WorkflowRun).
                    IsStored r next × (r.organization_id ≡ reviewer.organization_id))
                  same
                  (
                    IsStored.unchanged tests.0 (same_status-pr_created a.0.status tests.1) own.0
                        kept,
                    own.1,
                  )
            | inr absent ↦
                let u =
                  >>=-eq-ok (update run_id change (some reviewer.organization_id) store) _
                    ((run, created), next) (rw absent at a.2) in
                let first : u.0.0 ≡ run = cc u.2 in
                let second : u.0.1 ≡ next = cc u.2 in
                subst₂
                  (λ (r : WorkflowRun) (s : RunStore).
                    IsStored r s × (r.organization_id ≡ reviewer.organization_id))
                  first second (changed_as u.0.0 u.0.1 u.1)
          ]

    -- A review that succeeds either finds the pull request of an approval there already, answers that
    -- run and leaves the store, or makes one change of the reviewer's run through the store: the version
    -- goes up by one, it was the expected one where one is expected, and the other runs stay.
    pub review_run-IsStored : IsStored run next
    review_run-IsStored = stored_as.0

    -- What is in the store after a review that succeeds is the run that it answers, and a review under
    -- the same organization answers it again.
    kept : get run_id (some reviewer.organization_id) next ≡ ok run
    kept =
        let at_rest = stored_as in
        subst (λ o. get run_id (some o) next ≡ ok run) at_rest.1
          (get-stored run_id next run (found at_rest.0))
      where
        found : IsStored run next → lookup run_id next.runs ≡ some run
        found (IsStored.unchanged _ _ before same) = rw same before
        found (IsStored.changed _ u _) = u.after

    -- Approving is idempotent: once a review has left a run with its pull request, an approval by the
    -- same organization, at any later time, of any expected version and whatever the services answer
    -- then, answers that run and changes nothing.
    pub review_run-again :
        (later_services : Services) (later : ℕ) (again : HumanReviewRequest) (version : Option ℕ)
        → run.status ≡ RunStatus.pr_created
        → again.action ≡ ReviewAction.approve
        → review_run later_services later run_id again reviewer version next
          ≡ ok ((run, false), next)
    unfolding review_run
    review_run-again later_services later again version created_pr approves =
        rw (kept, approves, created_pr) refl
