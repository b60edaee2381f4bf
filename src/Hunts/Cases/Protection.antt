-- ===== src/Hunts/Cases/Protection.antt =====
-- core/cloud_hunt_service.py: protected candidates, from the resource to the decisions on the case.
use ghost_busters.Prelude.{
  ℕ, ◌+◌, ◌≤◌, ◌≡◌, ◌⊎◌, ◌∙◌, refl, sym, ap, String, Bool, true, false, not, ◌&&◌, ◌||◌, is_some,
  List, [], ◌∷◌, ◌++◌, any, note, arith, inl, inr, Bool-cases, if◌then◌else◌,
}
use ghost_busters.Prelude.Text.{append}
use ghost_busters.Hunts.Entities.{
  CloudResource, GhostSignal, GhostCandidate, ReviewCaseStatus, ReviewCase, HuntSettings,
  same_case_status,
}
use ghost_busters.Hunts.Candidates.{
  signals_of, calculate_candidate, is_protected, is_production, has_dependencies,
}
use ghost_busters.Hunts.Cases.{create_case, recommendation_for, is_harmless, is_recent}
use ghost_busters.Hunts.Decisions.{
  Reply, done, CaseAction, ReviewCaseActionRequest, is_stale, is_reopening, status_value,
  recorded_copy, take_action, decide_case, status_in, closed_statuses,
}

any-append :
    (p : GhostSignal → Bool) (xs ys : List GhostSignal) → any p (xs ++ ys) ≡ (any p xs || any p ys)
any-append p [] ys = refl
any-append p (x ∷ xs) ys = ground (arith, any-append p xs ys)

any-note :
    (p : GhostSignal → Bool) (b : Bool) (s : GhostSignal) (rest : List GhostSignal)
    → any p (note b s rest) ≡ (b && p s || any p rest)
any-note p true s rest = refl
any-note p false s rest = refl

or_true : (a : Bool) → (a || true) ≡ true
or_true true = refl
or_true false = refl

-- A candidate made from a production resource or from one with active dependencies is protected.
calculate_candidate-protected :
    (settings : HuntSettings) (resource : CloudResource)
    → (is_production resource || has_dependencies resource) ≡ true
    → is_protected (calculate_candidate settings resource) ≡ true
unfolding calculate_candidate is_protected signals_of
calculate_candidate-protected settings resource h = elim (Bool-cases (has_dependencies resource)) [
  | inl dependent ↦ simp (any-note, any-append, dependent, or_true) refl
  | inr free ↦
      let production : is_production resource ≡ true = ground (arith, h, free) in
      simp (any-note, any-append, free, production, or_true) refl
]

recommendation_harmless :
    (candidate : GhostCandidate)
    → is_protected candidate ≡ true
    → is_harmless (recommendation_for candidate) ≡ true
recommendation_harmless candidate h = elim (Bool-cases (is_recent candidate)) [
  | inl recent ↦ rw recent refl
  | inr quiet ↦ elim (Bool-cases (is_production candidate.resource)) [
    | inl production ↦ rw (quiet, production) refl
    | inr other ↦ rw (quiet, other, h) refl
  ]
]

-- A hunt never proposes to act on a production resource or on one with active dependencies: the case
-- that it opens on such a resource recommends to keep it or to ask its owner, claims no monthly and no
-- annual savings, and has a protected candidate.
pub create_case-protected :
    (settings : HuntSettings) (resource : CloudResource) (id now hunt_id organization_id : ℕ)
    → (is_production resource || has_dependencies resource) ≡ true
    → (is_harmless
          (create_case id now hunt_id organization_id
            (calculate_candidate settings resource)).recommendation
        ≡ true)
      × ((create_case id now hunt_id organization_id
            (calculate_candidate settings resource)).estimated_monthly_savings
          ≡ 0)
      × ((create_case id now hunt_id organization_id
            (calculate_candidate settings resource)).estimated_annual_savings
          ≡ 0)
      × (is_protected
            (create_case id now hunt_id organization_id
              (calculate_candidate settings resource)).candidate
          ≡ true)
unfolding create_case
create_case-protected settings resource id now hunt_id organization_id h =
    let protected = calculate_candidate-protected settings resource h in
    let harmless = recommendation_harmless (calculate_candidate settings resource) protected in
    (harmless, rw harmless refl, rw harmless refl, protected)

-- the statuses of a case that has been approved
abbrev pub approved_statuses : List ReviewCaseStatus
approved_statuses =
    ReviewCaseStatus.approved ∷ ReviewCaseStatus.remediation_proposal_prepared
    ∷ ReviewCaseStatus.remediation_pr_created ∷ ReviewCaseStatus.pr_created ∷ []

-- Any number of decisions on a case.
infix 10 ◌↝◌
pub data ◌↝◌ (case : ReviewCase) : ReviewCase → Type 0 where
  opened : case ↝ case
  recorded :
      {middle last : ReviewCase} (now cases : ℕ) (request : ReviewCaseActionRequest)
      → case ↝ middle
      → decide_case now cases request middle ≡ done last
      → case ↝ last

-- What holds of a case at any time: where the candidate is protected there is no simulated pull
-- request and no approval.
pub record IsGuarded (case : ReviewCase) : Type 0 where
  pub no_pr : is_protected case.candidate ≡ true → is_some case.simulated_pr ≡ false
  pub not_approved :
      is_protected case.candidate ≡ true → status_in case.status approved_statuses ≡ false

take_action-candidate :
    (now cases : ℕ) (request : ReviewCaseActionRequest) (case last : ReviewCase)
    → take_action now cases request case ≡ done last
    → (last.candidate ≡ case.candidate)
      × (last.id ≡ case.id)
      × (last.organization_id ≡ case.organization_id)
      × (last.version ≡ case.version)
unfolding take_action
take_action-candidate now cases request case last h = ground arith

take_action-IsGuarded :
    (now cases : ℕ) (request : ReviewCaseActionRequest) (case last : ReviewCase)
    → take_action now cases request case ≡ done last
    → IsGuarded case
    → IsGuarded last
unfolding take_action
take_action-IsGuarded now cases request case last h guarded =
    let pr = guarded.no_pr in
    let open_status = guarded.not_approved in ground (arith, h, pr, open_status)

past_checks :
    (a b : Bool) (m n : String) (rest : Reply ReviewCase) (last : ReviewCase)
    → (if a then Reply.conflict m else if b then Reply.conflict n else rest) ≡ done last
    → rest ≡ done last
past_checks true b m n rest last h = cc
past_checks false true m n rest last h = cc
past_checks false false m n rest last h = h

done-eq-done : (a b : ReviewCase) → done a ≡ done b → a ≡ b
done-eq-done a b h = cc

-- What a recorded decision has passed through.
decide_case-inv :
    (now cases : ℕ) (request : ReviewCaseActionRequest) (case last : ReviewCase)
    → decide_case now cases request case ≡ done last
    → (decided : ReviewCase) × (take_action now cases request case ≡ done decided)
      × (last.candidate ≡ decided.candidate)
      × (last.status ≡ decided.status)
      × (last.simulated_pr ≡ decided.simulated_pr)
      × (last.id ≡ decided.id)
      × (last.organization_id ≡ decided.organization_id)
      × (last.version ≡ decided.version + 1)
unfolding decide_case
decide_case-inv now cases request case last h = by_reply (take_action now cases request case) refl
  where
    by_reply :
        (reply : Reply ReviewCase)
        → take_action now cases request case ≡ reply
        → (decided : ReviewCase) × (take_action now cases request case ≡ done decided)
          × (last.candidate ≡ decided.candidate)
          × (last.status ≡ decided.status)
          × (last.simulated_pr ≡ decided.simulated_pr)
          × (last.id ≡ decided.id)
          × (last.organization_id ≡ decided.organization_id)
          × (last.version ≡ decided.version + 1)
    by_reply Reply.not_found e = absurd (ground (arith, rw (e, decide_case) at h))
    by_reply (Reply.conflict message) e = absurd (ground (arith, rw (e, decide_case) at h))
    by_reply (done found) e =
        let made = done-eq-done (recorded_copy now request found) last (
          past_checks (is_stale request.expected_version case)
            (status_in case.status closed_statuses && not (is_reopening request.action))
            "Case version is stale. Refresh and try again."
            (append "Review case is already " (append (status_value case.status) "."))
            (done (recorded_copy now request found)) last (rw (e, decide_case) at h)) in
        (
          found,
          e,
          sym (ap (λ (c : ReviewCase). c.candidate) made),
          sym (ap (λ (c : ReviewCase). c.status) made),
          sym (ap (λ (c : ReviewCase). c.simulated_pr) made),
          sym (ap (λ (c : ReviewCase). c.id) made),
          sym (ap (λ (c : ReviewCase). c.organization_id) made),
          sym (ap (λ (c : ReviewCase). c.version) made),
        )

create_case-IsGuarded :
    (id now hunt_id organization_id : ℕ) (candidate : GhostCandidate)
    → IsGuarded (create_case id now hunt_id organization_id candidate)
unfolding create_case
create_case-IsGuarded id now hunt_id organization_id candidate = record {
  no_pr = λ h. refl;
  not_approved = λ h. ground arith;
}

decisions-IsGuarded :
    (case last : ReviewCase)
    → IsGuarded case
    → case ↝ last
    → IsGuarded last
      × (last.id ≡ case.id)
      × (last.organization_id ≡ case.organization_id)
      × (case.version ≤ last.version)
decisions-IsGuarded case last guarded opened = (guarded, refl, refl, omega arith)
decisions-IsGuarded case last guarded (recorded {middle} now cases request path e) =
    let before = decisions-IsGuarded case middle guarded path in
    let (found, taken, candidate, status, pr, id, org, version) =
      decide_case-inv now cases request middle last e in
    let same = take_action-candidate now cases request middle found taken in
    let kept = take_action-IsGuarded now cases request middle found taken before.0 in
    (
      record {
        no_pr = λ h. rw pr (kept.no_pr (rw (← candidate) h));
        not_approved = λ h. rw status (kept.not_approved (rw (← candidate) h));
      },
      id ∙ same.1 ∙ before.1,
      org ∙ same.2 ∙ before.2,
      omega (arith, version, same.3, before.3),
    )

-- However a case that a hunt has opened is decided on, and in whatever order, a protected candidate
-- gets no simulated pull request and no approval, the case keeps its id and its organization, and its
-- version is at least 1.
pub decisions_safe :
    (id now hunt_id organization_id : ℕ) (candidate : GhostCandidate) (last : ReviewCase)
    → create_case id now hunt_id organization_id candidate ↝ last
    → ((is_protected last.candidate
          && (is_some last.simulated_pr || status_in last.status approved_statuses))
        ≡ false)
      × (last.id ≡ id)
      × (last.organization_id ≡ organization_id)
      × (1 ≤ last.version)
unfolding create_case
decisions_safe id now hunt_id organization_id candidate last path =
    let opening = create_case id now hunt_id organization_id candidate in
    let h =
      decisions-IsGuarded opening last
        (create_case-IsGuarded id now hunt_id organization_id candidate) path in
    (
      elim (Bool-cases (is_protected last.candidate)) [
        | inl guarded ↦ rw (guarded, h.0.no_pr guarded, h.0.not_approved guarded) refl
        | inr free ↦ rw free refl
      ],
      h.1,
      h.2,
      h.3,
    )

-- What is closed stays closed: a decision that is recorded on a case in the status rejected, waived,
-- pr_created or remediation_pr_created reopens it, and never a case that is waived.
pub decide_case-closed :
    (now cases : ℕ) (request : ReviewCaseActionRequest) (case last : ReviewCase)
    → decide_case now cases request case ≡ done last
    → status_in case.status closed_statuses ≡ true
    → (request.action ≡ CaseAction.reopen_case)
      × (last.status ≡ ReviewCaseStatus.reopened)
      × (same_case_status case.status ReviewCaseStatus.waived ≡ false)
unfolding decide_case take_action
decide_case-closed now cases request case last h closed = ground (arith, h, closed)

-- A revocation is recorded only on a case whose status is approved or remediation_proposal_prepared,
-- and leaves the approval revoked; in the statuses remediation_pr_created and pr_created it is refused.
pub decide_case-revoke :
    (now cases : ℕ) (request : ReviewCaseActionRequest) (case last : ReviewCase)
    → decide_case now cases request case ≡ done last
    → request.action ≡ CaseAction.revoke_approval
    → ((case.status ≡ ReviewCaseStatus.approved)
        ⊎ (case.status ≡ ReviewCaseStatus.remediation_proposal_prepared))
      × (last.status ≡ ReviewCaseStatus.approval_revoked)
unfolding decide_case take_action
decide_case-revoke now cases request case last h revoked = ground (arith, h, revoked)
