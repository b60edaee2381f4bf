-- ===== src/Hunts/Scan/Accounting.antt =====
-- core/cloud_hunt_service.py: the counts, the candidates and the audit trail of a hunt.
use ghost_busters.Prelude.{
  ℕ, suc, ◌+◌, ◌≤◌, ◌≡◌, ◌∙◌, refl, sym, ap, String, Bool, true, false, some, ◌==◌, not, ◌&&◌, List,
  [], ◌∷◌, ◌++◌, map, all, length, length-append, if◌then◌else◌, arith, inl, inr, Bool-cases,
}
use ghost_busters.Prelude.Table.{Table, count, lookup, put, lookup-put_same}
use ghost_busters.Hunts.Cases.{create_case}
use ghost_busters.Audit.Numbering.{IsNumberedFrom, numbered-append}
use ghost_busters.Hunts.Entities.{
  CloudResource, GhostCandidate, ReviewCase, CloudHuntRun, HuntStore, HuntSettings,
}
use ghost_busters.Hunts.Candidates.{
  calculate_candidate, detect_candidates, is_protected, is_readable,
}
use ghost_busters.Hunts.Scan.{
  Inventory, CloudHuntRequest, Progress, audit, collect, list_resources, is_waived, investigate,
  select, consider, consider_all, begin, scan, report, summarize, start_hunt, evidence_words,
  HuntReply, finished, finish_hunt,
}

-- a candidate that calls for an investigation and is not waived
abbrev pub is_active : Inventory → Table String ℕ → GhostCandidate → Bool
is_active inventory waivers candidate =
    candidate.requires_investigation && not (is_waived inventory.now waivers candidate)

-- The hunt and organization that cases are opened for, and the cases before.
pub record Opening : Type 0 where
  pub hunt_id : ℕ
  pub organization_id : ℕ
  pub before : Table ℕ ReviewCase

-- The table with a new case for each candidate, in order, each under the next id after `n` others.
pub with_cases :
    Inventory → Opening → ℕ → List GhostCandidate → Table ℕ ReviewCase → Table ℕ ReviewCase
with_cases inventory hunt n [] t = t
with_cases inventory hunt n (candidate ∷ rest) t = with_cases inventory hunt (n + 1) rest (
    put ◌==◌ (inventory.uuid (n + 1))
      (create_case (inventory.uuid (n + 1)) inventory.now hunt.hunt_id hunt.organization_id
        candidate)
      t)

with_cases-append :
    (inventory : Inventory) (hunt : Opening) (n : ℕ) (xs : List GhostCandidate)
    (candidate : GhostCandidate) (t : Table ℕ ReviewCase)
    → with_cases inventory hunt n (xs ++ candidate ∷ []) t
      ≡ put ◌==◌
          (inventory.uuid (n + length xs + 1))
          (create_case
            (inventory.uuid (n + length xs + 1))
            inventory.now
            hunt.hunt_id
            hunt.organization_id
            candidate)
          (with_cases inventory hunt n xs t)
unfolding with_cases
with_cases-append inventory hunt n [] candidate t =
    let same : n + 0 + 1 ≡ n + 1 = omega arith in rw same refl
with_cases-append inventory hunt n (x ∷ xs) candidate t =
    let same : n + suc (length xs) + 1 ≡ n + 1 + length xs + 1 = omega arith in
    rw same (with_cases-append inventory hunt (n + 1) xs candidate _)

-- What holds of the loop's state after some candidates.
record IsAccounted (inventory : Inventory) (waivers : Table String ℕ) (hunt : Opening) (n : ℕ)
    (p : Progress) : Type 0 where
  running : p.failed ≡ false
  opened : p.cases ≡ with_cases inventory hunt 0 p.active_candidates hunt.before
  counted : p.investigations_created ≡ length p.active_candidates
  within : length p.active_candidates ≤ n
  active : all (is_active inventory waivers) p.active_candidates ≡ true
  numbered : IsNumberedFrom 1 p.audit_events

-- Two states with the same candidates, the later one with a numbered trail.
record IsAudited (p q : Progress) : Type 0 where
  same_count : q.investigations_created ≡ p.investigations_created
  same_candidates : q.active_candidates ≡ p.active_candidates
  same_cases : q.cases ≡ p.cases
  still_running : p.failed ≡ false → q.failed ≡ false
  still_numbered : IsNumberedFrom 1 p.audit_events → IsNumberedFrom 1 q.audit_events

audit-IsAudited :
    (now : ℕ) (event_type summary : String) (p : Progress)
    → IsAudited p (audit now event_type summary p)
unfolding audit
audit-IsAudited now event_type summary p = record {
  same_count = refl;
  same_candidates = refl;
  same_cases = refl;
  still_running = λ h. h;
  still_numbered = λ h. numbered-append 1 p.audit_events _ h refl;
}

IsAudited-trans : (p q r : Progress) → IsAudited p q → IsAudited q r → IsAudited p r
IsAudited-trans p q r a b = record {
  same_count = b.same_count ∙ a.same_count;
  same_candidates = b.same_candidates ∙ a.same_candidates;
  same_cases = b.same_cases ∙ a.same_cases;
  still_running = λ h. b.still_running (a.still_running h);
  still_numbered = λ h. b.still_numbered (a.still_numbered h);
}

-- No call of an adapter raises.
abbrev pub IsAnswering : Inventory → Type 0
IsAnswering inventory =
    (provider word id : String) → inventory.evidence_fails provider word id ≡ false

collect-IsAudited :
    (inventory : Inventory) (resource : CloudResource) (words : List String) (p : Progress)
    → IsAnswering inventory
    → IsAudited p (collect inventory resource words p)
unfolding collect
collect-IsAudited inventory resource [] p answers = record {
  same_count = refl;
  same_candidates = refl;
  same_cases = refl;
  still_running = λ h. h;
  still_numbered = λ h. h;
}
collect-IsAudited inventory resource (word ∷ rest) p answers =
    rw (answers resource.provider word resource.resource_id) (
      IsAudited-trans p _ _ (audit-IsAudited inventory.now _ _ p)
        (collect-IsAudited inventory resource rest _ answers))

list_resources-IsAudited :
    (now : ℕ) (resources : List CloudResource) (p : Progress)
    → IsAudited p (list_resources now resources p)
unfolding list_resources
list_resources-IsAudited now [] p = record {
  same_count = refl;
  same_candidates = refl;
  same_cases = refl;
  still_running = λ h. h;
  still_numbered = λ h. h;
}
list_resources-IsAudited now (resource ∷ rest) p =
    IsAudited-trans p _ _ (audit-IsAudited now _ _ p)
      (IsAudited-trans _ _ _ (audit-IsAudited now _ _ _) (list_resources-IsAudited now rest _))

of_audited :
    (inventory : Inventory) (waivers : Table String ℕ) (hunt : Opening) (n : ℕ) (p q : Progress)
    → IsAudited p q
    → IsAccounted inventory waivers hunt n p
    → IsAccounted inventory waivers hunt n q
of_audited inventory waivers hunt n p q a h = record {
  running = a.still_running h.running;
  opened =
      a.same_cases
      ∙ h.opened
      ∙ ap (λ (xs : List GhostCandidate). with_cases inventory hunt 0 xs hunt.before)
          (sym a.same_candidates);
  counted = a.same_count ∙ h.counted ∙ ap length (sym a.same_candidates);
  within = rw a.same_candidates h.within;
  active = rw a.same_candidates h.active;
  numbered = a.still_numbered h.numbered;
}

later :
    (inventory : Inventory) (waivers : Table String ℕ) (hunt : Opening) (n : ℕ) (p : Progress)
    → IsAccounted inventory waivers hunt n p
    → IsAccounted inventory waivers hunt (suc n) p
later inventory waivers hunt n p h = record {
  running = h.running;
  opened = h.opened;
  counted = h.counted;
  within = omega (arith, h.within);
  active = h.active;
  numbered = h.numbered;
}

all-append :
    (p : GhostCandidate → Bool) (xs ys : List GhostCandidate)
    → all p (xs ++ ys) ≡ (all p xs && all p ys)
all-append p [] ys = refl
all-append p (x ∷ xs) ys = ground (arith, all-append p xs ys)

select-IsAudited :
    (inventory : Inventory) (candidate : GhostCandidate) (p : Progress)
    → IsAnswering inventory
    → IsAudited
        (record p { active_candidates = p.active_candidates ++ candidate ∷ [] })
        (select inventory candidate p)
select-IsAudited inventory candidate p answers =
    elim (Bool-cases (inventory.has_adapter candidate.resource.provider)) [
      | inl has ↦ rw has (
          IsAudited-trans _ _ _ (audit-IsAudited inventory.now _ _ _)
            (collect-IsAudited inventory candidate.resource evidence_words _ answers))
      | inr lacks ↦ rw lacks (audit-IsAudited inventory.now _ _ _)
    ]

investigate-IsAccounted :
    (inventory : Inventory) (waivers : Table String ℕ) (hunt : Opening) (n : ℕ)
    (candidate : GhostCandidate) (p : Progress)
    → IsAnswering inventory
    → is_active inventory waivers candidate ≡ true
    → IsAccounted inventory waivers hunt n p
    → IsAccounted inventory waivers hunt
        (suc n)
        (investigate inventory hunt.hunt_id hunt.organization_id candidate p)
unfolding investigate create_case
investigate-IsAccounted inventory waivers hunt n candidate p answers is h =
    let s = select inventory candidate p in
    let a = select-IsAudited inventory candidate p answers in
    let size = length-append p.active_candidates (candidate ∷ []) in
    let grown : length s.active_candidates ≡ length p.active_candidates + 1 =
      rw a.same_candidates size in
    let count_of = a.same_count in
    let added = with_cases-append inventory hunt 0 p.active_candidates candidate hunt.before in
    let from_zero : 0 + length p.active_candidates + 1 ≡ length p.active_candidates + 1 =
      omega arith in
    let running : s.failed ≡ false = a.still_running h.running in
    rw running (
      of_audited inventory waivers hunt (suc n) _ _ (audit-IsAudited inventory.now _ _ _) (record {
        running = refl;
        opened =
            rw (a.same_cases, a.same_candidates, h.counted, h.opened) (sym (rw from_zero at added));
        counted = omega (arith, h.counted, grown, count_of);
        within = omega (arith, h.within, grown);
        active =
            rw (a.same_candidates, all-append (is_active inventory waivers) p.active_candidates)
              (ground (arith, h.active, is));
        numbered = a.still_numbered h.numbered;
      }))

consider-IsAccounted :
    (inventory : Inventory) (waivers : Table String ℕ) (hunt : Opening) (n : ℕ)
    (candidate : GhostCandidate) (p : Progress)
    → IsAnswering inventory
    → IsAccounted inventory waivers hunt n p
    → IsAccounted inventory waivers hunt
        (suc n)
        (consider inventory waivers hunt.hunt_id hunt.organization_id candidate p)
unfolding consider
consider-IsAccounted inventory waivers hunt n candidate p answers h =
    let noted = of_audited inventory waivers hunt n p _ (audit-IsAudited inventory.now _ _ p) h in
    let skipped = λ (word : String). later inventory waivers hunt n _ (
      of_audited inventory waivers hunt n _ _
        (audit-IsAudited inventory.now "candidate_skipped" word _) noted) in
    elim (Bool-cases candidate.requires_investigation) [
      | inr healthy ↦ simp (h.running, healthy) (skipped _)
      | inl suspect ↦ elim (Bool-cases (is_waived inventory.now waivers candidate)) [
        | inl waived ↦ simp (h.running, suspect, waived) (skipped _)
        | inr active ↦
            simp (h.running, suspect, active)
              (investigate-IsAccounted inventory waivers hunt n candidate _ answers
                (ground (arith, suspect, active)) noted)
      ]
    ]

consider_all-IsAccounted :
    (inventory : Inventory) (waivers : Table String ℕ) (hunt : Opening) (n : ℕ)
    (candidates : List GhostCandidate) (p : Progress)
    → IsAnswering inventory
    → IsAccounted inventory waivers hunt n p
    → IsAccounted inventory waivers hunt
        (n + length candidates)
        (consider_all inventory waivers hunt.hunt_id hunt.organization_id candidates p)
unfolding consider_all
consider_all-IsAccounted inventory waivers hunt n [] p answers h =
    let same : n + 0 ≡ n = omega arith in rw same h
consider_all-IsAccounted inventory waivers hunt n (candidate ∷ rest) p answers h =
    let same : n + suc (length rest) ≡ suc n + length rest = omega arith in
    rw same (
      consider_all-IsAccounted inventory waivers hunt (suc n) rest _ answers
        (consider-IsAccounted inventory waivers hunt n candidate p answers h))

length-map : {A B : Type 0} (f : A → B) (xs : List A) → length (map f xs) ≡ length xs
length-map f [] = refl
length-map f (x ∷ xs) = omega (arith, length-map f xs)

-- The loops of a hunt, from the empty trail to its last event.
scan-IsAccounted :
    (settings : HuntSettings) (inventory : Inventory) (request : CloudHuntRequest)
    (organization_id : ℕ) (store : HuntStore)
    → IsAnswering inventory
    → IsAccounted inventory store.waivers
        (record {
          hunt_id = inventory.uuid 0;
          organization_id = organization_id;
          before = store.cases;
        })
        (length inventory.resources)
        (scan inventory request organization_id store
          (map (calculate_candidate settings) inventory.resources))
unfolding scan with_cases
scan-IsAccounted settings inventory request organization_id store answers =
    let size = length-map (calculate_candidate settings) inventory.resources in
    let empty : Progress = record {
      audit_events = [];
      active_candidates = [];
      investigations_created = 0;
      cases = store.cases;
      failed = false;
    } in
    let hunt : Opening = record {
      hunt_id = inventory.uuid 0;
      organization_id = organization_id;
      before = store.cases;
    } in
    let started : IsAccounted inventory store.waivers hunt 0 empty = record {
      running = refl;
      opened = refl;
      counted = refl;
      within = omega arith;
      active = refl;
      numbered = tt;
    } in
    let begun = begin inventory request store in
    let listed = list_resources inventory.now inventory.resources begun in
    let ready =
      of_audited inventory store.waivers hunt 0 empty listed
        (IsAudited-trans empty begun listed (audit-IsAudited inventory.now _ _ empty)
          (list_resources-IsAudited inventory.now inventory.resources begun))
        started in
    let candidates = map (calculate_candidate settings) inventory.resources in
    let considered =
      consider_all inventory store.waivers (inventory.uuid 0) organization_id candidates listed in
    let counted : IsAccounted inventory store.waivers hunt (0 + length candidates) considered =
      consider_all-IsAccounted inventory store.waivers hunt 0 candidates listed answers ready in
    let bound : 0 + length candidates ≡ length inventory.resources = omega (arith, size) in
    of_audited inventory store.waivers hunt (length inventory.resources) considered _
      (audit-IsAudited inventory.now _ _ considered) (rw bound at counted)

count-bound : (p : GhostCandidate → Bool) (xs : List GhostCandidate) → count p xs ≤ length xs
count-bound p [] = omega arith
count-bound p (x ∷ xs) = ground (arith, count-bound p xs)

-- What a finished hunt reports.
pub record IsReport (inventory : Inventory) (store last : HuntStore) (hunt : CloudHuntRun)
    : Type 0 where
  pub one_case_each : hunt.investigations_created ≡ length hunt.candidates
  pub stored_cases :
      last.cases
      ≡ with_cases inventory
          (record {
            hunt_id = hunt.id;
            organization_id = hunt.organization_id;
            before = store.cases;
          })
          0
          hunt.candidates
          store.cases
  pub stored_hunt : lookup ◌==◌ hunt.id last.hunts ≡ some hunt
  pub found : hunt.candidates_found ≡ length hunt.candidates
  pub protected_bound : hunt.protected_resources ≤ hunt.candidates_found
  pub scanned_bound : hunt.candidates_found ≤ hunt.resources_scanned
  pub selected : all (is_active inventory store.waivers) hunt.candidates ≡ true
  pub numbered : IsNumberedFrom 1 hunt.audit_events
  pub healthy :
      hunt.summary.healthy_resources + hunt.summary.candidates ≡ hunt.summary.total_resources

start_hunt-finish :
    (settings : HuntSettings) (inventory : Inventory) (request : CloudHuntRequest)
    (organization_id : ℕ) (store : HuntStore)
    → settings.cloud_hunt_enabled ≡ true
    → inventory.listing_fails ≡ false
    → all is_readable inventory.resources ≡ true
    → start_hunt settings inventory request organization_id store
      ≡ finish_hunt settings inventory request organization_id store (
          scan inventory request organization_id store
            (map (calculate_candidate settings) inventory.resources))
unfolding start_hunt detect_candidates
start_hunt-finish settings inventory request organization_id store enabled listed readable =
    ground (arith, enabled, listed, readable)

finish_hunt-running :
    (settings : HuntSettings) (inventory : Inventory) (request : CloudHuntRequest)
    (organization_id : ℕ) (store : HuntStore) (p : Progress)
    → p.failed ≡ false
    → finish_hunt settings inventory request organization_id store p ≡ (
      finished (report settings inventory request organization_id p),
      record store {
        hunts =
            put ◌==◌
              (inventory.uuid 0)
              (report settings inventory request organization_id p)
              store.hunts;
        cases = p.cases;
      },
    )
unfolding finish_hunt
finish_hunt-running settings inventory request organization_id store p h = if_running p.failed _ _ h
  where
    if_running : (b : Bool) (r s : HuntReply × HuntStore) → b ≡ false → (if b then r else s) ≡ s
    if_running true r s e = cc
    if_running false r s e = refl

-- Where hunts are enabled, and neither the registry, nor an adapter, nor the reading of a resource's
-- metadata raises, a hunt ends with a report that adds up: the store has the hunt, and beside the cases
-- before one new case for each candidate found, in order, under the ids drawn for them; no more
-- protected candidates than candidates and no more candidates than resources; every candidate calls for
-- an investigation and has no active waiver; the healthy resources and the candidates make up the
-- total; and the audit trail counts up from 1.
pub start_hunt-IsReport :
    (settings : HuntSettings) (inventory : Inventory) (request : CloudHuntRequest)
    (organization_id : ℕ) (store : HuntStore)
    → settings.cloud_hunt_enabled ≡ true
    → inventory.listing_fails ≡ false
    → IsAnswering inventory
    → all is_readable inventory.resources ≡ true
    → (hunt : CloudHuntRun) × ((start_hunt settings inventory request organization_id store).0
        ≡ finished hunt)
      × IsReport inventory store
          (start_hunt settings inventory request organization_id store).1
          hunt
unfolding summarize
start_hunt-IsReport settings inventory request organization_id store enabled listed answers
      readable =
    let h = scan-IsAccounted settings inventory request organization_id store answers in
    let p =
      scan inventory request organization_id store
        (map (calculate_candidate settings) inventory.resources) in
    let hunt = report settings inventory request organization_id p in
    let ended =
      start_hunt-finish settings inventory request organization_id store enabled listed readable
      ∙ finish_hunt-running settings inventory request organization_id store p h.running in
    (
      hunt,
      ap (λ (r : HuntReply × HuntStore). r.0) ended,
      record {
        one_case_each = h.counted;
        stored_cases = ap (λ (r : HuntReply × HuntStore). r.1.cases) ended ∙ h.opened;
        stored_hunt =
            ap (λ (r : HuntReply × HuntStore). lookup ◌==◌ hunt.id r.1.hunts) ended
            ∙ lookup-put_same hunt.id hunt store.hunts;
        found = refl;
        protected_bound = count-bound is_protected p.active_candidates;
        scanned_bound = h.within;
        selected = h.active;
        numbered = h.numbered;
        healthy = omega (arith, h.within);
      },
    )
