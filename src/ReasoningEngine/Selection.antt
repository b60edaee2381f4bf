-- ===== src/ReasoningEngine/Selection.antt =====
-- `_select_preferred` of core/reasoning_engine.py on the alternatives that are generated.
use ghost_busters.Prelude.{
  Bool, true, false, ◌&&◌, ◌||◌, ◌≡◌, refl, some, List, [], ◌∷◌, arith, Bool-cases, Option-cases,
  ◌∙◌, inl, inr, ◌⊎◌,
}
use ghost_busters.Model.{
  EvidenceItem, TerraformResourceChange, ConflictRecord, MissingEvidenceRecord, Alternative, Action,
  same_action,
}
use ghost_busters.AlternativeGenerator.{generate_alternatives, is_production}
use ghost_busters.AlternativeGenerator.Eligibility.{
  IsGenerated, All-first, generate_alternatives-IsGenerated,
}
use ghost_busters.ReasoningEngine.{
  find_action, find_eligible, first_eligible, preference, select_preferred,
}

pub same_action-eq : (a b : Action) → same_action a b ≡ true → a ≡ b
same_action-eq a b h = ground arith

module _ (resource : TerraformResourceChange) (evidence : List EvidenceItem)
    (missing_evidence : List MissingEvidenceRecord) (conflicts : List ConflictRecord) where
  abbrev alternatives : List Alternative
  alternatives = generate_alternatives resource evidence missing_evidence conflicts

  pub find_action-keep : (k : Alternative) × (find_action alternatives Action.keep ≡ some k)
  unfolding generate_alternatives find_action
  find_action-keep = (_, refl)

  pub find_action-blocked :
      (resource.destructive || is_production resource) ≡ true
      → (b : Alternative) × (find_action alternatives Action.blocked ≡ some b)
  unfolding generate_alternatives find_action
  find_action-blocked h = rw h (_, refl)

  pub find_action-request :
      (r : Alternative) × (find_action alternatives Action.request_evidence ≡ some r)
  unfolding generate_alternatives find_action
  find_action-request = elim (Bool-cases (resource.destructive || is_production resource)) [
    | inl hard ↦ rw hard (_, refl)
    | inr soft ↦ rw soft (_, refl)
  ]

  pub find_action-action :
      (a : Action) (p : Alternative) → find_action alternatives a ≡ some p → p.action ≡ a
  unfolding find_action
  find_action-action a p h =
      let hit =
        All-first (IsGenerated resource evidence conflicts) (λ item. same_action item.action a) p
          alternatives
          (generate_alternatives-IsGenerated resource evidence missing_evidence conflicts) h in
      same_action-eq p.action a hit.1

  first_eligible-total :
      (actions : List Action) → (p : Alternative) × (first_eligible alternatives actions ≡ some p)
  unfolding first_eligible
  first_eligible-total [] = find_action-keep
  first_eligible-total (a ∷ actions) = elim (Option-cases (find_eligible alternatives a)) [
    | inl absent ↦ rw absent (first_eligible-total actions)
    | inr (p, found) ↦ rw found (p, refl)
  ]

  -- A preferred alternative that was found by the loop: generated, and eligible or a `keep`.
  pub record IsPreferred (p : Alternative) : Type 0 where
    pub generated : IsGenerated resource evidence conflicts p
    pub eligible : (p.eligible ≡ true) ⊎ (p.action ≡ Action.keep)

  find_eligible-IsPreferred :
      (a : Action) (p : Alternative) → find_eligible alternatives a ≡ some p → IsPreferred p
  unfolding find_eligible
  find_eligible-IsPreferred a p h =
      let hit =
        All-first (IsGenerated resource evidence conflicts)
          (λ item. same_action item.action a && item.eligible) p alternatives
          (generate_alternatives-IsGenerated resource evidence missing_evidence conflicts) h in
      record { generated = hit.0; eligible = inl (second _ _ hit.1) }
    where
      second : (x y : Bool) → (x && y) ≡ true → y ≡ true
      second x y e = ground arith

  find_action-IsPreferred :
      (p : Alternative) → find_action alternatives Action.keep ≡ some p → IsPreferred p
  unfolding find_action
  find_action-IsPreferred p h =
      let hit =
        All-first (IsGenerated resource evidence conflicts)
          (λ item. same_action item.action Action.keep) p alternatives
          (generate_alternatives-IsGenerated resource evidence missing_evidence conflicts) h in
      record { generated = hit.0; eligible = inr (same_action-eq p.action Action.keep hit.1) }

  pub first_eligible-IsPreferred :
      (actions : List Action) (p : Alternative)
      → first_eligible alternatives actions ≡ some p
      → IsPreferred p
  unfolding first_eligible
  first_eligible-IsPreferred [] p h = find_action-IsPreferred p h
  first_eligible-IsPreferred (a ∷ actions) p h =
      elim (Option-cases (find_eligible alternatives a)) [
        | inl absent ↦ first_eligible-IsPreferred actions p (rw absent at h)
        | inr (q, found) ↦ find_eligible-IsPreferred a p (found ∙ (rw found at h))
      ]

  -- On generated alternatives `_select_preferred` never runs out: with a hard block, which the code
  -- sets only for a destructive or a production resource, and without one.
  pub select_preferred-total :
      (hard_block : Bool)
      → (hard_block ≡ true → (resource.destructive || is_production resource) ≡ true)
      → (p : Alternative) × (select_preferred alternatives hard_block ≡ some p)
  unfolding select_preferred
  select_preferred-total true h = find_action-blocked (h refl)
  select_preferred-total false h = first_eligible-total preference
