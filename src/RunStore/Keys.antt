-- ===== src/RunStore/Keys.antt =====
-- The idempotency keys of core/run_store.py.
use ghost_busters.Prelude.{
  ℕ, ◌+◌, ◌≤◌, String, Bool, true, false, not, ◌&&◌, ◌≡◌, refl, Option, none, some, List, [], ◌∷◌,
  map, first, is_some, arith, if◌then◌else◌, Bool-cases, inl, inr, eq_iff,
}
use mathlib.Core.Path.{subst}
use ghost_busters.Prelude.Text.{◌==◌ as text_eq}
use ghost_busters.Model.{WorkflowRun}
use ghost_busters.Result.{ok}
use ghost_busters.RunStore.{RunStore, insert, create, has_key, is_taken, find_by_key_unlocked}

-- how many stored runs have the key
abbrev pub holders : String → List (ℕ × WorkflowRun) → ℕ
holders key [] = 0
holders key ((i, run) ∷ rest) = if has_key key run then 1 + holders key rest else holders key rest

-- No two runs share a key that is not empty.
abbrev pub IsKeyed : RunStore → Type 0
IsKeyed store = (key : String) → text_eq key "" ≡ false → holders key store.runs ≤ 1

insert-holders :
    (key : String) (id : ℕ) (run : WorkflowRun) (runs : List (ℕ × WorkflowRun))
    → holders key (insert id run runs) ≤ holders key runs + (if has_key key run then 1 else 0)
unfolding insert
insert-holders key id run [] = ground arith
insert-holders key id run ((i, old) ∷ rest) = ground (arith, insert-holders key id run rest)

none-holders :
    (key : String) (runs : List (ℕ × WorkflowRun))
    → is_some (first (has_key key) (map (λ (entry : ℕ × WorkflowRun). entry.1) runs)) ≡ false
    → holders key runs ≡ 0
none-holders key [] h = refl
none-holders key ((i, run) ∷ rest) h = ground (arith, none-holders key rest)

free :
    (key : String) (o : Option String) (store : RunStore)
    → is_taken o store ≡ false
    → elim o [ none ↦ false | some k ↦ text_eq k key ] ≡ true
    → text_eq key "" ≡ false
    → holders key store.runs ≡ 0
unfolding find_by_key_unlocked
free key none store h k n = cc
free key (some k) store h same n =
    let e : k ≡ key = (eq_iff k key).0 same in
    none-holders key store.runs (
      second-false (text_eq key "") _ n (
        subst
          (λ (x : String). (not (text_eq x "") && is_some (find_by_key_unlocked x store)) ≡ false) e
          h))
  where
    second-false : (a b : Bool) → a ≡ false → (not a && b) ≡ false → b ≡ false
    second-false a b h k = ground arith

-- The store that `create` makes, and what it was made under.
create-stored :
    (run stored : WorkflowRun) (store next : RunStore)
    → create run store ≡ ok (stored, next)
    → (is_taken run.idempotency_key store ≡ false)
      × (record { runs = insert run.id run store.runs } ≡ next)
unfolding create
create-stored run stored store next h = elim (Bool-cases (is_taken run.idempotency_key store)) [
  | inl taken ↦ cc (rw taken at h)
  | inr untaken ↦ let e = rw untaken at h in (untaken, cc e)
]

-- Creating a run keeps idempotency keys unique: if no two stored runs share a key that is not empty,
-- then none do after a creation that succeeds.
pub create-IsKeyed :
    (run stored : WorkflowRun) (store next : RunStore)
    → create run store ≡ ok (stored, next)
    → IsKeyed store
    → IsKeyed next
create-IsKeyed run stored store next h keyed =
    let made = create-stored run stored store next h in subst IsKeyed made.1 after
  where
    after : IsKeyed (record { runs = insert run.id run store.runs })
    after key n =
        let bound = insert-holders key run.id run store.runs in
        let before = keyed key n in
        let made = create-stored run stored store next h in
        elim (Bool-cases (has_key key run)) [
          | inl has ↦
              let none_yet = free key run.idempotency_key store made.0 has n in
              omega (arith, rw has at bound, none_yet)
          | inr lacks ↦ omega (arith, rw lacks at bound, before)
        ]
