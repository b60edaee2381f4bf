-- ===== src/Prelude/Table/Indexed.antt =====
-- Tables whose values carry their own keys, as `d[x.id] = x` makes them, with distinct keys.
use Prim.Native.Nat.{ℕ}
use mathlib.Core.Path.{◌≡◌, ◌∙◌, refl}
use mathlib.Core.Logic.{◌≢◌, inl, inr}
use mathlib.Core.Bool.{Bool, true}
use mathlib.Core.Option.{none, some}
use mathlib.Core.List.{[], ◌∷◌}
use native.Mathlib.Omega.{arith}
use ghost_busters.Prelude.Tests.{◌==◌, ==_iff, Bool-cases}
use ghost_busters.Prelude.Lists.{first}
use ghost_busters.Prelude.Table.{Table, values, lookup, put, lookup-put_other}

module _ {A : Type 0} (id : A → ℕ) where
  abbrev pub IsIndexed : Table ℕ A → Type 0
  IsIndexed [] = Unit
  IsIndexed (e ∷ rest) = (id e.1 ≡ e.0) × (lookup ◌==◌ e.0 rest ≡ none) × IsIndexed rest

  pub put-IsIndexed :
      (k : ℕ) (a : A) (t : Table ℕ A) → id a ≡ k → IsIndexed t → IsIndexed (put ◌==◌ k a t)
  unfolding put lookup
  put-IsIndexed k a [] i h = (i, refl, tt)
  put-IsIndexed k a (e ∷ rest) i h = elim (Bool-cases (k == e.0)) [
    | inl here ↦ let at : k ≡ e.0 = (==_iff k e.0).0 here in rw here (i ∙ at, h.1, h.2)
    | inr other ↦
        let ne : e.0 ≢ k = λ p. ground (arith, p, other) in
        rw other (h.0, lookup-put_other e.0 k a rest ne ∙ h.1, put-IsIndexed k a rest i h.2)
  ]

  pub lookup-id :
      (k : ℕ) (a : A) (t : Table ℕ A) → IsIndexed t → lookup ◌==◌ k t ≡ some a → id a ≡ k
  unfolding lookup
  lookup-id k a [] h found = cc
  lookup-id k a (e ∷ rest) h found = elim (Bool-cases (k == e.0)) [
    | inl here ↦
        let at : k ≡ e.0 = (==_iff k e.0).0 here in
        let there = rw here at found in let own = h.0 in let one : e.1 ≡ a = cc in cc
    | inr other ↦ lookup-id k a rest h.2 (rw other at found)
  ]

  -- what a search over the values finds is stored under its key
  pub first-lookup :
      (p : A → Bool) (a : A) (t : Table ℕ A)
      → IsIndexed t
      → first p (values t) ≡ some a
      → lookup ◌==◌ (id a) t ≡ some a
  unfolding lookup
  first-lookup p a [] h found = cc
  first-lookup p a (e ∷ rest) h found = elim (Bool-cases (p e.1)) [
    | inl holds ↦
        let here = rw holds at found in
        let own = h.0 in
        let one : e.1 ≡ a = cc in
        let key : id a ≡ e.0 = cc in
        let yes_here : (id a == e.0) ≡ true = (==_iff _ _).1 key in rw yes_here here
    | inr fails ↦
        let later = first-lookup p a rest h.2 (rw fails at found) in
        elim (Bool-cases (id a == e.0)) [
          | inl here ↦ let key : id a ≡ e.0 = (==_iff _ _).0 here in let gone = h.1 in cc
          | inr other ↦ rw other later
        ]
  ]
