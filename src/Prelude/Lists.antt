-- ===== src/Prelude/Lists.antt =====
-- Lists measured by native numbers, Boolean searches, and the emptiness of a list of notes.
use Prim.Native.Nat.{ℕ, suc, ◌+◌}
use mathlib.Core.Path.{◌≡◌, refl}
use mathlib.Core.Bool.{Bool, true, false, ◌&&◌, ◌||◌, not}
use mathlib.Core.Option.{Option, none, some}
use mathlib.Core.List.{List, [], ◌∷◌, ◌++◌}
use native.Mathlib.Omega.{arith}
use ghost_busters.Prelude.Tests.{if◌then◌else◌}

module _ {ℓ} {A : Type ℓ} where
  abbrev pub length : List A → ℕ
  length [] = 0
  length (_ ∷ xs) = suc (length xs)

  abbrev pub is_empty : List A → Bool
  is_empty [] = true
  is_empty (_ ∷ _) = false

  -- any(p(x) for x in xs)
  abbrev pub any : (A → Bool) → List A → Bool
  any p [] = false
  any p (x ∷ xs) = p x || any p xs

  -- all(p(x) for x in xs)
  abbrev pub all : (A → Bool) → List A → Bool
  all p [] = true
  all p (x ∷ xs) = p x && all p xs

  -- next((x for x in xs if p(x)), None)
  abbrev pub first : (A → Bool) → List A → Option A
  first p [] = none
  first p (x ∷ xs) = if p x then some x else first p xs

  -- [x for x in xs if p(x)]
  abbrev pub keep_if : (A → Bool) → List A → List A
  keep_if p [] = []
  keep_if p (x ∷ xs) = let rest = keep_if p xs in if p x then x ∷ rest else rest

  -- One conditional `append` in front of those that follow it.
  abbrev pub note : Bool → A → List A → List A
  note b m rest = if b then m ∷ rest else rest

  pub is_empty-note :
      (b : Bool) (m : A) (rest : List A) → is_empty (note b m rest) ≡ (not b && is_empty rest)
  is_empty-note true m rest = refl
  is_empty-note false m rest = refl

  pub length-append : (xs ys : List A) → length (xs ++ ys) ≡ length xs + length ys
  length-append [] ys = omega arith
  length-append (x ∷ xs) ys = omega (arith, length-append xs ys)

  pub first-holds : (p : A → Bool) (x : A) (xs : List A) → first p xs ≡ some x → p x ≡ true
  first-holds p x [] h = ground arith
  first-holds p x (y ∷ ys) h = ground (arith, first-holds p x ys)
