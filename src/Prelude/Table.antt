-- ===== src/Prelude/Table.antt =====
-- A Python dict as a list of entries in insertion order: a write to a key that is there keeps its place.
pub mod Indexed
pub mod Keys
use Prim.Native.Nat.{ℕ, ◌+◌}
use mathlib.Core.Path.{◌≡◌, refl}
use mathlib.Core.Logic.{◌≢◌}
use mathlib.Core.Bool.{Bool, true, false, ◌&&◌}
use mathlib.Core.Option.{Option, none, some}
use mathlib.Core.List.{List, [], ◌∷◌, ◌++◌, map}
use native.Mathlib.Omega.{arith}
use ghost_busters.Prelude.Tests.{if◌then◌else◌, ◌==◌}

abbrev pub Table {ℓ} : Type 0 → Type ℓ → Type ℓ
Table K A = List (K × A)

-- 1 for a test that holds
abbrev pub one_if : Bool → ℕ
one_if true = 1
one_if false = 0

module _ {ℓ} {A : Type ℓ} where
  -- sum(1 for x in xs if p(x))
  abbrev pub count : (A → Bool) → List A → ℕ
  count p [] = 0
  count p (x ∷ xs) = one_if (p x) + count p xs

  abbrev pub one_if_some : (A → Bool) → Option A → ℕ
  one_if_some p none = 0
  one_if_some p (some a) = one_if (p a)

module _ {ℓ} {K : Type 0} {A : Type ℓ} where
  -- d.values()
  abbrev pub values : Table K A → List A
  values [] = []
  values (e ∷ rest) = e.1 ∷ values rest

module _ {ℓ} {K : Type 0} {A : Type ℓ} (same : K → K → Bool) where
  -- d.get(k)
  unfoldable pub lookup : K → Table K A → Option A
  lookup k [] = none
  lookup k (e ∷ rest) = if same k e.0 then some e.1 else lookup k rest

  -- d[k] = a
  unfoldable pub put : K → A → Table K A → Table K A
  put k a [] = (k, a) ∷ []
  put k a (e ∷ rest) = if same k e.0 then (e.0, a) ∷ rest else e ∷ put k a rest

  -- d.pop(k, None)
  unfoldable pub drop : K → Table K A → Table K A
  drop k [] = []
  drop k (e ∷ rest) = if same k e.0 then rest else e ∷ drop k rest

  -- a write counts the new value and no longer the old one
  pub count-put :
      (p : A → Bool) (k : K) (a : A) (t : Table K A)
      → count p (values (put k a t)) + one_if_some p (lookup k t)
        ≡ count p (values t) + one_if (p a)
  unfolding lookup put
  count-put p k a [] = ground arith
  count-put p k a (e ∷ rest) = ground (arith, count-put p k a rest)

module _ {ℓ} {A : Type ℓ} where
  pub lookup-put_same : (k : ℕ) (a : A) (t : Table ℕ A) → lookup ◌==◌ k (put ◌==◌ k a t) ≡ some a
  unfolding lookup put
  lookup-put_same k a [] = ground arith
  lookup-put_same k a (e ∷ rest) = ground (arith, lookup-put_same k a rest)

  pub lookup-put_other :
      (j k : ℕ) (a : A) (t : Table ℕ A) → j ≢ k → lookup ◌==◌ j (put ◌==◌ k a t) ≡ lookup ◌==◌ j t
  unfolding lookup put
  lookup-put_other j k a [] h = ground arith
  lookup-put_other j k a (e ∷ rest) h = ground (arith, lookup-put_other j k a rest h)

  pub lookup-drop_other :
      (j k : ℕ) (t : Table ℕ A) → j ≢ k → lookup ◌==◌ j (drop ◌==◌ k t) ≡ lookup ◌==◌ j t
  unfolding lookup drop
  lookup-drop_other j k [] h = ground arith
  lookup-drop_other j k (e ∷ rest) h = ground (arith, lookup-drop_other j k rest h)
