-- ===== src/Prelude/Table/Keys.antt =====
-- Tables over any test of keys: what holds of every value, and one entry written and taken back.
use Prim.Native.Nat.{◌≤◌}
use mathlib.Core.Path.{◌≡◌}
use mathlib.Core.Bool.{Bool, true}
use mathlib.Core.Option.{none, some}
use mathlib.Core.List.{List, [], ◌∷◌}
use native.Mathlib.Omega.{arith}
use ghost_busters.Prelude.Lists.{length, all, first, keep_if}
use ghost_busters.Prelude.Table.{Table, values, lookup, put, drop}

pub length-keep_if {ℓ} :
    {A : Type ℓ} (p : A → Bool) (xs : List A) → length (keep_if p xs) ≤ length xs
length-keep_if p [] = omega arith
length-keep_if p (x ∷ xs) = ground (arith, length-keep_if p xs)

module _ {ℓ} {K : Type 0} {A : Type ℓ} (same : K → K → Bool) where
  pub all-put :
      (p : A → Bool) (k : K) (a : A) (t : Table K A)
      → all p (values t) ≡ true
      → p a ≡ true
      → all p (values (put same k a t)) ≡ true
  unfolding put
  all-put p k a [] h holds = ground arith
  all-put p k a (e ∷ rest) h holds = ground (arith, all-put p k a rest)

  pub all-lookup :
      (p : A → Bool) (k : K) (a : A) (t : Table K A)
      → all p (values t) ≡ true
      → lookup same k t ≡ some a
      → p a ≡ true
  unfolding lookup
  all-lookup p k a [] h found = cc
  all-lookup p k a (e ∷ rest) h found = ground (arith, all-lookup p k a rest)

  pub lookup-put_written :
      (k : K) (a : A) (t : Table K A) → same k k ≡ true → lookup same k (put same k a t) ≡ some a
  unfolding lookup put
  lookup-put_written k a [] h = ground arith
  lookup-put_written k a (e ∷ rest) h = ground (arith, lookup-put_written k a rest h)

  pub lookup-drop_new :
      (k : K) (a : A) (t : Table K A)
      → lookup same k t ≡ none
      → same k k ≡ true
      → lookup same k (drop same k (put same k a t)) ≡ none
  unfolding lookup put drop
  lookup-drop_new k a [] h r = ground arith
  lookup-drop_new k a (e ∷ rest) h r = ground (arith, lookup-drop_new k a rest)

  pub first-put_new :
      (p : A → Bool) (k : K) (a : A) (t : Table K A)
      → lookup same k t ≡ none
      → first p (values t) ≡ none
      → p a ≡ true
      → first p (values (put same k a t)) ≡ some a
  unfolding lookup put
  first-put_new p k a [] h f holds = ground arith
  first-put_new p k a (e ∷ rest) h f holds = ground (arith, first-put_new p k a rest)
