-- ===== src/Result.antt =====
-- The outcomes of calls that may raise. A handler works on a copy of the run, so what it had changed
-- when it raised is dropped, and an error carries no state.
use ghost_busters.Prelude.{String, Bool, true, false, ◌≡◌, refl, Option, none, some}

-- HumanReviewError and WorkflowConflictError, RemediationValidationError, RunNotFoundError,
-- DuplicateIdempotencyKeyError, and any other exception by its text.
pub data Error : Type 0 where
  conflict : String → Error
  validation : String → Error
  run_not_found duplicate_key : Error
  failure : String → Error

pub data Result {ℓ} (A : Type ℓ) : Type ℓ where
  err : Error → Result A
  ok : A → Result A

-- an absent value raises
abbrev pub or_raise {ℓ} : {A : Type ℓ} → Option A → Error → Result A
or_raise (some found) error = ok found
or_raise none error = err error

infixl 5 ◌>>=◌
abbrev pub ◌>>=◌ {ℓ κ} : {A : Type ℓ} {B : Type κ} → Result A → (A → Result B) → Result B
err raised >>= continue = err raised
ok answer >>= continue = continue answer

-- `if not test: raise HumanReviewError(message)`
abbrev pub require : Bool → String → Result (Unit {0})
require false message = err (conflict message)
require true message = ok tt

infixl 5 ◌>>◌
abbrev pub ◌>>◌ {ℓ} : {B : Type ℓ} → Result (Unit {0}) → Result B → Result B
checks >> rest = checks >>= λ _. rest

-- What a successful chain has passed through.
pub >>=-eq-ok {ℓ κ} :
    {A : Type ℓ} {B : Type κ} (start : Result A) (continue : A → Result B) (last : B)
    → (start >>= continue) ≡ ok last
    → (a : A) × (start ≡ ok a) × (continue a ≡ ok last)
>>=-eq-ok (err raised) continue last h = cc
>>=-eq-ok (ok answer) continue last h = (answer, refl, h)

pub or_raise-eq-ok {ℓ} :
    {A : Type ℓ} (o : Option A) (e : Error) (a : A) → or_raise o e ≡ ok a → o ≡ some a
or_raise-eq-ok none e a h = cc
or_raise-eq-ok (some b) e a h = cc

pub require-eq-ok :
    (test : Bool) (message : String) (u : Unit {0}) → require test message ≡ ok u → test ≡ true
require-eq-ok true message u h = refl
require-eq-ok false message u h = cc

pub ok-eq-ok {ℓ} : {A : Type ℓ} (a b : A) → ok a ≡ ok b → a ≡ b
ok-eq-ok a b h = cc
