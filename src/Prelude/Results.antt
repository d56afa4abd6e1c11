-- ===== src/Prelude/Results.antt =====
-- Exceptions as values: the classes of contracts/errors.py that the modelled code raises, and the
-- built-in ones. Messages are left out.
use mathlib.Core.Bool.{Bool, true, false}
use mathlib.Core.Path.{◌≡◌, refl, ap}

pub data Error : Type 0 where
  version_conflict invalid_transition lease_conflict fencing_token approval_validation : Error
  collaboration_validation output_token_budget step_budget : Error
  value_error type_error key_error runtime_error overflow_error : Error
  -- asyncio.CancelledError, which `except Exception` does not catch
  cancelled : Error
  -- not an exception: the call does not return
  endless : Error

-- what a call gives back: an exception that it has raised, or its value
pub data Result {ℓ} (A : Type ℓ) : Type ℓ where
  err : (raised : Error) → Result A
  ok : (value : A) → Result A

infixl 5 ◌>>=◌ ◌>>◌
-- the next call, unless an exception has been raised
abbrev pub ◌>>=◌ {κ ℓ} : {B : Type κ} {A : Type ℓ} → Result A → (A → Result B) → Result B
err raised >>= next = err raised
ok value >>= next = next value

abbrev pub ◌>>◌ {ℓ} : {B : Type ℓ} → Result (Unit {0}) → Result B → Result B
check >> next = check >>= (λ _. next)

-- `if not test: raise error`
abbrev pub guard : Bool → Error → Result (Unit {0})
guard true error = ok tt
guard false error = err error

-- A sequence that succeeds has succeeded at each step.
pub >>=-eq-ok {ℓ κ} :
    {A : Type ℓ} {B : Type κ} (call : Result A) (next : A → Result B) {b : B}
    → (call >>= next) ≡ ok b
    → (a : A) × (call ≡ ok a) × (next a ≡ ok b)
>>=-eq-ok (err raised) next h = cc
>>=-eq-ok (ok value) next h = (value, refl, h)

pub guard-eq-ok {ℓ} :
    {A : Type ℓ} (test : Bool) (error : Error) (next : Result A) {a : A}
    → (guard test error >> next) ≡ ok a
    → (test ≡ true) × (next ≡ ok a)
guard-eq-ok true error next h = (refl, h)
guard-eq-ok false error next h = cc

pub guard_last : (test : Bool) (error : Error) → guard test error ≡ ok tt → test ≡ true
guard_last true error h = refl
guard_last false error h = cc

pub guard-eq {ℓ} :
    {A : Type ℓ} (test : Bool) (error : Error) (next : Result A)
    → test ≡ true
    → (guard test error >> next) ≡ next
guard-eq true error next h = refl
guard-eq false error next h = cc

module _ {ℓ κ ι} {A : Type ℓ} {B : Type κ} {C : Type ι} where
  pub >>=_split :
      (call : Result A) (all : A → Result C) (first : A → Result B) (rest : B → Result C)
      → ((a : A) → all a ≡ (first a >>= rest))
      → (call >>= all) ≡ ((call >>= first) >>= rest)
  >>=_split (err raised) all first rest same = refl
  >>=_split (ok value) all first rest same = same value

module _ {ℓ} {A : Type ℓ} where
  abbrev value_of : A → Result A → A
  value_of default (err raised) = default
  value_of default (ok value) = value

  pub ok-injective : {a b : A} → ok a ≡ ok b → a ≡ b
  ok-injective {a} same = ap (value_of a) same
