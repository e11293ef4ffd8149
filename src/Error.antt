-- ===== src/Error.antt =====
-- Exceptions and the checks that raise them (shoc/error.hpp).
pub mod Laws
mod Tests
use mathlib.Core.Logic.{ite}
use shoc.Base.{ℕ, Bool, true, false, List, [], ◌∷◌, if◌then◌else◌}
use shoc.Doca.{DocaError, DocaError-discrete, success}

-- What can be thrown: a `doca_exception`, a bare `doca_error_t`, or anything else.
pub data Exception : Type 0 where
  doca_exception : DocaError → Exception
  error_value : DocaError → Exception
  foreign : ℕ → Exception

-- How a call ends: it returns, it throws, `std::terminate` is called because an exception leaves a
-- `noexcept` function, or its behaviour is undefined.
pub data Outcome {ℓ} (A : Type ℓ) : Type ℓ where
  ok : A → Outcome A
  throws : Exception → Outcome A
  terminates : Outcome A
  undefined : Outcome A

infixl 5 ◌>>=◌ ◌>>◌
abbrev pub ◌>>=◌ {ℓ κ} : {A : Type ℓ} {B : Type κ} → Outcome A → (A → Outcome B) → Outcome B
ok a >>= f = f a
throws e >>= f = throws e
terminates >>= f = terminates
undefined >>= f = undefined

abbrev pub ◌>>◌ {ℓ} : {B : Type ℓ} → Outcome (Unit {0}) → Outcome B → Outcome B
m >> k = m >>= λ _. k

-- A function that is marked `noexcept`.
abbrev pub noexcept {ℓ} : {A : Type ℓ} → Outcome A → Outcome A
noexcept (ok a) = ok a
noexcept (throws e) = terminates
noexcept terminates = terminates
noexcept undefined = undefined

unfoldable pub enforce : Bool → DocaError → Outcome (Unit {0})
enforce condition err = if condition then ok tt else throws (doca_exception err)

-- `result == expected`
abbrev pub same_error : DocaError → DocaError → Bool
same_error a b = ite (DocaError-discrete a b) true false

unfoldable pub enforce_success_as : DocaError → DocaError → Outcome (Unit {0})
unfolding enforce
enforce_success_as result expected = enforce (same_error result expected) result

unfoldable pub enforce_success : DocaError → Outcome (Unit {0})
unfolding enforce_success_as
enforce_success result = enforce_success_as result success

-- `std::ranges::count(expected, result)`
pub count : DocaError → List DocaError → ℕ
count result [] = 0
count result (e ∷ es) = if same_error e result then ℕ.suc (count result es) else count result es

unfoldable pub enforce_success_among : DocaError → List DocaError → Outcome (Unit {0})
unfolding count
enforce_success_among result expected = elim (count result expected) [
  | ℕ.zero ↦ throws (doca_exception result)
  | ℕ.suc n ↦ ok tt
]
