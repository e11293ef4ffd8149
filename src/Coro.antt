-- ===== src/Coro.antt =====
-- Receptables and awaitables (shoc/coro/value_awaitable.hpp, shoc/coro/status_awaitable.hpp).
-- A coroutine handle is a number, and `resume` says which coroutine it resumes. An awaitable is
-- what its `dest_` points to, `none` if that is null.
pub mod Meeting
mod Tests
use shoc.Base.{ℕ, Bool, true, false, Option, none, some}
use shoc.Doca.{DocaError, unexpected, in_use, empty}
use shoc.Error.{Exception, doca_exception, Outcome, ok, throws, undefined, noexcept}

-- `std::variant<std::monostate, std::exception_ptr, Payload>`. An exception pointer that was
-- moved from is null.
pub data Slot {ℓ} (T : Type ℓ) : Type ℓ where
  monostate : Slot T
  exception : Option Exception → Slot T
  payload : T → Slot T

pub record Receptable {ℓ} (T : Type ℓ) : Type ℓ where
  pub value_ : Slot T
  pub waiter_ : Option ℕ

module _ {ℓ} {T : Type ℓ} where
  unfoldable pub create_empty : Receptable T
  create_empty = record { value_ = monostate; waiter_ = none }

  unfoldable pub from_payload : T → Receptable T
  from_payload v = record { value_ = payload v; waiter_ = none }

  unfoldable pub from_exception : Exception → Receptable T
  from_exception e = record { value_ = exception (some e); waiter_ = none }

  unfoldable pub from_error : DocaError → Receptable T
  unfolding from_exception
  from_error e = from_exception (doca_exception e)

  unfoldable pub set_exception : Exception → Receptable T → Receptable T
  set_exception e r = record r { value_ = exception (some e) }

  -- `value_receptable::set_error`
  unfoldable pub set_error : DocaError → Receptable T → Receptable T
  unfolding set_exception
  set_error e r = set_exception (doca_exception e) r

  unfoldable pub set_value : T → Receptable T → Receptable T
  set_value v r = record r { value_ = payload v }

  unfoldable pub emplace_value : T → Receptable T → Receptable T
  emplace_value v r = record r { value_ = payload v }

  abbrev pub holds_alternative : Slot T → Bool
  holds_alternative monostate = false
  holds_alternative _ = true

  unfoldable pub has_value : Receptable T → Bool
  has_value r = holds_alternative r.value_

  unfoldable pub set_waiter : ℕ → Receptable T → Outcome (Receptable T)
  set_waiter h r = elim r.waiter_ [
    | none ↦ ok (record r { waiter_ = some h })
    | some _ ↦ throws (doca_exception in_use)
  ]

  -- The coroutine that runs on; what it throws is caught and logged.
  unfoldable pub resume : Receptable T → Option ℕ
  resume r = r.waiter_

  -- The visit takes the exception pointer out of the variant, and hands out a reference to a
  -- payload that it leaves there.
  unfoldable pub value : Receptable T → Outcome T × Receptable T
  value r = elim r.value_ [
    | monostate ↦ (throws (doca_exception unexpected), r)
    | exception none ↦ (undefined, r)
    | exception (some e) ↦ (throws e, record r { value_ = exception none })
    | payload v ↦ (ok v, r)
  ]

  -- `*dest_`, checked
  abbrev pub deref {κ} :
      {A : Type κ} → Option (Receptable T) → (Receptable T → Outcome A) → Outcome A
  deref none k = throws (doca_exception empty)
  deref (some r) k = k r

  unfoldable pub await_ready : Option (Receptable T) → Outcome Bool
  unfolding has_value
  await_ready dest = noexcept (deref dest λ r. ok (has_value r))

  unfoldable pub await_suspend : ℕ → Option (Receptable T) → Outcome (Receptable T)
  unfolding set_waiter
  await_suspend h dest = deref dest λ r. set_waiter h r

  -- `moved v` is what a move leaves behind in `v`.
  abbrev move_out : (T → T) → Slot T → Slot T
  move_out moved monostate = monostate
  move_out moved (exception e) = exception e
  move_out moved (payload v) = payload (moved v)

  -- The result, and the receptable that is left.
  unfoldable pub await_resume : (T → T) → Option (Receptable T) → Outcome T × Option (Receptable T)
  unfolding value
  await_resume moved none = (throws (doca_exception empty), none)
  await_resume moved (some r) =
      let (result, r') = value r in (result, some (record r' { value_ = move_out moved r'.value_ }))

-- `status_receptable::set_error`: the code is the value, and nothing is thrown.
unfoldable pub set_status : DocaError → Receptable DocaError → Receptable DocaError
unfolding emplace_value
set_status status r = emplace_value status r

-- `additional_data_reference::overwrite`: the caller's buffer, if one was given.
unfoldable pub overwrite {ℓ} : {D : Type ℓ} → D → Option D → Option D
overwrite d none = none
overwrite d (some old) = some d
