-- ===== src/Offload/Setup.antt =====
-- How a constructor runs (shoc/error.hpp and the constructors of the contexts): each call is checked by
-- `enforce_success`, and the first failure leaves the constructor by an exception.
use shoc.Base.{
  ℕ, suc, ◌≡◌, refl, ap, Bool, Option, none, some, List, [], ◌∷◌, length, ◌++◌, ◌+◌, ◌∙◌, inl, inr,
  ◌⊎◌,
}
use shoc.Doca.{DocaError, success, not_supported}
use shoc.Error.{
  Outcome, ok, throws, terminates, undefined, doca_exception, enforce, enforce_success,
}
use shoc.Error.Laws.{enforce_success-cases}
use shoc.Offload.{
  SetupCall, create_handle, set_user_data, set_state_changed_cb, connect_ctx, Capability,
  Constructor,
}

-- `enforce(dev_.has_capability(…), DOCA_ERROR_NOT_SUPPORTED)`
abbrev pub demand : (Capability → Bool) → Option Capability → Outcome (Unit {0})
demand has_capability none = ok tt
demand has_capability (some c) = enforce (has_capability c) not_supported

abbrev pub successful : {C : Type 0} → List C → List (C × DocaError)
successful [] = []
successful (c ∷ cs) = (c, success) ∷ successful cs

module _ {C : Type 0} where
  -- The calls that are made and what DOCA answers to them, by their number, and how it ends.
  unfoldable pub enforce_each : (ℕ → DocaError) → List C → List (C × DocaError) × Outcome (Unit {0})
  unfolding enforce_success
  enforce_each answer [] = ([], ok tt)
  enforce_each answer (c ∷ cs) =
      let rest = enforce_each (λ k. answer (suc k)) cs in
      elim (enforce_success (answer 0)) [
        | ok u ↦ ((c, answer 0) ∷ rest.0, rest.1)
        | throws e ↦ ((c, answer 0) ∷ [], throws e)
        | terminates ↦ ((c, answer 0) ∷ [], terminates)
        | undefined ↦ ((c, answer 0) ∷ [], undefined)
      ]

  -- Either DOCA accepts all calls, and all of them are made, or an error is thrown.
  enforce_each-cases :
      (answer : ℕ → DocaError) (cs : List C)
      → (enforce_each answer cs ≡ (successful cs, ok tt))
        ⊎ ((e : DocaError) × ((enforce_each answer cs).1 ≡ throws (doca_exception e)))
  unfolding enforce_each
  enforce_each-cases answer [] = inl refl
  enforce_each-cases answer (c ∷ cs) = elim (enforce_success-cases (answer 0)) [
    | inr (h, e) ↦ inr (answer 0, rw (e, enforce_each) refl)
    | inl (h, e) ↦ elim (enforce_each-cases (λ k. answer (suc k)) cs) [
      | inl w ↦ inl (rw (e, enforce_each) (rw (w, h) refl))
      | inr (thrown, w) ↦ inr (thrown, rw (e, enforce_each) w)
    ]
  ]

-- The calls of `context`'s own constructor and of `create_doca_handle`, before the body of a
-- constructor runs. The handle is not connected to the engine when it is created.
abbrev pub base_calls : List SetupCall
base_calls = create_handle ∷ set_user_data ∷ set_state_changed_cb ∷ connect_ctx ∷ []

-- The calls that were made, and how it ended
abbrev Run : Type 0
Run = List (SetupCall × DocaError) × Outcome (Unit {0})

-- What comes first, and the rest if that returns.
unfoldable pub and_then : Run → Run → Run
and_then (l, ok u) rest = (l ++ rest.0, rest.1)
and_then (l, throws e) rest = (l, throws e)
and_then (l, terminates) rest = (l, terminates)
and_then (l, undefined) rest = (l, undefined)

-- A constructor, with what DOCA answers to its calls by their number: the handle, its connection to the
-- engine, the capability that is demanded, and the calls of the body.
unfoldable pub construct :
    (Capability → Bool)
    → (ℕ → DocaError)
    → Constructor
    → List (SetupCall × DocaError) × Outcome (Unit {0})
unfolding enforce enforce_each and_then
construct has_capability answer c = and_then (enforce_each answer base_calls) (
    and_then ([], demand has_capability c.demands)
      (enforce_each (λ k. answer (length base_calls + k)) c.calls))

returned_not_thrown :
    (o : Outcome (Unit {0})) (e : DocaError) → o ≡ ok tt → o ≡ throws (doca_exception e) → ⊥
returned_not_thrown o e h k = cc

enforce_each-returns :
    (answer : ℕ → DocaError) (cs : List SetupCall)
    → (enforce_each answer cs).1 ≡ ok tt
    → (enforce_each answer cs).0 ≡ successful cs
enforce_each-returns answer cs r = elim (enforce_each-cases answer cs) [
  | inl w ↦ ap (λ p. p.0) w
  | inr (e, w) ↦ absurd (returned_not_thrown _ e r w)
]

and_then-returns :
    (first rest : Run)
    → (and_then first rest).1 ≡ ok tt
    → (first.1 ≡ ok tt) × (rest.1 ≡ ok tt) × ((and_then first rest).0 ≡ first.0 ++ rest.0)
unfolding and_then
and_then-returns (l, ok tt) rest r = (refl, r, refl)
and_then-returns (l, throws e) rest r = cc
and_then-returns (l, terminates) rest r = cc
and_then-returns (l, undefined) rest r = cc

-- A constructor that returns has made all of its calls, with success.
pub construct-returns :
    (has_capability : Capability → Bool) (answer : ℕ → DocaError) (c : Constructor)
    → (construct has_capability answer c).1 ≡ ok tt
    → (construct has_capability answer c).0 ≡ successful base_calls ++ successful c.calls
unfolding construct
construct-returns has_capability answer c r =
    let body = enforce_each (λ k. answer (length base_calls + k)) c.calls in
    let checked : Run = ([], demand has_capability c.demands) in
    let based = enforce_each answer base_calls in
    let (b, s, made) = and_then-returns based (and_then checked body) r in
    let (d, e, rest_made) = and_then-returns checked body s in
    made
    ∙ ap (λ l. l ++ (and_then checked body).0) (enforce_each-returns answer base_calls b)
    ∙ ap (λ l. successful base_calls ++ l)
        (rest_made ∙ enforce_each-returns (λ k. answer (length base_calls + k)) c.calls e)
