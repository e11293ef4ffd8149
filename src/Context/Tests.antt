-- ===== src/Context/Tests.antt =====
-- Instances of the theorems on contexts.
use shoc.Base.{ℕ, ◌+◌, List, ◌≡◌, refl, Bool, true, none, some, [], ◌∷◌, arith, contains}
use shoc.Doca.{CtxState, in_use}
use shoc.Context.{Context}
use shoc.Context.Await.{awaits, run, resumptions, changes_only, stop_awaiter_resumed_once}
use shoc.Context.Registry.{Registry, StopAnswer, at_once, in_time, refused, stop_all}
use shoc.Context.Registry.StopAll.{all_idle, stop_all_asks_all, stop_all_empties}
use shoc.Context.Scoped.Conservation
use shoc.Context.Scoped.Conservation.{
  Fleet, Op, wraps, assigns, destroys, total, wrapped, run-total,
}
use shoc.Context.Scoped.{move_assign, move_assign_does_not_transfer}

abbrev started : Context
started = record {
  current_state = CtxState.running;
  has_handle = true;
  coro_start = none;
  coro_stop = none;
}

stop_awaiter_resumed_once_example :
    resumptions 9
      (run
        (awaits CtxState.idle 9 ∷ changes_only (CtxState.stopping ∷ CtxState.idle ∷ []))
        (record { context = started; events = [] })).events
    ≡ 1
stop_awaiter_resumed_once_example =
    stop_awaiter_resumed_once 9 started (CtxState.stopping ∷ CtxState.idle ∷ []) refl refl

-- Three children: one stops at once, one in time, and one stop is refused.
abbrev answer : ℕ → StopAnswer
answer ℕ.zero = at_once
answer (ℕ.suc ℕ.zero) = in_time
answer (ℕ.suc (ℕ.suc n)) = refused in_use

abbrev three : Registry
three = record { active = 0 ∷ 1 ∷ 2 ∷ []; contexts = λ _. started; asked = []; resumed = [] }

stop_all_asks_all_example : (stop_all answer three).asked ≡ 0 ∷ 1 ∷ 2 ∷ []
stop_all_asks_all_example =
    (stop_all_asks_all answer three (refl, (refl, (refl, tt))) (λ a m. refl)).0

reported : (a : ℕ) → contains a (2 ∷ 1 ∷ 0 ∷ []) ≡ contains a (0 ∷ 1 ∷ 2 ∷ [])
reported a = ground arith

stop_all_empties_example : (all_idle (2 ∷ 1 ∷ 0 ∷ []) (stop_all answer three)).active ≡ []
stop_all_empties_example =
    stop_all_empties answer three (2 ∷ 1 ∷ 0 ∷ []) (λ a m. refl)
      (λ a m n. ground (arith, reported a))

abbrev alive : ℕ → Bool
alive n = true

move_assign_does_not_transfer_example :
    move_assign alive (record { this = some 1; other = some 2; stopped = [] })
    ≡ record { this = none; other = some 2; stopped = 1 ∷ [] }
move_assign_does_not_transfer_example = move_assign_does_not_transfer alive 1 2 [] refl

-- The wrapper of 5 is assigned the connection 6, then itself, and goes out of scope.
abbrev moves_between : List Op
moves_between = wraps 5 ∷ wraps 6 ∷ assigns 0 1 ∷ assigns 0 0 ∷ destroys 0 ∷ destroys 1 ∷ []

abbrev nothing_held : Fleet
nothing_held = record { wrappers = []; disconnects = [] }

moves_between_disconnects : (Conservation.run moves_between nothing_held).disconnects ≡ 5 ∷ 6 ∷ []
unfolding Conservation.run
moves_between_disconnects = refl

run-total_example :
    total 6 (Conservation.run moves_between nothing_held)
    ≡ total 6 nothing_held + wrapped 6 moves_between
run-total_example = run-total 6 moves_between nothing_held
