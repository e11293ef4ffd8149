-- ===== src/ProgressEngine/EventLoop.antt =====
-- The event loop of the progress engine, `progress_engine::run`. `W` is the state of the fibers, the
-- contexts and the SDK; what happens to it while the loop waits or yields is an argument.
use shoc.Base.{ℕ, zero, suc, Bool, true, false, ◌||◌, not, Option, none, some, ltb, if◌then◌else◌}
use shoc.Doca.{DocaError, is_success}
use shoc.ProgressEngine.{PollingMode, epoll, busy}

-- How the wait for a notification ends: normally, by `notifier_.cancel()`, or with a system error.
pub data Wait : Type 0 where
  readable aborted failed : Wait

-- How the loop ends: by its condition, by one of the two breaks, or by a `doca_exception` that leaves
-- `run`.
pub data Exit : Type 0 where
  idle_engine interrupted broken : Exit
  thrown : DocaError → Exit

pub record Environment {ℓ} (W : Type ℓ) : Type ℓ where
  -- `registered_fibers_`, and `connected_contexts_.empty()`
  pub registered_fibers : W → ℕ
  pub no_contexts : W → Bool
  -- `doca_pe_progress`: it handles events, and says how many
  pub progress : W → W × ℕ
  -- `connected_contexts_.stop_all()`
  pub stop_all : W → W
  -- what DOCA answers to the `n`-th `doca_pe_request_notification` and `doca_pe_clear_notification`
  pub requested : ℕ → W → DocaError
  pub cleared : ℕ → W → DocaError
  -- the wait for the `n`-th notification, and what other fibers do meanwhile and at `yield`
  pub wait : ℕ → W → W × Wait
  pub yield : W → W

module _ {ℓ} {W : Type ℓ} (env : Environment W) where
  -- `while(doca_pe_progress(handle()) > 0) { }`
  unfoldable pub drain : ℕ → W → Option W
  drain zero w = none
  drain (suc fuel) w =
      let (w', n) = env.progress w in let rest = drain fuel w' in if ltb 0 n then rest else some w'

  after_wait : ℕ → Wait → W → Option (W × Option Exit)
  unfolding drain
  after_wait fuel readable w = some (env.yield w, none)
  after_wait fuel aborted w = elim (drain fuel (env.stop_all w)) [
    | none ↦ none
    | some w' ↦ some (w', some interrupted)
  ]
  after_wait fuel failed w = some (w, some broken)

  after_events : ℕ → Wait → Option W → Option (W × Option Exit)
  unfolding after_wait
  after_events fuel ended none = none
  after_events fuel ended (some w) = after_wait fuel ended w

  -- `enforce_success` of an answer, before the rest of the round
  enforced : DocaError → Option (W × Option Exit) → W → Option (W × Option Exit)
  enforced answer rest w = if is_success answer then rest else some (w, some (thrown answer))

  -- The body of the loop: the new state, and how the loop ends if it breaks.
  unfoldable pub round : PollingMode → ℕ → ℕ → W → Option (W × Option Exit)
  unfolding drain after_events enforced
  round busy fuel n w = elim (drain fuel w) [ none ↦ none | some w' ↦ some (env.yield w', none) ]
  round epoll fuel n w =
      let (w', ended) = env.wait n w in
      let rest = after_events fuel ended (drain fuel w') in
      enforced (env.requested n w) (enforced (env.cleared n w') rest w') w

  -- The condition of the loop.
  unfoldable pub in_use : W → Bool
  in_use w = ltb 0 (env.registered_fibers w) || not (env.no_contexts w)

  -- The loop on fuel; `n` counts the rounds.
  unfoldable pub run : PollingMode → ℕ → ℕ → ℕ → W → Option (W × Exit)
  unfolding round in_use
  run mode rounds zero n w = none
  run mode rounds (suc fuel) n w = elim (in_use w) [
    | false ↦ some (w, idle_engine)
    | true ↦ elim (round mode rounds n w) [
      | none ↦ none
      | some (w', some exit) ↦ some (w', exit)
      | some (w', none) ↦ run mode rounds fuel (suc n) w'
    ]
  ]
