-- ===== src/ProgressEngine/Life.antt =====
-- The constructor and the destructor of the progress engine (shoc/progress_engine.cpp), and its
-- single calls of DOCA.
use shoc.Base.{
  ℕ, zero, suc, ◌≡◌, refl, true, false, inl, inr, Option, none, some, arith, ltb, ◌<◌, Bool-cases,
}
use shoc.Doca.{DocaError, DocaError-discrete, success}
use shoc.Error.{
  Outcome, ok, throws, terminates, undefined, ◌>>=◌, ◌>>◌, enforce_success, enforce_success_as,
  enforce,
}
use shoc.Context.Registry.{Registry, remove_stopped_context}
use shoc.ProgressEngine.EventLoop.{Environment, drain}

-- What DOCA answers, and the event handle that it gives.
unfoldable pub notification_handle : DocaError → ℕ → Outcome ℕ
unfolding enforce_success
notification_handle answer event_handle = do enforce_success answer; ok event_handle

-- `request_notification` and `clear_notification`
unfoldable pub notification_call : DocaError → Outcome (Unit {0})
unfolding enforce_success
notification_call answer = enforce_success answer

unfoldable pub inflight_tasks : DocaError → ℕ → Outcome ℕ
unfolding enforce_success
inflight_tasks answer num = do enforce_success answer; ok num

-- `connect`
unfoldable pub connect : DocaError → Outcome (Unit {0})
unfolding enforce_success
connect answer = enforce_success answer

-- The constructor: the handle of the new engine, and the event handle that `notifier_` waits on.
unfoldable pub new_engine : DocaError → ℕ → DocaError → ℕ → Outcome (ℕ × ℕ)
unfolding enforce_success notification_handle
new_engine created pe answer event_handle = do
  enforce_success created
  notifier ← notification_handle answer event_handle
  ok (pe, notifier)

-- `signal_stopped_child`
unfoldable pub signal_stopped_child : ℕ → Registry → Registry
unfolding remove_stopped_context
signal_stopped_child ctx contexts = remove_stopped_context ctx contexts

module _ {ℓ} {W : Type ℓ} (env : Environment W) where
  -- What the destructor does once the notification is cleared: an exception that
  -- `clear_notification` throws would leave the destructor, which is `noexcept`.
  unfoldable pub stop_and_drain : ℕ → Outcome (Unit {0}) → W → Option (Outcome W)
  unfolding drain
  stop_and_drain fuel (ok u) w = elim (drain env fuel (env.stop_all w)) [
    | none ↦ none
    | some w' ↦ some (ok w')
  ]
  stop_and_drain fuel (throws e) w = some terminates
  stop_and_drain fuel terminates w = some terminates
  stop_and_drain fuel undefined w = some undefined

  -- `~progress_engine`; the fuel bounds the calls of `doca_pe_progress`.
  unfoldable pub destroy : ℕ → DocaError → W → Option (Outcome W)
  unfolding stop_and_drain notification_call
  destroy fuel cleared w = elim (env.no_contexts w) [
    | true ↦ some (ok w)
    | false ↦ stop_and_drain fuel (notification_call cleared) w
  ]

  module _ (measure : W → ℕ)
      (falls : (w : W)
        → ltb 0 (env.progress w).1 ≡ true
        → measure (env.progress w).0 < measure w) where
    drain_ends : (fuel : ℕ) (w : W) → measure w < fuel → (w' : W) × (drain env fuel w ≡ some w')
    unfolding drain
    drain_ends zero w h = absurd (omega arith)
    drain_ends (suc fuel) w h = elim (Bool-cases (ltb 0 (env.progress w).1)) [
      | inl e ↦
          let (w', r) = drain_ends fuel (env.progress w).0 (omega (arith, falls w e)) in
          (w', rw e r)
      | inr e ↦ ((env.progress w).0, rw e refl)
    ]

    stopped :
        (fuel : ℕ) (w w' : W)
        → drain env fuel (env.stop_all w) ≡ some w'
        → stop_and_drain fuel (ok tt) w ≡ some (ok w')
    unfolding stop_and_drain
    stopped fuel w w' r = rw (r, stop_and_drain) refl

    -- If whatever DOCA processes brings a measure down, the destructor ends: at once without contexts,
    -- else after all contexts were asked to stop.
    pub destroy_ends :
        (fuel : ℕ) (w : W)
        → measure (env.stop_all w) < fuel
        → (w' : W) × (destroy fuel success w ≡ some (ok w'))
    unfolding destroy notification_call enforce_success enforce_success_as enforce
        DocaError-discrete
    destroy_ends fuel w h = elim (Bool-cases (env.no_contexts w)) [
      | inl e ↦ (w, rw (e, destroy) refl)
      | inr e ↦
          let (w', r) = drain_ends fuel (env.stop_all w) h in
          (w', rw (e, destroy) (stopped fuel w w' r))
    ]
