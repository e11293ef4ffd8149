-- ===== src/Context/Await.antt =====
-- Coroutines that wait for a context to start or stop.
use shoc.Base.{
  ap, ◌∙◌, Bool-cases, inl, inr, ℕ, suc, ◌+◌, ◌≡◌, refl, Bool, true, false, Option, none, some,
  List, [], ◌∷◌, ◌++◌, arith, ◌==◌, ◌||◌, if◌then◌else◌,
}
use shoc.Doca.{CtxState}
use shoc.Error.{Exception}
use shoc.Context.{
  Context, Event, destroys_handle, signals_parent, resumes, logs, resume_coro, same_state,
  await_ready, await_suspend, state_changed_callback,
}

-- What happens to a context in its parent's event loop.
pub data Step : Type 0 where
  changes : CtxState → Step
  awaits : CtxState → ℕ → Step

pub record Run : Type 0 where
  pub context : Context
  pub events : List Event

-- `co_await` on the awaitable: a coroutine that need not wait goes on at once.
co_await : CtxState → ℕ → Run → Run
unfolding await_ready await_suspend
co_await desired h r =
    if await_ready desired r.context
    then record r { events = r.events ++ resumes h ∷ [] }
    else record r { context = await_suspend desired h r.context }

-- No member but those of `context_base` changes: the default handler.
no_handler : CtxState → CtxState → Unit {0} → Unit {0} × Option Exception
no_handler prev next d = (d, none)

step : Step → Run → Run
unfolding co_await state_changed_callback no_handler
step (changes next) r =
    let out = state_changed_callback no_handler r.context.current_state next (r.context, tt) in
    record r { context = out.0; events = r.events ++ out.2 }
step (awaits desired h) r = co_await desired h r

pub run : List Step → Run → Run
unfolding step
run [] r = r
run (s ∷ ss) r = run ss (step s r)

abbrev pub resumptions : ℕ → List Event → ℕ
resumptions h [] = 0
resumptions h (resumes k ∷ es) = if k == h then suc (resumptions h es) else resumptions h es
resumptions h (e ∷ es) = resumptions h es

resumptions-append :
    (h : ℕ) (es fs : List Event) → resumptions h (es ++ fs) ≡ resumptions h es + resumptions h fs
resumptions-append h [] fs = omega arith
resumptions-append h (resumes k ∷ es) fs = ground (arith, resumptions-append h es fs)
resumptions-append h (destroys_handle ∷ es) fs = resumptions-append h es fs
resumptions-append h (signals_parent ∷ es) fs = resumptions-append h es fs
resumptions-append h (logs e ∷ es) fs = resumptions-append h es fs

abbrev pub changes_only : List CtxState → List Step
changes_only [] = []
changes_only (s ∷ ss) = changes s ∷ changes_only ss

abbrev pub reaches : CtxState → List CtxState → Bool
reaches goal [] = false
reaches goal (s ∷ ss) = same_state s goal || reaches goal ss

-- A run of state changes with `w` waiting for the stop, and nobody for the start.
changes-resume :
    (h : ℕ) (w : Option ℕ) (ss : List CtxState) (r : Run)
    → r.context.coro_start ≡ none
    → r.context.coro_stop ≡ w
    → resumptions h (run (changes_only ss) r).events
      ≡ resumptions h r.events
        + (if reaches CtxState.idle ss then resumptions h (resume_coro w) else 0)
unfolding run
changes-resume h w [] r a b = omega arith
changes-resume h w (CtxState.idle ∷ ss) r a b = ground (
  arith,
  changes-resume h none ss (step (changes CtxState.idle) r) a refl,
  resumptions-append h r.events
      (destroys_handle ∷ signals_parent ∷ resume_coro r.context.coro_stop),
  b,
)
changes-resume h w (CtxState.running ∷ ss) r a b = ground (
  arith,
  changes-resume h w ss (step (changes CtxState.running) r) refl b,
  resumptions-append h r.events (resume_coro r.context.coro_start),
  a,
)
changes-resume h w (CtxState.starting ∷ ss) r a b = ground (
  arith,
  changes-resume h w ss (step (changes CtxState.starting) r) a b,
  resumptions-append h r.events [],
)
changes-resume h w (CtxState.stopping ∷ ss) r a b = ground (
  arith,
  changes-resume h w ss (step (changes CtxState.stopping) r) a b,
  resumptions-append h r.events [],
)

await_now :
    (h : ℕ) (r : Run)
    → same_state r.context.current_state CtxState.idle ≡ true
    → co_await CtxState.idle h r ≡ record r { events = r.events ++ resumes h ∷ [] }
unfolding co_await
await_now h r e = rw e

await_later :
    (h : ℕ) (r : Run)
    → same_state r.context.current_state CtxState.idle ≡ false
    → co_await CtxState.idle h r ≡ record r { context = record r.context { coro_stop = some h } }
unfolding co_await
await_later h r e = rw e

-- A coroutine that waits for a context to stop goes on exactly once: at once if the context is
-- already idle, and otherwise with the first change to idle; without one it does not go on. This
-- holds if no other coroutine waits on the context.
pub stop_awaiter_resumed_once :
    (h : ℕ) (c : Context) (ss : List CtxState)
    → c.coro_start ≡ none
    → c.coro_stop ≡ none
    → resumptions h
        (run
          (awaits CtxState.idle h ∷ changes_only ss)
          (record { context = c; events = [] })).events
      ≡ (if same_state c.current_state CtxState.idle || reaches CtxState.idle ss then 1 else 0)
unfolding run
stop_awaiter_resumed_once h c ss a b =
    let start : Run = record { context = c; events = [] } in
    elim (Bool-cases (same_state c.current_state CtxState.idle)) [
      | inl e ↦
          ap (λ (r : Run). resumptions h (run (changes_only ss) r).events) (await_now h start e)
          ∙ rw e (
              ground (
                arith,
                changes-resume h none ss (record { context = c; events = resumes h ∷ [] }) a b,
              ))
      | inr e ↦
          ap (λ (r : Run). resumptions h (run (changes_only ss) r).events) (await_later h start e)
          ∙ rw e (
              ground (
                arith,
                changes-resume h (some h) ss
                    (record { context = record c { coro_stop = some h }; events = [] }) a refl,
              ))
    ]
