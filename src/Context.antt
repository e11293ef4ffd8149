-- ===== src/Context.antt =====
-- Offloading contexts and their parents' registries (shoc/context.hpp, shoc/context.cpp). A context
-- is known by its address, a coroutine by its handle. What DOCA answers is an argument.
pub mod Await
pub mod Registry
pub mod Scoped
mod Tests
use shoc.Base.{
  ℕ, zero, suc, Bool, true, false, Option, none, some, List, [], ◌∷◌, ◌++◌, ◌==◌, if◌then◌else◌,
  not,
}
use shoc.Doca.{DocaError, CtxState, success, in_progress, bad_state}
use shoc.Error.{
  Exception, doca_exception, error_value, Outcome, ok, throws, terminates, undefined, ◌>>=◌, ◌>>◌,
  enforce_success, enforce_success_among,
}

-- The members of `context_base`, and whether `handle_` is set.
pub record Context : Type 0 where
  pub current_state : CtxState
  pub has_handle : Bool
  pub coro_start : Option ℕ
  pub coro_stop : Option ℕ

pub data ContextState : Type 0 where
  idle running stopping : ContextState

-- What a context does to the world around it, in order.
pub data Event : Type 0 where
  destroys_handle : Event
  signals_parent : Event
  resumes : ℕ → Event
  logs : Exception → Event

unfoldable pub new_context : Context
new_context = record {
  current_state = CtxState.idle;
  has_handle = true;
  coro_start = none;
  coro_stop = none;
}

abbrev pub same_state : CtxState → CtxState → Bool
same_state CtxState.idle CtxState.idle = true
same_state CtxState.starting CtxState.starting = true
same_state CtxState.running CtxState.running = true
same_state CtxState.stopping CtxState.stopping = true
same_state _ _ = false

-- `start`: what `doca_ctx_start` answers decides whether there is an awaitable, for `RUNNING`.
unfoldable pub start : DocaError → Outcome CtxState
unfolding enforce_success_among
start answer = do enforce_success_among answer (success ∷ in_progress ∷ []); ok CtxState.running

-- `stop`: without a handle DOCA is not called.
unfoldable pub stop : DocaError → Context → Outcome CtxState
unfolding enforce_success_among
stop answer c =
    if c.has_handle
    then (do enforce_success_among answer (success ∷ in_progress ∷ []); ok CtxState.idle)
    else ok CtxState.idle

-- `state`. The assertion is there unless the library is built with `NDEBUG`.
unfoldable pub state : Bool → Bool → CtxState → Outcome ContextState
state ndebug preparing_stop CtxState.idle = ok ContextState.idle
state ndebug preparing_stop CtxState.running =
    ok (if preparing_stop then ContextState.stopping else ContextState.running)
state ndebug preparing_stop CtxState.stopping = ok ContextState.stopping
state ndebug preparing_stop CtxState.starting =
    if ndebug then throws (error_value bad_state) else terminates

-- `inflight_tasks`: DOCA's answer, and the number that it writes.
unfoldable pub inflight_tasks : DocaError → ℕ → Outcome ℕ
unfolding enforce_success
inflight_tasks answer tasks = do enforce_success answer; ok tasks

-- The awaitable of `start` and `stop`.
unfoldable pub await_ready : CtxState → Context → Bool
await_ready desired c = same_state c.current_state desired

unfoldable pub await_suspend : CtxState → ℕ → Context → Context
await_suspend CtxState.running caller c = record c { coro_start = some caller }
await_suspend CtxState.idle caller c = record c { coro_stop = some caller }
await_suspend _ caller c = c

abbrev pub resume_coro : Option ℕ → List Event
resume_coro none = []
resume_coro (some h) = resumes h ∷ []

abbrev log_caught : Option Exception → List Event
log_caught none = []
log_caught (some e) = logs e ∷ []

-- The second half of `state_changed_callback`.
finish_change : CtxState → Context → Context × List Event
finish_change CtxState.running c = (record c { coro_start = none }, resume_coro c.coro_start)
finish_change CtxState.idle c = (
  record c { coro_stop = none; has_handle = false },
  destroys_handle ∷ signals_parent ∷ resume_coro c.coro_stop,
)
finish_change _ c = (c, [])

-- `state_changed_callback`. `handler` is the concrete context's `state_changed` on its own members;
-- what it throws is logged.
module _ {ℓ} {D : Type ℓ} (handler : CtxState → CtxState → D → D × Option Exception) where
  unfoldable pub state_changed_callback :
      CtxState → CtxState → Context × D → Context × D × List Event
  unfolding finish_change
  state_changed_callback prev next (c, d) =
      let (d', thrown) = handler prev next d in
      let (c', events) = finish_change next (record c { current_state = next }) in
      (c', d', log_caught thrown ++ events)

-- The constructor: three calls of DOCA, the last one `connect_to_engine`, which is left out for
-- handles that DOCA creates with an engine connection.
unfoldable pub construct : Bool → DocaError → DocaError → DocaError → Outcome Context
unfolding enforce_success new_context
construct created_with_engine user_data callback connected = do
  enforce_success user_data
  enforce_success callback
  if created_with_engine then ok tt else enforce_success connected
  ok new_context
