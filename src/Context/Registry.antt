-- ===== src/Context/Registry.antt =====
-- The registry of active children, `dependent_contexts`, as the progress engine uses it: a stopped
-- child is removed from it, and nothing else happens (`progress_engine::signal_stopped_child`).
mod Effects
pub mod StopAll
use shoc.Base.{
  ℕ, ◌≡◌, refl, ap, ◌∙◌, sym, Bool, true, false, not, ◌&&◌, ◌||◌, Option, none, some, List, [], ◌∷◌,
  ◌++◌, arith, ◌==◌, if◌then◌else◌, contains, remove, Distinct, contains-remove, remove_absent,
  empty_of_contains, Bool-cases, inl, inr,
}
use shoc.Doca.{DocaError, CtxState, success, in_progress}
use shoc.Error.{Exception, Outcome, ok, throws}
use shoc.Context.{
  Context, Event, destroys_handle, signals_parent, resumes, logs, finish_change, new_context, start,
}

-- The answer to `doca_ctx_stop`, with the state changes that DOCA reports before it returns: the
-- context is idle at once, or it will be later, or DOCA refuses.
pub data StopAnswer : Type 0 where
  at_once in_time : StopAnswer
  refused : DocaError → StopAnswer

pub record Registry : Type 0 where
  -- the keys of `active_contexts_`, and the contexts by address
  pub active : List ℕ
  pub contexts : ℕ → Context
  -- the contexts that `doca_ctx_stop` was called for, and the coroutines that were resumed
  pub asked : List ℕ
  pub resumed : List ℕ

-- `remove_stopped_context`
unfoldable pub remove_stopped_context : ℕ → Registry → Registry
remove_stopped_context c w = record w { active = remove c w.active }

-- The effects of a state change on the registry.
perform : ℕ → List Event → Registry → Registry
unfolding remove_stopped_context
perform c [] w = w
perform c (signals_parent ∷ es) w = perform c es (remove_stopped_context c w)
perform c (resumes h ∷ es) w = perform c es (record w { resumed = w.resumed ++ h ∷ [] })
perform c (destroys_handle ∷ es) w = perform c es w
perform c (logs e ∷ es) w = perform c es w

-- DOCA reports that the child at `c` changed its state.
unfoldable pub child_changed : CtxState → ℕ → Registry → Registry
unfolding finish_change perform
child_changed next c w =
    let (c', events) = finish_change next (record (w.contexts c) { current_state = next }) in
    perform c events (record w { contexts = λ a. if c == a then c' else w.contexts a })

pub answered : StopAnswer → ℕ → Registry → Registry
unfolding child_changed
answered at_once c w = child_changed CtxState.idle c w
answered in_time c w = child_changed CtxState.stopping c w
answered (refused e) c w = w

-- `it->second->stop()` in `stop_all`; what it throws is caught and logged.
pub stop_child : (ℕ → StopAnswer) → ℕ → Registry → Registry
unfolding answered
stop_child answer c w =
    if (w.contexts c).has_handle
    then answered (answer c) c (record w { asked = w.asked ++ c ∷ [] })
    else w

-- The loop steps to the next entry before it stops the child, so it goes through the entries that
-- were there at its start.
pub stop_each : (ℕ → StopAnswer) → List ℕ → Registry → Registry
unfolding stop_child
stop_each answer [] w = w
stop_each answer (c ∷ cs) w = stop_each answer cs (stop_child answer c w)

unfoldable pub stop_all : (ℕ → StopAnswer) → Registry → Registry
unfolding stop_each
stop_all answer w = stop_each answer w.active w

-- `create_context`: the child at the address `c` is constructed and started, and registered if DOCA
-- did not refuse the start. `ready` is the state that DOCA has reported by then.
unfoldable pub create_context : ℕ → CtxState → DocaError → Registry → Outcome Registry
unfolding start new_context
create_context c ready answer w = elim (start answer) [
  | ok desired ↦ ok (record w {
    active = c ∷ remove c w.active;
    contexts = λ a. if c == a then record new_context { current_state = ready } else w.contexts a;
  })
  | throws e ↦ throws e
  | Outcome.terminates ↦ Outcome.terminates
  | Outcome.undefined ↦ Outcome.undefined
]
