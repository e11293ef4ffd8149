-- ===== src/Rdma/History.antt =====
-- What holds of the receptables of the connection manager (shoc/rdma.cpp) after any sequence of
-- calls and events.
pub mod Pointers
pub mod Invariant
use shoc.Base.{
  ℕ, suc, ◌<◌, ◌≡◌, refl, ap, sym, ◌∙◌, Bool, true, false, Option, none, some, List, [], ◌∷◌, ◌++◌,
  arith, ◌==◌, if◌then◌else◌, contains, contains-append, Distinct, lookup, insert, erase,
  lookup-insert, lookup-erase, Bool-cases, Option-cases, inl, inr,
}
use shoc.Doca.{DocaError, is_success, bad_state, already_exist, connection_aborted}
use shoc.Error.{Outcome, ok, throws, terminates, undefined}
use shoc.Coro.{Receptable, monostate, has_value, create_empty, from_error, set_error, emplace_value}
use shoc.AccepterQueues.{update}
use shoc.Rdma.{
  Rdma, failed_awaitable, is_some, request_at, take_listener_at, take_listener, CmRole, no_role,
  server, client, is_server, has_role, PortAnswers, new_rdma, connect, listen, connection_request,
  connection_established, connection_failure, connection_disconnected, request_from, answer_request,
  complete, take_connection_receptable, get_port_from_connection,
}
use shoc.Rdma.History.Pointers.{
  Key, port, conn, same_key, Owned, Owned-created, Owned-failed, Owned-taken, Owned-dropped,
  Owned-woken,
}
use shoc.Rdma.History.Invariant.{
  Inv, unless_ended, new_rdma-Inv, connect-Inv, listen-Inv, connection_request-Inv, complete-Inv,
}

-- A call on the context, an event that DOCA reports, or a coroutine that awaits its result.
pub data Event : Type 0 where
  connects : DocaError → ℕ → Event
  listens : DocaError → ℕ → Event
  requested : PortAnswers → DocaError → ℕ → Event
  established failed : PortAnswers → ℕ → Event
  disconnected : ℕ → Event
  waits : ℕ → ℕ → Event

unfoldable pub step : Event → Rdma → Rdma
unfolding connect listen connection_request connection_established connection_failure
    connection_disconnected
step (connects answer c) s = connect answer c s
step (listens answer p) s = listen answer p s
step (requested q accepted c) s = unless_ended (connection_request q accepted c s) s
step (established q c) s = connection_established q c s
step (failed q c) s = connection_failure q c s
step (disconnected c) s = connection_disconnected c s
step (waits h a) s = record s { cells = update s.cells a (record (s.cells a) { waiter_ = some h }) }

unfoldable pub run : List Event → Rdma → Rdma
unfolding step
run [] s = s
run (e ∷ es) s = run es (step e s)

pub step-Inv : (e : Event) (s : Rdma) → Inv s → Inv (step e s)
unfolding step connection_established connection_failure connection_disconnected has_value
    emplace_value set_error
step-Inv (connects answer c) s v = connect-Inv answer c s v
step-Inv (listens answer p) s v = listen-Inv answer p s v
step-Inv (requested q accepted c) s v = connection_request-Inv q accepted c s v
step-Inv (established q c) s v = complete-Inv (emplace_value c) (λ r. refl) q c _ s refl v
step-Inv (failed q c) s v = complete-Inv (set_error connection_aborted) (λ r. refl) q c _ s refl v
step-Inv (disconnected c) s v = v
step-Inv (waits h a) s v = record {
  owned = v.owned;
  filled = λ b. ground (arith, v.filled b, v.filled a);
  listening = v.listening;
}

pub history-Inv : (es : List Event) (s : Rdma) → Inv s → Inv (run es s)
unfolding run
history-Inv [] s v = v
history-Inv (e ∷ es) s v = history-Inv es (step e s) (step-Inv e s v)

-- After any calls on a new context and any events, in any order: a receptable that the context still
-- knows has no result yet and is known in one way only; every receptable was given a result once at
-- most and resumed once at most, with a result; and ports are listened on by a server only.
pub run-new_rdma-Inv : (es : List Event) → Inv (run es new_rdma)
run-new_rdma-Inv es = history-Inv es new_rdma new_rdma-Inv
