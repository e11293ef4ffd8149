-- ===== src/Comch/Server.antt =====
-- The comch server and its connections (shoc/comch/server.hpp, shoc/comch/server.cpp). A connection
-- is known by the handle that DOCA gave it, a child context (a consumer or producer) by its address.
pub mod Invariant
pub mod Stopping
pub mod Doubled
use shoc.Base.{
  ℕ, suc, ◌+◌, Bool, true, false, not, Option, none, some, List, [], ◌∷◌, ◌++◌, ◌==◌, if◌then◌else◌,
  length, is_empty, contains, remove,
}
use shoc.Doca.{DocaError, CtxState, is_success, not_connected}
use shoc.Context.Registry.{StopAnswer, at_once, in_time, refused}
use shoc.AccepterQueues
use shoc.AccepterQueues.{Queues, update}
use shoc.Comch.RemoteConsumer
use shoc.Comch.RemoteConsumer.{ConsumerQueues}
use shoc.Comch.{
  ConnectionState, connected, disconnecting, disconnected, is_connected, is_disconnecting,
  is_disconnected, Message,
}

pub record Connection : Type 0 where
  pub state : ConnectionState
  pub active_children : List ℕ
  pub coro_disconnect : Option ℕ
  pub message_queues : Queues Message Message
  pub remote_consumer_queues : ConsumerQueues

-- The calls of DOCA, with how many dependents were active then.
pub data Call : Type 0 where
  stops_child : ℕ → ℕ → Call
  disconnects : ℕ → ℕ → Call
  stops_server : ℕ → Call

pub record Server : Type 0 where
  -- the connection objects by handle, and the keys of `open_connections_`
  pub connections : ℕ → Connection
  pub open_connections : List ℕ
  pub connection_queues : Queues ℕ ℕ
  pub stop_requested : Bool
  pub current_state : CtxState
  -- the calls of DOCA, the errors and warnings that were logged, and the coroutines that were resumed
  pub calls : List Call
  pub logged : ℕ
  pub resumed : List ℕ

-- What DOCA answers, by the number of calls before.
pub record Answers : Type 0 where
  pub child_stop : ℕ → StopAnswer
  pub disconnect : ℕ → DocaError
  pub server_stop : ℕ → StopAnswer

abbrev pub call : Call → Server → Server
call c s = record s { calls = s.calls ++ c ∷ [] }

abbrev pub log : Server → Server
log s = record s { logged = suc s.logged }

abbrev pub with_connection : ℕ → Connection → Server → Server
with_connection con o s = record s { connections = update s.connections con o }

abbrev pub resume_waiter : Option ℕ → List ℕ → List ℕ
resume_waiter none l = l
resume_waiter (some h) l = l ++ h ∷ []

-- `server::state_changed`, called by the state-changed callback
unfoldable pub state_changed : CtxState → Server → Server
state_changed CtxState.idle s = record s {
  current_state = CtxState.idle;
  connection_queues = AccepterQueues.close s.connection_queues;
}
state_changed next s = record s { current_state = next }

-- What `server_connection::signal_disconnect` does to the connection itself.
pub mark_disconnected : Connection → Connection
mark_disconnected o = record o {
  state = disconnected;
  coro_disconnect = none;
  message_queues = AccepterQueues.close o.message_queues;
  remote_consumer_queues = RemoteConsumer.disconnect o.remote_consumer_queues;
}

pub resume_disconnect_waiter : Option ℕ → Server → Server
resume_disconnect_waiter w s = record s { resumed = resume_waiter w s.resumed }

module _ (ans : Answers) where
  -- What `doca_ctx_stop` does to the server before it returns.
  pub server_stop_answered : StopAnswer → Server → Server
  unfolding state_changed
  server_stop_answered at_once s = state_changed CtxState.idle s
  server_stop_answered in_time s = state_changed CtxState.stopping s
  server_stop_answered (refused e) s = log s

  -- `server::do_stop_if_able`
  unfoldable pub do_stop_if_able : Server → Server
  unfolding server_stop_answered
  do_stop_if_able s =
      if is_empty s.open_connections
      then server_stop_answered (ans.server_stop (length s.calls))
          (call (stops_server (length s.open_connections)) s)
      else s

  -- `server::signal_disconnect`
  unfoldable pub server_signal_disconnect : ℕ → Server → Server
  unfolding do_stop_if_able
  server_signal_disconnect con s =
      let known = contains con s.open_connections in
      let s' : Server = record s {
        open_connections = remove con s.open_connections;
        logged = if known then s.logged else suc s.logged;
      } in
      if s.stop_requested then do_stop_if_able s' else s'

  -- `server_connection::signal_disconnect`
  unfoldable pub signal_disconnect : ℕ → Server → Server
  unfolding mark_disconnected resume_disconnect_waiter server_signal_disconnect
  signal_disconnect con s =
      let o = s.connections con in
      let s' : Server = record s {
        connections = update s.connections con (mark_disconnected o);
        logged = if is_disconnected o.state then suc s.logged else s.logged;
      } in
      resume_disconnect_waiter o.coro_disconnect (server_signal_disconnect con s')

  -- `server_connection::disconnect_if_able`
  unfoldable pub disconnect_if_able : ℕ → Server → Server
  unfolding signal_disconnect
  disconnect_if_able con s =
      let children = (s.connections con).active_children in
      let s' : Server = call (disconnects con (length children)) s in
      if is_empty children
      then (if is_success (ans.disconnect (length s.calls))
          then signal_disconnect con s'
          else log s')
      else s

  -- `server_connection::signal_stopped_child`
  unfoldable pub signal_stopped_child : ℕ → ℕ → Server → Server
  unfolding disconnect_if_able
  signal_stopped_child con child s =
      let o = s.connections con in
      let s' : Server =
        with_connection con (record o { active_children = remove child o.active_children }) s in
      if is_disconnecting o.state then disconnect_if_able con s' else s'

  -- The stop of one child in `stop_all`; a refusal is an exception that is caught and logged.
  pub child_stop_answered : StopAnswer → ℕ → ℕ → Server → Server
  unfolding signal_stopped_child
  child_stop_answered at_once con child s = signal_stopped_child con child s
  child_stop_answered in_time con child s = s
  child_stop_answered (refused e) con child s = log s

  pub stop_children : ℕ → List ℕ → Server → Server
  unfolding child_stop_answered
  stop_children con [] s = s
  stop_children con (child ∷ rest) s = stop_children con rest (
      child_stop_answered (ans.child_stop (length s.calls)) con child
        (call (stops_child con child) s))

  -- `server_connection::disconnect`
  unfoldable pub disconnect : ℕ → Server → Server
  unfolding stop_children disconnect_if_able
  disconnect con s =
      let o = s.connections con in
      if is_connected o.state
      then disconnect_if_able con (
          stop_children con o.active_children
            (with_connection con (record o { state = disconnecting }) s))
      else s

  pub disconnect_each : List ℕ → Server → Server
  unfolding disconnect
  disconnect_each [] s = s
  disconnect_each (con ∷ rest) s = disconnect_each rest (disconnect con s)

  -- `server::stop`
  unfoldable pub stop : Server → Server
  unfolding disconnect_each do_stop_if_able
  stop s = do_stop_if_able (disconnect_each s.open_connections (record s { stop_requested = true }))

  -- `server::disconnection_callback`
  unfoldable pub disconnection_callback : Bool → ℕ → Server → Server
  unfolding signal_disconnect
  disconnection_callback change_successful con s =
      if change_successful
      then (if contains con s.open_connections then signal_disconnect con s else log s)
      else log s
