-- ===== src/Comch/Client.antt =====
-- The comch client (shoc/comch/client.hpp, shoc/comch/client.cpp), which is a context and the one
-- connection to its server at once.
pub mod Life
mod Tests
use shoc.Base.{
  ℕ, suc, Bool, true, false, Option, none, some, List, [], ◌∷◌, ◌++◌, ◌==◌, if◌then◌else◌, length,
  is_empty, remove,
}
use shoc.Doca.{DocaError, CtxState, not_connected, is_success}
use shoc.Context.Registry.{StopAnswer, at_once, in_time, refused}
use shoc.AccepterQueues
use shoc.AccepterQueues.{Queues}
use shoc.Comch.RemoteConsumer
use shoc.Comch.RemoteConsumer.{ConsumerQueues}
use shoc.Comch.{
  ConnectionState, connected, disconnecting, disconnected, is_connected, is_disconnecting, Message,
}

-- The calls of DOCA, with how many children were active when the client was to stop.
pub data ClientCall : Type 0 where
  stops_child : ℕ → ClientCall
  stops_client : ℕ → ClientCall

pub record Client : Type 0 where
  pub state : ConnectionState
  pub current_state : CtxState
  pub active_children : List ℕ
  pub message_queues : Queues Message Message
  pub remote_consumer_queues : ConsumerQueues
  -- the calls of DOCA, and the errors that were logged
  pub calls : List ClientCall
  pub logged : ℕ

-- What DOCA answers, by the number of calls before.
pub record ClientAnswers : Type 0 where
  pub child_stop : ℕ → StopAnswer
  pub client_stop : ℕ → StopAnswer

unfoldable pub new_client : Client
new_client = record {
  state = disconnected;
  current_state = CtxState.idle;
  active_children = [];
  message_queues = AccepterQueues.new;
  remote_consumer_queues = RemoteConsumer.new;
  calls = [];
  logged = 0;
}

abbrev pub call : ClientCall → Client → Client
call x c = record c { calls = c.calls ++ x ∷ [] }

abbrev pub log : Client → Client
log c = record c { logged = suc c.logged }

-- `client::state_changed`, called by the state-changed callback
unfoldable pub state_changed : CtxState → Client → Client
state_changed CtxState.running c = record c { current_state = CtxState.running; state = connected }
state_changed CtxState.stopping c = record c {
  current_state = CtxState.stopping;
  state = disconnecting;
}
state_changed CtxState.idle c = record c {
  current_state = CtxState.idle;
  message_queues = AccepterQueues.close c.message_queues;
  remote_consumer_queues = RemoteConsumer.disconnect c.remote_consumer_queues;
  state = disconnected;
}
state_changed CtxState.starting c = record c { current_state = CtxState.starting }

-- What `doca_ctx_stop` does to the client before it returns.
pub client_stop_answered : StopAnswer → Client → Client
unfolding state_changed
client_stop_answered at_once c = state_changed CtxState.idle c
client_stop_answered in_time c = state_changed CtxState.stopping c
client_stop_answered (refused e) c = log c

module _ (ans : ClientAnswers) where
  -- `client::disconnect_if_able`
  unfoldable pub disconnect_if_able : Client → Client
  unfolding client_stop_answered
  disconnect_if_able c =
      if is_empty c.active_children
      then client_stop_answered (ans.client_stop (length c.calls))
          (call (stops_client (length c.active_children)) c)
      else c

  -- `client::signal_stopped_child`
  unfoldable pub signal_stopped_child : ℕ → Client → Client
  unfolding disconnect_if_able
  signal_stopped_child child c =
      let c' : Client = record c { active_children = remove child c.active_children } in
      if is_disconnecting c.state then disconnect_if_able c' else c'

  -- The stop of one child in `stop_all`; a refusal is an exception that is caught and logged.
  pub child_stop_answered : StopAnswer → ℕ → Client → Client
  unfolding signal_stopped_child
  child_stop_answered at_once child c = signal_stopped_child child c
  child_stop_answered in_time child c = c
  child_stop_answered (refused e) child c = log c

  pub stop_children : List ℕ → Client → Client
  unfolding child_stop_answered
  stop_children [] c = c
  stop_children (child ∷ rest) c =
      stop_children rest
        (child_stop_answered (ans.child_stop (length c.calls)) child (call (stops_child child) c))

  -- `client::stop`
  unfoldable pub stop : Client → Client
  unfolding stop_children disconnect_if_able
  stop c =
      if is_connected c.state
      then disconnect_if_able (stop_children c.active_children (record c { state = disconnecting }))
      else c

-- `client::send`: the status that is known at once, `none` if a task is offloaded; `get_connection`
-- is what DOCA answers to the question for the connection.
unfoldable pub send : DocaError → Client → Option DocaError
send get_connection c =
    if is_connected c.state
    then (if is_success get_connection then none else some get_connection)
    else some not_connected

-- The callbacks, for a connection whose client is known.
unfoldable pub msg_recv_callback : Message → Client → Client
msg_recv_callback msg c = record c {
  message_queues = AccepterQueues.supply (λ m. m) msg c.message_queues;
}

unfoldable pub new_consumer_callback : ℕ → Client → Client
new_consumer_callback id c = record c {
  remote_consumer_queues = RemoteConsumer.supply id c.remote_consumer_queues;
}

unfoldable pub expired_consumer_callback : ℕ → Client → Client
expired_consumer_callback id c = record c {
  remote_consumer_queues = RemoteConsumer.expire id c.remote_consumer_queues;
}

unfoldable pub msg_recv : Client → Client
msg_recv c = record c { message_queues = AccepterQueues.accept (λ m. m) c.message_queues }

unfoldable pub accept_consumer : Client → Client
accept_consumer c = record c {
  remote_consumer_queues = RemoteConsumer.accept c.remote_consumer_queues;
}

-- `create_consumer` and `create_producer`, once the child is started
unfoldable pub create_child : ℕ → Client → Client
create_child child c = record c { active_children = child ∷ remove child c.active_children }
