-- ===== src/Comch/Callbacks.antt =====
-- What happens to a comch server besides stopping: the events that DOCA reports, and the calls that
-- coroutines make on the server and its connections (shoc/comch/server.hpp, shoc/comch/server.cpp).
pub mod History
mod Tests
use shoc.Base.{
  ℕ, suc, Bool, true, false, Option, none, some, List, [], ◌∷◌, ◌++◌, ◌==◌, if◌then◌else◌, contains,
  remove,
}
use shoc.Doca.{DocaError, not_connected}
use shoc.AccepterQueues
use shoc.AccepterQueues.{update}
use shoc.Comch.RemoteConsumer
use shoc.Comch.{connected, is_connected, is_disconnected, Message}
use shoc.Comch.Server.{Connection, Server, with_connection, log}

-- `server_connection::server_connection`
unfoldable pub new_connection : Connection
new_connection = record {
  state = connected;
  active_children = [];
  coro_disconnect = none;
  message_queues = AccepterQueues.new;
  remote_consumer_queues = RemoteConsumer.new;
}

-- `server::connection_callback`, for a handle whose server is known
unfoldable pub connection_callback : Bool → ℕ → Server → Server
unfolding new_connection
connection_callback change_successful con s =
    if change_successful
    then record s {
      connections = update s.connections con new_connection;
      open_connections = con ∷ remove con s.open_connections;
      connection_queues = AccepterQueues.supply (λ c. c) con s.connection_queues;
    }
    else log s

-- `server::msg_recv_callback`
unfoldable pub msg_recv_callback : Message → ℕ → Server → Server
msg_recv_callback msg con s =
    let o = s.connections con in
    if contains con s.open_connections
    then with_connection con
        (record o { message_queues = AccepterQueues.supply (λ m. m) msg o.message_queues }) s
    else log s

-- `server::new_consumer_callback`
unfoldable pub new_consumer_callback : ℕ → ℕ → Server → Server
new_consumer_callback id con s =
    let o = s.connections con in
    if contains con s.open_connections
    then with_connection con
        (record o { remote_consumer_queues = RemoteConsumer.supply id o.remote_consumer_queues }) s
    else log s

-- `server::expired_consumer_callback`
unfoldable pub expired_consumer_callback : ℕ → ℕ → Server → Server
expired_consumer_callback id con s =
    let o = s.connections con in
    if contains con s.open_connections
    then with_connection con
        (record o { remote_consumer_queues = RemoteConsumer.expire id o.remote_consumer_queues }) s
    else s

-- `create_consumer` and `create_producer`, once the child is started
unfoldable pub create_child : ℕ → ℕ → Server → Server
create_child con child s =
    let o = s.connections con in
    with_connection con (record o { active_children = child ∷ remove child o.active_children }) s

-- `server::accept`, `server_connection::msg_recv`, `server_connection::accept_consumer`
unfoldable pub accept : Server → Server
accept s = record s { connection_queues = AccepterQueues.accept (λ c. c) s.connection_queues }

unfoldable pub msg_recv : ℕ → Server → Server
msg_recv con s =
    let o = s.connections con in
    with_connection con
      (record o { message_queues = AccepterQueues.accept (λ m. m) o.message_queues }) s

unfoldable pub accept_consumer : ℕ → Server → Server
accept_consumer con s =
    let o = s.connections con in
    with_connection con
      (record o { remote_consumer_queues = RemoteConsumer.accept o.remote_consumer_queues }) s

-- `co_await` on `disconnect`: `server_disconnect_awaitable`
unfoldable pub await_disconnect : ℕ → ℕ → Server → Server
await_disconnect con h s =
    let o = s.connections con in
    if is_disconnected o.state
    then record s { resumed = s.resumed ++ h ∷ [] }
    else with_connection con (record o { coro_disconnect = some h }) s

-- `server_connection::send`: the status that is known at once, `none` if a task is offloaded
unfoldable pub send : ℕ → Server → Option DocaError
send con s = if is_connected (s.connections con).state then none else some not_connected
