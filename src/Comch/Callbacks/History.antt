-- ===== src/Comch/Callbacks/History.antt =====
-- The life of a comch server, as a sequence of the events and calls above in any order.
use shoc.Base.{
  ℕ, ◌≡◌, refl, Bool, true, false, some, List, [], ◌∷◌, ◌++◌, arith, is_empty, remove,
  contains-remove,
}
use shoc.Doca.{CtxState}
use shoc.AccepterQueues
use shoc.AccepterQueues.{update}
use shoc.Comch.{disconnected, is_disconnected, Message}
use shoc.Comch.Server.{
  Connection, Server, Answers, log, with_connection, state_changed, disconnect, stop,
  disconnection_callback, signal_stopped_child,
}
use shoc.Comch.Server.Invariant.{
  Inv, changed-Inv, logged-Inv, if-Inv, signal_stopped_child-Inv, disconnect-Inv, stop-Inv,
  disconnection_callback-Inv,
}
use shoc.Comch.Server.Stopping.{
  asks_to_stop, Asked, if-Asked, signal_stopped_child-Asked, disconnect-Asked, stop-Asked,
  disconnection_callback-Asked,
}
use shoc.Comch.Callbacks.{
  new_connection, connection_callback, msg_recv_callback, new_consumer_callback,
  expired_consumer_callback, create_child, accept, msg_recv, accept_consumer, await_disconnect,
}

pub data Event : Type 0 where
  state_changes : CtxState → Event
  connects disconnects : Bool → ℕ → Event
  receives : Message → ℕ → Event
  consumer_arrives consumer_expires : ℕ → ℕ → Event
  child_is_created child_stopped : ℕ → ℕ → Event
  accepts : Event
  receiver_waits consumer_awaited : ℕ → Event
  disconnect_is_asked : ℕ → Event
  disconnect_is_awaited : ℕ → ℕ → Event
  stop_is_asked : Event

-- A server that was just constructed: no handle has a connection yet.
unfoldable abbrev pub new_server : Server
unfolding new_connection
new_server = record {
  connections = λ _. record new_connection { state = disconnected };
  open_connections = [];
  connection_queues = AccepterQueues.new;
  stop_requested = false;
  current_state = CtxState.idle;
  calls = [];
  logged = 0;
  resumed = [];
}

module _ (ans : Answers) where
  unfoldable pub step : Event → Server → Server
  unfolding state_changed connection_callback disconnection_callback msg_recv_callback
      new_consumer_callback expired_consumer_callback create_child signal_stopped_child accept
      msg_recv accept_consumer disconnect await_disconnect stop
  step (state_changes next) s = state_changed next s
  step (connects ok con) s = connection_callback ok con s
  step (disconnects ok con) s = disconnection_callback ans ok con s
  step (receives msg con) s = msg_recv_callback msg con s
  step (consumer_arrives id con) s = new_consumer_callback id con s
  step (consumer_expires id con) s = expired_consumer_callback id con s
  step (child_is_created con child) s = create_child con child s
  step (child_stopped con child) s = signal_stopped_child ans con child s
  step accepts s = accept s
  step (receiver_waits con) s = msg_recv con s
  step (consumer_awaited con) s = accept_consumer con s
  step (disconnect_is_asked con) s = disconnect ans con s
  step (disconnect_is_awaited con h) s = await_disconnect con h s
  step stop_is_asked s = stop ans s

  unfoldable pub run : List Event → Server → Server
  unfolding step
  run [] s = s
  run (e ∷ rest) s = run rest (step e s)

new_server-Inv : Inv new_server
unfolding new_connection
new_server-Inv = record { registered = λ c. refl; safe = tt }

state_changed-Inv : (next : CtxState) (s : Server) → Inv s → Inv (state_changed next s)
unfolding state_changed
state_changed-Inv CtxState.idle s v = record { registered = v.registered; safe = v.safe }
state_changed-Inv CtxState.starting s v = record { registered = v.registered; safe = v.safe }
state_changed-Inv CtxState.running s v = record { registered = v.registered; safe = v.safe }
state_changed-Inv CtxState.stopping s v = record { registered = v.registered; safe = v.safe }

-- A new object at a handle whose old one is forgotten is registered with it.
connected-Inv :
    (con : ℕ) (s : Server)
    → Inv s
    → Inv (record s {
      connections = update s.connections con new_connection;
      open_connections = con ∷ remove con s.open_connections;
      connection_queues = AccepterQueues.supply (λ c. c) con s.connection_queues;
    })
unfolding new_connection
connected-Inv con s v = record {
  registered = λ c. ground (arith, contains-remove con c s.open_connections, v.registered c);
  safe = v.safe;
}

module _ (ans : Answers) where
  step-Inv : (e : Event) (s : Server) → Inv s → Inv (step ans e s)
  unfolding step state_changed connection_callback msg_recv_callback new_consumer_callback
      expired_consumer_callback create_child accept msg_recv accept_consumer await_disconnect
  step-Inv (state_changes next) s v = state_changed-Inv next s v
  step-Inv (connects ok con) s v = if-Inv ok _ _ (connected-Inv con s v) (logged-Inv s v)
  step-Inv (disconnects ok con) s v = disconnection_callback-Inv ans ok con s v
  step-Inv (receives msg con) s v = if-Inv _ _ _ (changed-Inv con _ s v refl) (logged-Inv s v)
  step-Inv (consumer_arrives id con) s v =
      if-Inv _ _ _ (changed-Inv con _ s v refl) (logged-Inv s v)
  step-Inv (consumer_expires id con) s v = if-Inv _ _ _ (changed-Inv con _ s v refl) v
  step-Inv (child_is_created con child) s v = changed-Inv con _ s v refl
  step-Inv (child_stopped con child) s v = signal_stopped_child-Inv ans con child s v
  step-Inv accepts s v = record { registered = v.registered; safe = v.safe }
  step-Inv (receiver_waits con) s v = changed-Inv con _ s v refl
  step-Inv (consumer_awaited con) s v = changed-Inv con _ s v refl
  step-Inv (disconnect_is_asked con) s v = disconnect-Inv ans con s v
  step-Inv (disconnect_is_awaited con h) s v =
      if-Inv _ _ _ (record { registered = v.registered; safe = v.safe })
        (changed-Inv con _ s v refl)
  step-Inv stop_is_asked s v = stop-Inv ans s v

  steps-Inv : (l : List Event) (s : Server) → Inv s → Inv (run ans l s)
  unfolding run
  steps-Inv [] s v = v
  steps-Inv (e ∷ rest) s v = steps-Inv rest _ (step-Inv e s v)

state_changed-Asked : (next : CtxState) (s : Server) → Asked s → Asked (state_changed next s)
unfolding state_changed
state_changed-Asked CtxState.idle s h = record { asked = h.asked }
state_changed-Asked CtxState.starting s h = record { asked = h.asked }
state_changed-Asked CtxState.running s h = record { asked = h.asked }
state_changed-Asked CtxState.stopping s h = record { asked = h.asked }

changed-Asked : (con : ℕ) (o : Connection) (s : Server) → Asked s → Asked (with_connection con o s)
changed-Asked con o s h = record { asked = h.asked }

module _ (ans : Answers) where
  step-Asked : (e : Event) (s : Server) → Asked s → Asked (step ans e s)
  unfolding step connection_callback msg_recv_callback new_consumer_callback
      expired_consumer_callback create_child accept msg_recv accept_consumer await_disconnect
  step-Asked (state_changes next) s h = state_changed-Asked next s h
  step-Asked (connects ok con) s h =
      if-Asked ok _ (log s) (record { asked = λ r e. cc }) (record { asked = h.asked })
  step-Asked (disconnects ok con) s h = disconnection_callback-Asked ans ok con s h
  step-Asked (receives msg con) s h =
      if-Asked _ _ (log s) (changed-Asked con _ s h) (record { asked = h.asked })
  step-Asked (consumer_arrives id con) s h =
      if-Asked _ _ (log s) (changed-Asked con _ s h) (record { asked = h.asked })
  step-Asked (consumer_expires id con) s h = if-Asked _ _ _ (changed-Asked con _ s h) h
  step-Asked (child_is_created con child) s h = changed-Asked con _ s h
  step-Asked (child_stopped con child) s h = signal_stopped_child-Asked ans con child s h
  step-Asked accepts s h = record { asked = h.asked }
  step-Asked (receiver_waits con) s h = changed-Asked con _ s h
  step-Asked (consumer_awaited con) s h = changed-Asked con _ s h
  step-Asked (disconnect_is_asked con) s h = disconnect-Asked ans con s h
  step-Asked (disconnect_is_awaited con w) s h =
      let o = s.connections con in
      let resumed : Server = record s { resumed = s.resumed ++ w ∷ [] } in
      if-Asked (is_disconnected o.state) resumed _ (record { asked = h.asked })
        (changed-Asked con (record o { coro_disconnect = some w }) s h)
  step-Asked stop_is_asked s h = stop-Asked ans s

  steps-Asked : (l : List Event) (s : Server) → Asked s → Asked (run ans l s)
  unfolding run
  steps-Asked [] s h = h
  steps-Asked (e ∷ rest) s h = steps-Asked rest _ (step-Asked e s h)

-- Whatever events and calls a new server sees, in whatever order: the registry of open connections
-- holds a handle exactly when its connection is not disconnected, DOCA was only ever asked to
-- disconnect a connection that had no active children at that time, and to stop the server when no
-- connection was open.
pub run-Inv : (ans : Answers) (l : List Event) → Inv (run ans l new_server)
run-Inv ans l = steps-Inv ans l new_server new_server-Inv

-- Whatever events and calls a new server sees, in whatever order: if its stop was requested at some
-- time and no connection is open now, then DOCA has been asked to stop it.
pub stop_reaches_doca :
    (ans : Answers) (l : List Event)
    → (run ans l new_server).stop_requested ≡ true
    → is_empty (run ans l new_server).open_connections ≡ true
    → asks_to_stop (run ans l new_server).calls ≡ true
unfolding new_server
stop_reaches_doca ans l = (steps-Asked ans l new_server (record { asked = λ r e. cc })).asked
