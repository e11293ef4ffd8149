-- ===== src/Comch/Server/Stopping.antt =====
-- A server that is to stop asks DOCA for it as soon as no connection is open.
use shoc.Base.{
  ℕ, suc, ◌≡◌, refl, Bool, true, false, List, [], ◌∷◌, ◌++◌, if◌then◌else◌, length, is_empty,
  contains, remove,
}
use shoc.Doca.{is_success}
use shoc.Context.Registry.{StopAnswer, at_once, in_time, refused}
use shoc.Comch.{disconnecting}
use shoc.Comch.Server.{
  Call, stops_child, disconnects, stops_server, Server, Answers, call, log, with_connection,
  state_changed, resume_disconnect_waiter, server_stop_answered, do_stop_if_able,
  server_signal_disconnect, signal_disconnect, disconnect_if_able, signal_stopped_child,
  child_stop_answered, stop_children, disconnect, disconnect_each, stop, disconnection_callback,
}

abbrev pub asks_to_stop : List Call → Bool
asks_to_stop [] = false
asks_to_stop (stops_server n ∷ rest) = true
asks_to_stop (_ ∷ rest) = asks_to_stop rest

pub record Asked (s : Server) : Type 0 where
  pub asked :
      s.stop_requested ≡ true → is_empty s.open_connections ≡ true → asks_to_stop s.calls ≡ true

asked_then : (l : List Call) (c : Call) → asks_to_stop l ≡ true → asks_to_stop (l ++ c ∷ []) ≡ true
asked_then [] c h = cc
asked_then (stops_child con child ∷ l) c h = asked_then l c h
asked_then (disconnects con n ∷ l) c h = asked_then l c h
asked_then (stops_server n ∷ l) c h = refl

asked_now : (l : List Call) (n : ℕ) → asks_to_stop (l ++ stops_server n ∷ []) ≡ true
asked_now [] n = refl
asked_now (stops_child con child ∷ l) n = asked_now l n
asked_now (disconnects con k ∷ l) n = asked_now l n
asked_now (stops_server k ∷ l) n = refl

pub if-Asked : (b : Bool) (s t : Server) → Asked s → Asked t → Asked (if b then s else t)
if-Asked true s t v w = v
if-Asked false s t v w = w

either-Asked :
    (b : Bool) (s t : Server) → Asked s → (b ≡ false → Asked t) → Asked (if b then s else t)
either-Asked true s t v w = v
either-Asked false s t v w = w refl

call-Asked : (c : Call) (s : Server) → Asked s → Asked (call c s)
call-Asked c s h = record { asked = λ r e. asked_then s.calls c (h.asked r e) }

module _ (ans : Answers) where
  answered_asked :
      (a : StopAnswer) (s : Server)
      → asks_to_stop s.calls ≡ true
      → asks_to_stop (server_stop_answered ans a s).calls ≡ true
  unfolding server_stop_answered state_changed
  answered_asked at_once s h = h
  answered_asked in_time s h = h
  answered_asked (refused e) s h = h

  -- Nothing is assumed of the state before.
  do_stop_if_able-Asked : (s : Server) → Asked (do_stop_if_able ans s)
  unfolding do_stop_if_able
  do_stop_if_able-Asked s =
      let s' : Server = call (stops_server (length s.open_connections)) s in
      either-Asked (is_empty s.open_connections) _ _
        (record {
          asked = λ r h. answered_asked (ans.server_stop (length s.calls)) s' (asked_now s.calls _);
        })
        (λ e. record { asked = λ r h. cc })

  server_signal_disconnect-Asked :
      (con : ℕ) (s : Server) → Asked (server_signal_disconnect ans con s)
  unfolding server_signal_disconnect
  server_signal_disconnect-Asked con s =
      let s' : Server = record s {
        open_connections = remove con s.open_connections;
        logged = if contains con s.open_connections then s.logged else suc s.logged;
      } in
      either-Asked s.stop_requested _ s' (do_stop_if_able-Asked s')
        (λ e. record { asked = λ r h. cc })

  pub signal_disconnect-Asked : (con : ℕ) (s : Server) → Asked (signal_disconnect ans con s)
  unfolding signal_disconnect resume_disconnect_waiter
  signal_disconnect-Asked con s =
      let left = server_signal_disconnect-Asked con _ in record { asked = left.asked }

  disconnect_if_able-Asked : (con : ℕ) (s : Server) → Asked s → Asked (disconnect_if_able ans con s)
  unfolding disconnect_if_able
  disconnect_if_able-Asked con s h =
      let children = (s.connections con).active_children in
      let s' : Server = call (disconnects con (length children)) s in
      let h' : Asked s' = call-Asked _ s h in
      let ok = is_success (ans.disconnect (length s.calls)) in
      if-Asked (is_empty children) _ _
        (if-Asked ok _ (log s') (signal_disconnect-Asked con s') (record { asked = h'.asked })) h

  pub signal_stopped_child-Asked :
      (con child : ℕ) (s : Server) → Asked s → Asked (signal_stopped_child ans con child s)
  unfolding signal_stopped_child
  signal_stopped_child-Asked con child s h =
      let w : Asked (
          with_connection con
            (record (s.connections con) {
              active_children = remove child (s.connections con).active_children;
            })
            s) =
        record { asked = h.asked } in
      if-Asked _ _ _ (disconnect_if_able-Asked con _ w) w

  child_stop_answered-Asked :
      (a : StopAnswer) (con child : ℕ) (s : Server)
      → Asked s
      → Asked (child_stop_answered ans a con child s)
  unfolding child_stop_answered
  child_stop_answered-Asked at_once con child s h = signal_stopped_child-Asked con child s h
  child_stop_answered-Asked in_time con child s h = h
  child_stop_answered-Asked (refused e) con child s h = record { asked = h.asked }

  stop_children-Asked :
      (con : ℕ) (l : List ℕ) (s : Server) → Asked s → Asked (stop_children ans con l s)
  unfolding stop_children
  stop_children-Asked con [] s h = h
  stop_children-Asked con (child ∷ rest) s h =
      stop_children-Asked con rest _
        (child_stop_answered-Asked _ con child _ (call-Asked (stops_child con child) s h))

  pub disconnect-Asked : (con : ℕ) (s : Server) → Asked s → Asked (disconnect ans con s)
  unfolding disconnect
  disconnect-Asked con s h =
      let o = s.connections con in
      if-Asked _ _ _
        (disconnect_if_able-Asked con _ (
          stop_children-Asked con o.active_children
            (with_connection con (record o { state = disconnecting }) s)
            (record { asked = h.asked })))
        h

  pub stop-Asked : (s : Server) → Asked (stop ans s)
  unfolding stop
  stop-Asked s =
      do_stop_if_able-Asked
        (disconnect_each ans s.open_connections (record s { stop_requested = true }))

  pub disconnection_callback-Asked :
      (ok : Bool) (con : ℕ) (s : Server) → Asked s → Asked (disconnection_callback ans ok con s)
  unfolding disconnection_callback
  disconnection_callback-Asked ok con s h =
      let h' : Asked (log s) = record { asked = h.asked } in
      if-Asked ok _ _ (if-Asked _ _ _ (signal_disconnect-Asked con s) h') h'
