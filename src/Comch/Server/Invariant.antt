-- ===== src/Comch/Server/Invariant.antt =====
-- What holds of a server between two calls: the registry holds the connections that are not
-- disconnected, and DOCA was asked to disconnect or stop only what had no dependents left.
use shoc.Base.{
  ℕ, ◌≡◌, refl, sym, Bool, true, false, not, Option, List, [], ◌∷◌, ◌++◌, arith, if◌then◌else◌,
  length, is_empty, contains, remove, contains-remove, All, Bool-cases, inl, inr,
}
use shoc.Context.Registry.{StopAnswer, at_once, in_time, refused}
use shoc.AccepterQueues.{update}
use shoc.Comch.{
  ConnectionState, connected, disconnecting, disconnected, is_connected, is_disconnected,
}
use shoc.Comch.Server.{
  Connection, Call, stops_child, disconnects, stops_server, Server, Answers, call, log,
  with_connection, mark_disconnected, resume_disconnect_waiter, server_stop_answered,
  do_stop_if_able, server_signal_disconnect, signal_disconnect, disconnect_if_able,
  signal_stopped_child, child_stop_answered, stop_children, disconnect, disconnect_each, stop,
  disconnection_callback,
}
use native.Mathlib.Decide.{ℕ_discrete}

-- A connection that is disconnected has no active children then, and a server that is stopped has
-- no open connections.
abbrev pub IsSafe : Call → Type 0
IsSafe (stops_child con child) = Unit
IsSafe (disconnects con n) = n ≡ 0
IsSafe (stops_server n) = n ≡ 0

pub record Inv (s : Server) : Type 0 where
  pub registered :
      (con : ℕ) → contains con s.open_connections ≡ not (is_disconnected (s.connections con).state)
  pub safe : All IsSafe s.calls

All-snoc : (l : List Call) (c : Call) → All IsSafe l → IsSafe c → All IsSafe (l ++ c ∷ [])
All-snoc [] c h k = (k, tt)
All-snoc (x ∷ l) c h k = (h.0, All-snoc l c h.1 k)

length-empty {ℓ} : {A : Type ℓ} (l : List A) → is_empty l ≡ true → length l ≡ 0
length-empty [] e = refl
length-empty (x ∷ l) e = cc

call-Inv : (c : Call) (s : Server) → Inv s → IsSafe c → Inv (call c s)
call-Inv c s v k = record { registered = v.registered; safe = All-snoc s.calls c v.safe k }

-- A connection that is marked and leaves the registry at once keeps the two in step.
removed-Inv :
    (con n : ℕ) (o : Connection) (s : Server)
    → Inv s
    → is_disconnected o.state ≡ true
    → Inv (record s {
      connections = update s.connections con o;
      open_connections = remove con s.open_connections;
      logged = n;
    })
removed-Inv con n o s v h = record {
  registered = λ c. ground (arith, contains-remove con c s.open_connections, v.registered c, h);
  safe = v.safe;
}

-- A connection that stays on its side of the disconnection may change otherwise.
pub changed-Inv :
    (con : ℕ) (o : Connection) (s : Server)
    → Inv s
    → is_disconnected o.state ≡ is_disconnected (s.connections con).state
    → Inv (with_connection con o s)
changed-Inv con o s v h = record {
  registered = λ c. elim (ℕ_discrete con c) [
    | yes e ↦ ground (arith, v.registered con, h)
    | no ne ↦ ground (arith, v.registered c)
  ];
  safe = v.safe;
}

resumed-Inv : (w : Option ℕ) (s : Server) → Inv s → Inv (resume_disconnect_waiter w s)
unfolding resume_disconnect_waiter
resumed-Inv w s v = record { registered = v.registered; safe = v.safe }

pub logged-Inv : (s : Server) → Inv s → Inv (log s)
logged-Inv s v = record { registered = v.registered; safe = v.safe }

connected_is_not_disconnected :
    (c : ConnectionState) → is_connected c ≡ true → is_disconnected c ≡ false
connected_is_not_disconnected connected e = refl
connected_is_not_disconnected disconnecting e = cc
connected_is_not_disconnected disconnected e = cc

marked : (o : Connection) → is_disconnected (mark_disconnected o).state ≡ true
unfolding mark_disconnected
marked o = refl

pub if-Inv : (b : Bool) (s t : Server) → Inv s → Inv t → Inv (if b then s else t)
if-Inv true s t v w = v
if-Inv false s t v w = w

module _ (ans : Answers) where
  server_stop_answered-Inv :
      (a : StopAnswer) (s : Server) → Inv s → Inv (server_stop_answered ans a s)
  unfolding server_stop_answered
  server_stop_answered-Inv at_once s v = record { registered = v.registered; safe = v.safe }
  server_stop_answered-Inv in_time s v = record { registered = v.registered; safe = v.safe }
  server_stop_answered-Inv (refused e) s v = record { registered = v.registered; safe = v.safe }

  do_stop_if_able-Inv : (s : Server) → Inv s → Inv (do_stop_if_able ans s)
  unfolding do_stop_if_able
  do_stop_if_able-Inv s v = elim (Bool-cases (is_empty s.open_connections)) [
    | inl e ↦ rw e (
        server_stop_answered-Inv _ _
          (call-Inv (stops_server (length s.open_connections)) s v (length-empty _ e)))
    | inr e ↦ rw e v
  ]

  -- The connection is marked first, and leaves the registry then.
  pub signal_disconnect-Inv : (con : ℕ) (s : Server) → Inv s → Inv (signal_disconnect ans con s)
  unfolding signal_disconnect server_signal_disconnect
  signal_disconnect-Inv con s v =
      let left =
        removed-Inv con _ (mark_disconnected (s.connections con)) s v
          (marked (s.connections con)) in
      resumed-Inv _ _ (if-Inv s.stop_requested _ _ (do_stop_if_able-Inv _ left) left)

  disconnect_if_able-Inv : (con : ℕ) (s : Server) → Inv s → Inv (disconnect_if_able ans con s)
  unfolding disconnect_if_able
  disconnect_if_able-Inv con s v =
      elim (Bool-cases (is_empty (s.connections con).active_children)) [
        | inl e ↦
            let w =
              call-Inv (disconnects con (length (s.connections con).active_children)) s v
                (length-empty _ e) in
            rw e (if-Inv _ _ _ (signal_disconnect-Inv con _ w) (logged-Inv _ w))
        | inr e ↦ rw e v
      ]

  pub signal_stopped_child-Inv :
      (con child : ℕ) (s : Server) → Inv s → Inv (signal_stopped_child ans con child s)
  unfolding signal_stopped_child
  signal_stopped_child-Inv con child s v =
      let w = changed-Inv con _ s v refl in if-Inv _ _ _ (disconnect_if_able-Inv con _ w) w

  child_stop_answered-Inv :
      (a : StopAnswer) (con child : ℕ) (s : Server)
      → Inv s
      → Inv (child_stop_answered ans a con child s)
  unfolding child_stop_answered
  child_stop_answered-Inv at_once con child s v = signal_stopped_child-Inv con child s v
  child_stop_answered-Inv in_time con child s v = v
  child_stop_answered-Inv (refused e) con child s v = logged-Inv s v

  stop_children-Inv : (con : ℕ) (l : List ℕ) (s : Server) → Inv s → Inv (stop_children ans con l s)
  unfolding stop_children
  stop_children-Inv con [] s v = v
  stop_children-Inv con (child ∷ rest) s v =
      stop_children-Inv con rest _
        (child_stop_answered-Inv _ con child _ (call-Inv (stops_child con child) s v tt))

  pub disconnect-Inv : (con : ℕ) (s : Server) → Inv s → Inv (disconnect ans con s)
  unfolding disconnect
  disconnect-Inv con s v = elim (Bool-cases (is_connected (s.connections con).state)) [
    | inl e ↦
        let o = s.connections con in
        let marked_one =
          changed-Inv con (record o { state = disconnecting }) s v
            (sym (connected_is_not_disconnected o.state e)) in
        rw e (disconnect_if_able-Inv con _ (stop_children-Inv con o.active_children _ marked_one))
    | inr e ↦ rw e v
  ]

  disconnect_each-Inv : (l : List ℕ) (s : Server) → Inv s → Inv (disconnect_each ans l s)
  unfolding disconnect_each
  disconnect_each-Inv [] s v = v
  disconnect_each-Inv (con ∷ rest) s v = disconnect_each-Inv rest _ (disconnect-Inv con s v)

  pub stop-Inv : (s : Server) → Inv s → Inv (stop ans s)
  unfolding stop
  stop-Inv s v = do_stop_if_able-Inv _ (
      disconnect_each-Inv s.open_connections _
        (record { registered = v.registered; safe = v.safe }))

  pub disconnection_callback-Inv :
      (ok : Bool) (con : ℕ) (s : Server) → Inv s → Inv (disconnection_callback ans ok con s)
  unfolding disconnection_callback
  disconnection_callback-Inv ok con s v =
      if-Inv ok _ _ (if-Inv _ _ _ (signal_disconnect-Inv con s v) (logged-Inv s v)) (logged-Inv s v)
