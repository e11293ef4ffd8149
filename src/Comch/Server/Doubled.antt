-- ===== src/Comch/Server/Doubled.antt =====
-- Two ways in which DOCA is asked twice for what it already did.
use mathlib.Core.List.{append_assoc}
use shoc.Base.{
  ℕ, ◌≡◌, refl, ap, ◌∙◌, false, List, [], ◌∷◌, ◌++◌, ==_refl, length, remove, Bool-cases, inl, inr,
}
use shoc.Doca.{success, is_success}
use shoc.Context.Registry.{StopAnswer, at_once, in_time, refused}
use shoc.Comch.{connected, disconnecting, is_connected, is_disconnecting}
use shoc.Comch.Server.{
  Call, stops_child, disconnects, stops_server, Server, Answers, call, with_connection,
  state_changed, mark_disconnected, resume_disconnect_waiter, server_stop_answered, do_stop_if_able,
  server_signal_disconnect, signal_disconnect, disconnect_if_able, signal_stopped_child,
  child_stop_answered, stop_children, disconnect, disconnect_each, stop,
}

module _ (ans : Answers) where
  answered_calls : (a : StopAnswer) (s : Server) → (server_stop_answered ans a s).calls ≡ s.calls
  unfolding server_stop_answered state_changed
  answered_calls at_once s = refl
  answered_calls in_time s = refl
  answered_calls (refused e) s = refl

  answered_open :
      (a : StopAnswer) (s : Server)
      → (server_stop_answered ans a s).open_connections ≡ s.open_connections
  unfolding server_stop_answered state_changed
  answered_open at_once s = refl
  answered_open in_time s = refl
  answered_open (refused e) s = refl

-- DOCA was asked once to disconnect, and the connection still has no children.
Disconnects : ℕ → List Call → Server → Type 0
Disconnects con l t =
    (t.calls ≡ l ++ disconnects con 0 ∷ [])
    × ((t.connections con).active_children ≡ [])
    × (t.stop_requested ≡ false)

disconnect_if_able-Disconnects :
    (ans : Answers) (con : ℕ) (s : Server)
    → (s.connections con).active_children ≡ []
    → s.stop_requested ≡ false
    → Disconnects con s.calls (disconnect_if_able ans con s)
unfolding disconnect_if_able signal_disconnect server_signal_disconnect mark_disconnected
    resume_disconnect_waiter Disconnects
disconnect_if_able-Disconnects ans con s ch idle =
    elim (Bool-cases (is_success (ans.disconnect (length s.calls)))) [
      | inl e ↦ simp (ch, idle, e, ==_refl) (refl, refl, refl)
      | inr e ↦ simp (ch, idle, e) (refl, refl, refl)
    ]

-- The signal of the last child disconnects a connection that is disconnecting.
signal_stopped_child-Disconnects :
    (ans : Answers) (con child : ℕ) (s : Server)
    → (s.connections con).state ≡ disconnecting
    → (s.connections con).active_children ≡ child ∷ []
    → s.stop_requested ≡ false
    → Disconnects con s.calls (signal_stopped_child ans con child s)
unfolding signal_stopped_child
signal_stopped_child-Disconnects ans con child s st ch idle =
    let o = s.connections con in
    let s' : Server =
      with_connection con (record o { active_children = remove child o.active_children }) s in
    let none_left : (s'.connections con).active_children ≡ [] = simp (ch, ==_refl) refl in
    rw (ap is_disconnecting st) (disconnect_if_able-Disconnects ans con s' none_left idle)

twice :
    (con : ℕ) (l : List Call) (x : Call) (t u : Server)
    → Disconnects con (l ++ x ∷ []) t
    → Disconnects con t.calls u
    → u.calls ≡ l ++ x ∷ disconnects con 0 ∷ disconnects con 0 ∷ []
unfolding Disconnects
twice con l x t u h k = k.0 ∙ simp (h.0, append_assoc) refl

-- The connection when the stop of its child is asked for.
abbrev child_asked : ℕ → ℕ → Server → Server
child_asked con child s =
    call (stops_child con child)
      (with_connection con (record (s.connections con) { state = disconnecting }) s)

disconnect_by_child :
    (ans : Answers) (con child : ℕ) (s : Server)
    → (s.connections con).state ≡ connected
    → (s.connections con).active_children ≡ child ∷ []
    → ans.child_stop (length s.calls) ≡ at_once
    → disconnect ans con s
      ≡ disconnect_if_able ans con (signal_stopped_child ans con child (child_asked con child s))
unfolding disconnect stop_children child_stop_answered
disconnect_by_child ans con child s st ch at =
    let s' : Server =
      with_connection con (record (s.connections con) { state = disconnecting }) s in
    rw (ap is_connected st) (
      ap (λ l. disconnect_if_able ans con (stop_children ans con l s')) ch
      ∙ ap
          (λ a.
            disconnect_if_able ans con
              (child_stop_answered ans a con child (child_asked con child s)))
          at)

-- A connection with one child, whose stop takes effect within the call, is disconnected by the
-- signal of that child, and `disconnect` then asks DOCA to disconnect it again, whatever DOCA answers
-- to the first call, provided the server is not to be stopped.
pub disconnect_asks_twice :
    (ans : Answers) (con child : ℕ) (s : Server)
    → (s.connections con).state ≡ connected
    → (s.connections con).active_children ≡ child ∷ []
    → s.stop_requested ≡ false
    → ans.child_stop (length s.calls) ≡ at_once
    → (disconnect ans con s).calls
      ≡ s.calls ++ stops_child con child ∷ disconnects con 0 ∷ disconnects con 0 ∷ []
unfolding Disconnects
disconnect_asks_twice ans con child s st ch idle at =
    let s' = child_asked con child s in
    let still : (s'.connections con).active_children ≡ child ∷ [] = rw (==_refl con) ch in
    let first =
      signal_stopped_child-Disconnects ans con child s' (rw (==_refl con) refl) still idle in
    let t = signal_stopped_child ans con child s' in
    let second = disconnect_if_able-Disconnects ans con t first.1 first.2 in
    rw (disconnect_by_child ans con child s st ch at)
      (twice con s.calls (stops_child con child) t (disconnect_if_able ans con t) first second)

-- A server with one open connection without children, which DOCA disconnects at once, is stopped by
-- the signal of that connection, and `stop` then asks DOCA to stop it again.
pub stop_asks_twice :
    (ans : Answers) (con : ℕ) (s : Server)
    → s.open_connections ≡ con ∷ []
    → (s.connections con).state ≡ connected
    → (s.connections con).active_children ≡ []
    → ans.disconnect (length s.calls) ≡ success
    → (stop ans s).calls ≡ s.calls ++ disconnects con 0 ∷ stops_server 0 ∷ stops_server 0 ∷ []
unfolding stop disconnect_each disconnect stop_children disconnect_if_able signal_disconnect
    server_signal_disconnect mark_disconnected resume_disconnect_waiter do_stop_if_able
stop_asks_twice ans con s op st ch ok =
    simp (op, st, ch, ==_refl, ok, answered_calls, answered_open, append_assoc) refl
