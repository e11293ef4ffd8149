-- ===== src/Comch/Client/Life.antt =====
-- The life of a comch client, as a sequence of events and calls in any order.
use shoc.Base.{
  ℕ, ◌≡◌, refl, Bool, true, false, List, [], ◌∷◌, ◌++◌, if◌then◌else◌, length, is_empty, remove,
  All,
}
use shoc.Doca.{CtxState}
use shoc.Context.Registry.{StopAnswer, at_once, in_time, refused}
use shoc.Comch.{disconnecting, is_connected, is_disconnecting, Message}
use shoc.Comch.Client.{
  ClientCall, stops_child, stops_client, Client, ClientAnswers, new_client, call, state_changed,
  client_stop_answered, disconnect_if_able, signal_stopped_child, child_stop_answered,
  stop_children, stop, msg_recv_callback, new_consumer_callback, expired_consumer_callback,
  msg_recv, accept_consumer, create_child,
}

pub data Event : Type 0 where
  state_changes : CtxState → Event
  receives : Message → Event
  consumer_arrives consumer_expires : ℕ → Event
  child_is_created child_stopped : ℕ → Event
  receiver_waits consumer_awaited stop_is_asked : Event

module _ (ans : ClientAnswers) where
  unfoldable pub step : Event → Client → Client
  unfolding state_changed msg_recv_callback new_consumer_callback expired_consumer_callback
      create_child signal_stopped_child msg_recv accept_consumer stop
  step (state_changes next) c = state_changed next c
  step (receives msg) c = msg_recv_callback msg c
  step (consumer_arrives id) c = new_consumer_callback id c
  step (consumer_expires id) c = expired_consumer_callback id c
  step (child_is_created child) c = create_child child c
  step (child_stopped child) c = signal_stopped_child ans child c
  step receiver_waits c = msg_recv c
  step consumer_awaited c = accept_consumer c
  step stop_is_asked c = stop ans c

  unfoldable pub run : List Event → Client → Client
  unfolding step
  run [] c = c
  run (e ∷ rest) c = run rest (step e c)

abbrev pub IsSafe : ClientCall → Type 0
IsSafe (stops_child child) = Unit
IsSafe (stops_client n) = n ≡ 0

abbrev pub asks_to_stop : List ClientCall → Bool
asks_to_stop [] = false
asks_to_stop (stops_client n ∷ rest) = true
asks_to_stop (stops_child child ∷ rest) = asks_to_stop rest

abbrev pub is_running : CtxState → Bool
is_running CtxState.running = true
is_running _ = false

-- DOCA was asked to stop the client only without active children, and it was asked if the client is
-- disconnecting without children while DOCA still has it running.
pub record Inv (c : Client) : Type 0 where
  pub safe : All IsSafe c.calls
  pub asked :
      is_disconnecting c.state ≡ true
      → is_empty c.active_children ≡ true
      → is_running c.current_state ≡ true
      → asks_to_stop c.calls ≡ true

IsSafe-then :
    (l : List ClientCall) (x : ClientCall) → All IsSafe l → IsSafe x → All IsSafe (l ++ x ∷ [])
IsSafe-then [] x h k = (k, tt)
IsSafe-then (y ∷ l) x h k = (h.0, IsSafe-then l x h.1 k)

asked_then :
    (l : List ClientCall) (x : ClientCall)
    → asks_to_stop l ≡ true
    → asks_to_stop (l ++ x ∷ []) ≡ true
asked_then [] x h = cc
asked_then (stops_child child ∷ l) x h = asked_then l x h
asked_then (stops_client n ∷ l) x h = refl

asked_now : (l : List ClientCall) (n : ℕ) → asks_to_stop (l ++ stops_client n ∷ []) ≡ true
asked_now [] n = refl
asked_now (stops_child child ∷ l) n = asked_now l n
asked_now (stops_client k ∷ l) n = refl

length-empty : (l : List ℕ) → is_empty l ≡ true → length l ≡ 0
length-empty [] e = refl
length-empty (x ∷ l) e = cc

-- The branches may use what their test says.
if-Inv :
    (b : Bool) (s t : Client) → (b ≡ true → Inv s) → (b ≡ false → Inv t) → Inv (if b then s else t)
if-Inv true s t v w = v refl
if-Inv false s t v w = w refl

if-IsSafe :
    (b : Bool) (s t : Client)
    → All IsSafe s.calls
    → All IsSafe t.calls
    → All IsSafe (if b then s else t).calls
if-IsSafe true s t v w = v
if-IsSafe false s t v w = w

state_changed-Inv : (next : CtxState) (c : Client) → Inv c → Inv (state_changed next c)
unfolding state_changed
state_changed-Inv CtxState.idle c v = record { safe = v.safe; asked = λ d e r. cc }
state_changed-Inv CtxState.starting c v = record { safe = v.safe; asked = λ d e r. cc }
state_changed-Inv CtxState.running c v = record { safe = v.safe; asked = λ d e r. cc }
state_changed-Inv CtxState.stopping c v = record { safe = v.safe; asked = λ d e r. cc }

client_stop_answered-Inv :
    (a : StopAnswer) (c : Client)
    → All IsSafe c.calls
    → asks_to_stop c.calls ≡ true
    → Inv (client_stop_answered a c)
unfolding client_stop_answered
client_stop_answered-Inv at_once c s h =
    state_changed-Inv CtxState.idle c (record { safe = s; asked = λ d e r. h })
client_stop_answered-Inv in_time c s h =
    state_changed-Inv CtxState.stopping c (record { safe = s; asked = λ d e r. h })
client_stop_answered-Inv (refused e) c s h = record { safe = s; asked = λ d k r. h }

module _ (ans : ClientAnswers) where
  -- Only safety is assumed of the state before.
  disconnect_if_able-Inv : (c : Client) → All IsSafe c.calls → Inv (disconnect_if_able ans c)
  unfolding disconnect_if_able
  disconnect_if_able-Inv c s =
      let asking : Client = call (stops_client (length c.active_children)) c in
      if-Inv (is_empty c.active_children)
        (client_stop_answered (ans.client_stop (length c.calls)) asking) c
        (λ e.
          client_stop_answered-Inv _ asking
            (IsSafe-then c.calls (stops_client (length c.active_children)) s (length-empty _ e))
            (asked_now c.calls _))
        (λ e. record { safe = s; asked = λ d k r. cc })

  signal_stopped_child-Inv :
      (child : ℕ) (c : Client) → Inv c → Inv (signal_stopped_child ans child c)
  unfolding signal_stopped_child
  signal_stopped_child-Inv child c v =
      let left : Client = record c { active_children = remove child c.active_children } in
      if-Inv (is_disconnecting c.state) (disconnect_if_able ans left) left
        (λ e. disconnect_if_able-Inv left v.safe)
        (λ e. record { safe = v.safe; asked = λ d k r. cc })

  child_stop_answered-IsSafe :
      (a : StopAnswer) (child : ℕ) (c : Client)
      → All IsSafe c.calls
      → All IsSafe (child_stop_answered ans a child c).calls
  unfolding child_stop_answered signal_stopped_child
  child_stop_answered-IsSafe at_once child c s =
      let left : Client = record c { active_children = remove child c.active_children } in
      if-IsSafe (is_disconnecting c.state) (disconnect_if_able ans left) left
        (disconnect_if_able-Inv left s).safe s
  child_stop_answered-IsSafe in_time child c s = s
  child_stop_answered-IsSafe (refused e) child c s = s

  stop_children-IsSafe :
      (l : List ℕ) (c : Client) → All IsSafe c.calls → All IsSafe (stop_children ans l c).calls
  unfolding stop_children
  stop_children-IsSafe [] c s = s
  stop_children-IsSafe (child ∷ rest) c s =
      let asking : Client = call (stops_child child) c in
      stop_children-IsSafe rest
        (child_stop_answered ans (ans.child_stop (length c.calls)) child asking)
        (child_stop_answered-IsSafe (ans.child_stop (length c.calls)) child asking
          (IsSafe-then c.calls (stops_child child) s tt))

  stop-Inv : (c : Client) → Inv c → Inv (stop ans c)
  unfolding stop
  stop-Inv c v =
      let marked : Client = record c { state = disconnecting } in
      let stopped = stop_children ans c.active_children marked in
      if-Inv (is_connected c.state) (disconnect_if_able ans stopped) c
        (λ e. disconnect_if_able-Inv stopped (stop_children-IsSafe c.active_children marked v.safe))
        (λ e. v)

  step-Inv : (e : Event) (c : Client) → Inv c → Inv (step ans e c)
  unfolding step msg_recv_callback new_consumer_callback expired_consumer_callback create_child
      msg_recv accept_consumer
  step-Inv (state_changes next) c v = state_changed-Inv next c v
  step-Inv (receives msg) c v = record { safe = v.safe; asked = v.asked }
  step-Inv (consumer_arrives id) c v = record { safe = v.safe; asked = v.asked }
  step-Inv (consumer_expires id) c v = record { safe = v.safe; asked = v.asked }
  step-Inv (child_is_created child) c v = record { safe = v.safe; asked = λ d e r. cc }
  step-Inv (child_stopped child) c v = signal_stopped_child-Inv child c v
  step-Inv receiver_waits c v = record { safe = v.safe; asked = v.asked }
  step-Inv consumer_awaited c v = record { safe = v.safe; asked = v.asked }
  step-Inv stop_is_asked c v = stop-Inv c v

  steps-Inv : (l : List Event) (c : Client) → Inv c → Inv (run ans l c)
  unfolding run
  steps-Inv [] c v = v
  steps-Inv (e ∷ rest) c v = steps-Inv rest (step ans e c) (step-Inv e c v)

new_client-Inv : Inv new_client
unfolding new_client
new_client-Inv = record { safe = tt; asked = λ d e r. cc }

-- Whatever events and calls a new client sees, in whatever order: DOCA is asked to stop the client
-- only when no child is active, and it has been asked whenever the client is disconnecting and has
-- no active child while DOCA still reports it as running.
pub client_run-Inv : (ans : ClientAnswers) (l : List Event) → Inv (run ans l new_client)
client_run-Inv ans l = steps-Inv ans l new_client new_client-Inv
