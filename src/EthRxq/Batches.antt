-- ===== src/EthRxq/Batches.antt =====
-- What the coroutines that receive batches of packets get (shoc/eth_rxq.cpp).
use shoc.Base.{
  ℕ, suc, ◌+◌, ◌<◌, ◌≡◌, refl, sym, ◌∙◌, ap, Bool, true, false, inl, inr, List, [], ◌∷◌, ◌++◌,
  arith, if◌then◌else◌, get_elem?, take, Bool-cases,
}
use mathlib.Core.List.{append_assoc, append-nil}
use shoc.Doca.{DocaError, is_success}
use shoc.AccepterQueues.{Queues, Call, accepts, supplies, waits, supply}
use shoc.AccepterQueues.{step as queue_step, run as queue_run}
use shoc.AccepterQueues.Fifo.{Channel, channel_run, received, accept_gets}
use shoc.EthRxq.{
  same, BatchManaged, new_batch_managed, batch_receive, event_batch_managed_recv_callback,
}

-- A coroutine asks for a batch, DOCA reports one, or a coroutine suspends on the result.
pub data Event : Type 0 where
  receives : Event
  reported : ℕ → DocaError → List ℕ → Event
  suspends : ℕ → ℕ → Event

unfoldable pub step : Event → BatchManaged → BatchManaged
unfolding batch_receive event_batch_managed_recv_callback
step receives ctx = batch_receive ctx
step (reported n status pkts) ctx = event_batch_managed_recv_callback n status pkts ctx
step (suspends h a) ctx = record ctx {
  managed_batch_queues = queue_step same (waits h a) ctx.managed_batch_queues;
}

unfoldable pub run : List Event → BatchManaged → BatchManaged
unfolding step
run [] ctx = ctx
run (e ∷ es) ctx = run es (step e ctx)

-- The requests, the batches that were reported without an error, and the errors.
abbrev pub requests : List Event → ℕ
requests [] = 0
requests (receives ∷ es) = suc (requests es)
requests (_ ∷ es) = requests es

abbrev pub batches : List Event → List (List ℕ)
batches [] = []
batches (reported n status pkts ∷ es) =
    let rest = batches es in if is_success status then take n pkts ∷ rest else rest
batches (_ ∷ es) = batches es

abbrev pub errors : List Event → ℕ
errors [] = 0
errors (reported n status pkts ∷ es) = (if is_success status then 0 else 1) + errors es
errors (_ ∷ es) = errors es

-- The calls on the queues that an event makes.
abbrev calls_of : List Event → List (Call (List ℕ))
calls_of [] = []
calls_of (receives ∷ es) = accepts ∷ calls_of es
calls_of (reported n status pkts ∷ es) =
    let rest = calls_of es in if is_success status then supplies (take n pkts) ∷ rest else rest
calls_of (suspends h a ∷ es) = waits h a ∷ calls_of es

abbrev supplied : ℕ → List ℕ → BatchManaged → BatchManaged
supplied n pkts ctx = record ctx {
  managed_batch_queues = supply same (take n pkts) ctx.managed_batch_queues;
}

abbrev error_logged : BatchManaged → BatchManaged
error_logged ctx = record ctx { logged = suc ctx.logged }

step-reported :
    (n : ℕ) (status : DocaError) (pkts : List ℕ) (ctx : BatchManaged) (b : Bool)
    → is_success status ≡ b
    → step (reported n status pkts) ctx ≡ (if b then supplied n pkts ctx else error_logged ctx)
unfolding step event_batch_managed_recv_callback
step-reported n status pkts ctx b e =
    ap (λ (x : Bool). if x then supplied n pkts ctx else error_logged ctx) e

-- The queues see these calls and no others.
run-queues :
    (es : List Event) (ctx : BatchManaged)
    → (run es ctx).managed_batch_queues ≡ queue_run same (calls_of es) ctx.managed_batch_queues
unfolding run step queue_run queue_step batch_receive
run-queues [] ctx = refl
run-queues (receives ∷ es) ctx = run-queues es (batch_receive ctx)
run-queues (reported n status pkts ∷ es) ctx = elim (Bool-cases (is_success status)) [
  | inl e ↦ rw e (
      ap (λ (c : BatchManaged). (run es c).managed_batch_queues)
        (step-reported n status pkts ctx true e)
      ∙ run-queues es (supplied n pkts ctx))
  | inr e ↦ rw e (
      ap (λ (c : BatchManaged). (run es c).managed_batch_queues)
        (step-reported n status pkts ctx false e)
      ∙ run-queues es (error_logged ctx))
]
run-queues (suspends h a ∷ es) ctx = run-queues es (step (suspends h a) ctx)

run-logged : (es : List Event) (ctx : BatchManaged) → (run es ctx).logged ≡ ctx.logged + errors es
unfolding run step batch_receive
run-logged [] ctx = omega arith
run-logged (receives ∷ es) ctx = run-logged es (batch_receive ctx)
run-logged (reported n status pkts ∷ es) ctx = elim (Bool-cases (is_success status)) [
  | inl e ↦ rw e (
      ap (λ (c : BatchManaged). (run es c).logged) (step-reported n status pkts ctx true e)
      ∙ omega (arith, run-logged es (supplied n pkts ctx)))
  | inr e ↦ rw e (
      ap (λ (c : BatchManaged). (run es c).logged) (step-reported n status pkts ctx false e)
      ∙ omega (arith, run-logged es (error_logged ctx)))
]
run-logged (suspends h a ∷ es) ctx = run-logged es (step (suspends h a) ctx)

-- What the calls amount to for a channel.
accepted-calls_of :
    (es : List Event) (c : Channel (List ℕ))
    → (channel_run (calls_of es) c).accepted ≡ c.accepted + requests es
accepted-calls_of [] c = omega arith
accepted-calls_of (receives ∷ es) c =
    omega (arith, accepted-calls_of es (record c { accepted = suc c.accepted }))
accepted-calls_of (reported n status pkts ∷ es) c = elim (Bool-cases (is_success status)) [
  | inl e ↦ rw e (accepted-calls_of es (record c { sent = c.sent ++ take n pkts ∷ [] }))
  | inr e ↦ rw e (accepted-calls_of es c)
]
accepted-calls_of (suspends h a ∷ es) c = accepted-calls_of es c

sent-calls_of :
    (es : List Event) (c : Channel (List ℕ))
    → (channel_run (calls_of es) c).sent ≡ c.sent ++ batches es
sent-calls_of [] c = sym (append-nil c.sent)
sent-calls_of (receives ∷ es) c = sent-calls_of es (record c { accepted = suc c.accepted })
sent-calls_of (reported n status pkts ∷ es) c = elim (Bool-cases (is_success status)) [
  | inl e ↦ rw e (
      sent-calls_of es (record c { sent = c.sent ++ take n pkts ∷ [] })
      ∙ append_assoc c.sent (take n pkts ∷ []) (batches es))
  | inr e ↦ rw e (sent-calls_of es c)
]
sent-calls_of (suspends h a ∷ es) c = sent-calls_of es c

-- Whatever DOCA reports to a new queue for batches and in whatever order coroutines ask for them: the
-- k-th request holds the packets of the k-th batch that was reported without an error, and is empty
-- while there are fewer; each reported error is logged once and drops its packets.
pub batch_receive_gets :
    (es : List Event) (k : ℕ)
    → k < requests es
    → ((((run es new_batch_managed).managed_batch_queues.cells k).value_
          ≡ received same (get_elem? (batches es) k))
        × ((run es new_batch_managed).logged ≡ errors es))
unfolding new_batch_managed
batch_receive_gets es k h =
    let none_yet : Channel (List ℕ) = record { accepted = 0; sent = [] } in
    let asked = accepted-calls_of es none_yet in
    (
      ap (λ (q : Queues (List ℕ) (List ℕ)). (q.cells k).value_) (run-queues es new_batch_managed)
          ∙ accept_gets same (calls_of es) k (omega (arith, asked))
          ∙ ap (λ (l : List (List ℕ)). received same (get_elem? l k)) (sent-calls_of es none_yet),
      omega (arith, run-logged es new_batch_managed),
    )
