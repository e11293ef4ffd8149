-- ===== src/AccepterQueues/Fifo.antt =====
-- While connected, the n-th accept gets the n-th thing supplied.
pub mod Lists
use native.Mathlib.Decide.{ℕ_discrete}
use shoc.Base.{
  sym, ◌∙◌, ltb, ℕ, zero, suc, ◌+◌, ◌-◌, ◌≤◌, ◌<◌, ◌≡◌, refl, ap, false, Option, none, some, List,
  [], ◌∷◌, ◌++◌, arith, ◌==◌, if◌then◌else◌, length, get_elem?, length-append, drop,
}
use shoc.Coro.{Slot, monostate, payload}
use shoc.AccepterQueues.{
  Queues, Call, accepts, supplies, waits, new, accept_with, supply_to, step, run,
}
use shoc.AccepterQueues.Fifo.Lists.{
  range_from, drop-cons, drop-nil, drop-snoc, drop_all, get-snoc, get_all, range-cons, range-nil,
  range-snoc,
}

-- The specification: the number of accepts, and all that was supplied, in order.
pub record Channel {ℓ} (P : Type ℓ) : Type ℓ where
  pub accepted : ℕ
  pub sent : List P

module _ {ℓ} {P : Type ℓ} where
  abbrev pub channel_step : Call P → Channel P → Channel P
  channel_step accepts c = record c { accepted = suc c.accepted }
  channel_step (supplies p) c = record c { sent = c.sent ++ p ∷ [] }
  channel_step (waits h a) c = c

  abbrev pub channel_run : List (Call P) → Channel P → Channel P
  channel_run [] c = c
  channel_run (x ∷ xs) c = channel_run xs (channel_step x c)

module _ {ℓ κ} {P : Type ℓ} {S : Type κ} (wrap : P → S) where
  abbrev pub received : Option P → Slot S
  received none = monostate
  received (some p) = payload (wrap p)

  -- The queues stand for the channel: receptable `k` holds the k-th thing as soon as there are both
  -- an accept and a thing of that number, the accepts beyond the things wait in order, and the
  -- things beyond the accepts are queued in order.
  pub record Refines (c : Channel P) (q : Queues P S) : Type (ℓ ⊔ κ) where
    pub connected : q.disconnected ≡ false
    pub counted : q.next ≡ c.accepted
    pub served :
        (k : ℕ)
        → (q.cells k).value_
          ≡ (if ltb k c.accepted then received (get_elem? c.sent k) else monostate)
    pub waiting : q.pending_accepters ≡ range_from (length c.sent) (c.accepted - length c.sent)
    pub queued : q.pending_data ≡ drop c.accepted c.sent

  accept_waits :
      (c : Channel P)
      → length c.sent ≤ c.accepted
      → range_from (length c.sent) (c.accepted - length c.sent) ++ c.accepted ∷ []
        ≡ range_from (length c.sent) (suc c.accepted - length c.sent)
  accept_waits c h =
      let m = length c.sent in
      let e : suc c.accepted - m ≡ suc (c.accepted - m) = omega arith in
      let e' : m + (c.accepted - m) ≡ c.accepted = omega arith in
      rw (e, range-snoc m (c.accepted - m), e')

  accept_with-Refines :
      (ps : List P) (c : Channel P) (q : Queues P S)
      → Refines c q
      → q.pending_data ≡ ps
      → Refines (channel_step accepts c) (accept_with wrap ps false q)
  unfolding accept_with
  accept_with-Refines [] c q r e =
      let short = drop-nil c.accepted c.sent (sym r.queued ∙ e) in
      record {
        connected = r.connected;
        counted = omega (arith, r.counted);
        served = λ k. ground (arith, r.served k, r.counted, get_all c.accepted c.sent short);
        waiting = rw (r.waiting, r.counted) (accept_waits c short);
        queued = e ∙ sym (drop_all (suc c.accepted) c.sent (omega (arith, short)));
      }
  accept_with-Refines (p ∷ ps) c q r e =
      let (got, rest, room) = drop-cons c.accepted c.sent p ps (sym r.queued ∙ e) in
      record {
        connected = r.connected;
        counted = omega (arith, r.counted);
        served = λ k. elim (ℕ_discrete k c.accepted) [
          | yes e ↦ rw e (ground (arith, r.counted, got))
          | no n ↦ ground (arith, r.served k, r.counted, n)
        ];
        waiting =
            let h : suc c.accepted - length c.sent ≡ c.accepted - length c.sent =
              omega (arith, room) in
            rw h r.waiting;
        queued = sym rest;
      }

  supply_to-Refines :
      (waiters : List ℕ) (p : P) (c : Channel P) (q : Queues P S)
      → Refines c q
      → q.pending_accepters ≡ waiters
      → Refines (channel_step (supplies p) c) (supply_to wrap waiters p q)
  unfolding supply_to
  supply_to-Refines [] p c q r e =
      let full = range-nil (length c.sent) (c.accepted - length c.sent) (sym r.waiting ∙ e) in
      let len = length-append c.sent (p ∷ []) in
      record {
        connected = r.connected;
        counted = r.counted;
        served = λ k. ground (arith, r.served k, get-snoc k c.sent p, full);
        waiting =
            let h : c.accepted - length (c.sent ++ p ∷ []) ≡ 0 = omega (arith, full, len) in rw h e;
        queued = rw r.queued (sym (drop-snoc c.accepted c.sent p (omega (arith, full))));
      }
  supply_to-Refines (a ∷ rest) p c q r e =
      let (first, others, room) =
        range-cons (length c.sent) (c.accepted - length c.sent) a rest (sym r.waiting ∙ e) in
      let len = length-append c.sent (p ∷ []) in
      record {
        connected = r.connected;
        counted = r.counted;
        served = λ k. ground (arith, r.served k, get-snoc k c.sent p, first, room);
        waiting =
            let h : length (c.sent ++ p ∷ []) ≡ suc (length c.sent) = omega (arith, len) in
            let h' : c.accepted - suc (length c.sent) ≡ c.accepted - length c.sent - 1 =
              omega arith in
            rw (h, h') others;
        queued =
            r.queued
            ∙ drop_all c.accepted c.sent (omega (arith, room))
            ∙ sym (drop_all c.accepted (c.sent ++ p ∷ []) (omega (arith, room, len)));
      }

  step-Refines :
      (x : Call P) (c : Channel P) (q : Queues P S)
      → Refines c q
      → Refines (channel_step x c) (step wrap x q)
  unfolding step
  step-Refines accepts c q r = simp r.connected (accept_with-Refines q.pending_data c q r refl)
  step-Refines (supplies p) c q r = supply_to-Refines q.pending_accepters p c q r refl
  step-Refines (waits h a) c q r = record {
    connected = r.connected;
    counted = r.counted;
    served = λ k. ground (arith, r.served k);
    waiting = r.waiting;
    queued = r.queued;
  }

  pub run-Refines :
      (xs : List (Call P)) (c : Channel P) (q : Queues P S)
      → Refines c q
      → Refines (channel_run xs c) (run wrap xs q)
  unfolding run
  run-Refines [] c q r = r
  run-Refines (x ∷ xs) c q r =
      run-Refines xs (channel_step x c) (step wrap x q) (step-Refines x c q r)

  new-Refines : Refines (record { accepted = 0; sent = [] }) new
  unfolding new
  new-Refines = record {
    connected = refl;
    counted = refl;
    served = λ k. ground arith;
    waiting = refl;
    queued = refl;
  }

  -- After any calls on new queues that are not disconnected, whatever their order, the receptable of
  -- the k-th accept holds the k-th thing supplied, and is empty while fewer things were supplied.
  pub accept_gets :
      (xs : List (Call P)) (k : ℕ)
      → let c = channel_run xs (record { accepted = 0; sent = [] }) in
        k < c.accepted → ((run wrap xs new).cells k).value_ ≡ received (get_elem? c.sent k)
  accept_gets xs k h = ground (arith, (run-Refines xs _ new new-Refines).served k)
