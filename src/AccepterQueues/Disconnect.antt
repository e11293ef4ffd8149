-- ===== src/AccepterQueues/Disconnect.antt =====
-- What `disconnect` does, also when the coroutines that it resumes call the queues again.
use mathlib.Core.List.{append_assoc, append-nil}
use shoc.Base.{
  contains, ◌==◌, if◌then◌else◌, ℕ, zero, suc, ◌≤◌, ◌<◌, ◌≡◌, refl, ◌∙◌, true, some, List, [], ◌∷◌,
  ◌++◌, arith, length, Option, none, sym, ap, ==_refl,
}
use shoc.Doca.{not_connected}
use shoc.Error.{doca_exception}
use shoc.Coro.{Receptable, Slot, exception}
use shoc.AccepterQueues.{
  Queues, Call, accepts, supplies, waits, accept_with, supply_to, step, run, fail_first,
  mark_disconnected, drain, disconnect, log_resumed,
}

module _ {ℓ κ} {P : Type ℓ} {S : Type κ} where
  abbrev pub waiting : Queues P S → ℕ
  waiting q = length q.pending_accepters

  -- Disconnected, and with no more accepters than before.
  pub record Settled (q q' : Queues P S) : Type 0 where
    pub still : q'.disconnected ≡ true
    pub fewer : waiting q' ≤ waiting q

  fail_first-Settled :
      (a : ℕ) (rest : List ℕ) (q : Queues P S)
      → q.disconnected ≡ true
      → q.pending_accepters ≡ a ∷ rest
      → ((fail_first q).disconnected ≡ true) × (waiting (fail_first q) < waiting q)
  unfolding fail_first
  fail_first-Settled a rest q d e = ground arith

  drain-Settled :
      (react : ℕ → Queues P S → Queues P S)
      → ((a : ℕ) (q : Queues P S) → q.disconnected ≡ true → Settled q (react a q))
      → (fuel : ℕ) (q : Queues P S) (l : List ℕ) → q.pending_accepters ≡ l
      → q.disconnected ≡ true
      → waiting q ≤ fuel
      → ((drain react fuel q).pending_accepters ≡ []) × ((drain react fuel q).disconnected ≡ true)
  unfolding drain
  drain-Settled react keep zero q [] e d h = (e, d)
  drain-Settled react keep zero q (a ∷ rest) e d h = ground arith
  drain-Settled react keep (suc fuel) q [] e d h = rw (e, drain) (e, d)
  drain-Settled react keep (suc fuel) q (a ∷ rest) e d h =
      let (d', less) = fail_first-Settled a rest q d e in
      let s = keep a (fail_first q) d' in
      rw (e, drain)
        (drain-Settled react keep fuel (react a (fail_first q)) _ refl s.still
          (omega (arith, s.fewer)))

  empty_waiting : (q : Queues P S) → q.pending_accepters ≡ [] → waiting q ≡ 0
  empty_waiting q e = rw e

empty_of_waiting {ℓ} : {A : Type ℓ} (l : List A) → length l ≡ 0 → l ≡ []
empty_of_waiting [] e = refl
empty_of_waiting (a ∷ rest) e = absurd (omega arith)

module _ {ℓ κ} {P : Type ℓ} {S : Type κ} (wrap : P → S) where
  accept_with-Settled :
      (ps : List P) (q : Queues P S)
      → q.disconnected ≡ true
      → Settled q (accept_with wrap ps true q)
  unfolding accept_with
  accept_with-Settled [] q d = record { still = d; fewer = omega arith }
  accept_with-Settled (p ∷ ps) q d = record { still = d; fewer = omega arith }

  supply_to-Settled :
      (waiters : List ℕ) (p : P) (q : Queues P S)
      → q.disconnected ≡ true
      → q.pending_accepters ≡ waiters
      → Settled q (supply_to wrap waiters p q)
  unfolding supply_to
  supply_to-Settled [] p q d e = record { still = d; fewer = omega arith }
  supply_to-Settled (a ∷ rest) p q d e = ground arith

  step-Settled : (c : Call P) (q : Queues P S) → q.disconnected ≡ true → Settled q (step wrap c q)
  unfolding step
  step-Settled accepts q d = simp d (accept_with-Settled q.pending_data q d)
  step-Settled (supplies p) q d = supply_to-Settled q.pending_accepters p q d refl
  step-Settled (waits h a) q d = record { still = d; fewer = omega arith }

  run-Settled :
      (cs : List (Call P)) (q : Queues P S) → q.disconnected ≡ true → Settled q (run wrap cs q)
  unfolding run
  run-Settled [] q d = record { still = d; fewer = omega arith }
  run-Settled (c ∷ cs) q d =
      let s = step-Settled c q d in
      let s' = run-Settled cs (step wrap c q) s.still in
      record { still = s'.still; fewer = omega (arith, s.fewer, s'.fewer) }

  -- `disconnect` ends after as many rounds as there are waiting accepters, and leaves none, whatever
  -- calls the resumed coroutines make on the queues before they suspend again.
  pub disconnect_drains :
      (script : ℕ → List (Call P)) (fuel : ℕ) (q : Queues P S)
      → waiting q ≤ fuel
      → ((disconnect (λ a. run wrap (script a)) fuel q).pending_accepters ≡ [])
        × ((disconnect (λ a. run wrap (script a)) fuel q).disconnected ≡ true)
  unfolding disconnect
  disconnect_drains script fuel q h =
      drain-Settled (λ a. run wrap (script a)) (λ a. run-Settled (script a)) fuel
        (mark_disconnected q) _ refl refl h

  -- Once the queues are disconnected and drained, no call makes an accepter wait again.
  pub drained_for_good :
      (cs : List (Call P)) (q : Queues P S)
      → q.disconnected ≡ true
      → q.pending_accepters ≡ []
      → (run wrap cs q).pending_accepters ≡ []
  drained_for_good cs q d e =
      empty_of_waiting _ (omega (arith, (run-Settled cs q d).fewer, empty_waiting q e))

abbrev pub refused {κ} : {S : Type κ} → Slot S
refused = exception (some (doca_exception not_connected))

log_resumed-append : (o : Option ℕ) (t : List ℕ) → log_resumed o t ≡ t ++ log_resumed o []
log_resumed-append none t = sym (append-nil t)
log_resumed-append (some h) t = refl

module _ {κ} {S : Type κ} where
  -- The coroutines that wait on the receptables of `l`, in order
  abbrev pub woken : List ℕ → (ℕ → Receptable S) → List ℕ
  woken [] cells = []
  woken (a ∷ rest) cells = log_resumed (cells a).waiter_ [] ++ woken rest cells

  woken-same :
      (l : List ℕ) (cells cells' : ℕ → Receptable S)
      → ((a : ℕ) → (cells' a).waiter_ ≡ (cells a).waiter_)
      → woken l cells' ≡ woken l cells
  woken-same [] cells cells' e = refl
  woken-same (a ∷ rest) cells cells' e =
      rw (e a) (ap (λ r. log_resumed (cells a).waiter_ [] ++ r) (woken-same rest cells cells' e))

module _ {ℓ κ} {P : Type ℓ} {S : Type κ} where
  -- What is left of `q` when the accepters `l` were refused and resumed, and nobody else was.
  pub record Refused (l : List ℕ) (q q' : Queues P S) : Type (ℓ ⊔ κ) where
    pub data_kept : q'.pending_data ≡ q.pending_data
    pub none_left : q'.pending_accepters ≡ []
    pub still : q'.disconnected ≡ true
    pub none_new : q'.next ≡ q.next
    pub slots :
        (a : ℕ) → (q'.cells a).value_ ≡ (if contains a l then refused else (q.cells a).value_)
    pub waiters : (a : ℕ) → (q'.cells a).waiter_ ≡ (q.cells a).waiter_
    pub log : q'.resumed ≡ q.resumed ++ woken l q.cells

  -- The same after one round
  record First (b : ℕ) (rest : List ℕ) (q q' : Queues P S) : Type (ℓ ⊔ κ) where
    data_kept : q'.pending_data ≡ q.pending_data
    left : q'.pending_accepters ≡ rest
    still : q'.disconnected ≡ q.disconnected
    none_new : q'.next ≡ q.next
    slots : (a : ℕ) → (q'.cells a).value_ ≡ (if b == a then refused else (q.cells a).value_)
    waiters : (a : ℕ) → (q'.cells a).waiter_ ≡ (q.cells a).waiter_
    log : q'.resumed ≡ log_resumed (q.cells b).waiter_ q.resumed

  fail_first-First :
      (q : Queues P S) (b : ℕ) (rest : List ℕ)
      → q.pending_accepters ≡ b ∷ rest
      → First b rest q (fail_first q)
  unfolding fail_first
  fail_first-First q b rest e =
      rw (e, fail_first)
        (record {
          data_kept = refl;
          left = refl;
          still = refl;
          none_new = refl;
          slots = λ a. ground arith;
          waiters = λ a. ground arith;
          log = rw (==_refl b) refl;
        })

  none_waiting :
      (q : Queues P S) → q.pending_accepters ≡ [] → q.disconnected ≡ true → Refused [] q q
  none_waiting q e d = record {
    data_kept = refl;
    none_left = e;
    still = d;
    none_new = refl;
    slots = λ a. refl;
    waiters = λ a. refl;
    log = sym (append-nil q.resumed);
  }

  drain-refuses :
      (l : List ℕ) (fuel : ℕ) (q : Queues P S)
      → q.pending_accepters ≡ l
      → q.disconnected ≡ true
      → length l ≤ fuel
      → Refused l q (drain (λ _ r. r) fuel q)
  unfolding drain
  drain-refuses [] zero q e d h = none_waiting q e d
  drain-refuses [] (suc fuel) q e d h = simp (e, drain) (none_waiting q e d)
  drain-refuses (b ∷ rest) zero q e d h = absurd (omega arith)
  drain-refuses (b ∷ rest) (suc fuel) q e d h =
      let f = fail_first-First q b rest e in
      let r = drain-refuses rest fuel (fail_first q) f.left (f.still ∙ d) (omega arith) in
      rw (e, drain)
        (record {
          data_kept = r.data_kept ∙ f.data_kept;
          none_left = r.none_left;
          still = r.still;
          none_new = r.none_new ∙ f.none_new;
          slots = λ a. ground (arith, f.slots a, r.slots a);
          waiters = λ a. r.waiters a ∙ f.waiters a;
          log =
              r.log
              ∙ ap (λ w. (fail_first q).resumed ++ w)
                  (woken-same rest q.cells (fail_first q).cells f.waiters)
              ∙ ap (λ t. t ++ woken rest q.cells)
                  (f.log ∙ log_resumed-append (q.cells b).waiter_ q.resumed)
              ∙ append_assoc q.resumed _ _;
        })

  -- Every accepter that waits when the queues are disconnected gets the error
  -- `DOCA_ERROR_NOT_CONNECTED`, and the coroutines that wait on their receptables are resumed, once for
  -- each and in the order of the queue. What the other receptables hold, who waits on each receptable and
  -- what is queued stay as they were, no receptable is made, no accepter waits, and the queues are
  -- disconnected: if the resumed coroutines make no calls on the queues. The fuel is at least the number
  -- of waiting accepters.
  pub disconnect_refuses :
      (fuel : ℕ) (q : Queues P S)
      → waiting q ≤ fuel
      → Refused q.pending_accepters q (disconnect (λ _ r. r) fuel q)
  unfolding disconnect
  disconnect_refuses fuel q h =
      let r = drain-refuses q.pending_accepters fuel (mark_disconnected q) refl refl h in
      record {
        data_kept = r.data_kept;
        none_left = r.none_left;
        still = r.still;
        none_new = r.none_new;
        slots = r.slots;
        waiters = r.waiters;
        log = r.log;
      }
