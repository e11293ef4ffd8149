-- ===== src/AccepterQueues.antt =====
-- Queues that match supplied things with coroutines that accept them
-- (shoc/common/accepter_queues.hpp). The receptables live on a heap, since the queue holds pointers
-- to receptables that awaitables own; an awaitable is the address of its receptable. `wrap` is the
-- conversion from `Payload` to `ScopeWrapper`.
pub mod Fifo
pub mod Disconnect
pub mod Afterwards
mod Tests
use shoc.Base.{
  length, ℕ, zero, suc, Bool, true, false, Option, none, some, List, [], ◌∷◌, ◌++◌, ◌==◌,
  if◌then◌else◌,
}
use shoc.Doca.{not_connected}
use shoc.Coro.{Receptable, create_empty, from_payload, from_error, emplace_value, set_error, resume}

pub record Queues {ℓ κ} (P : Type ℓ) (S : Type κ) : Type (ℓ ⊔ κ) where
  pub pending_data : List P
  pub pending_accepters : List ℕ
  pub disconnected : Bool
  -- the heap of receptables, and the next address that `make_unique` gives
  pub cells : ℕ → Receptable S
  pub next : ℕ
  -- the coroutines that were resumed, in order
  pub resumed : List ℕ

abbrev pub update {ℓ} : {A : Type ℓ} → (ℕ → A) → ℕ → A → ℕ → A
update f k v j = if k == j then v else f j

abbrev pub log_resumed : Option ℕ → List ℕ → List ℕ
log_resumed none t = t
log_resumed (some h) t = t ++ h ∷ []

module _ {ℓ κ} {P : Type ℓ} {S : Type κ} where
  unfoldable pub new : Queues P S
  unfolding create_empty
  new = record {
    pending_data = [];
    pending_accepters = [];
    disconnected = false;
    cells = λ _. create_empty;
    next = 0;
    resumed = [];
  }

  -- A receptable of its own for the awaitable.
  make_awaitable : Receptable S → Queues P S → Queues P S
  make_awaitable r q = record q { cells = update q.cells q.next r; next = suc q.next }

  resume_at : ℕ → Queues P S → Queues P S
  unfolding resume
  resume_at a q = record q { resumed = log_resumed (resume (q.cells a)) q.resumed }

  -- One round of the loop in `disconnect`, up to the resumption.
  unfoldable pub fail_first : Queues P S → Queues P S
  unfolding resume_at set_error
  fail_first q = elim q.pending_accepters [
    | [] ↦ q
    | a ∷ rest ↦ resume_at a (record q {
      cells = update q.cells a (set_error not_connected (q.cells a));
      pending_accepters = rest;
    })
  ]

  abbrev pub mark_disconnected : Queues P S → Queues P S
  mark_disconnected q = record q { disconnected = true }

  -- The loop, with `react a` for what the coroutine that waited at `a` does before it suspends.
  -- The fuel bounds the rounds.
  drain : (ℕ → Queues P S → Queues P S) → ℕ → Queues P S → Queues P S
  unfolding fail_first
  drain react zero q = q
  drain react (suc fuel) q = elim q.pending_accepters [
    | [] ↦ q
    | a ∷ rest ↦ drain react fuel (react a (fail_first q))
  ]

  unfoldable pub disconnect : (ℕ → Queues P S → Queues P S) → ℕ → Queues P S → Queues P S
  unfolding drain
  disconnect react fuel q = drain react fuel (mark_disconnected q)

  -- `disconnect` where the resumed coroutines make no calls on these queues at once.
  unfoldable pub close : Queues P S → Queues P S
  unfolding disconnect
  close q = disconnect (λ _ r. r) (length q.pending_accepters) q

module _ {ℓ κ} {P : Type ℓ} {S : Type κ} (wrap : P → S) where
  accept_with : List P → Bool → Queues P S → Queues P S
  unfolding make_awaitable from_payload from_error create_empty
  accept_with (p ∷ rest) d q =
      make_awaitable (from_payload (wrap p)) (record q { pending_data = rest })
  accept_with [] true q = make_awaitable (from_error not_connected) q
  accept_with [] false q =
      make_awaitable create_empty
        (record q { pending_accepters = q.pending_accepters ++ q.next ∷ [] })

  -- The awaitable that it returns is the old `next`.
  unfoldable pub accept : Queues P S → Queues P S
  unfolding accept_with
  accept q = accept_with q.pending_data q.disconnected q

  supply_to : List ℕ → P → Queues P S → Queues P S
  unfolding resume_at emplace_value
  supply_to [] p q = record q { pending_data = q.pending_data ++ p ∷ [] }
  supply_to (a ∷ rest) p q = resume_at a (record q {
    cells = update q.cells a (emplace_value (wrap p) (q.cells a));
    pending_accepters = rest;
  })

  unfoldable pub supply : P → Queues P S → Queues P S
  unfolding supply_to
  supply p q = supply_to q.pending_accepters p q

-- The calls that coroutines and callbacks make.
pub data Call {ℓ} (P : Type ℓ) : Type ℓ where
  accepts : Call P
  supplies : P → Call P
  -- coroutine `h` finds the receptable at `a` empty and suspends
  waits : ℕ → ℕ → Call P

module _ {ℓ κ} {P : Type ℓ} {S : Type κ} (wrap : P → S) where
  unfoldable pub step : Call P → Queues P S → Queues P S
  unfolding accept supply
  step accepts q = accept wrap q
  step (supplies p) q = supply wrap p q
  step (waits h a) q = record q {
    cells = update q.cells a (record (q.cells a) { waiter_ = some h });
  }

  unfoldable pub run : List (Call P) → Queues P S → Queues P S
  unfolding step
  run [] q = q
  run (c ∷ cs) q = run cs (step c q)
