-- ===== src/AccepterQueues/Afterwards.antt =====
-- What accepts get on queues that are disconnected.
use shoc.Base.{
  ℕ, zero, suc, ◌<◌, ◌≡◌, refl, ap, ◌∙◌, ◌+◌, true, Option, none, some, get_elem?, List, [], ◌∷◌,
  arith,
}
use shoc.Coro.{Slot, payload}
use shoc.AccepterQueues.{Queues, Call, accepts, accept, step, run}
use shoc.AccepterQueues.Disconnect.{refused}

abbrev tail {ℓ} : {A : Type ℓ} → List A → List A
tail [] = []
tail (x ∷ l) = l

elem-tail {ℓ} : {A : Type ℓ} (k : ℕ) (l : List A) → get_elem? (tail l) k ≡ get_elem? l (suc k)
elem-tail k [] = refl
elem-tail k (x ∷ l) = refl

module _ {ℓ κ} {P : Type ℓ} {S : Type κ} (wrap : P → S) where
  abbrev pub accepts_only : ℕ → List (Call P)
  accepts_only zero = []
  accepts_only (suc n) = accepts ∷ accepts_only n

  -- What the k-th accept gets, of what was queued.
  abbrev pub got : Option P → Slot S
  got none = refused
  got (some p) = payload (wrap p)

  -- One accept on disconnected queues: it takes what is at the front, if anything.
  record Taken (q q' : Queues P S) : Type (ℓ ⊔ κ) where
    made : q'.next ≡ suc q.next
    still : q'.disconnected ≡ true
    rest : q'.pending_data ≡ tail q.pending_data
    result : (q'.cells q.next).value_ ≡ got (get_elem? q.pending_data 0)
    kept : (a : ℕ) → a < q.next → (q'.cells a).value_ ≡ (q.cells a).value_

  accept-Taken :
      (q : Queues P S) (l : List P)
      → q.disconnected ≡ true
      → q.pending_data ≡ l
      → Taken q (accept wrap q)
  unfolding accept
  accept-Taken q [] d e = record {
    made = ground arith;
    still = ground arith;
    rest = ground arith;
    result = ground arith;
    kept = λ a h. ground arith;
  }
  accept-Taken q (p ∷ l) d e = record {
    made = ground arith;
    still = ground arith;
    rest = ground arith;
    result = ground arith;
    kept = λ a h. ground arith;
  }

  accepts-keep :
      (n : ℕ) (q : Queues P S) (a : ℕ)
      → q.disconnected ≡ true
      → a < q.next
      → ((run wrap (accepts_only n) q).cells a).value_ ≡ (q.cells a).value_
  unfolding run step
  accepts-keep zero q a d h = refl
  accepts-keep (suc n) q a d h =
      let t = accept-Taken q q.pending_data d refl in
      accepts-keep n (accept wrap q) a t.still (omega (arith, t.made)) ∙ t.kept a h

  -- On disconnected queues, n accepts one after the other get what is queued, in order, and the error
  -- `DOCA_ERROR_NOT_CONNECTED` when nothing is left: none of their receptables is empty.
  pub accepts-drain :
      (n k : ℕ) (q : Queues P S)
      → k < n
      → q.disconnected ≡ true
      → ((run wrap (accepts_only n) q).cells (q.next + k)).value_ ≡ got (get_elem? q.pending_data k)
  unfolding run step
  accepts-drain zero k q h d = absurd (omega arith)
  accepts-drain (suc n) zero q h d =
      let t = accept-Taken q q.pending_data d refl in
      let first : q.next + 0 ≡ q.next = omega arith in
      rw first (accepts-keep n (accept wrap q) q.next t.still (omega (arith, t.made)) ∙ t.result)
  accepts-drain (suc n) (suc k) q h d =
      let t = accept-Taken q q.pending_data d refl in
      let later : q.next + suc k ≡ (accept wrap q).next + k = omega (arith, t.made) in
      ap (λ a. ((run wrap (accepts_only n) (accept wrap q)).cells a).value_) later
      ∙ accepts-drain n k (accept wrap q) (omega arith) t.still
      ∙ ap (λ l. got (get_elem? l k)) t.rest
      ∙ ap got (elem-tail k q.pending_data)
