-- ===== src/ProgressEngine/Lease/Counting.antt =====
-- An engine counts exactly the leases that point to it.
use shoc.Base.{
  ◌∙◌, ℕ, zero, suc, ◌+◌, ◌≤◌, ◌<◌, ◌≡◌, refl, ◌≢◌, Bool, true, false, Option, none, some, List, [],
  ◌∷◌, ◌++◌, arith, ◌==◌, ltb, if◌then◌else◌, length, get_elem?, set, Bool-cases, inl, inr,
}
use shoc.ProgressEngine.Lease.{
  Leases, register_if, deregister_if, same_engine, put, at, add, make, move, clear, assign_copy,
  assign_move, Op, makes, copies, moves, clears, assigns_copy, assigns_move, in_range, step, run,
}

abbrev pub one : ℕ → Option ℕ → ℕ
one e none = 0
one e (some k) = if k == e then 1 else 0

abbrev pub holders : ℕ → List (Option ℕ) → ℕ
holders e [] = 0
holders e (v ∷ l) = one e v + holders e l

abbrev value_at : List (Option ℕ) → ℕ → Option ℕ
value_at l i = elim (get_elem? l i) [ none ↦ none | some v ↦ v ]

holders-set :
    (e : ℕ) (l : List (Option ℕ)) (i : ℕ) (v : Option ℕ)
    → holders e (set l i v) + one e (value_at l i)
      ≡ holders e l + (if ltb i (length l) then one e v else 0)
holders-set e [] i v = ground arith
holders-set e (x ∷ l) zero v = ground arith
holders-set e (x ∷ l) (suc i) v = ground (arith, holders-set e l i v)

holders-add :
    (e : ℕ) (l : List (Option ℕ)) (v : Option ℕ) → holders e (l ++ v ∷ []) ≡ holders e l + one e v
holders-add e [] v = omega arith
holders-add e (x ∷ l) v = omega (arith, holders-add e l v)

value-set_ne :
    (l : List (Option ℕ)) (i j : ℕ) (v : Option ℕ) → i ≢ j → value_at (set l i v) j ≡ value_at l j
value-set_ne [] i j v h = refl
value-set_ne (x ∷ l) zero zero v h = absurd (h refl)
value-set_ne (x ∷ l) zero (suc j) v h = refl
value-set_ne (x ∷ l) (suc i) zero v h = refl
value-set_ne (x ∷ l) (suc i) (suc j) v h = value-set_ne l i j v (λ q. h (omega arith))

value-set_self : (l : List (Option ℕ)) (i : ℕ) → value_at (set l i none) i ≡ none
value-set_self [] i = refl
value-set_self (x ∷ l) zero = refl
value-set_self (x ∷ l) (suc i) = value-set_self l i

length-set : (l : List (Option ℕ)) (i : ℕ) (v : Option ℕ) → length (set l i v) ≡ length l
length-set [] i v = refl
length-set (x ∷ l) zero v = refl
length-set (x ∷ l) (suc i) v = omega (arith, length-set l i v)

value_range : (l : List (Option ℕ)) (i : ℕ) (k : ℕ) → value_at l i ≡ some k → i < length l
value_range [] i k h = cc
value_range (x ∷ l) zero k h = omega arith
value_range (x ∷ l) (suc i) k h = omega (arith, value_range l i k h)

one-le-holders : (e : ℕ) (l : List (Option ℕ)) (i : ℕ) → one e (value_at l i) ≤ holders e l
one-le-holders e [] i = omega arith
one-le-holders e (x ∷ l) zero = omega arith
one-le-holders e (x ∷ l) (suc i) = omega (arith, one-le-holders e l i)

register_if-effects :
    (v : Option ℕ) (s : Leases)
    → ((register_if v s).leases ≡ s.leases)
      × ((register_if v s).errors ≡ s.errors)
      × ((e : ℕ) → (register_if v s).fibers e ≡ s.fibers e + one e v)
unfolding register_if
register_if-effects none s = (refl, refl, λ e. omega arith)
register_if-effects (some k) s = (refl, refl, λ e. ground arith)

-- Every engine's count is the number of leases that point to it.
pub record Counted (s : Leases) : Type 0 where
  pub exact : (e : ℕ) → s.fibers e ≡ holders e s.leases

make-Counted :
    (v : Option ℕ) (s : Leases) → Counted s → Counted (make v s) × ((make v s).errors ≡ s.errors)
unfolding make
make-Counted v s c =
    let (l, er, f) = register_if-effects v (add v s) in
    (record { exact = λ e. ground (arith, c.exact e, f e, l, holders-add e s.leases v) }, er)

value-add :
    (l : List (Option ℕ)) (j : ℕ) (v : Option ℕ) → value_at l j ≡ v → value_at (l ++ v ∷ []) j ≡ v
value-add [] zero v h = refl
value-add [] (suc j) v h = h
value-add (x ∷ l) zero v h = h
value-add (x ∷ l) (suc j) v h = value-add l j v h

move-Counted : (j : ℕ) (s : Leases) → Counted s → Counted (move j s)
unfolding move
move-Counted j s c = record {
  exact = λ e.
      let v : Option ℕ = value_at s.leases j in
      ground (
        arith,
        c.exact e,
        holders-add e s.leases v,
        holders-set e (s.leases ++ v ∷ []) j none,
        value-add s.leases j v refl,
      );
}

-- A test that chooses between two states, both counted and with `n` errors.
either :
    (n : ℕ) (x y : Leases) (b : Bool)
    → (b ≡ true → Counted x × (x.errors ≡ n))
    → (b ≡ false → Counted y × (y.errors ≡ n))
    → Counted (if b then x else y) × ((if b then x else y).errors ≡ n)
either n x y true f g = f refl
either n x y false f g = g refl

holder-Counted : (s : Leases) → Counted s → (i e : ℕ) → one e (value_at s.leases i) ≤ s.fibers e
holder-Counted s c i e = omega (arith, c.exact e, one-le-holders e s.leases i)

module _ (no_contexts : ℕ → Bool) where
  deregister_if-effects :
      (v : Option ℕ) (s : Leases)
      → ((e : ℕ) → one e v ≤ s.fibers e)
      → ((deregister_if no_contexts v s).leases ≡ s.leases)
        × ((deregister_if no_contexts v s).errors ≡ s.errors)
        × ((e : ℕ) → (deregister_if no_contexts v s).fibers e + one e v ≡ s.fibers e)
  unfolding deregister_if
  deregister_if-effects none s h = (refl, refl, λ e. omega arith)
  deregister_if-effects (some k) s h =
      (ground (arith, h k), ground (arith, h k), λ e. ground (arith, h k, h e))

  -- `clear` leaves a variable with no engine, and is counted.
  clear-Counted :
      (i : ℕ) (s : Leases)
      → Counted s
      → Counted (clear no_contexts i s)
        × ((clear no_contexts i s).errors ≡ s.errors)
        × (value_at (clear no_contexts i s).leases i ≡ none)
        × (length (clear no_contexts i s).leases ≡ length s.leases)
  unfolding clear
  clear-Counted i s c =
      let v : Option ℕ = value_at s.leases i in
      let held = λ (e : ℕ). holder-Counted s c i e in
      let (l, er, f) = deregister_if-effects v s held in
      (
        record { exact = λ e. ground (arith, c.exact e, f e, l, holders-set e s.leases i none) },
        er,
        rw l (value-set_self s.leases i),
        rw l (length-set s.leases i none),
      )

  put-Counted :
      (i : ℕ) (v : Option ℕ) (s : Leases)
      → Counted s
      → i < length s.leases
      → value_at s.leases i ≡ none
      → Counted (put i v (register_if v s)) × ((put i v (register_if v s)).errors ≡ s.errors)
  put-Counted i v s c h n =
      let (l, er, f) = register_if-effects v s in
      (
        record { exact = λ e. ground (arith, c.exact e, f e, l, holders-set e s.leases i v, n, h) },
        er,
      )

  assign_copy-Counted :
      (i j : ℕ) (s : Leases)
      → Counted s
      → i < length s.leases
      → Counted (assign_copy no_contexts i j s)
        × ((assign_copy no_contexts i j s).errors ≡ s.errors)
  unfolding assign_copy
  assign_copy-Counted i j s c h = elim (Bool-cases (same_engine (at i s) (at j s))) [
    | inl e ↦ rw e (c, refl)
    | inr e ↦
        let t = clear no_contexts i s in
        let (tc, te, tn, tl) = clear-Counted i s c in
        let (uc, ue) = put-Counted i (at j t) t tc (omega (arith, h, tl)) tn in rw e (uc, ue ∙ te)
  ]

  transfer-Counted :
      (i j : ℕ) (t : Leases)
      → Counted t
      → i < length t.leases
      → value_at t.leases i ≡ none
      → i ≢ j
      → Counted (put j none (put i (at j t) t))
  transfer-Counted i j t c h n q = record {
    exact = λ e.
        let v : Option ℕ = value_at t.leases j in
        ground (
          arith,
          c.exact e,
          holders-set e t.leases i v,
          holders-set e (set t.leases i v) j none,
          value-set_ne t.leases i j v q,
          n,
          h,
        );
  }

  assign_move-Counted :
      (i j : ℕ) (s : Leases)
      → Counted s
      → i < length s.leases
      → Counted (assign_move no_contexts i j s)
        × ((assign_move no_contexts i j s).errors ≡ s.errors)
  unfolding assign_move
  assign_move-Counted i j s c h =
      let t = clear no_contexts i s in
      let (tc, te, tn, tl) = clear-Counted i s c in
      either s.errors _ _ (i == j) (λ q. (c, refl))
        λ q. (transfer-Counted i j t tc (omega (arith, h, tl)) tn (ground arith), te)

  step-Counted :
      (o : Op) (s : Leases)
      → Counted s
      → Counted (step no_contexts o s) × ((step no_contexts o s).errors ≡ s.errors)
  unfolding step
  step-Counted (makes v) s c = make-Counted v s c
  step-Counted (copies j) s c = make-Counted (at j s) s c
  step-Counted (moves j) s c = (move-Counted j s c, refl)
  step-Counted (clears i) s c = let (tc, te, tn, tl) = clear-Counted i s c in (tc, te)
  step-Counted (assigns_copy i j) s c =
      either s.errors _ _ (in_range i s) (λ h. assign_copy-Counted i j s c (ground arith))
        λ h. (c, refl)
  step-Counted (assigns_move i j) s c =
      either s.errors _ _ (in_range i s) (λ h. assign_move-Counted i j s c (ground arith))
        λ h. (c, refl)

  -- Whatever fibers do with their leases, each engine's count of fibers stays the number of leases
  -- that point to it, and no fiber is deregistered that was not registered.
  pub run-Counted :
      (os : List Op) (s : Leases)
      → Counted s
      → Counted (run no_contexts os s) × ((run no_contexts os s).errors ≡ s.errors)
  unfolding run
  run-Counted [] s c = (c, refl)
  run-Counted (o ∷ os) s c =
      let (c', e) = step-Counted o s c in
      let (c'', e') = run-Counted os (step no_contexts o s) c' in (c'', e' ∙ e)
