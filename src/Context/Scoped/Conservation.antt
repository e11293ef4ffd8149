-- ===== src/Context/Scoped/Conservation.antt =====
-- Many scoped connections, between which connections are moved.
use shoc.Base.{
  ℕ, zero, suc, ◌+◌, ◌<◌, ◌≡◌, refl, false, ◌&&◌, Option, none, some, List, [], ◌∷◌, ◌++◌, arith,
  ltb, ◌==◌, if◌then◌else◌, length, set, ap, Bool-cases, inl, inr,
}
use shoc.Context.Scoped.{move_construct, clear_connection, move_assign_connection}

-- The wrappers that were made, and the connections that were disconnected.
pub record Fleet : Type 0 where
  pub wrappers : List (Option ℕ)
  pub disconnects : List ℕ

-- A wrapper is made for a connection, or from another one; is assigned from another one, which may be
-- itself; goes out of scope.
pub data Op : Type 0 where
  wraps : ℕ → Op
  moves destroys : ℕ → Op
  assigns : ℕ → ℕ → Op

abbrev pub at : ℕ → List (Option ℕ) → Option ℕ
at i [] = none
at zero (o ∷ l) = o
at (suc i) (o ∷ l) = at i l

unfoldable pub step : Op → Fleet → Fleet
unfolding move_construct clear_connection move_assign_connection
step (wraps con) f = record f { wrappers = f.wrappers ++ some con ∷ [] }
step (moves j) f =
    let (made, left) = move_construct (at j f.wrappers) in
    record f { wrappers = set f.wrappers j left ++ made ∷ [] }
step (destroys i) f =
    let (left, log) = clear_connection (at i f.wrappers) f.disconnects in
    record { wrappers = set f.wrappers i left; disconnects = log }
step (assigns i j) f =
    if ltb i (length f.wrappers) && ltb j (length f.wrappers)
    then (if i == j
        then (let (left, log) = clear_connection (at i f.wrappers) f.disconnects in
            record { wrappers = set f.wrappers i left; disconnects = log })
        else (let w = move_assign_connection (record {
          this = at i f.wrappers;
          other = at j f.wrappers;
          stopped = f.disconnects;
        }) in
            record { wrappers = set (set f.wrappers i w.this) j w.other; disconnects = w.stopped }))
    else f

unfoldable pub run : List Op → Fleet → Fleet
unfolding step
run [] f = f
run (x ∷ rest) f = run rest (step x f)

-- How often a connection occurs.
abbrev pub here : ℕ → Option ℕ → ℕ
here c none = 0
here c (some d) = if d == c then 1 else 0

abbrev pub held : ℕ → List (Option ℕ) → ℕ
held c [] = 0
held c (o ∷ l) = here c o + held c l

abbrev pub occurrences : ℕ → List ℕ → ℕ
occurrences c [] = 0
occurrences c (d ∷ l) = here c (some d) + occurrences c l

abbrev pub wrapped : ℕ → List Op → ℕ
wrapped c [] = 0
wrapped c (wraps d ∷ l) = here c (some d) + wrapped c l
wrapped c (_ ∷ l) = wrapped c l

pub held-set :
    (c i : ℕ) (l : List (Option ℕ)) (v : Option ℕ)
    → i < length l
    → held c (set l i v) + here c (at i l) ≡ held c l + here c v
held-set c i [] v h = absurd (omega arith)
held-set c zero (o ∷ l) v h = omega arith
held-set c (suc i) (o ∷ l) v h = omega (arith, held-set c i l v (omega arith))

pub held-set-none :
    (c i : ℕ) (l : List (Option ℕ)) → held c (set l i none) + here c (at i l) ≡ held c l
held-set-none c i [] = omega arith
held-set-none c zero (o ∷ l) = omega arith
held-set-none c (suc i) (o ∷ l) = omega (arith, held-set-none c i l)

pub at-set_other :
    (i j : ℕ) (l : List (Option ℕ)) (v : Option ℕ) → (i == j) ≡ false → at j (set l i v) ≡ at j l
at-set_other i j [] v h = refl
at-set_other zero zero (o ∷ l) v h = absurd (ground arith)
at-set_other zero (suc j) (o ∷ l) v h = refl
at-set_other (suc i) zero (o ∷ l) v h = refl
at-set_other (suc i) (suc j) (o ∷ l) v h = at-set_other i j l v (ground arith)

pub held-append : (c : ℕ) (l m : List (Option ℕ)) → held c (l ++ m) ≡ held c l + held c m
held-append c [] m = omega arith
held-append c (o ∷ l) m = omega (arith, held-append c l m)

occurrences-append :
    (c : ℕ) (l m : List ℕ) → occurrences c (l ++ m) ≡ occurrences c l + occurrences c m
occurrences-append c [] m = omega arith
occurrences-append c (d ∷ l) m = omega (arith, occurrences-append c l m)

-- Clearing a wrapper disconnects what it held, and leaves nothing in it.
clear_connection_lem :
    (c : ℕ) (o : Option ℕ) (log : List ℕ)
    → ((clear_connection o log).0 ≡ none)
      × (occurrences c (clear_connection o log).1 ≡ occurrences c log + here c o)
unfolding clear_connection
clear_connection_lem c none log = (refl, omega arith)
clear_connection_lem c (some d) log = (refl, omega (arith, occurrences-append c log (d ∷ [])))

abbrev pub total : ℕ → Fleet → ℕ
total c f = held c f.wrappers + occurrences c f.disconnects

cleared :
    (c i : ℕ) (l : List (Option ℕ)) (log : List ℕ)
    → held c (set l i (clear_connection (at i l) log).0)
        + occurrences c (clear_connection (at i l) log).1
      ≡ held c l + occurrences c log
cleared c i l log =
    let k = clear_connection_lem c (at i l) log in rw k.0 (omega (arith, k.1, held-set-none c i l))

assigned :
    (c i j : ℕ) (l : List (Option ℕ)) (log : List ℕ)
    → (i == j) ≡ false
    → i < length l
    → held c (set (set l i (at j l)) j none) + occurrences c (clear_connection (at i l) log).1
      ≡ held c l + occurrences c log
assigned c i j l log ne h = omega (
  arith,
  (clear_connection_lem c (at i l) log).1,
  held-set c i l (at j l) h,
  held-set-none c j (set l i (at j l)),
  ap (here c) (at-set_other i j l (at j l) ne),
)

step-total : (c : ℕ) (x : Op) (f : Fleet) → total c (step x f) ≡ total c f + wrapped c (x ∷ [])
unfolding step move_construct move_assign_connection
step-total c (wraps con) f = omega (arith, held-append c f.wrappers (some con ∷ []))
step-total c (moves j) f = omega (
  arith,
  held-append c (set f.wrappers j none) (at j f.wrappers ∷ []),
  held-set-none c j f.wrappers,
)
step-total c (destroys i) f = omega (arith, cleared c i f.wrappers f.disconnects)
step-total c (assigns i j) f =
    elim (Bool-cases (ltb i (length f.wrappers) && ltb j (length f.wrappers))) [
      | inr e ↦ rw e (omega arith)
      | inl e ↦ elim (Bool-cases (i == j)) [
        | inl s ↦ rw (e, s) (omega (arith, cleared c i f.wrappers f.disconnects))
        | inr s ↦
            rw (e, s) (omega (arith, assigned c i j f.wrappers f.disconnects s (ground arith)))
      ]
    ]

wrapped-cons :
    (c : ℕ) (x : Op) (xs : List Op) → wrapped c (x ∷ xs) ≡ wrapped c (x ∷ []) + wrapped c xs
wrapped-cons c (wraps d) xs = omega arith
wrapped-cons c (moves j) xs = omega arith
wrapped-cons c (destroys i) xs = omega arith
wrapped-cons c (assigns i j) xs = omega arith

-- However scoped connections are made, moved, assigned, also to themselves, and destroyed: each
-- connection is held by wrappers or was disconnected by them, together as often as it was put into a
-- wrapper. So it is disconnected exactly once if it was wrapped once and no wrapper holds it any more.
pub run-total : (c : ℕ) (xs : List Op) (f : Fleet) → total c (run xs f) ≡ total c f + wrapped c xs
unfolding run
run-total c [] f = omega arith
run-total c (x ∷ xs) f =
    omega (arith, run-total c xs (step x f), step-total c x f, wrapped-cons c x xs)
