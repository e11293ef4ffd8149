-- ===== src/Rdma/History/Pointers.antt =====
-- Who can reach the receptables of the connection manager (shoc/rdma.cpp): `listeners_`, by port,
-- and the user data of connections.
use shoc.Base.{
  ℕ, suc, ◌<◌, ◌≡◌, refl, Bool, true, false, Option, none, some, List, [], ◌∷◌, ◌++◌, arith, ◌==◌,
  if◌then◌else◌, contains, contains-append, Distinct, Bool-cases, inl, inr,
}

pub data Key : Type 0 where
  port conn : ℕ → Key

abbrev pub same_key : Key → Key → Bool
same_key (port p) (port q) = p == q
same_key (conn c) (conn d) = c == d
same_key (port p) (conn d) = false
same_key (conn c) (port q) = false

pub same_key-of_eq : (k j : Key) → k ≡ j → same_key k j ≡ true
same_key-of_eq (port p) (port q) e = ground arith
same_key-of_eq (conn p) (conn q) e = ground arith
same_key-of_eq (port p) (conn q) e = cc
same_key-of_eq (conn p) (port q) e = cc

pub eq-of_same_key : (k j : Key) → same_key k j ≡ true → k ≡ j
eq-of_same_key (port p) (port q) e = ground arith
eq-of_same_key (conn p) (conn q) e = ground arith
eq-of_same_key (port p) (conn q) e = cc
eq-of_same_key (conn p) (port q) e = cc

Distinct-snoc : (l : List ℕ) (a : ℕ) → Distinct l → contains a l ≡ false → Distinct (l ++ a ∷ [])
Distinct-snoc [] a d h = (refl, tt)
Distinct-snoc (b ∷ l) a d h =
    (ground (arith, contains-append b l (a ∷ [])), Distinct-snoc l a d.1 (ground arith))

-- Every receptable that can be reached is reached in one way only and has no result yet; a receptable
-- was given a result once at most, and was resumed once at most, with a result.
pub record Owned (reach : Key → Option ℕ) (next : ℕ) (completed resumed : List ℕ) : Type 0 where
  pub allocated : (k : Key) (a : ℕ) → reach k ≡ some a → a < next
  pub open_ones : (k : Key) (a : ℕ) → reach k ≡ some a → contains a completed ≡ false
  pub apart : (k j : Key) (a : ℕ) → reach k ≡ some a → reach j ≡ some a → same_key k j ≡ true
  pub old : (a : ℕ) → contains a completed ≡ true → a < next
  pub completed_once : Distinct completed
  pub resumed_once : Distinct resumed
  pub resumed_with_result : (a : ℕ) → contains a resumed ≡ true → contains a completed ≡ true

module _ {reach : Key → Option ℕ} {n : ℕ} {done woken : List ℕ} (o : Owned reach n done woken) where
  fresh : contains n done ≡ false
  fresh = elim (Bool-cases (contains n done)) [
    | inl e ↦ absurd (omega (arith, o.old n e))
    | inr e ↦ e
  ]

  -- A new receptable that can be reached by `k`.
  pub Owned-created :
      (reach' : Key → Option ℕ) (k : Key)
      → ((j : Key) → reach' j ≡ (if same_key k j then some n else reach j))
      → Owned reach' (suc n) done woken
  Owned-created reach' k e = record {
    allocated = λ j a h. elim (Bool-cases (same_key k j)) [
      | inl s ↦ ground (arith, e j)
      | inr s ↦ ground (arith, e j, o.allocated j a)
    ];
    open_ones = λ j a h. elim (Bool-cases (same_key k j)) [
      | inl s ↦ ground (arith, e j, fresh)
      | inr s ↦ ground (arith, e j, o.open_ones j a)
    ];
    apart = λ i j a h g. ground (
      arith,
      e i,
      e j,
      o.apart i j a,
      o.allocated i a,
      o.allocated j a,
      eq-of_same_key k i,
      eq-of_same_key k j,
      same_key-of_eq i j,
    );
    old = λ a h. omega (arith, o.old a h);
    completed_once = o.completed_once;
    resumed_once = o.resumed_once;
    resumed_with_result = o.resumed_with_result;
  }

  snoc : (a b : ℕ) → contains a done ≡ true → contains a (done ++ b ∷ []) ≡ true
  snoc a b h = ground (arith, contains-append a done (b ∷ []))

  -- A new receptable with a result, that cannot be reached.
  pub Owned-failed : Owned reach (suc n) (done ++ n ∷ []) woken
  Owned-failed = record {
    allocated = λ j a h. omega (arith, o.allocated j a h);
    open_ones = λ j a h.
        ground (arith, contains-append a done (n ∷ []), o.allocated j a h, o.open_ones j a h);
    apart = o.apart;
    old = λ a h. ground (arith, contains-append a done (n ∷ []), o.old a);
    completed_once = Distinct-snoc done n o.completed_once fresh;
    resumed_once = o.resumed_once;
    resumed_with_result = λ a h. snoc a n (o.resumed_with_result a h);
  }

  -- What `k` reaches, if anything, is out of reach then.
  pub Owned-dropped :
      (reach' : Key → Option ℕ) (k : Key)
      → ((j : Key) → reach' j ≡ (if same_key k j then none else reach j))
      → Owned reach' n done woken
  Owned-dropped reach' k e = record {
    allocated = λ j a h. ground (arith, e j, o.allocated j a);
    open_ones = λ j a h. ground (arith, e j, o.open_ones j a);
    apart = λ i j a h g. ground (arith, e i, e j, o.apart i j a);
    old = o.old;
    completed_once = o.completed_once;
    resumed_once = o.resumed_once;
    resumed_with_result = o.resumed_with_result;
  }

  -- The receptable that `k` reaches is given a result and is out of reach then.
  pub Owned-taken :
      (reach' : Key → Option ℕ) (k : Key) (b : ℕ)
      → ((j : Key) → reach' j ≡ (if same_key k j then none else reach j))
      → reach k ≡ some b
      → Owned reach' n (done ++ b ∷ []) woken
  Owned-taken reach' k b e r = record {
    allocated = λ j a h. ground (arith, e j, o.allocated j a);
    open_ones = λ j a h.
        ground (arith, e j, contains-append a done (b ∷ []), o.open_ones j a, o.apart k j b r);
    apart = λ i j a h g. ground (arith, e i, e j, o.apart i j a);
    old = λ a h. ground (arith, contains-append a done (b ∷ []), o.old a, o.allocated k b r);
    completed_once = Distinct-snoc done b o.completed_once (o.open_ones k b r);
    resumed_once = o.resumed_once;
    resumed_with_result = λ a h. snoc a b (o.resumed_with_result a h);
  }

  -- It is also resumed.
  pub Owned-woken :
      (reach' : Key → Option ℕ) (k : Key) (b : ℕ)
      → ((j : Key) → reach' j ≡ (if same_key k j then none else reach j))
      → reach k ≡ some b
      → Owned reach' n (done ++ b ∷ []) (woken ++ b ∷ [])
  Owned-woken reach' k b e r =
      let t = Owned-taken reach' k b e r in
      let asleep : contains b woken ≡ false = elim (Bool-cases (contains b woken)) [
        | inl w ↦ ground (arith, o.open_ones k b r, o.resumed_with_result b w)
        | inr w ↦ w
      ] in
      record {
        allocated = t.allocated;
        open_ones = t.open_ones;
        apart = t.apart;
        old = t.old;
        completed_once = t.completed_once;
        resumed_once = Distinct-snoc woken b o.resumed_once asleep;
        resumed_with_result = λ a h. ground (
          arith,
          contains-append a woken (b ∷ []),
          contains-append a done (b ∷ []),
          o.resumed_with_result a,
        );
      }
