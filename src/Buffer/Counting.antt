-- ===== src/Buffer/Counting.antt =====
-- DOCA's reference counts are the numbers of buffer objects (shoc/buffer.cpp).
use shoc.Base.{
  ℕ, zero, suc, ◌+◌, ◌≤◌, ◌<◌, ◌≡◌, refl, ap, Bool, true, false, ◌&&◌, Option, none, some, List, [],
  ◌∷◌, ◌++◌, arith, ltb, if◌then◌else◌, length, set,
}
use shoc.Context.Scoped.Conservation.{at, here, held, held-set, held-set-none, held-append}
use shoc.Buffer.{
  Buffers, no_buffers, inc_refcount, dec_refcount, from_handle, copy_construct, move_construct,
  copy_assign, move_assign, clear,
}

-- What is done with buffer objects; an assignment is between objects that exist.
pub data Event : Type 0 where
  takes : Option ℕ → Event
  copies moves clears : ℕ → Event
  copy_assigns move_assigns : ℕ → ℕ → Event

unfoldable pub step : Event → Buffers → Buffers
unfolding from_handle copy_construct move_construct clear copy_assign move_assign
step (takes h) s = from_handle h s
step (copies j) s = copy_construct j s
step (moves j) s = move_construct j s
step (clears i) s = clear i s
step (copy_assigns i j) s =
    if ltb i (length s.objects) && ltb j (length s.objects) then copy_assign i j s else s
step (move_assigns i j) s =
    if ltb i (length s.objects) && ltb j (length s.objects) then move_assign i j s else s

unfoldable pub run : List Event → Buffers → Buffers
unfolding step
run [] s = s
run (e ∷ es) s = run es (step e s)

inc_refcount_lem :
    (h : ℕ) (o : Option ℕ) (s : Buffers) → (inc_refcount o s).refcount h ≡ s.refcount h + here h o
unfolding inc_refcount
inc_refcount_lem h none s = omega arith
inc_refcount_lem h (some g) s = ground arith

inc_refcount-objects : (o : Option ℕ) (s : Buffers) → (inc_refcount o s).objects ≡ s.objects
unfolding inc_refcount
inc_refcount-objects none s = refl
inc_refcount-objects (some g) s = refl

dec_refcount_lem :
    (h : ℕ) (o : Option ℕ) (s : Buffers)
    → here h o ≤ s.refcount h
    → (dec_refcount o s).refcount h + here h o ≡ s.refcount h
unfolding dec_refcount
dec_refcount_lem h none s l = omega arith
dec_refcount_lem h (some g) s l = ground (arith, l)

dec_refcount-objects : (o : Option ℕ) (s : Buffers) → (dec_refcount o s).objects ≡ s.objects
unfolding dec_refcount
dec_refcount-objects none s = refl
dec_refcount-objects (some g) s = refl

length-set : (i : ℕ) (l : List (Option ℕ)) (v : Option ℕ) → length (set l i v) ≡ length l
length-set i [] v = refl
length-set zero (x ∷ l) v = refl
length-set (suc i) (x ∷ l) v = ap suc (length-set i l v)

none_held : (h : ℕ) → no_buffers.refcount h ≡ held h no_buffers.objects
unfolding no_buffers
none_held h = refl

abbrev pub Counted : ℕ → Buffers → Type 0
Counted h s = s.refcount h ≡ held h s.objects

from_handle-Counted :
    (h : ℕ) (o : Option ℕ) (s : Buffers) → Counted h s → Counted h (from_handle o s)
unfolding from_handle
from_handle-Counted h none s v = omega (arith, v, held-append h s.objects (none ∷ []))
from_handle-Counted h (some g) s v = ground (arith, v, held-append h s.objects (some g ∷ []))

copy_construct-Counted : (h j : ℕ) (s : Buffers) → Counted h s → Counted h (copy_construct j s)
unfolding copy_construct
copy_construct-Counted h j s v =
    let t : Buffers = record s { objects = s.objects ++ at j s.objects ∷ [] } in
    rw (inc_refcount-objects (at j s.objects) t) (
      omega (
        arith,
        v,
        inc_refcount_lem h (at j s.objects) t,
        held-append h s.objects (at j s.objects ∷ []),
      ))

move_construct-Counted : (h j : ℕ) (s : Buffers) → Counted h s → Counted h (move_construct j s)
unfolding move_construct
move_construct-Counted h j s v = omega (
  arith,
  v,
  held-append h (set s.objects j none) (at j s.objects ∷ []),
  held-set-none h j s.objects,
)

clear-Counted : (h i : ℕ) (s : Buffers) → Counted h s → Counted h (clear i s)
unfolding clear
clear-Counted h i s v =
    let t : Buffers = record s { objects = set s.objects i none } in
    let n = held-set-none h i s.objects in
    rw (dec_refcount-objects (at i s.objects) t)
      (omega (arith, v, n, dec_refcount_lem h (at i s.objects) t (omega (arith, v, n))))

copy_assign-Counted :
    (h i j : ℕ) (s : Buffers) → i < length s.objects → Counted h s → Counted h (copy_assign i j s)
unfolding copy_assign
copy_assign-Counted h i j s l v =
    let t : Buffers = record (inc_refcount (at j s.objects) s) {
      objects = set s.objects i (at j s.objects);
    } in
    let n = held-set h i s.objects (at j s.objects) l in
    let r = inc_refcount_lem h (at j s.objects) s in
    rw (dec_refcount-objects (at i s.objects) t)
      (omega (arith, v, n, r, dec_refcount_lem h (at i s.objects) t (omega (arith, v, n, r))))

move_assign-Counted :
    (h i j : ℕ) (s : Buffers) → i < length s.objects → Counted h s → Counted h (move_assign i j s)
unfolding move_assign
move_assign-Counted h i j s l v =
    let left = set s.objects j none in
    let t : Buffers = record s { objects = set left i (at j s.objects) } in
    let m = held-set-none h j s.objects in
    let n = held-set h i left (at j s.objects) (omega (arith, l, length-set j s.objects none)) in
    rw (dec_refcount-objects (at i left) t)
      (omega (arith, v, m, n, dec_refcount_lem h (at i left) t (omega (arith, v, m, n))))

if-Counted :
    (h : ℕ) (b : Bool) (s t : Buffers)
    → (b ≡ true → Counted h s)
    → Counted h t
    → Counted h (if b then s else t)
if-Counted h true s t v w = v refl
if-Counted h false s t v w = w

step-Counted : (h : ℕ) (e : Event) (s : Buffers) → Counted h s → Counted h (step e s)
unfolding step
step-Counted h (takes o) s v = from_handle-Counted h o s v
step-Counted h (copies j) s v = copy_construct-Counted h j s v
step-Counted h (moves j) s v = move_construct-Counted h j s v
step-Counted h (clears i) s v = clear-Counted h i s v
step-Counted h (copy_assigns i j) s v =
    if-Counted h (ltb i (length s.objects) && ltb j (length s.objects)) _ _
      (λ e. copy_assign-Counted h i j s (ground (arith, e)) v) v
step-Counted h (move_assigns i j) s v =
    if-Counted h (ltb i (length s.objects) && ltb j (length s.objects)) _ _
      (λ e. move_assign-Counted h i j s (ground (arith, e)) v) v

history-Counted : (h : ℕ) (es : List Event) (s : Buffers) → Counted h s → Counted h (run es s)
unfolding run
history-Counted h [] s v = v
history-Counted h (e ∷ es) s v = history-Counted h es (step e s) (step-Counted h e s v)

-- Whatever is done with buffer objects, copies, moves and assignments of an object to itself
-- included: DOCA counts as many references to a handle as there are objects that hold it.
pub run-refcount :
    (h : ℕ) (es : List Event) → (run es no_buffers).refcount h ≡ held h (run es no_buffers).objects
run-refcount h es = history-Counted h es no_buffers (none_held h)
