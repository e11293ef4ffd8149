-- ===== src/Base/Lists.antt =====
-- Lists measured by native numbers, and association lists keyed by them (the source's unordered
-- maps, keyed by an address or an id).
use Prim.Native.Nat.{ℕ, zero, suc, ◌+◌, ◌≤◌}
use mathlib.Core.Path.{◌≡◌, refl}
use mathlib.Core.Bool.{Bool, true, false, ◌||◌}
use mathlib.Core.List.{List, [], ◌∷◌, ◌++◌}
use mathlib.Core.Option.{Option, none, some}
use native.Mathlib.Omega.{arith}
use shoc.Base.Tests.{◌==◌, if◌then◌else◌}

module _ {ℓ} {A : Type ℓ} where
  abbrev pub length : List A → ℕ
  length [] = 0
  length (x ∷ xs) = suc (length xs)

  abbrev pub get_elem? : List A → ℕ → Option A
  get_elem? [] i = none
  get_elem? (x ∷ xs) zero = some x
  get_elem? (x ∷ xs) (suc i) = get_elem? xs i

  -- A write out of bounds changes nothing.
  abbrev pub set : List A → ℕ → A → List A
  set [] i v = []
  set (x ∷ xs) zero v = v ∷ xs
  set (x ∷ xs) (suc i) v = x ∷ set xs i v

  abbrev pub take : ℕ → List A → List A
  take zero l = []
  take (suc n) [] = []
  take (suc n) (x ∷ l) = x ∷ take n l

  abbrev pub drop : ℕ → List A → List A
  drop zero l = l
  drop (suc n) [] = []
  drop (suc n) (x ∷ l) = drop n l

  abbrev pub is_empty : List A → Bool
  is_empty [] = true
  is_empty (x ∷ xs) = false

  pub length-append : (xs ys : List A) → length (xs ++ ys) ≡ length xs + length ys
  length-append [] ys = omega arith
  length-append (x ∷ xs) ys = omega (arith, length-append xs ys)

-- Lists of numbers as sets (the source's maps from an address to the object at it).
abbrev pub contains : ℕ → List ℕ → Bool
contains a [] = false
contains a (b ∷ l) = b == a || contains a l

abbrev pub remove : ℕ → List ℕ → List ℕ
remove a [] = []
remove a (b ∷ l) = if b == a then remove a l else b ∷ remove a l

abbrev pub Distinct : List ℕ → Type 0
Distinct [] = Unit
Distinct (a ∷ l) = (contains a l ≡ false) × Distinct l

pub contains-remove :
    (a b : ℕ) (l : List ℕ) → contains b (remove a l) ≡ (if a == b then false else contains b l)
contains-remove a b [] = ground arith
contains-remove a b (c ∷ l) = ground (arith, contains-remove a b l)

pub contains-append : (a : ℕ) (l m : List ℕ) → contains a (l ++ m) ≡ (contains a l || contains a m)
contains-append a [] m = refl
contains-append a (c ∷ l) m = ground (arith, contains-append a l m)

pub remove_absent : (a : ℕ) (l : List ℕ) → contains a l ≡ false → remove a l ≡ l
remove_absent a [] h = refl
remove_absent a (c ∷ l) h = ground (arith, remove_absent a l)

pub empty_of_contains : (l : List ℕ) → ((a : ℕ) → contains a l ≡ false) → l ≡ []
empty_of_contains [] h = refl
empty_of_contains (c ∷ l) h = ground (arith, h c)

-- A predicate by recursion, which the tactics read as a tuple.
abbrev pub All {ℓ κ} : {A : Type ℓ} → (A → Type κ) → List A → Type κ
All P [] = Unit
All P (x ∷ xs) = P x × All P xs

pub All-of_contains {κ} :
    {P : ℕ → Type κ} (l : List ℕ) → ((a : ℕ) → contains a l ≡ true → P a) → All P l
All-of_contains [] h = tt
All-of_contains (b ∷ l) h = (h b (ground arith), All-of_contains l (λ a m. h a (ground arith)))

module _ {ℓ} {V : Type ℓ} where
  abbrev pub lookup : ℕ → List (ℕ × V) → Option V
  lookup k [] = none
  lookup k ((j, v) ∷ m) = if j == k then some v else lookup k m

  -- `m[k] = v`
  abbrev pub insert : ℕ → V → List (ℕ × V) → List (ℕ × V)
  insert k v [] = (k, v) ∷ []
  insert k v ((j, w) ∷ m) = if j == k then (k, v) ∷ m else (j, w) ∷ insert k v m

  -- Every entry of the key goes; the source's maps hold one at most.
  abbrev pub erase : ℕ → List (ℕ × V) → List (ℕ × V)
  erase k [] = []
  erase k ((j, w) ∷ m) = if j == k then erase k m else (j, w) ∷ erase k m

  pub lookup-insert :
      (k j : ℕ) (v : V) (m : List (ℕ × V))
      → lookup j (insert k v m) ≡ (if k == j then some v else lookup j m)
  lookup-insert k j v [] = refl
  lookup-insert k j v ((i, w) ∷ m) = ground (arith, lookup-insert k j v m)

  pub lookup-erase :
      (k j : ℕ) (m : List (ℕ × V)) → lookup j (erase k m) ≡ (if k == j then none else lookup j m)
  lookup-erase k j [] = ground arith
  lookup-erase k j ((i, w) ∷ m) = ground (arith, lookup-erase k j m)

  pub length-erase-le : (k : ℕ) (m : List (ℕ × V)) → length (erase k m) ≤ length m
  length-erase-le k [] = omega arith
  length-erase-le k ((i, w) ∷ m) = ground (arith, length-erase-le k m)
