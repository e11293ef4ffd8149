-- ===== src/AesGcm/Counting/Keys.antt =====
-- Lists of keys and of destroyed keys of an AES-GCM context (shoc/aes_gcm.cpp), and what is counted in them.
use shoc.Base.{
  ℕ, zero, suc, ◌+◌, ◌<◌, ◌≡◌, refl, Bool, true, false, Option, none, some, List, [], ◌∷◌, ◌++◌,
  arith, ◌==◌, if◌then◌else◌, length, set,
}
use shoc.AesGcm.{Key, no_key, at, drop_handle}

abbrev pub has_key : Option ℕ → ℕ
has_key none = 0
has_key (some h) = 1

abbrev pub live : List Key → ℕ
live [] = 0
live (k ∷ l) = has_key k.handle + live l

-- The keys that were destroyed without the context being told.
abbrev pub leaked : List (ℕ × Bool) → ℕ
leaked [] = 0
leaked (d ∷ l) = (if d.1 then 0 else 1) + leaked l

-- A key with a handle knows its context.
abbrev pub KnowsParent : Key → Type 0
KnowsParent k = (h : ℕ) → k.handle ≡ some h → k.parent ≡ true

pub live-set :
    (i : ℕ) (l : List Key) (k : Key)
    → i < length l
    → live (set l i k) + has_key (at i l).handle ≡ live l + has_key k.handle
live-set i [] k h = absurd (omega arith)
live-set zero (x ∷ l) k h = omega arith
live-set (suc i) (x ∷ l) k h = omega (arith, live-set i l k (omega arith))

pub live-set_none :
    (i : ℕ) (l : List Key) → live (set l i no_key) + has_key (at i l).handle ≡ live l
live-set_none i [] = omega arith
live-set_none zero (x ∷ l) = omega arith
live-set_none (suc i) (x ∷ l) = omega (arith, live-set_none i l)

pub live-append : (l m : List Key) → live (l ++ m) ≡ live l + live m
live-append [] m = omega arith
live-append (k ∷ l) m = omega (arith, live-append l m)

pub leaked-append : (l m : List (ℕ × Bool)) → leaked (l ++ m) ≡ leaked l + leaked m
leaked-append [] m = omega arith
leaked-append (d ∷ l) m = omega (arith, leaked-append l m)

pub at-set_other : (i j : ℕ) (l : List Key) (k : Key) → (i == j) ≡ false → at j (set l i k) ≡ at j l
at-set_other i j [] k h = refl
at-set_other zero zero (x ∷ l) k h = absurd (ground arith)
at-set_other zero (suc j) (x ∷ l) k h = refl
at-set_other (suc i) zero (x ∷ l) k h = refl
at-set_other (suc i) (suc j) (x ∷ l) k h = at-set_other i j l k (ground arith)

module _ (P : Key → Type 0) (nothing : P no_key) where
  pub at-set_all :
      (i : ℕ) (l : List Key) (k : Key)
      → P k
      → ((j : ℕ) → P (at j l))
      → (j : ℕ) → P (at j (set l i k))
  at-set_all i [] k p h j = nothing
  at-set_all zero (x ∷ l) k p h zero = p
  at-set_all zero (x ∷ l) k p h (suc j) = h (suc j)
  at-set_all (suc i) (x ∷ l) k p h zero = h zero
  at-set_all (suc i) (x ∷ l) k p h (suc j) = at-set_all i l k p (λ m. h (suc m)) j

  pub at-append_all :
      (l : List Key) (k : Key) → P k → ((j : ℕ) → P (at j l)) → (j : ℕ) → P (at j (l ++ k ∷ []))
  at-append_all [] k p h zero = p
  at-append_all [] k p h (suc j) = nothing
  at-append_all (x ∷ l) k p h zero = h zero
  at-append_all (x ∷ l) k p h (suc j) = at-append_all l k p (λ m. h (suc m)) j

pub no_key-KnowsParent : KnowsParent no_key
no_key-KnowsParent h e = cc

pub leaked-drop_handle :
    (o : Option ℕ) (l : List (ℕ × Bool)) → leaked (drop_handle o l) ≡ leaked l + has_key o
leaked-drop_handle none l = omega arith
leaked-drop_handle (some h) l = omega (arith, leaked-append l ((h, false) ∷ []))
