-- ===== src/AccepterQueues/Fifo/Lists.antt =====
-- Parts of lists, and the addresses of consecutive accepts.
use shoc.Base.{
  ℕ, zero, suc, ◌+◌, ◌-◌, ◌≤◌, ◌<◌, ◌≡◌, refl, ap, none, some, List, [], ◌∷◌, ◌++◌, arith, ◌==◌,
  if◌then◌else◌, length, get_elem?, drop,
}

-- The addresses from `m` on, `n` of them.
abbrev pub range_from : ℕ → ℕ → List ℕ
range_from m zero = []
range_from m (suc n) = m ∷ range_from (suc m) n

module _ {ℓ} {P : Type ℓ} where
  pub drop-nil : (n : ℕ) (xs : List P) → drop n xs ≡ [] → length xs ≤ n
  drop-nil zero [] e = omega arith
  drop-nil zero (x ∷ xs) e = cc
  drop-nil (suc n) [] e = omega arith
  drop-nil (suc n) (x ∷ xs) e = omega (arith, drop-nil n xs e)

  pub drop_all : (n : ℕ) (xs : List P) → length xs ≤ n → drop n xs ≡ []
  drop_all zero [] h = refl
  drop_all zero (x ∷ xs) h = absurd (omega arith)
  drop_all (suc n) [] h = refl
  drop_all (suc n) (x ∷ xs) h = drop_all n xs (omega arith)

  pub get_all : (n : ℕ) (xs : List P) → length xs ≤ n → get_elem? xs n ≡ none
  get_all zero [] h = refl
  get_all zero (x ∷ xs) h = absurd (omega arith)
  get_all (suc n) [] h = refl
  get_all (suc n) (x ∷ xs) h = get_all n xs (omega arith)

  pub drop-cons :
      (n : ℕ) (xs : List P) (y : P) (ys : List P)
      → drop n xs ≡ y ∷ ys
      → (get_elem? xs n ≡ some y) × (drop (suc n) xs ≡ ys) × (n < length xs)
  drop-cons zero [] y ys e = cc
  drop-cons zero (x ∷ xs) y ys e = (ground arith, ground arith, omega arith)
  drop-cons (suc n) [] y ys e = cc
  drop-cons (suc n) (x ∷ xs) y ys e = let (a, b, c) = drop-cons n xs y ys e in (a, b, omega arith)

  pub get-snoc :
      (k : ℕ) (xs : List P) (p : P)
      → get_elem? (xs ++ p ∷ []) k ≡ (if k == length xs then some p else get_elem? xs k)
  get-snoc zero [] p = refl
  get-snoc zero (x ∷ xs) p = ground arith
  get-snoc (suc k) [] p = ground arith
  get-snoc (suc k) (x ∷ xs) p = ground (arith, get-snoc k xs p)

  pub drop-snoc :
      (n : ℕ) (xs : List P) (p : P) → n ≤ length xs → drop n (xs ++ p ∷ []) ≡ drop n xs ++ p ∷ []
  drop-snoc zero xs p h = refl
  drop-snoc (suc n) [] p h = absurd (omega arith)
  drop-snoc (suc n) (x ∷ xs) p h = drop-snoc n xs p (omega arith)

pub range-nil : (m n : ℕ) → range_from m n ≡ [] → n ≡ 0
range-nil m zero e = refl
range-nil m (suc n) e = cc

pub range-cons :
    (m n a : ℕ) (rest : List ℕ)
    → range_from m n ≡ a ∷ rest
    → (a ≡ m) × (rest ≡ range_from (suc m) (n - 1)) × (0 < n)
range-cons m zero a rest e = cc
range-cons m (suc n) a rest e =
    let h : suc n - 1 ≡ n = omega arith in (ground arith, rw h (ground arith), omega arith)

pub range-snoc : (m n : ℕ) → range_from m (suc n) ≡ range_from m n ++ (m + n) ∷ []
range-snoc m zero = ground arith
range-snoc m (suc n) =
    let h : m + suc n ≡ suc m + n = omega arith in
    rw h (ap (λ (t : List ℕ). m ∷ t) (range-snoc (suc m) n))
