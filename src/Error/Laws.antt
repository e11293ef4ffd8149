-- ===== src/Error/Laws.antt =====
-- When the checks of shoc/error.hpp throw, and what.
use shoc.Base.{ℕ, suc, ◌≡◌, ◌⊎◌, inl, inr, refl, true, false, List, [], ◌∷◌, arith}
use shoc.Doca.{DocaError, DocaError-discrete, success}
use shoc.Error.{
  ok, throws, doca_exception, same_error, count, enforce, enforce_success_as, enforce_success,
  enforce_success_among,
}

-- The code is one of those that are listed.
abbrev pub IsAmong : DocaError → List DocaError → Type 0
IsAmong e [] = ⊥
IsAmong e (x ∷ xs) = (x ≡ e) ⊎ IsAmong e xs

same_error-cases :
    (a b : DocaError) → ((a ≡ b) × (same_error a b ≡ true)) ⊎ (¬ (a ≡ b) × (same_error a b ≡ false))
unfolding DocaError-discrete
same_error-cases a b = ground arith

neither {ℓ κ} : {A : Type ℓ} {B : Type κ} → ¬ A → ¬ B → ¬ (A ⊎ B)
neither f g (inl a) = f a
neither f g (inr b) = g b

count-IsAmong :
    (e : DocaError) (l : List DocaError)
    → (IsAmong e l × ((n : ℕ) × (count e l ≡ suc n))) ⊎ (¬ (IsAmong e l) × (count e l ≡ 0))
unfolding count
count-IsAmong e [] = inr (λ x. x, refl)
count-IsAmong e (x ∷ xs) = elim (same_error-cases x e) [
  | inl (h, b) ↦ inl (inl h, (count e xs, rw b refl))
  | inr (h, b) ↦ elim (count-IsAmong e xs) [
    | inl (m, k) ↦ inl (inr m, (k.0, rw b k.1))
    | inr (m, k) ↦ inr (neither h m, rw b k)
  ]
]

-- A check against a list of codes returns when the code is listed, and throws the code as a
-- `doca_exception` when it is not.
pub enforce_success_among_lem :
    (e : DocaError) (l : List DocaError)
    → (IsAmong e l × (enforce_success_among e l ≡ ok tt))
      ⊎ (¬ (IsAmong e l) × (enforce_success_among e l ≡ throws (doca_exception e)))
unfolding enforce_success_among
enforce_success_among_lem e l = elim (count-IsAmong e l) [
  | inl (m, (n, h)) ↦ inl (m, rw (h, enforce_success_among) refl)
  | inr (m, h) ↦ inr (m, rw (h, enforce_success_among) refl)
]

-- A check of one code.
pub enforce_success-cases :
    (e : DocaError)
    → ((e ≡ success) × (enforce_success e ≡ ok tt))
      ⊎ (¬ (e ≡ success) × (enforce_success e ≡ throws (doca_exception e)))
unfolding enforce_success enforce_success_as enforce
enforce_success-cases e = elim (same_error-cases e success) [
  | inl (h, b) ↦ inl (h, rw b refl)
  | inr (h, b) ↦ inr (h, rw b refl)
]
