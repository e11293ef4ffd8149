-- ===== src/Device/Finding.antt =====
-- Which device a search finds (`device::find` in shoc/device.hpp).
use mathlib.Core.Path.{subst}
use shoc.Base.{
  ℕ, zero, suc, ◌<◌, ◌≡◌, refl, ◌⊎◌, inl, inr, true, false, ◌&&◌, Option, some, List, [], ◌∷◌,
  arith, get_elem?, Bool-cases,
}
use shoc.Doca.{is_success, not_found}
use shoc.Error.{throws, doca_exception}
use shoc.Device.{DevInfo, Condition, matches_all, devinfo_matches, device_of_handle, find}

-- The device satisfies every condition.
abbrev pub Satisfies : DevInfo → List Condition → Type 0
Satisfies dev [] = Unit
Satisfies dev (c ∷ cs) = (devinfo_matches dev c ≡ true) × Satisfies dev cs

-- The device fails a condition, or DOCA does not open it.
abbrev pub IsPassed : List Condition → DevInfo → Type 0
IsPassed cs dev = ¬ (Satisfies dev cs × (is_success dev.dev_open.0 ≡ true))

-- The first device that satisfies all conditions and that DOCA opens is number `k`.
pub record FoundAt (cs : List Condition) (devs : List DevInfo) (k : ℕ) (dev : DevInfo)
    : Type 0 where
  pub is_there : get_elem? devs k ≡ some dev
  pub satisfies : Satisfies dev cs
  pub opens : is_success dev.dev_open.0 ≡ true
  pub first : (j : ℕ) (d : DevInfo) → j < k → get_elem? devs j ≡ some d → IsPassed cs d
  pub returned : find cs devs ≡ device_of_handle dev.dev_open.1

pub record NotFound (cs : List Condition) (devs : List DevInfo) : Type 0 where
  pub none_there : (j : ℕ) (d : DevInfo) → get_elem? devs j ≡ some d → IsPassed cs d
  pub thrown : find cs devs ≡ throws (doca_exception not_found)

matches_all-Satisfies :
    (dev : DevInfo) (cs : List Condition)
    → ((matches_all dev cs ≡ true) × Satisfies dev cs)
      ⊎ ((matches_all dev cs ≡ false) × ¬ (Satisfies dev cs))
unfolding matches_all
matches_all-Satisfies dev [] = inl (refl, tt)
matches_all-Satisfies dev (c ∷ cs) = elim (Bool-cases (devinfo_matches dev c)) [
  | inr e ↦ inr (rw e refl, λ s. ground (arith, e, s.0))
  | inl e ↦ elim (matches_all-Satisfies dev cs) [
    | inl (m, s) ↦ inl (rw e m, (e, s))
    | inr (m, s) ↦ inr (rw e m, λ t. s t.1)
  ]
]

opens-both :
    (dev : DevInfo) (cs : List Condition)
    → ((matches_all dev cs && is_success dev.dev_open.0) ≡ true
        × Satisfies dev cs
        × (is_success dev.dev_open.0 ≡ true))
      ⊎ (((matches_all dev cs && is_success dev.dev_open.0) ≡ false) × IsPassed cs dev)
opens-both dev cs = elim (matches_all-Satisfies dev cs) [
  | inr (m, s) ↦ inr (rw m refl, λ t. s t.0)
  | inl (m, s) ↦ elim (Bool-cases (is_success dev.dev_open.0)) [
    | inl o ↦ inl (rw (m, o) refl, s, o)
    | inr o ↦ inr (rw (m, o) refl, λ t. ground (arith, o, t.1))
  ]
]

same_device : (dev d : DevInfo) → ◌≡◌ {A = Option DevInfo} (some dev) (some d) → dev ≡ d
same_device dev d e = cc

rejected_before :
    (cs : List Condition) (dev : DevInfo) (devs : List DevInfo) (k : ℕ)
    → IsPassed cs dev
    → ((j : ℕ) (d : DevInfo) → j < k → get_elem? devs j ≡ some d → IsPassed cs d)
    → (j : ℕ) (d : DevInfo) → j < suc k
    → get_elem? (dev ∷ devs) j ≡ some d
    → IsPassed cs d
rejected_before cs dev devs k p h zero d l e =
    subst (λ (x : DevInfo). IsPassed cs x) (same_device dev d e) p
rejected_before cs dev devs k p h (suc j) d l e = h j d (omega arith) e

rejected_all :
    (cs : List Condition) (dev : DevInfo) (devs : List DevInfo)
    → IsPassed cs dev
    → ((j : ℕ) (d : DevInfo) → get_elem? devs j ≡ some d → IsPassed cs d)
    → (j : ℕ) (d : DevInfo) → get_elem? (dev ∷ devs) j ≡ some d
    → IsPassed cs d
rejected_all cs dev devs p h zero d e =
    subst (λ (x : DevInfo). IsPassed cs x) (same_device dev d e) p
rejected_all cs dev devs p h (suc j) d e = h j d e

-- A search returns the first device in DOCA's list that satisfies all conditions and that DOCA opens:
-- those before it fail a condition or are not opened. If there is no such device, or if DOCA's handle
-- for the first one is null, it throws `DOCA_ERROR_NOT_FOUND`.
pub find_lem :
    (cs : List Condition) (devs : List DevInfo)
    → ((k : ℕ) × (dev : DevInfo) × FoundAt cs devs k dev) ⊎ NotFound cs devs
unfolding find
find_lem cs [] = inr (record { none_there = λ j d e. cc; thrown = refl })
find_lem cs (dev ∷ devs) = elim (opens-both dev cs) [
  | inl (b, s, o) ↦ inl (
    0,
    dev,
    record {
      is_there = refl;
      satisfies = s;
      opens = o;
      first = λ j d l. absurd (omega arith);
      returned = rw b refl;
    },
  )
  | inr (b, p) ↦ elim (find_lem cs devs) [
    | inl (k, d, f) ↦ inl (
      suc k,
      d,
      record {
        is_there = f.is_there;
        satisfies = f.satisfies;
        opens = f.opens;
        first = rejected_before cs dev devs k p f.first;
        returned = rw b f.returned;
      },
    )
    | inr f ↦
        inr
          (record { none_there = rejected_all cs dev devs p f.none_there; thrown = rw b f.thrown })
  ]
]
