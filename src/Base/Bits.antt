-- ===== src/Base/Bits.antt =====
-- `&` and `|` on numbers that are split into a high and a low part: the part below bit k of the
-- result comes from the low parts, the rest from the high parts.
use Prim.Native.Nat.{
  ℕ, zero, suc, ◌+◌, ◌*◌, ◌/◌, ◌%◌, ◌^◌, ◌≤◌, ◌<◌, min, max, bit_and, bit_or, digits, bitwise,
  bit_and-bitwise, bit_or-bitwise,
}
use mathlib.Core.Path.{◌≡◌, refl, sym, ap, ◌∙◌}
use native.Mathlib.Nat.{pow-suc, one-le-pow}
use native.Mathlib.Omega.{arith}

-- What the native operations stand for runs on fuel, of which any amount not below a is enough.
module _ (z : ℕ → ℕ) (f : ℕ → ℕ → ℕ) where
  digits_of_zero : (n b : ℕ) → digits z f n 0 b ≡ z b
  digits_of_zero zero b = refl
  digits_of_zero (suc n) b = refl

  enough_fuel : (n m a b : ℕ) → a ≤ n → a ≤ m → digits z f n a b ≡ digits z f m a b
  enough_fuel n m zero b h g = digits_of_zero n b ∙ sym (digits_of_zero m b)
  enough_fuel zero m (suc a) b h g = absurd (omega arith)
  enough_fuel (suc n) zero (suc a) b h g = absurd (omega arith)
  enough_fuel (suc n) (suc m) (suc a) b h g =
      ap (λ t. t * 2 + f (suc a % 2) (b % 2))
        (enough_fuel n m (suc a / 2) (b / 2) (omega arith) (omega arith))

  bitwise_digit :
      (a b : ℕ)
      → bitwise z f (suc a) b ≡ bitwise z f (suc a / 2) (b / 2) * 2 + f (suc a % 2) (b % 2)
  bitwise_digit a b =
      ap (λ t. t * 2 + f (suc a % 2) (b % 2))
        (enough_fuel a (suc a / 2) (suc a / 2) (b / 2) (omega arith) (omega arith))

bit_or_digit : (a b : ℕ) → bit_or a b ≡ bit_or (a / 2) (b / 2) * 2 + max (a % 2) (b % 2)
bit_or_digit zero b = simp bit_or-bitwise (omega arith)
bit_or_digit (suc a) b = simp bit_or-bitwise (bitwise_digit (λ y. y) max a b)

bit_and_digit : (a b : ℕ) → bit_and a b ≡ bit_and (a / 2) (b / 2) * 2 + min (a % 2) (b % 2)
bit_and_digit zero b = simp bit_and-bitwise (omega arith)
bit_and_digit (suc a) b = simp bit_and-bitwise (bitwise_digit (λ y. 0) min a b)

twice : (q r k : ℕ) → q * 2 ^ suc k + r ≡ 2 * (q * 2 ^ k) + r
twice q r k = omega (arith, ap (λ (t : ℕ). q * t) (pow-suc 2 k))

module _ (op f : ℕ → ℕ → ℕ)
    (digit : (a b : ℕ) → op a b ≡ op (a / 2) (b / 2) * 2 + f (a % 2) (b % 2))
    (at_zero : op 0 0 ≡ 0) where
  split :
      (k q r h l : ℕ)
      → r < 2 ^ k
      → l < 2 ^ k
      → op (q * 2 ^ k + r) (h * 2 ^ k + l) ≡ op q h * 2 ^ k + op r l
  split zero q r h l p s =
      let r0 : q * 2 ^ 0 + r ≡ q = omega arith in
      let l0 : h * 2 ^ 0 + l ≡ h = omega arith in
      let none : op r l ≡ 0 =
        ap (λ (x : ℕ). op x l) (omega arith) ∙ ap (λ (y : ℕ). op 0 y) (omega arith) ∙ at_zero in
      rw (r0, l0) (omega (arith, none))
  split (suc k) q r h l p s =
      let x = q * 2 ^ k in
      let y = h * 2 ^ k in
      let a : q * 2 ^ suc k + r ≡ 2 * x + r = twice q r k in
      let b : h * 2 ^ suc k + l ≡ 2 * y + l = twice h l k in
      let a_half : (2 * x + r) / 2 ≡ x + r / 2 = omega arith in
      let b_half : (2 * y + l) / 2 ≡ y + l / 2 = omega arith in
      let a_low : (2 * x + r) % 2 ≡ r % 2 = omega arith in
      let b_low : (2 * y + l) % 2 ≡ l % 2 = omega arith in
      let rest =
        split k q (r / 2) h (l / 2) (omega (arith, pow-suc 2 k)) (omega (arith, pow-suc 2 k)) in
      rw (a, b)
        (digit (2 * x + r) (2 * y + l)
          ∙ rw (a_half, b_half, a_low, b_low) (omega (arith, rest, digit r l, twice (op q h) 0 k)))

pub zero-bit_or : (b : ℕ) → bit_or 0 b ≡ b
zero-bit_or b = bit_or-bitwise 0 b

zero-bit_and : (b : ℕ) → bit_and 0 b ≡ 0
zero-bit_and b = bit_and-bitwise 0 b

bit_or-zero_below : (n a : ℕ) → a ≤ n → bit_or a 0 ≡ a
bit_or-zero_below n zero h = refl
bit_or-zero_below zero (suc a) h = absurd (omega arith)
bit_or-zero_below (suc n) (suc a) h =
    omega (arith, bit_or_digit (suc a) 0, bit_or-zero_below n (suc a / 2) (omega arith))

bit_and-zero_below : (n a : ℕ) → a ≤ n → bit_and a 0 ≡ 0
bit_and-zero_below n zero h = refl
bit_and-zero_below zero (suc a) h = absurd (omega arith)
bit_and-zero_below (suc n) (suc a) h =
    omega (arith, bit_and_digit (suc a) 0, bit_and-zero_below n (suc a / 2) (omega arith))

pub bit_or-zero : (a : ℕ) → bit_or a 0 ≡ a
bit_or-zero a = bit_or-zero_below a a (omega arith)

bit_and-zero : (a : ℕ) → bit_and a 0 ≡ 0
bit_and-zero a = bit_and-zero_below a a (omega arith)

pub split_or :
    (k q r h l : ℕ)
    → r < 2 ^ k
    → l < 2 ^ k
    → bit_or (q * 2 ^ k + r) (h * 2 ^ k + l) ≡ bit_or q h * 2 ^ k + bit_or r l
split_or = split bit_or max bit_or_digit (zero-bit_or 0)

-- Fields that do not overlap are added.
pub join : (k q r : ℕ) → r < 2 ^ k → bit_or (q * 2 ^ k) r ≡ q * 2 ^ k + r
join k q r h =
    let a : q * 2 ^ k ≡ q * 2 ^ k + 0 = omega arith in
    let b : r ≡ 0 * 2 ^ k + r = omega arith in
    ap (λ (x : ℕ). bit_or x r) a
    ∙ ap (λ (x : ℕ). bit_or (q * 2 ^ k + 0) x) b
    ∙ omega (
      arith,
      split_or k q 0 0 r (omega (arith, h)) h,
      ap (λ (x : ℕ). x * 2 ^ k) (bit_or-zero q),
      zero-bit_or r,
    )

pub split_and :
    (k a h l : ℕ)
    → l < 2 ^ k
    → bit_and a (h * 2 ^ k + l) ≡ bit_and (a / 2 ^ k) h * 2 ^ k + bit_and (a % 2 ^ k) l
split_and k a h l p =
    let e : a ≡ a / 2 ^ k * 2 ^ k + a % 2 ^ k = grind arith in
    ap (λ (x : ℕ). bit_and x (h * 2 ^ k + l)) e
    ∙ split bit_and min bit_and_digit (zero-bit_and 0) k (a / 2 ^ k) (a % 2 ^ k) h l (grind arith) p

-- A mask of ones keeps a number that fits it, and takes the remainder of any other.
all_ones : (k r m : ℕ) → m + 1 ≡ 2 ^ k → r < 2 ^ k → bit_and r m ≡ r
all_ones zero r m e h = omega (arith, ap (λ (x : ℕ). bit_and x m) r0, zero-bit_and m)
  where
    r0 : r ≡ 0
    r0 = omega arith
all_ones (suc k) r m e h = omega (
  arith,
  bit_and_digit r m,
  pow-suc 2 k,
  all_ones k (r / 2) (m / 2) (omega (arith, pow-suc 2 k)) (omega (arith, pow-suc 2 k)),
)

pub low_mask : (k a m : ℕ) → m + 1 ≡ 2 ^ k → bit_and a m ≡ a % 2 ^ k
low_mask k a m e =
    let b : m ≡ 0 * 2 ^ k + m = omega arith in
    ap (λ (x : ℕ). bit_and a x) b
    ∙ omega (
      arith,
      split_and k a 0 m (omega (arith, e)),
      ap (λ (x : ℕ). x * 2 ^ k) (bit_and-zero (a / 2 ^ k)),
      all_ones k (a % 2 ^ k) m e (grind arith),
    )

pub high_mask :
    (j k a h : ℕ) → h + 1 ≡ 2 ^ j → a / 2 ^ k < 2 ^ j → bit_and a (h * 2 ^ k) ≡ a / 2 ^ k * 2 ^ k
high_mask j k a h e f =
    let b : h * 2 ^ k ≡ h * 2 ^ k + 0 = omega arith in
    ap (λ (x : ℕ). bit_and a x) b
    ∙ omega (
      arith,
      split_and k a h 0 (omega (arith, one-le-pow k 2)),
      ap (λ (x : ℕ). x * 2 ^ k) (all_ones j (a / 2 ^ k) h e f),
      bit_and-zero (a % 2 ^ k),
    )
