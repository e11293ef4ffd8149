-- ===== src/EthFrame/Checksum.antt =====
-- The internet checksum in 32-bit arithmetic, as the checksum functions of shoc/eth_frame.hpp and
-- shoc/eth_frame.cpp share it.
pub use shoc.Base.{take, drop}
use Prim.Native.Nat.{bit_and}
use shoc.Base.{
  ℕ, zero, suc, ◌+◌, ◌-◌, ◌*◌, ◌/◌, ◌%◌, ◌^◌, ◌≤◌, ◌<◌, ◌≡◌, refl, List, [], ◌∷◌, arith, length,
  All,
}
use shoc.Base.Bits.{low_mask}

-- The loop over the words, on an uint32_t
abbrev pub add_words : ℕ → List ℕ → ℕ
add_words word_sum [] = word_sum
add_words word_sum (w ∷ rest) = add_words ((word_sum + w) % 2 ^ 32) rest

-- `(word_sum & 0xffff) + (word_sum >> 16)`
abbrev pub fold_carry : ℕ → ℕ
fold_carry word_sum = bit_and word_sum 0xffff + word_sum / 2 ^ 16

-- `~word_sum & 0xffff`
abbrev pub complement : ℕ → ℕ
complement word_sum = bit_and (2 ^ 32 - 1 - word_sum) 0xffff

abbrev pub sum : List ℕ → ℕ
sum [] = 0
sum (w ∷ l) = w + sum l

abbrev pub IsWord : ℕ → Type 0
IsWord w = w < 2 ^ 16

pub sum_bound : (l : List ℕ) → All IsWord l → sum l ≤ length l * 65535
sum_bound [] h = omega arith
sum_bound (w ∷ l) h = omega (arith, sum_bound l h.1, h.0)

pub add_words-sum : (s : ℕ) (l : List ℕ) → s < 2 ^ 32 → add_words s l ≡ (s + sum l) % 2 ^ 32
add_words-sum s [] h = omega arith
add_words-sum s (w ∷ l) h = omega (arith, add_words-sum ((s + w) % 2 ^ 32) l (omega arith))

-- The fold keeps the sum in ones' complement arithmetic.
pub fold_carry_twice :
    (s : ℕ)
    → s < 2 ^ 32
    → (fold_carry (fold_carry s) < 2 ^ 16) × (fold_carry (fold_carry s) % 65535 ≡ s % 65535)
fold_carry_twice s h =
    let once = low_mask 16 s 0xffff refl in
    omega (arith, once, low_mask 16 (fold_carry s) 0xffff refl)

pub complement_word : (s : ℕ) → s < 2 ^ 16 → complement s ≡ 65535 - s
complement_word s h = omega (arith, low_mask 16 (2 ^ 32 - 1 - s) 0xffff refl)

-- The words that a longer range covers are those of a shorter one and those behind it.
pub sum-take :
    (m n : ℕ) (l : List ℕ) → m ≤ n → sum (take n l) ≡ sum (take m l) + sum (drop m (take n l))
sum-take zero n l h = omega arith
sum-take (suc m) zero l h = absurd (omega arith)
sum-take (suc m) (suc n) [] h = omega arith
sum-take (suc m) (suc n) (w ∷ l) h = omega (arith, sum-take m n l (omega arith))

pub sum-take_bound : (n : ℕ) (l : List ℕ) → All IsWord l → sum (take n l) ≤ n * 65535
sum-take_bound zero l h = omega arith
sum-take_bound (suc n) [] h = omega arith
sum-take_bound (suc n) (w ∷ l) h = omega (arith, sum-take_bound n l h.1, h.0)
