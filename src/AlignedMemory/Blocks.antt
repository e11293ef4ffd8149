-- ===== src/AlignedMemory/Blocks.antt =====
-- Where the blocks lie, and that they are the memory cut into pieces.
use shoc.Base.{
  ℕ, zero, suc, ◌+◌, ◌-◌, ◌*◌, ◌/◌, ◌%◌, ◌^◌, ◌<◌, ◌≤◌, ◌≡◌, refl, sym, ap, ◌∙◌, arith, List, [],
  ◌∷◌, ◌++◌, length, take, drop, length-append,
}
use shoc.Error.{ok}
use shoc.AlignedMemory.{
  AlignedMemory, zeros, align_up, align, held, new, assign, AlignedBlocks, new_blocks, block,
}

-- The blocks from index i on, n of them, one after the other
abbrev pub blocks_from : ℕ → ℕ → AlignedBlocks → List ℕ
blocks_from i zero b = []
blocks_from i (suc n) b = block i b ++ blocks_from (suc i) n b

length-zeros : (n : ℕ) → length (zeros n) ≡ n
length-zeros zero = refl
length-zeros (suc n) = omega (arith, length-zeros n)

take-drop : (k : ℕ) (l : List ℕ) → take k l ++ drop k l ≡ l
take-drop zero l = refl
take-drop (suc k) [] = refl
take-drop (suc k) (x ∷ l) = ap (λ r. x ∷ r) (take-drop k l)

drop-nil : (k : ℕ) → drop {A = ℕ} k [] ≡ []
drop-nil zero = refl
drop-nil (suc k) = refl

drop-drop : (i j : ℕ) (l : List ℕ) → drop i (drop j l) ≡ drop (j + i) l
drop-drop i zero l = ap (λ k. drop k l) (omega arith)
drop-drop i (suc j) [] = drop-nil i ∙ sym (drop-nil (suc j + i))
drop-drop i (suc j) (x ∷ l) =
    let e : suc j + i ≡ suc (j + i) = omega arith in rw e (drop-drop i j l)

drop_all : (k : ℕ) (l : List ℕ) → length l ≤ k → drop k l ≡ []
drop_all k [] h = drop-nil k
drop_all zero (x ∷ l) h = absurd (omega arith)
drop_all (suc k) (x ∷ l) h = drop_all k l (omega arith)

blocks_from-drop :
    (n i : ℕ) (b : AlignedBlocks)
    → length b.memory.bytes ≤ (i + n) * b.block_size
    → (i + n) * b.block_size < 2 ^ 64
    → blocks_from i n b ≡ drop (i * b.block_size) b.memory.bytes
blocks_from-drop zero i b h w = sym (drop_all (i * b.block_size) b.memory.bytes (grind arith))
blocks_from-drop (suc n) i b h w =
    let next : i * b.block_size + b.block_size ≡ suc i * b.block_size = grind arith in
    let more : (suc i + n) * b.block_size ≡ (i + suc n) * b.block_size = grind arith in
    let before : i * b.block_size ≤ (i + suc n) * b.block_size = grind arith in
    let in_range : i * b.block_size % 2 ^ 64 ≡ i * b.block_size = omega (arith, before, w) in
    let whole = drop (i * b.block_size) b.memory.bytes in
    ap (λ k. take b.block_size (drop k b.memory.bytes) ++ blocks_from (suc i) n b) in_range
    ∙ ap (λ r. take b.block_size whole ++ r)
        (blocks_from-drop n (suc i) b (omega (arith, more, h)) (omega (arith, more, w))
          ∙ sym (
              drop-drop b.block_size (i * b.block_size) b.memory.bytes
              ∙ ap (λ k. drop k b.memory.bytes) next))
    ∙ take-drop b.block_size whole

-- The next multiple of `a`, on unbounded numbers
abbrev rounded : ℕ → ℕ → ℕ
rounded a x = (x + (a - 1)) / a * a

round_up : (a x : ℕ) → 0 < a → (x ≤ rounded a x) × (rounded a x < x + a)
round_up a x p =
    let y = x + (a - 1) in
    let e : y ≡ y / a * a + y % a = grind arith in
    let l : y % a < a = grind arith in omega (arith, e, l)

-- The span lies within its vector.
record Placed (size alignment base_ptr : ℕ) (m : AlignedMemory) : Type 0 where
  whole : m.space ≡ size + alignment
  moved_up : m.start ≡ rounded alignment base_ptr
  holds : m.bytes ≡ zeros size

align-rounded :
    (a size x : ℕ) → 0 < a → x + size + a < 2 ^ 64 → align a size x (size + a) ≡ rounded a x
align-rounded a size x p w =
    let same : (x + (a - 1)) % 2 ^ 64 ≡ x + (a - 1) = omega arith in
    let up : align_up a x ≡ rounded a x = ap (λ k. k / a * a) same in
    ground (arith, up, round_up a x p)

new-Placed :
    (size alignment base_ptr : ℕ)
    → 0 < alignment
    → base_ptr + size + alignment < 2 ^ 64
    → Placed size alignment base_ptr (new size alignment base_ptr)
unfolding new
new-Placed size alignment base_ptr p w =
    let whole : (size + alignment) % 2 ^ 64 ≡ size + alignment = omega arith in
    let moved_up = align-rounded alignment size base_ptr p w in
    let start : align alignment size base_ptr ((size + alignment) % 2 ^ 64)
        ≡ rounded alignment base_ptr =
      ap (align alignment size base_ptr) whole ∙ moved_up in
    let all : held size (
          base_ptr
          + (size + alignment) % 2 ^ 64
          - align alignment size base_ptr ((size + alignment) % 2 ^ 64))
        ≡ size =
      ground (arith, whole, start, round_up alignment base_ptr p) in
    record { whole = whole; moved_up = start; holds = ap zeros all }

-- What is assigned to new blocks, if it leaves at least one byte free, is cut into them in order, and
-- filled up with zeros. The block size is a multiple of the alignment, and the end of the vector is an
-- address.
pub assign-blocks :
    (count size alignment base_ptr : ℕ) (source : List ℕ)
    → 0 < alignment
    → size % alignment ≡ 0
    → base_ptr + count * size + alignment < 2 ^ 64
    → length source < count * size
    → (b : AlignedBlocks) × (new_blocks count size alignment base_ptr ≡ ok b)
      × (m : AlignedMemory) × (assign source b.memory ≡ ok m)
      × (blocks_from 0 count (record b { memory = m })
          ≡ source ++ zeros (count * size - length source))
unfolding assign new_blocks new
assign-blocks count size alignment base_ptr source p a w h =
    let b : AlignedBlocks = record {
      memory = new (count * size % 2 ^ 64) alignment base_ptr;
      block_count = count;
      block_size = size;
    } in
    let total : count * size % 2 ^ 64 ≡ count * size = omega (arith, w) in
    let placed =
      new-Placed (count * size % 2 ^ 64) alignment base_ptr p (omega (arith, total, w)) in
    let bytes = source ++ zeros (count * size % 2 ^ 64 - length source) in
    let m : AlignedMemory = record b.memory { bytes = bytes } in
    let at_start : 0 * size ≡ 0 = omega arith in
    let full : length bytes ≡ count * size = omega (
      arith,
      length-append source (zeros (count * size % 2 ^ 64 - length source)),
      length-zeros (count * size % 2 ^ 64 - length source),
      total,
      h,
    ) in
    let held_all : length b.memory.bytes ≡ count * size % 2 ^ 64 =
      ap length placed.holds ∙ length-zeros (count * size % 2 ^ 64) in
    (
      b,
      rw a refl,
      m,
      ground (arith, held_all, total, h),
      blocks_from-drop count 0 (record b { memory = m }) (omega (arith, full)) (omega (arith, w))
          ∙ ap (λ k. drop k bytes) at_start
          ∙ ap (λ t. source ++ zeros (t - length source)) total,
    )
