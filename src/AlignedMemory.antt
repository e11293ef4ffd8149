-- ===== src/AlignedMemory.antt =====
-- Aligned memory and series of aligned blocks (shoc/aligned_memory.hpp).
pub mod Blocks
mod Tests
use shoc.Base.{
  ℕ, zero, suc, ◌+◌, ◌-◌, ◌*◌, ◌/◌, ◌%◌, ◌^◌, ◌&&◌, leb, List, [], ◌∷◌, ◌++◌, ltb, ◌==◌,
  if◌then◌else◌, length, take, drop, set,
}
use shoc.Error.{Outcome, ok, undefined}

-- `memory_` by the address and the size of its vector, `aligned_` by its address and its size. The
-- bytes are those of `aligned_` that lie within the vector.
pub record AlignedMemory : Type 0 where
  pub base_ptr : ℕ
  pub space : ℕ
  pub start : ℕ
  pub size : ℕ
  pub bytes : List ℕ

abbrev pub zeros : ℕ → List ℕ
zeros zero = []
zeros (suc n) = 0 ∷ zeros n

-- The next multiple of `alignment`, a power of two
abbrev pub align_up : ℕ → ℕ → ℕ
align_up alignment ptr = (ptr + (alignment - 1)) % 2 ^ 64 / alignment * alignment

-- `std::align`: the pointer stays as it is if the space does not hold the aligned object.
abbrev pub align : ℕ → ℕ → ℕ → ℕ → ℕ
align alignment size ptr space =
    if leb size space && leb (align_up alignment ptr - ptr) (space - size)
    then align_up alignment ptr
    else ptr

-- How many of `size` bytes there are where `left` remain.
abbrev pub held : ℕ → ℕ → ℕ
held size left = if leb size left then size else left

-- The vector is allocated at `base_ptr`.
unfoldable pub new : ℕ → ℕ → ℕ → AlignedMemory
new size alignment base_ptr =
    let space = (size + alignment) % 2 ^ 64 in
    let start = align alignment size base_ptr space in
    record {
      base_ptr = base_ptr;
      space = space;
      start = start;
      size = size;
      bytes = zeros (held size (base_ptr + space - start));
    }

-- The assertion fails if the data do not leave at least one byte of the span. A failed assertion is
-- undefined behaviour here, and so is a span that ends behind the vector, since it is filled to its end.
unfoldable pub assign : List ℕ → AlignedMemory → Outcome AlignedMemory
assign source m =
    if ltb (length source) m.size && m.size == length m.bytes
    then ok (record m { bytes = source ++ zeros (m.size - length source) })
    else undefined

pub record AlignedBlocks : Type 0 where
  pub memory : AlignedMemory
  pub block_count : ℕ
  pub block_size : ℕ

-- The assertion wants a block size that is a multiple of the alignment.
unfoldable pub new_blocks : ℕ → ℕ → ℕ → ℕ → Outcome AlignedBlocks
unfolding new
new_blocks block_count block_size alignment base_ptr =
    if block_size % alignment == 0
    then ok (record {
      memory = new (block_count * block_size % 2 ^ 64) alignment base_ptr;
      block_count = block_count;
      block_size = block_size;
    })
    else undefined

-- `block` and `writable_block`: the bytes, and the address that they stand at
abbrev pub block : ℕ → AlignedBlocks → List ℕ
block index b = take b.block_size (drop (index * b.block_size % 2 ^ 64) b.memory.bytes)

abbrev pub block_address : ℕ → AlignedBlocks → ℕ
block_address index b = b.memory.start + index * b.block_size % 2 ^ 64

-- An object without memory (`aligned_memory() = default`)
unfoldable pub empty_memory : AlignedMemory
empty_memory = record { base_ptr = 0; space = 0; start = 0; size = 0; bytes = [] }

unfoldable pub memory_at : ℕ → List AlignedMemory → AlignedMemory
unfolding empty_memory
memory_at i [] = empty_memory
memory_at zero (m ∷ l) = m
memory_at (suc i) (m ∷ l) = memory_at i l

-- `swap` of the objects at two places of a list: the vector keeps its storage, and the span goes
-- with it.
unfoldable pub swap : ℕ → ℕ → List AlignedMemory → List AlignedMemory
unfolding memory_at
swap i j l = set (set l i (memory_at j l)) j (memory_at i l)

-- `aligned_memory(aligned_memory &&)`: a new object at the end, swapped with the other.
unfoldable pub move_construct : ℕ → List AlignedMemory → List AlignedMemory
unfolding empty_memory memory_at
move_construct j l = set l j empty_memory ++ memory_at j l ∷ []

-- `operator=(aligned_memory &&)`: the other is moved to a temporary, which is swapped with this one
-- and destroyed.
unfoldable pub move_assign : ℕ → ℕ → List AlignedMemory → List AlignedMemory
unfolding empty_memory memory_at
move_assign i j l = set (set l j empty_memory) i (memory_at j l)
