-- ===== src/AlignedMemory/Tests.antt =====
-- Runs of aligned memory, and an allocation that is aligned only after it was moved up.
use shoc.Base.{ℕ, ◌+◌, ◌-◌, ◌*◌, ◌^◌, ◌≡◌, refl, arith, List, [], ◌∷◌, ◌++◌, length, map}
use shoc.Error.{ok, undefined}
use shoc.AlignedMemory.{
  AlignedMemory, empty_memory, memory_at, swap, move_assign, AlignedBlocks, zeros, new, assign,
  new_blocks, block_address,
}
use shoc.AlignedMemory.Blocks.{blocks_from, assign-blocks}

second_block_address :
    block_address 1 (record { memory = new 128 64 4100; block_count = 2; block_size = 64 }) ≡ 4224
unfolding new
second_block_address = refl

-- Three bytes do not fit a memory of three bytes, by the assertion.
no_exact_fit : assign (1 ∷ 2 ∷ 3 ∷ []) (new 3 1 4096) ≡ undefined
unfolding assign new
no_exact_fit = refl

-- The size wraps around: the vector has 128 bytes, and the span those of one block, whatever the count.
wrapped_blocks :
    (b : AlignedBlocks) × (new_blocks (2 ^ 58 + 1) 64 64 4096 ≡ ok b)
    × (b.memory.space ≡ 128)
    × (length b.memory.bytes ≡ 64)
unfolding new_blocks new
wrapped_blocks = (_, refl, refl, refl)

abbrev three_bytes : List ℕ
three_bytes = 7 ∷ 8 ∷ 9 ∷ []

assign-blocks_example :
    (b : AlignedBlocks) × (new_blocks 2 2 2 4096 ≡ ok b)
    × (m : AlignedMemory) × (assign three_bytes b.memory ≡ ok m)
    × (blocks_from 0 2 (record b { memory = m })
        ≡ three_bytes ++ zeros (2 * 2 - length three_bytes))
assign-blocks_example =
    assign-blocks 2 2 2 4096 three_bytes (omega arith) refl (omega arith) (omega arith)

abbrev two_memories : List AlignedMemory
two_memories = new 2 1 4096 ∷ new 3 1 8192 ∷ []

-- The target takes over the other's bytes, and a move to itself keeps them.
moved_bytes : map (λ m. length m.bytes) (move_assign 0 1 two_memories) ≡ 3 ∷ 0 ∷ []
unfolding move_assign empty_memory memory_at new
moved_bytes = refl

self_move_keeps : move_assign 1 1 two_memories ≡ two_memories
unfolding move_assign empty_memory memory_at new
self_move_keeps = refl

swapped_back : swap 0 1 (swap 0 1 two_memories) ≡ two_memories
unfolding swap memory_at new
swapped_back = refl
