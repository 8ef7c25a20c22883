-- ===== src/View/Blocks.antt =====
-- redshow/include/analysis/torch_view.h: the memory blocks of the PyTorch allocator.
use ten_prof.Prelude.{
  ℕ, ◌+◌, ◌%◌, ◌≡◌, ap, u64_mod, Bool, false, ◌&&◌, List, [], ◌∷◌, ◌++◌, ltb, leb, ◌==◌,
  if◌then◌else◌, All, arith,
}

pub record MemoryBlock : Type 0 where
  pub block_id : ℕ
  pub device_type : ℕ
  pub ptr : ℕ
  pub size : ℕ
  pub total_allocated : ℕ
  pub total_reserved : ℕ

unfoldable pub register_memory_block : MemoryBlock → List MemoryBlock → List MemoryBlock
register_memory_block block blocks = blocks ++ block ∷ []

-- The first block at `ptr` is deleted.
unfoldable pub unregister_memory_block : ℕ → List MemoryBlock → List MemoryBlock
unregister_memory_block ptr [] = []
unregister_memory_block ptr (block ∷ blocks) =
    let rest = unregister_memory_block ptr blocks in
    if block.ptr == ptr then blocks else block ∷ rest

-- `mem_addr_hit >= block->ptr && mem_addr_hit < (block->ptr + block->size)`.
unfoldable pub is_hit : ℕ → MemoryBlock → Bool
is_hit mem_addr_hit block =
    leb block.ptr mem_addr_hit && ltb mem_addr_hit ((block.ptr + block.size) % u64_mod)

unfoldable pub get_mem_block_by_mem_addr : ℕ → List MemoryBlock → List MemoryBlock
unfolding is_hit
get_mem_block_by_mem_addr mem_addr_hit [] = []
get_mem_block_by_mem_addr mem_addr_hit (block ∷ blocks) =
    let rest = get_mem_block_by_mem_addr mem_addr_hit blocks in
    if is_hit mem_addr_hit block then block ∷ rest else rest

-- Freeing a block takes back its registration, if no other block is at its address.
pub unregister_memory_block-register_memory_block :
    (block : MemoryBlock) (blocks : List MemoryBlock)
    → All (λ b. (b.ptr == block.ptr) ≡ false) blocks
    → unregister_memory_block block.ptr (register_memory_block block blocks) ≡ blocks
unfolding unregister_memory_block register_memory_block
unregister_memory_block-register_memory_block block [] new = ground arith
unregister_memory_block-register_memory_block block (b ∷ blocks) new = rw (new.0) (
    ap (λ (l : List MemoryBlock). b ∷ l)
      (unregister_memory_block-register_memory_block block blocks new.1))
