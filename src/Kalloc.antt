-- ===== src/Kalloc.antt =====
-- kernel/mm/kalloc.c: the eternal heap, a bump allocator that never frees.
pub mod Bounds
pub mod Align
mod Tests
use sysrv.Prelude.{ℕ, Outcome, done, panic, ltb, if◌then◌else◌, bit_and}
use sysrv.Word.{add64, sub64}

-- `curr_kalloc_eternal_address`, and the linker's `__kalloc_eternal_end`.
pub record Kalloc : Type 0 where
  pub curr_kalloc_eternal_address : ℕ
  pub kalloc_eternal_end : ℕ

-- `srv_kalloc_EternalAlloc`: the address of the block and the state after it.
unfoldable pub eternal_alloc : Kalloc → ℕ → Outcome (ℕ × Kalloc)
eternal_alloc k size =
    if ltb (add64 k.curr_kalloc_eternal_address size) k.kalloc_eternal_end
    then done (
      k.curr_kalloc_eternal_address,
      record k { curr_kalloc_eternal_address = add64 k.curr_kalloc_eternal_address size },
    )
    else panic "Eternal Heap Exhausted!"

-- The first statement of `srv_kalloc_EternalAllocAligned`.
unfoldable pub align_current : Kalloc → ℕ → Kalloc
align_current k alignment = record k {
  curr_kalloc_eternal_address =
      add64 k.curr_kalloc_eternal_address
        (bit_and k.curr_kalloc_eternal_address (sub64 alignment 1));
}

-- `srv_kalloc_EternalAllocAligned`
unfoldable pub eternal_alloc_aligned : Kalloc → ℕ → ℕ → Outcome (ℕ × Kalloc)
eternal_alloc_aligned k size alignment = eternal_alloc (align_current k alignment) size
