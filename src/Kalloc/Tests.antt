-- ===== src/Kalloc/Tests.antt =====
-- The eternal heap at concrete states (kernel/mm/kalloc.c).
use sysrv.Prelude.{◌*◌, ◌-◌, ◌%◌, ◌<◌, ◌^◌, ◌≡◌, ◌⊎◌, ◌↔◌, refl, [], ◌∷◌, done, panic, arith}
use sysrv.Kalloc.{Kalloc, eternal_alloc, eternal_alloc_aligned, align_current}
use sysrv.Kalloc.Bounds.{alloc_all, Laid, alloc_all-Laid, eternal_alloc_wraps}
use sysrv.Kalloc.Align.{eternal_alloc_aligned_iff}

abbrev heap : Kalloc
heap = record { curr_kalloc_eternal_address = 0x1002; kalloc_eternal_end = 0x1020 }

two_blocks_then_panic :
    (alloc_all heap (8 ∷ 4 ∷ [])
      ≡ done (
        record { address = 0x1002; size = 8 } ∷ record { address = 0x100a; size = 4 } ∷ [],
        record heap { curr_kalloc_eternal_address = 0x100e },
      ))
    × (alloc_all heap (8 ∷ 22 ∷ []) ≡ panic "Eternal Heap Exhausted!")
unfolding alloc_all eternal_alloc
two_blocks_then_panic = (refl, refl)

alloc_all-Laid_example : Laid heap (alloc_all heap (8 ∷ 4 ∷ []))
alloc_all-Laid_example = alloc_all-Laid heap (8 ∷ 4 ∷ []) (omega arith)

eternal_alloc_wraps_example :
    (k' : Kalloc) × (eternal_alloc heap (2 ^ 64 - 2) ≡ done (0x1002, k'))
    × (k'.curr_kalloc_eternal_address < 0x1002)
eternal_alloc_wraps_example =
    eternal_alloc_wraps heap (2 ^ 64 - 2) (omega arith) (omega arith) (omega arith) (omega arith)

misaligned :
    eternal_alloc_aligned heap 4 (2 ^ 3)
    ≡ done (0x1004, record heap { curr_kalloc_eternal_address = 0x1008 })
unfolding eternal_alloc_aligned eternal_alloc align_current
misaligned = refl

eternal_alloc_aligned_iff_example :
    (0x1004 % 2 ^ 3 ≡ 0) ↔ ((0x1002 % 2 ^ 3 ≡ 0) ⊎ (2 * (0x1002 % 2 ^ 3) ≡ 2 ^ 3))
eternal_alloc_aligned_iff_example =
    eternal_alloc_aligned_iff heap 4 3 0x1004 (record heap { curr_kalloc_eternal_address = 0x1008 })
      (omega arith) (omega arith) misaligned
