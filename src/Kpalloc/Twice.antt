-- ===== src/Kpalloc/Twice.antt =====
-- `srv_kpalloc_AllocPage` (kernel/mm/phys/kpalloc.c) where an entry behind full ones is empty.
use sysrv.Prelude.{ℕ, ◌+◌, ◌*◌, ◌≡◌, ◌≢◌, refl, List, done, get_or, ◌∙◌, dec_lt, arith}
use sysrv.Word.{max64}
use sysrv.Kpalloc.{Kpalloc, alloc_in_entry, alloc_page, less_free}
use sysrv.Kpalloc.Bitmap.{set_bit_lem, with_bit_self}
use sysrv.Kpalloc.Alloc.{
  IsValid, FullBetween, page_address, exhausted, stopped, alloc_page-Scan, EmptyBehindFull,
  used_in_full,
}

-- Two scans stop at one entry.
same_stop :
    (bm : List ℕ) (k k' : ℕ)
    → FullBetween bm 0 k
    → get_or bm k 0 ≡ 0
    → FullBetween bm 0 k'
    → get_or bm k' 0 ≢ max64
    → k' ≡ k
same_stop bm k k' f e f' n = elim (dec_lt k k') [
  | yes p ↦ absurd (omega (arith, f' k (omega arith) p))
  | no p ↦ elim (dec_lt k' k) [ yes p' ↦ absurd (n (f k' (omega arith) p')) | no p' ↦ omega arith ]
]

-- An empty entry behind full ones: the bit that is set is that of page 0, and it is set already.
alloc_in_entry_behind :
    (s : Kpalloc) (k : ℕ)
    → IsValid s
    → EmptyBehindFull s.page_bitmap k
    → alloc_in_entry 0 (64 * k) s ≡ done (s.phys_base_address + 4096 * (64 * k), less_free s)
unfolding alloc_in_entry
alloc_in_entry_behind s k v (p, l, f, e) =
    rw
      (
        set_bit_lem s 0 (omega arith),
        page_address (64 * k) v (omega arith),
        with_bit_self s.page_bitmap 0 v.words (omega arith)
            (used_in_full s.page_bitmap k 0 f (omega arith)),
      )
      refl

alloc_page_unmarked :
    (s : Kpalloc) (k : ℕ)
    → IsValid s
    → EmptyBehindFull s.page_bitmap k
    → alloc_page s ≡ done (s.phys_base_address + 4096 * (64 * k), less_free s)
alloc_page_unmarked s k v gap = elim (alloc_page-Scan s v) [
  | exhausted f q ↦ absurd (omega (arith, f k (omega arith) gap.1, gap.3))
  | stopped k' _ l f n q ↦
      let z : k' ≡ k = same_stop s.page_bitmap k k' gap.2 gap.3 f n in
      q ∙ rw (z, gap.3) (alloc_in_entry_behind s k v gap)
]

-- Where an entry other than the first is empty right behind full ones, the page of its first bit is
-- handed out and not marked: the bitmap stays as it was, only the count falls, and the next call
-- hands out the same page again.
pub alloc_page_twice :
    (s : Kpalloc) (k : ℕ)
    → IsValid s
    → EmptyBehindFull s.page_bitmap k
    → (alloc_page s ≡ done (s.phys_base_address + 4096 * (64 * k), less_free s))
      × (alloc_page (less_free s)
          ≡ done (s.phys_base_address + 4096 * (64 * k), less_free (less_free s)))
alloc_page_twice s k v gap = (
  alloc_page_unmarked s k v gap,
  alloc_page_unmarked (less_free s) k
      (record { counted = v.counted; words = v.words; fits = v.fits }) gap,
)
