-- ===== src/Kpalloc/Tests.antt =====
-- The page allocator at concrete states (kernel/mm/phys/kpalloc.c).
use sysrv.Prelude.{
  List, length, ℕ, zero, suc, ◌+◌, ◌*◌, ◌-◌, ◌/◌, ◌%◌, ◌<◌, ◌^◌, ◌≡◌, refl, [], ◌∷◌, done, panic,
  fault, arith, ◌==◌, get_or, if◌then◌else◌,
}
use sysrv.Word.Bits.{bit}
use sysrv.Kalloc.{Kalloc}
use sysrv.Kpalloc.{
  Kpalloc, less_free, address_to_bit_index, bit_index_to_page_address, set_bit, unset_bit,
  alloc_in_entry, alloc_loop, alloc_page, free_page, mark_loop, mark_region_unusable,
  init_page_allocator,
}
use sysrv.Word.Count.{ctz64}
use sysrv.Kpalloc.Bitmap.{used}
use sysrv.Kpalloc.Alloc.{IsValid, Granted, EmptyBehindFull, alloc_page-Granted}
use sysrv.Kpalloc.Spare.{alloc_pages, AreSpare, Keeps, alloc_pages-AreSpare}
use sysrv.Kpalloc.Twice.{alloc_page_twice}
use sysrv.Kpalloc.Free.{free_page-alloc_page}
use sysrv.Kpalloc.Region.{Marked, mark_region_unusable-Marked, mark_region_unusable_misses}
use sysrv.Kpalloc.Count.{IsCounted, count_used, alloc_page-IsCounted, free_page-IsCounted}
use sysrv.Kpalloc.History.{Request, allocate, release, serve, Follows, serve-Follows}
use sysrv.Kpalloc.Init.{init_page_allocator-IsValid, init_page_allocator-IsCounted}

-- 128 pages, of which the first eight and page 64 are in use.
abbrev small : Kpalloc
small = record {
  page_bitmap = 0xff ∷ 1 ∷ [];
  free_pages = 119;
  phys_base_address = 0x8000_0000;
  bitmap_entry_count = 2;
}

abbrev small_after : Kpalloc
small_after = record small { page_bitmap = 0x1ff ∷ 1 ∷ []; free_pages = 118 }

-- The first 64 pages are in use, the others are free.
abbrev half : Kpalloc
half = record small { page_bitmap = (2 ^ 64 - 1) ∷ 0 ∷ []; free_pages = 64 }

small_runs : alloc_page small ≡ done (0x8000_8000, small_after)
unfolding alloc_page alloc_loop alloc_in_entry set_bit bit_index_to_page_address ctz64
small_runs = refl

half_runs : alloc_page half ≡ done (0x8004_0000, record half { free_pages = 63 })
unfolding alloc_page alloc_loop alloc_in_entry set_bit bit_index_to_page_address ctz64
half_runs = refl

free_runs :
    (free_page small_after 0x8000_8000 ≡ done small)
    × (free_page small 0x8000_8001 ≡ panic "page_ptr misaligned on page free!")
    × (free_page small 0x8008_0000 ≡ fault)
unfolding free_page unset_bit address_to_bit_index
free_runs = (refl, refl, refl)

mark_runs :
    mark_region_unusable small 0x8003_f000 0x2fff
    ≡ done (record small { page_bitmap = 0x8000_0000_0000_00ff ∷ 1 ∷ [] })
unfolding mark_region_unusable mark_loop set_bit address_to_bit_index
mark_runs = refl

small-IsValid : IsValid small
small-IsValid = record { counted = refl; words = omega arith; fits = omega arith }

half-IsValid : IsValid half
half-IsValid = record { counted = refl; words = omega arith; fits = omega arith }

small_no_gap : (k : ℕ) → ¬ EmptyBehindFull small.page_bitmap k
small_no_gap k (p, l, f, e) = absurd (omega (arith, f 0 (omega arith) p))

half_gap : EmptyBehindFull half.page_bitmap 1
half_gap = (omega arith, omega arith, λ j l h. full j h, refl)
  where
    full : (j : ℕ) → j < 1 → get_or half.page_bitmap j 0 ≡ 2 ^ 64 - 1
    full zero h = refl
    full (suc j) h = absurd (omega arith)

alloc_page-Granted_example : Granted small (alloc_page small)
alloc_page-Granted_example = alloc_page-Granted small small-IsValid small_no_gap

alloc_page_twice_example :
    (alloc_page half ≡ done (0x8000_0000 + 4096 * (64 * 1), less_free half))
    × (alloc_page (less_free half)
        ≡ done (0x8000_0000 + 4096 * (64 * 1), less_free (less_free half)))
alloc_page_twice_example = alloc_page_twice half 1 half-IsValid half_gap

free_page-alloc_page_example : free_page small_after 0x8000_8000 ≡ done small
free_page-alloc_page_example =
    free_page-alloc_page small small-IsValid small_no_gap (omega arith) refl (omega arith)
      small_runs (omega arith)

mark_region_unusable-Marked_example :
    Marked small 63
      (63 + 0x2fff / 4096)
      (mark_region_unusable small (0x8000_0000 + 4096 * 63 + 0) 0x2fff)
mark_region_unusable-Marked_example =
    mark_region_unusable-Marked small 63 0 0x2fff small-IsValid (omega arith) (omega arith)
      (omega arith)

abbrev marked_small : Kpalloc
marked_small = record small { page_bitmap = 0x3_00ff ∷ 1 ∷ [] }

covers_runs : mark_region_unusable small (0x8000_0000 + 4096 * 16) 0x2000 ≡ done marked_small
unfolding mark_region_unusable mark_loop set_bit address_to_bit_index
covers_runs = refl

misses_runs : mark_region_unusable small (0x8000_0000 + 4096 * 16 + 0x10) 0x2000 ≡ done marked_small
unfolding mark_region_unusable mark_loop set_bit address_to_bit_index
misses_runs = refl

mark_region_unusable_misses_example :
    used marked_small.page_bitmap ((4096 * 16 + 0x10 + 0x2000 - 1) / 4096)
    ≡ used small.page_bitmap ((4096 * 16 + 0x10 + 0x2000 - 1) / 4096)
mark_region_unusable_misses_example =
    mark_region_unusable_misses small marked_small 16 0x10 0x2000 small-IsValid (omega arith)
      (omega arith) (omega arith) (omega arith) misses_runs

small-IsCounted : IsCounted small 0
unfolding count_used used bit
small-IsCounted = (omega arith, refl)

alloc_page-IsCounted_example : IsValid small_after × IsCounted small_after 0
alloc_page-IsCounted_example =
    alloc_page-IsCounted small 0 small-IsValid small_no_gap small-IsCounted small_runs

free_page-IsCounted_example :
    (s' : Kpalloc) × (free_page small (0x8000_0000 + 4096 * 3) ≡ done s')
    × IsValid s'
    × IsCounted s' (if used small.page_bitmap 3 == 1 then 0 else 0 + 1)
free_page-IsCounted_example =
    free_page-IsCounted small 3 0 small-IsValid refl (omega arith) (omega arith) small-IsCounted

abbrev heap : Kalloc
heap = record { curr_kalloc_eternal_address = 0x1000; kalloc_eternal_end = 0x2000 }

init_page_allocator-IsValid_example :
    (k' : Kalloc) × (s : Kpalloc) × (init_page_allocator (λ a. a % 7) heap 0x8000_0000 0x10_0000
      ≡ done (k', s))
    × IsValid s
    × ((i : ℕ) → i < 64 * 4 → used s.page_bitmap i ≡ bit ((0x1000 + 8 * (i / 64)) % 7) (i % 64))
init_page_allocator-IsValid_example =
    init_page_allocator-IsValid (λ a. a % 7) heap 0x8000_0000 0x10_0000 (λ a. omega arith)
      (omega arith) (omega arith) (omega arith)

init_page_allocator-IsCounted_example :
    (k' : Kalloc) × (s : Kpalloc) × (init_page_allocator (λ _. 0) heap 0x8000_0000 0x10_5000
      ≡ done (k', s))
    × ((i : ℕ) → used s.page_bitmap i ≡ 0)
    × IsCounted s 5
init_page_allocator-IsCounted_example =
    init_page_allocator-IsCounted (λ _. 0) heap 0x8000_0000 0x10_5000 (λ _. refl) (omega arith)
      (omega arith) (omega arith)

alloc_pages-AreSpare_example :
    (ps : List ℕ) × (s' : Kpalloc) × (alloc_pages 3 half ≡ done (ps, s'))
    × (length ps ≡ 3)
    × AreSpare half ps
    × Keeps half s'
alloc_pages-AreSpare_example = alloc_pages-AreSpare 3 half half-IsValid

abbrev history : List Request
history = allocate ∷ allocate ∷ release 3 ∷ allocate ∷ []

small_used : count_used small.page_bitmap 64 ≡ 8
unfolding count_used used bit
small_used = refl

serve-Follows_example :
    (ps : List ℕ) × (s' : Kpalloc) × (serve history small ≡ done (ps, s'))
    × Follows 0x8000_0000 (used small.page_bitmap) history ps (used s'.page_bitmap)
    × IsValid s'
serve-Follows_example =
    serve-Follows history small small-IsValid refl (omega arith) (omega arith, tt)
      (omega (arith, small_used))
