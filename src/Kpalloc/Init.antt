-- ===== src/Kpalloc/Init.antt =====
-- `srv_kpalloc_InitPageAllocator` and `kpalloc_bitmap_RoundToPage` (kernel/mm/phys/kpalloc.c).
use sysrv.Prelude.{
  ℕ, zero, suc, ◌+◌, ◌*◌, ◌/◌, ◌%◌, ◌≤◌, ◌<◌, ◌^◌, ◌≡◌, refl, done, length, get_or, lt→ltb, arith,
  ◌∙◌, ap, sym,
}
use sysrv.Word.{mul64, add64}
use sysrv.Word.Bits.{bit}
use sysrv.Kalloc.{Kalloc, eternal_alloc}
use sysrv.Kpalloc.{Kpalloc, round_to_page, read_words, init_page_allocator}
use sysrv.Kpalloc.Bitmap.{used, used_empty, AllWords}
use sysrv.Kpalloc.Alloc.{IsValid}
use sysrv.Kpalloc.Count.{IsCounted, count_used_empty}

-- Rounding gives the least multiple of the page size that is not below the value.
round_to_page_lem :
    (value : ℕ)
    → value + 4095 < 2 ^ 64
    → (round_to_page value % 4096 ≡ 0)
      × (value ≤ round_to_page value)
      × (round_to_page value < value + 4096)
unfolding round_to_page
round_to_page_lem value h = omega arith

pub length-read_words : (memory : ℕ → ℕ) (count p : ℕ) → length (read_words memory count p) ≡ count
unfolding read_words
length-read_words memory zero p = refl
length-read_words memory (suc count) p = ap suc (length-read_words memory count (p + 8))

read_words-AllWords :
    (memory : ℕ → ℕ) (count p : ℕ)
    → ((a : ℕ) → memory a < 2 ^ 64)
    → AllWords (read_words memory count p)
unfolding read_words
read_words-AllWords memory zero p h = tt
read_words-AllWords memory (suc count) p h = (h p, read_words-AllWords memory count (p + 8) h)

get_or-read_words :
    (memory : ℕ → ℕ) (count p k : ℕ)
    → k < count
    → get_or (read_words memory count p) k 0 ≡ memory (p + 8 * k)
unfolding read_words
get_or-read_words memory zero p k h = elim h [ ]
get_or-read_words memory (suc count) p zero h = ap memory (omega arith)
get_or-read_words memory (suc count) p (suc k) h =
    get_or-read_words memory count (p + 8) k (omega arith) ∙ ap memory (omega arith)

read_words-zero :
    (memory : ℕ → ℕ) (count p i : ℕ)
    → ((a : ℕ) → memory a ≡ 0)
    → used (read_words memory count p) i ≡ 0
unfolding read_words
read_words-zero memory count p i z = used_empty _ i (zeros count p (i / 64))
  where
    zeros : (n q k : ℕ) → get_or (read_words memory n q) k 0 ≡ 0
    zeros zero q k = refl
    zeros (suc n) q zero = z q
    zeros (suc n) q (suc k) = zeros n (q + 8) k

-- How many entries the bitmap gets.
abbrev pub entries : ℕ → ℕ
entries memory_size = memory_size / 4096 / 64

-- The allocator that `srv_kpalloc_InitPageAllocator` sets up over the words found at `p`.
abbrev pub initial : (ℕ → ℕ) → ℕ → ℕ → ℕ → Kpalloc
initial memory p base_address memory_size = record {
  page_bitmap = read_words memory (entries memory_size) p;
  free_pages = memory_size / 4096;
  phys_base_address = base_address;
  bitmap_entry_count = entries memory_size;
}

pub init_page_allocator-initial :
    (memory : ℕ → ℕ) (k : Kalloc) (base_address memory_size : ℕ)
    → memory_size < 2 ^ 64
    → k.kalloc_eternal_end < 2 ^ 64
    → k.curr_kalloc_eternal_address + 8 * entries memory_size < k.kalloc_eternal_end
    → init_page_allocator memory k base_address memory_size
      ≡ done (
        record k {
          curr_kalloc_eternal_address = k.curr_kalloc_eternal_address + 8 * entries memory_size;
        },
        initial memory k.curr_kalloc_eternal_address base_address memory_size,
      )
unfolding init_page_allocator eternal_alloc
init_page_allocator-initial memory k base_address memory_size s e h =
    let size : mul64 (entries memory_size) 8 ≡ 8 * entries memory_size = omega arith in
    let sum : add64 k.curr_kalloc_eternal_address (8 * entries memory_size)
        ≡ k.curr_kalloc_eternal_address + 8 * entries memory_size =
      omega arith in
    rw (size, sum, lt→ltb _ _ h)

pub initial-IsValid :
    (memory : ℕ → ℕ) (p base_address memory_size : ℕ)
    → ((a : ℕ) → memory a < 2 ^ 64)
    → base_address + memory_size < 2 ^ 64
    → IsValid (initial memory p base_address memory_size)
initial-IsValid memory p base_address memory_size w r = record {
  counted = sym (length-read_words memory (entries memory_size) p);
  words = read_words-AllWords memory _ _ w;
  fits = rw length-read_words (omega arith);
}

pub used-initial :
    (memory : ℕ → ℕ) (p base_address memory_size i : ℕ)
    → i < 64 * entries memory_size
    → used (initial memory p base_address memory_size).page_bitmap i
      ≡ bit (memory (p + 8 * (i / 64))) (i % 64)
unfolding used
used-initial memory p base_address memory_size i l =
    rw (get_or-read_words memory (entries memory_size) p (i / 64) (omega arith)) refl

-- Where the eternal heap has room and the memory ends within the address space,
-- `srv_kpalloc_InitPageAllocator` returns a valid allocator; a page is in use in it exactly if its
-- bit was set in the memory that the heap handed out, which the code does not clear.
pub init_page_allocator-IsValid :
    (memory : ℕ → ℕ) (k : Kalloc) (base_address memory_size : ℕ)
    → ((a : ℕ) → memory a < 2 ^ 64)
    → base_address + memory_size < 2 ^ 64
    → k.kalloc_eternal_end < 2 ^ 64
    → k.curr_kalloc_eternal_address + 8 * entries memory_size < k.kalloc_eternal_end
    → (k' : Kalloc) × (s : Kpalloc) × (init_page_allocator memory k base_address memory_size
        ≡ done (k', s))
      × IsValid s
      × ((i : ℕ)
          → i < 64 * entries memory_size
          → used s.page_bitmap i
            ≡ bit (memory (k.curr_kalloc_eternal_address + 8 * (i / 64))) (i % 64))
init_page_allocator-IsValid memory k base_address memory_size w r e h = (
  _,
  _,
  init_page_allocator-initial memory k base_address memory_size (omega arith) e h,
  initial-IsValid memory k.curr_kalloc_eternal_address base_address memory_size w r,
  used-initial memory k.curr_kalloc_eternal_address base_address memory_size,
)

-- Over memory that is zero all pages of the bitmap are free, and the count is exact but for the
-- pages that fill no whole entry: they are counted as free, and the bitmap does not cover them.
pub init_page_allocator-IsCounted :
    (memory : ℕ → ℕ) (k : Kalloc) (base_address memory_size : ℕ)
    → ((a : ℕ) → memory a ≡ 0)
    → base_address + memory_size < 2 ^ 64
    → k.kalloc_eternal_end < 2 ^ 64
    → k.curr_kalloc_eternal_address + 8 * entries memory_size < k.kalloc_eternal_end
    → (k' : Kalloc) × (s : Kpalloc) × (init_page_allocator memory k base_address memory_size
        ≡ done (k', s))
      × ((i : ℕ) → used s.page_bitmap i ≡ 0)
      × IsCounted s (memory_size / 4096 % 64)
init_page_allocator-IsCounted memory k base_address memory_size z r e h = (
  _,
  _,
  init_page_allocator-initial memory k base_address memory_size (omega arith) e h,
  λ i. free i,
  rw
      (
        length-read_words,
        count_used_empty
            (initial memory k.curr_kalloc_eternal_address base_address memory_size).page_bitmap
            (64 * entries memory_size) free,
      )
      (omega arith, omega arith),
)
  where
    free :
        (i : ℕ)
        → used (initial memory k.curr_kalloc_eternal_address base_address memory_size).page_bitmap i
          ≡ 0
    free i = read_words-zero memory (entries memory_size) k.curr_kalloc_eternal_address i z
