-- ===== src/Kpalloc.antt =====
-- kernel/mm/phys/kpalloc.c: the physical page allocator, one bit for each page, set while the page
-- is in use. The bitmap is the array of 64-bit entries that `page_bitmap` points at; an access past
-- its end is a `fault`.
pub mod Bitmap
pub mod Alloc
pub mod Twice
pub mod Spare
pub mod Free
pub mod Region
pub mod Count
pub mod History
pub mod Init
mod Tests
use sysrv.Prelude.{
  ℕ, zero, suc, ◌+◌, ◌-◌, ◌*◌, ◌/◌, ◌%◌, ◌^◌, List, [], ◌∷◌, Bool, not, Outcome, done, panic, ◌>>=◌,
  expect, get_elem?, set, ◌==◌, if◌then◌else◌, bit_and, bit_or,
}
use sysrv.Word.{add64, sub64, mul64, max64, bit_mask, not64}
use sysrv.Word.Count.{ctz64}
use sysrv.Kalloc.{Kalloc, eternal_alloc}

abbrev pub srv_page_size : ℕ
srv_page_size = 4096

-- `PHYSALLOC_BITS_PER_ENTRY`, `PHYSALLOC_NO_FREE_PAGES`
abbrev pub bits_per_entry : ℕ
bits_per_entry = 64

abbrev pub no_free_pages : ℕ
no_free_pages = max64

-- The static variables of kpalloc.c.
pub record Kpalloc : Type 0 where
  pub page_bitmap : List ℕ
  pub free_pages : ℕ
  pub phys_base_address : ℕ
  pub bitmap_entry_count : ℕ

-- `kpalloc_bitmap_RoundToPage`
unfoldable pub round_to_page : ℕ → ℕ
round_to_page value = mul64 (sub64 (add64 value srv_page_size) 1 / srv_page_size) srv_page_size

-- `kpalloc_bitmap_AddressToBitIndex`
unfoldable pub address_to_bit_index : Kpalloc → ℕ → ℕ
address_to_bit_index s address = sub64 address s.phys_base_address / srv_page_size

-- `kpalloc_bitmap_BitIndexToPageAddress`
unfoldable pub bit_index_to_page_address : Kpalloc → ℕ → ℕ
bit_index_to_page_address s bit_index = add64 s.phys_base_address (mul64 bit_index srv_page_size)

-- `kpalloc_bitmap_SetBit`
unfoldable pub set_bit : Kpalloc → ℕ → Outcome Kpalloc
set_bit s bit = do
  entry ← expect (get_elem? s.page_bitmap (bit / bits_per_entry))
  done (record s {
    page_bitmap =
        set s.page_bitmap (bit / bits_per_entry) (bit_or entry (bit_mask (bit % bits_per_entry)));
  })

-- `kpalloc_bitmap_UnsetBit`
unfoldable pub unset_bit : Kpalloc → ℕ → Outcome Kpalloc
unset_bit s bit = do
  entry ← expect (get_elem? s.page_bitmap (bit / bits_per_entry))
  done (record s {
    page_bitmap =
        set s.page_bitmap (bit / bits_per_entry)
          (bit_and entry (not64 (bit_mask (bit % bits_per_entry))));
  })

-- `kpalloc_bitmap_IsBitSet`
unfoldable pub is_bit_set : Kpalloc → ℕ → Outcome Bool
is_bit_set s bit = do
  entry ← expect (get_elem? s.page_bitmap (bit / bits_per_entry))
  done (not (bit_and (bit_mask (bit % bits_per_entry)) entry == 0))

-- `free_pages--` and `free_pages++`
abbrev pub less_free : Kpalloc → Kpalloc
less_free s = record s { free_pages = sub64 s.free_pages 1 }

abbrev pub more_free : Kpalloc → Kpalloc
more_free s = record s { free_pages = add64 s.free_pages 1 }

-- What the loop of `srv_kpalloc_AllocPage` does with an entry that has a free page: the empty entry
-- first, then the search for its first clear bit.
unfoldable pub alloc_in_entry : ℕ → ℕ → Kpalloc → Outcome (ℕ × Kpalloc)
alloc_in_entry entry bit_index s =
    if entry == 0
    then (do s' ← set_bit s 0; done (bit_index_to_page_address s bit_index, less_free s'))
    else do
      let page_bit_index = add64 bit_index (ctz64 (not64 entry))
      s' ← set_bit s page_bit_index
      done (bit_index_to_page_address s page_bit_index, less_free s')

-- The loop of `srv_kpalloc_AllocPage` with `left` entries to go; 0 is the NULL of `page_ptr`.
unfoldable pub alloc_loop : ℕ → ℕ → ℕ → Kpalloc → Outcome (ℕ × Kpalloc)
alloc_loop zero bitmap_index bit_index s = done (0, s)
alloc_loop (suc left) bitmap_index bit_index s = do
  entry ← expect (get_elem? s.page_bitmap bitmap_index)
  if entry == no_free_pages
      then alloc_loop left (bitmap_index + 1) (add64 bit_index bits_per_entry) s
      else alloc_in_entry entry bit_index s

-- `srv_kpalloc_AllocPage`
unfoldable pub alloc_page : Kpalloc → Outcome (ℕ × Kpalloc)
alloc_page s = alloc_loop s.bitmap_entry_count 0 0 s

-- `srv_kpalloc_FreePage`
unfoldable pub free_page : Kpalloc → ℕ → Outcome Kpalloc
free_page s page_addr =
    if bit_and page_addr (srv_page_size - 1) == 0
    then (do s' ← unset_bit s (address_to_bit_index s page_addr); done (more_free s'))
    else panic "page_ptr misaligned on page free!"

-- The loop of `srv_kpalloc_MarkRegionUnusable` with `pages` rounds to go.
unfoldable pub mark_loop : ℕ → ℕ → Kpalloc → Outcome Kpalloc
mark_loop zero curr_bit_index s = done s
mark_loop (suc pages) curr_bit_index s = do
  s' ← set_bit s curr_bit_index
  mark_loop pages (add64 curr_bit_index 1) s'

-- `srv_kpalloc_MarkRegionUnusable`
unfoldable pub mark_region_unusable : Kpalloc → ℕ → ℕ → Outcome Kpalloc
mark_region_unusable s base_address length =
    mark_loop (length / srv_page_size) (address_to_bit_index s base_address) s

-- The `count` 64-bit words of memory from address `p` on.
unfoldable pub read_words : (ℕ → ℕ) → ℕ → ℕ → List ℕ
read_words memory zero p = []
read_words memory (suc count) p = memory p ∷ read_words memory count (p + 8)

-- `srv_kpalloc_InitPageAllocator`. The bitmap is the memory that the eternal heap hands out, as it
-- is: `memory` gives the word that stands at an address at that time.
unfoldable pub init_page_allocator : (ℕ → ℕ) → Kalloc → ℕ → ℕ → Outcome (Kalloc × Kpalloc)
init_page_allocator memory k base_address memory_size = do
  let free_pages = memory_size / srv_page_size
  let bitmap_entry_count = free_pages / bits_per_entry
  (page_bitmap, k') ← eternal_alloc k (mul64 bitmap_entry_count 8)
  done (
    k',
    record {
      page_bitmap = read_words memory bitmap_entry_count page_bitmap;
      free_pages = free_pages;
      phys_base_address = base_address;
      bitmap_entry_count = bitmap_entry_count;
    },
  )
