-- ===== src/Kpalloc/Region.antt =====
-- `srv_kpalloc_MarkRegionUnusable` (kernel/mm/phys/kpalloc.c): which pages it marks.
use sysrv.Prelude.{
  ℕ, zero, suc, ◌+◌, ◌*◌, ◌/◌, ◌%◌, ◌-◌, ◌≤◌, ◌<◌, ◌≡◌, refl, ◌&&◌, Outcome, done, length, ◌∙◌, ltb,
  leb, if◌then◌else◌, arith,
}
use sysrv.Word.{add64}
use sysrv.Kpalloc.{Kpalloc, mark_loop, mark_region_unusable}
use sysrv.Kpalloc.Bitmap.{
  used, with_bit, set_bit_lem, used-with_bit, length-with_bit, with_bit-AllWords,
}
use sysrv.Kpalloc.Alloc.{IsValid}
use sysrv.Kpalloc.Free.{page_index}

-- `r` is a normal return in a state where the pages from `lo` up to `hi` are in use and nothing else
-- has changed.
pub record Marked (s : Kpalloc) (lo hi : ℕ) (r : Outcome Kpalloc) : Type 0 where
  pub out : Kpalloc
  pub returns : r ≡ done out
  pub pages :
      (j : ℕ) → used out.page_bitmap j ≡ (if leb lo j && ltb j hi then 1 else used s.page_bitmap j)
  pub valid : IsValid out
  pub same_length : length out.page_bitmap ≡ length s.page_bitmap
  pub same_free : out.free_pages ≡ s.free_pages
  pub same_base : out.phys_base_address ≡ s.phys_base_address

-- The state after page `i` has been marked, with the count of free pages left alone.
abbrev marked : Kpalloc → ℕ → Kpalloc
marked s i = record s { page_bitmap = with_bit s.page_bitmap i }

marked-IsValid : (s : Kpalloc) (i : ℕ) → IsValid s → IsValid (marked s i)
marked-IsValid s i v = record {
  counted = omega (arith, v.counted, length-with_bit s.page_bitmap i);
  words = with_bit-AllWords s.page_bitmap i v.words;
  fits = rw length-with_bit v.fits;
}

Marked-next :
    {s : Kpalloc} {i hi : ℕ} {r : Outcome Kpalloc}
    → i < 64 * length s.page_bitmap
    → i < hi
    → Marked (marked s i) (i + 1) hi r
    → Marked s i hi r
Marked-next {s} {i} h l m = record {
  out = m.out;
  returns = m.returns;
  pages = λ j. ground (arith, m.pages j, used-with_bit s.page_bitmap i j h);
  valid = m.valid;
  same_length = m.same_length ∙ length-with_bit s.page_bitmap i;
  same_free = m.same_free;
  same_base = m.same_base;
}

mark_loop-Marked :
    (pages i hi : ℕ) (s : Kpalloc)
    → IsValid s
    → i + pages ≡ hi
    → hi ≤ 64 * length s.page_bitmap
    → Marked s i hi (mark_loop pages i s)
unfolding mark_loop
mark_loop-Marked zero i hi s v e h = record {
  out = s;
  returns = refl;
  pages = λ j. ground arith;
  valid = v;
  same_length = refl;
  same_free = refl;
  same_base = refl;
}
mark_loop-Marked (suc pages) i hi s v e h =
    let next : add64 i 1 ≡ i + 1 = omega (arith, v.fits) in
    rw (set_bit_lem s i (omega arith), next)
      (Marked-next (omega arith) (omega arith) (
        mark_loop-Marked pages (i + 1) hi (marked s i) (marked-IsValid s i v) (omega arith)
          (rw length-with_bit h)))

-- `srv_kpalloc_MarkRegionUnusable` of `size` bytes from `r` bytes into page `i` on: the call returns
-- if its pages lie in the bitmap, and then the `size / 4096` pages from `i` on are in use, all
-- others are as they were, and so is the count of free pages.
pub mark_region_unusable-Marked :
    (s : Kpalloc) (i r size : ℕ)
    → IsValid s
    → r < 4096
    → i < 64 * length s.page_bitmap
    → i + size / 4096 ≤ 64 * length s.page_bitmap
    → Marked s i
        (i + size / 4096)
        (mark_region_unusable s (s.phys_base_address + 4096 * i + r) size)
unfolding mark_region_unusable
mark_region_unusable-Marked s i r size v l b h =
    rw (page_index s i r v b l) (mark_loop-Marked (size / 4096) i (i + size / 4096) s v refl h)

-- A region of whole pages is covered: each of its bytes lies in a page that is in use afterwards.
-- The offset `x` counts from the base of the memory.
mark_region_unusable_covers :
    (s out : Kpalloc) (i size x : ℕ)
    → IsValid s
    → i < 64 * length s.page_bitmap
    → i + size / 4096 ≤ 64 * length s.page_bitmap
    → size % 4096 ≡ 0
    → mark_region_unusable s (s.phys_base_address + 4096 * i) size ≡ done out
    → 4096 * i ≤ x
    → x < 4096 * i + size
    → used out.page_bitmap (x / 4096) ≡ 1
mark_region_unusable_covers s out i size x v b h z q lo hi =
    let m = mark_region_unusable-Marked s i 0 size v (omega arith) b h in
    let e : s.phys_base_address + 4096 * i + 0 ≡ s.phys_base_address + 4096 * i = omega arith in
    let returns = rw e at m.returns in
    let same : m.out ≡ out = cc in rw (← same) (ground (arith, m.pages (x / 4096)))

-- A region that begins or ends inside a page is not covered: the page of its last byte is left as it
-- was, so a free page stays free.
pub mark_region_unusable_misses :
    (s out : Kpalloc) (i r size : ℕ)
    → IsValid s
    → i < 64 * length s.page_bitmap
    → i + size / 4096 ≤ 64 * length s.page_bitmap
    → r < 4096
    → 0 < r + size % 4096
    → mark_region_unusable s (s.phys_base_address + 4096 * i + r) size ≡ done out
    → used out.page_bitmap ((4096 * i + r + size - 1) / 4096)
      ≡ used s.page_bitmap ((4096 * i + r + size - 1) / 4096)
mark_region_unusable_misses s out i r size v b h l p q =
    let m = mark_region_unusable-Marked s i r size v l b h in
    let returns = m.returns in
    let same : m.out ≡ out = cc in
    let last : ℕ = (4096 * i + r + size - 1) / 4096 in rw (← same) (ground (arith, m.pages last))
