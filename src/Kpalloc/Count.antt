-- ===== src/Kpalloc/Count.antt =====
-- What `free_pages` counts (kernel/mm/phys/kpalloc.c).
use sysrv.Prelude.{
  ℕ, zero, suc, ◌+◌, ◌*◌, ◌/◌, ◌%◌, ◌≤◌, ◌<◌, ◌^◌, ◌≡◌, inl, inr, refl, List, ◌&&◌, Bool-cases,
  done, length, ◌==◌, ==_iff, ◌∙◌, ltb, leb, if◌then◌else◌, arith, dec_lt, ap, min,
}
use sysrv.Kpalloc.{Kpalloc, alloc_page, free_page, mark_region_unusable}
use sysrv.Kpalloc.Bitmap.{
  used, used-le-one, with_bit, without_bit, used-with_bit, used-without_bit, length-with_bit,
  length-without_bit, without_bit-AllWords, without_bit_self,
}
use sysrv.Kpalloc.Alloc.{
  IsValid, taken, none_left, granted, EmptyBehindFull, alloc_page-Granted, taken-IsValid,
}
use sysrv.Kpalloc.Free.{returned, free_page_lem}
use sysrv.Kpalloc.Region.{mark_region_unusable-Marked}

-- How many of the first `n` pages are in use.
unfoldable pub count_used : List ℕ → ℕ → ℕ
count_used bm zero = 0
count_used bm (suc n) = count_used bm n + used bm n

count_used_eq :
    (bm bm' : List ℕ) (n : ℕ)
    → ((j : ℕ) → j < n → used bm j ≡ used bm' j)
    → count_used bm n ≡ count_used bm' n
unfolding count_used
count_used_eq bm bm' zero h = refl
count_used_eq bm bm' (suc n) h =
    omega (arith, h n (omega arith), count_used_eq bm bm' n (λ j l. h j (omega arith)))

pub count_used-with_bit :
    (bm : List ℕ) (i n : ℕ)
    → i < 64 * length bm
    → i < n
    → used bm i ≡ 0
    → count_used (with_bit bm i) n ≡ count_used bm n + 1
unfolding count_used
count_used-with_bit bm i zero h l u = elim l [ ]
count_used-with_bit bm i (suc n) h l u = elim (dec_lt i n) [
  | yes p ↦ ground (arith, count_used-with_bit bm i n h p u, used-with_bit bm i n h)
  | no p ↦ ground (
    arith,
    count_used_eq (with_bit bm i) bm n (λ j m. ground (arith, used-with_bit bm i j h)),
    used-with_bit bm i n h,
  )
]

count_used-without_bit :
    (bm : List ℕ) (i n : ℕ)
    → i < 64 * length bm
    → i < n
    → used bm i ≡ 1
    → count_used (without_bit bm i) n + 1 ≡ count_used bm n
unfolding count_used
count_used-without_bit bm i zero h l u = elim l [ ]
count_used-without_bit bm i (suc n) h l u = elim (dec_lt i n) [
  | yes p ↦ ground (arith, count_used-without_bit bm i n h p u, used-without_bit bm i n h)
  | no p ↦ ground (
    arith,
    count_used_eq (without_bit bm i) bm n (λ j m. ground (arith, used-without_bit bm i j h)),
    used-without_bit bm i n h,
  )
]

-- The count is exact, but for `extra` pages that it counts and the bitmap does not have as free.
abbrev pub IsCounted : Kpalloc → ℕ → Type 0
IsCounted s extra =
    (64 * length s.page_bitmap + extra < 2 ^ 64)
    × (s.free_pages + count_used s.page_bitmap (64 * length s.page_bitmap)
        ≡ 64 * length s.page_bitmap + extra)

count_used_full : (bm : List ℕ) (n : ℕ) → ((j : ℕ) → j < n → used bm j ≡ 1) → count_used bm n ≡ n
unfolding count_used
count_used_full bm zero h = refl
count_used_full bm (suc n) h =
    omega (arith, h n (omega arith), count_used_full bm n (λ j l. h j (omega arith)))

count_used-le : (bm : List ℕ) (n : ℕ) → count_used bm n ≤ n
unfolding count_used
count_used-le bm zero = omega arith
count_used-le bm (suc n) = omega (arith, used-le-one bm n, count_used-le bm n)

count_used-lt : (bm : List ℕ) (i n : ℕ) → i < n → used bm i ≡ 0 → count_used bm n < n
unfolding count_used
count_used-lt bm i zero l u = elim l [ ]
count_used-lt bm i (suc n) l u = elim (dec_lt i n) [
  | yes p ↦ omega (arith, count_used-lt bm i n p u, used-le-one bm n)
  | no p ↦
      let e : i ≡ n = omega arith in
      let e' : used bm n ≡ 0 = rw e at u in omega (arith, e', count_used-le bm n)
]

taken-IsCounted :
    (s : Kpalloc) (i extra : ℕ)
    → IsCounted s extra
    → i < 64 * length s.page_bitmap
    → used s.page_bitmap i ≡ 0
    → IsCounted (taken s i) extra
taken-IsCounted s i extra c h u = rw length-with_bit (
  c.0,
  omega (
    arith,
    c,
    count_used-with_bit s.page_bitmap i (64 * length s.page_bitmap) h h u,
    count_used-lt s.page_bitmap i (64 * length s.page_bitmap) h u,
  ),
)

-- In a valid allocator with an exact count, in which no entry other than the first is empty right
-- behind entries that are all full, `srv_kpalloc_AllocPage` leaves the allocator valid and the count
-- exact (`extra` pages aside).
pub alloc_page-IsCounted :
    (s : Kpalloc) (extra : ℕ) {p : ℕ} {s' : Kpalloc}
    → IsValid s
    → ((k : ℕ) → ¬ EmptyBehindFull s.page_bitmap k)
    → IsCounted s extra
    → alloc_page s ≡ done (p, s')
    → IsValid s' × IsCounted s' extra
alloc_page-IsCounted s extra {p} {s'} v gap c e = elim (alloc_page-Granted s v gap) [
  | none_left _ q ↦ let same : s ≡ s' = cc in rw (← same) (v, c)
  | granted i h u _ q ↦
      let same : taken s i ≡ s' = cc in
      rw (← same) (taken-IsValid s i v, taken-IsCounted s i extra c h u)
]

pub returned-IsValid : (s : Kpalloc) (i : ℕ) → IsValid s → IsValid (returned s i)
returned-IsValid s i v = record {
  counted = omega (arith, v.counted, length-without_bit s.page_bitmap i);
  words = without_bit-AllWords s.page_bitmap i v.words;
  fits = rw length-without_bit v.fits;
}

returned-IsCounted :
    (s : Kpalloc) (i extra : ℕ)
    → IsValid s
    → i < 64 * length s.page_bitmap
    → 64 * length s.page_bitmap + extra + 1 < 2 ^ 64
    → IsCounted s extra
    → IsCounted (returned s i) (if used s.page_bitmap i == 1 then extra else extra + 1)
returned-IsCounted s i extra v h room c =
    rw length-without_bit (elim (Bool-cases (used s.page_bitmap i == 1)) [
      | inl taken_page ↦ rw taken_page (
        c.0,
        omega (
          arith,
          c,
          count_used-without_bit s.page_bitmap i (64 * length s.page_bitmap) h h
              ((==_iff _ _).0 taken_page),
        ),
      )
      | inr free ↦
          let u : used s.page_bitmap i ≡ 0 = ground (arith, used-le-one s.page_bitmap i) in
          let same = without_bit_self s.page_bitmap i v.words h u in
          rw (free, same)
            (omega arith, omega (arith, c, count_used-le s.page_bitmap (64 * length s.page_bitmap)))
    ])

-- Freeing page `i` of a valid allocator whose memory starts at a page boundary leaves it valid. The
-- count stays exact if the page was in use; of a page that was free the call counts one more, so
-- the count is one too high from then on.
pub free_page-IsCounted :
    (s : Kpalloc) (i extra : ℕ)
    → IsValid s
    → s.phys_base_address % 4096 ≡ 0
    → i < 64 * length s.page_bitmap
    → 64 * length s.page_bitmap + extra + 1 < 2 ^ 64
    → IsCounted s extra
    → (s' : Kpalloc) × (free_page s (s.phys_base_address + 4096 * i) ≡ done s')
      × IsValid s'
      × IsCounted s' (if used s.page_bitmap i == 1 then extra else extra + 1)
free_page-IsCounted s i extra v b h room c = (
  returned s i,
  ap (free_page s) (omega arith) ∙ free_page_lem s i 0 v b h (omega arith),
  returned-IsValid s i v,
  returned-IsCounted s i extra v h room c,
)

count_used_between :
    (bm bm' : List ℕ) (lo hi n : ℕ)
    → lo ≤ hi
    → ((j : ℕ) → used bm' j ≡ (if leb lo j && ltb j hi then 1 else used bm j))
    → ((j : ℕ) → lo ≤ j → j < hi → used bm j ≡ 0)
    → count_used bm' n + min n lo ≡ count_used bm n + min n hi
unfolding count_used
count_used_between bm bm' lo hi zero l h free = omega arith
count_used_between bm bm' lo hi (suc n) l h free =
    ground (arith, h n, free n, count_used_between bm bm' lo hi n l h free)

-- `srv_kpalloc_MarkRegionUnusable` does not lower the count: where the count was exact and the pages
-- of the region were free, it is afterwards too high by the number of pages marked.
mark_region_unusable-IsCounted :
    (s : Kpalloc) (i r size extra : ℕ)
    → IsValid s
    → r < 4096
    → i < 64 * length s.page_bitmap
    → i + size / 4096 ≤ 64 * length s.page_bitmap
    → 64 * length s.page_bitmap + extra + size / 4096 < 2 ^ 64
    → ((j : ℕ) → i ≤ j → j < i + size / 4096 → used s.page_bitmap j ≡ 0)
    → IsCounted s extra
    → (s' : Kpalloc) × (mark_region_unusable s (s.phys_base_address + 4096 * i + r) size ≡ done s')
      × IsCounted s' (extra + size / 4096)
mark_region_unusable-IsCounted s i r size extra v l b h room free c =
    let m = mark_region_unusable-Marked s i r size v l b h in
    let sum =
      count_used_between s.page_bitmap m.out.page_bitmap i (i + size / 4096)
        (64 * length s.page_bitmap) (omega arith) m.pages free in
    (m.out, m.returns, rw (m.same_length, m.same_free) (omega arith, omega (arith, sum, c)))

pub count_used_empty : (bm : List ℕ) (n : ℕ) → ((j : ℕ) → used bm j ≡ 0) → count_used bm n ≡ 0
unfolding count_used
count_used_empty bm zero h = refl
count_used_empty bm (suc n) h = omega (arith, h n, count_used_empty bm n h)
