-- ===== src/Kpalloc/Free.antt =====
-- `srv_kpalloc_FreePage` (kernel/mm/phys/kpalloc.c), and the two calls together.
use sysrv.Prelude.{
  ℕ, ◌+◌, ◌*◌, ◌%◌, ◌<◌, ◌^◌, ◌≡◌, ◌≢◌, refl, done, panic, length, ◌==◌, ◌∙◌, ap, if◌then◌else◌,
  arith, bit_and,
}
use sysrv.Word.{sub64, add64}
use sysrv.Word.Bits.{bit_and_mask}
use sysrv.Kpalloc.{Kpalloc, address_to_bit_index, free_page, alloc_page, more_free}
use sysrv.Kpalloc.Bitmap.{used, without_bit, unset_bit_lem, without_bit-with_bit, length-with_bit}
use sysrv.Kpalloc.Alloc.{
  IsValid, taken, none_left, granted, EmptyBehindFull, alloc_page-Granted, taken-IsValid,
}

-- The state after page `i` has been cleared and counted as free.
abbrev pub returned : Kpalloc → ℕ → Kpalloc
returned s i = more_free (record s { page_bitmap = without_bit s.page_bitmap i })

pub page_index :
    (s : Kpalloc) (i r : ℕ)
    → IsValid s
    → i < 64 * length s.page_bitmap
    → r < 4096
    → address_to_bit_index s (s.phys_base_address + 4096 * i + r) ≡ i
unfolding address_to_bit_index
page_index s i r v h l = omega (arith, v.fits)

-- `srv_kpalloc_FreePage` of an address in the managed memory, `r` bytes into page `i`, where the
-- memory starts at a page boundary: at the start of the page the bit of that page is cleared and
-- one more free page is counted; anywhere else the call panics.
pub free_page_lem :
    (s : Kpalloc) (i r : ℕ)
    → IsValid s
    → s.phys_base_address % 4096 ≡ 0
    → i < 64 * length s.page_bitmap
    → r < 4096
    → free_page s (s.phys_base_address + 4096 * i + r)
      ≡ (if r == 0 then done (returned s i) else panic "page_ptr misaligned on page free!")
unfolding free_page
free_page_lem s i r v b h l =
    let m : bit_and (s.phys_base_address + 4096 * i + r) 4095 ≡ r =
      bit_and_mask 12 (s.phys_base_address + 4096 * i + r) ∙ omega arith in
    rw (m, page_index s i r v h l, unset_bit_lem s i h) refl

returned-taken :
    (s : Kpalloc) (i : ℕ)
    → IsValid s
    → s.free_pages < 2 ^ 64
    → i < 64 * length s.page_bitmap
    → used s.page_bitmap i ≡ 0
    → returned (taken s i) i ≡ s
returned-taken s i v f h u =
    let e : add64 (sub64 s.free_pages 1) 1 ≡ s.free_pages = omega arith in
    rw (e, without_bit-with_bit s.page_bitmap i v.words h u)

free-taken :
    (s : Kpalloc) (i : ℕ)
    → IsValid s
    → s.phys_base_address % 4096 ≡ 0
    → s.free_pages < 2 ^ 64
    → i < 64 * length s.page_bitmap
    → used s.page_bitmap i ≡ 0
    → free_page (taken s i) (s.phys_base_address + 4096 * i) ≡ done s
free-taken s i v b f h u =
    let e : s.phys_base_address + 4096 * i ≡ s.phys_base_address + 4096 * i + 0 = omega arith in
    ap (free_page (taken s i)) e
    ∙ free_page_lem (taken s i) i 0 (taken-IsValid s i v) b
        (omega (arith, length-with_bit s.page_bitmap i)) (omega arith)
    ∙ ap done (returned-taken s i v f h u)

-- Freeing the page, not NULL, that `srv_kpalloc_AllocPage` has just handed out restores the allocator,
-- bitmap and count. The allocator is valid and its count below 2^64, the base is a page boundary other
-- than 0, so that no page is NULL, and no entry other than the first is empty right behind entries that
-- are all full.
pub free_page-alloc_page :
    (s : Kpalloc) {p : ℕ} {s' : Kpalloc}
    → IsValid s
    → ((k : ℕ) → ¬ EmptyBehindFull s.page_bitmap k)
    → 0 < s.phys_base_address
    → s.phys_base_address % 4096 ≡ 0
    → s.free_pages < 2 ^ 64
    → alloc_page s ≡ done (p, s')
    → p ≢ 0
    → free_page s' p ≡ done s
free_page-alloc_page s {p} {s'} v gap pos b f e n = elim (alloc_page-Granted s v gap) [
  | none_left _ q ↦ absurd (n (cc))
  | granted i h u _ q ↦
      let ep : s.phys_base_address + 4096 * i ≡ p = cc in
      let es : taken s i ≡ s' = cc in rw (← ep, ← es) (free-taken s i v b f h u)
]
