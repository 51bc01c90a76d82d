-- ===== src/Arch/Pages.antt =====
-- The pages that the start of the kernel leaves to the page allocator (kernel/arch/rv64/init.c).
use sysrv.Prelude.{
  ℕ, ◌+◌, ◌*◌, ◌/◌, ◌%◌, ◌<◌, ◌≡◌, Bool, false, List, [], ◌∷◌, ◌⊎◌, inl, inr, done, length,
  if◌then◌else◌, Bool-cases, arith,
}
use sysrv.Word.Bits.{bit}
use sysrv.Kpalloc.{Kpalloc}
use sysrv.Kpalloc.Bitmap.{used}
use sysrv.Kpalloc.Alloc.{IsValid}
use sysrv.Kpalloc.Spare.{AreSpare, alloc_pages, alloc_pages-AreSpare}

-- The bitmap that the start leaves for the memory from `base` on: the regions are in use, and for the
-- rest it is as the memory at `p` was.
pub record HasPages (s : Kpalloc) (words : ℕ → ℕ) (base p pages : ℕ) (is_in_use : ℕ → Bool)
    : Type 0 where
  pub valid : IsValid s
  pub based : s.phys_base_address ≡ base
  pub covers : pages ≡ 64 * length s.page_bitmap
  pub bits :
      (j : ℕ)
      → j < pages
      → used s.page_bitmap j ≡ (if is_in_use j then 1 else bit (words (p + 8 * (j / 64))) (j % 64))

-- Each address is NULL or that of a page outside of the regions.
abbrev pub AreOutside : ℕ → (ℕ → Bool) → List ℕ → Type 0
AreOutside base is_in_use [] = Unit
AreOutside base is_in_use (p ∷ ps) =
    ((p ≡ 0) ⊎ ((i : ℕ) × (p ≡ base + 4096 * i) × (is_in_use i ≡ false)))
    × AreOutside base is_in_use ps

module _ (s : Kpalloc) (words : ℕ → ℕ) (base p pages : ℕ) (is_in_use : ℕ → Bool)
    (has : HasPages s words base p pages is_in_use) where
  free-is_in_use : (i : ℕ) → i < pages → used s.page_bitmap i ≡ 0 → is_in_use i ≡ false
  free-is_in_use i l f = elim (Bool-cases (is_in_use i)) [
    | inl e ↦ absurd (ground (arith, has.bits i l))
    | inr e ↦ e
  ]

  AreSpare-AreOutside : (ps : List ℕ) → AreSpare s ps → AreOutside base is_in_use ps
  AreSpare-AreOutside [] a = tt
  AreSpare-AreOutside (q ∷ ps) (inl z, a) = (inl z, AreSpare-AreOutside ps a)
  AreSpare-AreOutside (q ∷ ps) (inr (i, l, f, e), a) = (
    inr (i, omega (arith, has.based), free-is_in_use i (omega (arith, has.covers)) f),
    AreSpare-AreOutside ps a,
  )

  -- Whatever is allocated after the start lies outside of the regions.
  pub alloc_pages-AreOutside :
      (count : ℕ)
      → (ps : List ℕ) × (s' : Kpalloc) × (alloc_pages count s ≡ done (ps, s'))
        × (length ps ≡ count)
        × AreOutside base is_in_use ps
  alloc_pages-AreOutside count =
      let (ps, s', r, l, spare, _) = alloc_pages-AreSpare count s has.valid in
      (ps, s', r, l, AreSpare-AreOutside ps spare)
