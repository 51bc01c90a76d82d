-- ===== src/Arch/Regions.antt =====
-- Which pages the start of the kernel takes out of use (kernel/arch/rv64/init.c).
use sysrv.Prelude.{
  ◌∙◌, ℕ, ◌+◌, ◌*◌, ◌/◌, ◌≤◌, ◌<◌, ◌^◌, ◌≡◌, refl, sym, ◌&&◌, ◌||◌, Bool, done, length, ltb, leb,
  if◌then◌else◌, arith,
}
use sysrv.Word.{sub64}
use sysrv.Memory.{Memory}
use sysrv.Kpalloc.{Kpalloc}
use sysrv.Kpalloc.Bitmap.{used}
use sysrv.Kpalloc.Alloc.{IsValid}
use sysrv.Kpalloc.Region.{mark_region_unusable-Marked}
use sysrv.Fdt.{Fdt, read32, get_fdt_size}
use sysrv.Arch.{BootInfo, Image, kernel_region_base, round_fdt_size, mark_regions}

-- The pages of the device tree's blob are counted rounded up.
round_fdt_size_lem : (size : ℕ) → size < 2 ^ 32 → round_fdt_size size / 4096 ≡ (size + 4095) / 4096
unfolding round_fdt_size
round_fdt_size_lem size h = omega arith

abbrev pub kernel_start : Image → ℕ
kernel_start image = sub64 image.kernel_virtual_start kernel_region_base

abbrev pub kernel_length : Image → ℕ
kernel_length image = sub64 image.kernel_virtual_end image.kernel_virtual_start

abbrev pub is_within : ℕ → ℕ → ℕ → Bool
is_within lo count j = leb lo j && ltb j (lo + count)

-- The blob begins `r` bytes into page `i` and the kernel `q` bytes into page `k` of the memory, and
-- the pages that are counted for them lie in the bitmap.
pub record Lies (m : Memory) (image : Image) (boot_info : BootInfo) (base pages : ℕ) : Type 0 where
  pub size : ℕ
  pub i : ℕ
  pub r : ℕ
  pub k : ℕ
  pub q : ℕ
  pub size_at : read32 m (boot_info.fdt_ptr + 4) ≡ done size
  pub size_fits : size < 2 ^ 32
  pub blob_at : boot_info.fdt_ptr ≡ base + 4096 * i + r
  pub blob_in : r < 4096
  pub blob_first : i < pages
  pub blob_fits : i + (size + 4095) / 4096 ≤ pages
  pub kernel_at : kernel_start image ≡ base + 4096 * k + q
  pub kernel_in : q < 4096
  pub kernel_first : k < pages
  pub kernel_fits : k + kernel_length image / 4096 ≤ pages

-- The pages that are taken out of use.
abbrev pub is_taken :
    {m : Memory} {image : Image} {boot_info : BootInfo} {base pages : ℕ}
    → Lies m image boot_info base pages
    → ℕ
    → Bool
is_taken {image = image} l j =
    is_within l.i ((l.size + 4095) / 4096) j || is_within l.k (kernel_length image / 4096) j

-- In a valid allocator whose bitmap covers the blob of the device tree and the kernel, both regions
-- are marked: the pages from the one with the blob's first byte on, as many as its size rounded up,
-- and from the one with the kernel's first byte on, as many as its size rounded down, are in use, and
-- all others are as they were.
pub mark_regions_lem :
    (m : Memory) (image : Image) (boot_info : BootInfo) (fdt : Fdt) (s : Kpalloc) (pages : ℕ)
    (l : Lies m image boot_info s.phys_base_address pages)
    → pages ≡ 64 * length s.page_bitmap
    → IsValid s
    → fdt.fdt_info_block ≡ boot_info.fdt_ptr
    → (out : Kpalloc) × (mark_regions m image boot_info fdt s ≡ done out)
      × IsValid out
      × (length out.page_bitmap ≡ length s.page_bitmap)
      × (out.phys_base_address ≡ s.phys_base_address)
      × ((j : ℕ) → used out.page_bitmap j ≡ (if is_taken l j then 1 else used s.page_bitmap j))
unfolding mark_regions get_fdt_size
mark_regions_lem m image boot_info fdt s pages l all v e =
    let rounded = round_fdt_size_lem l.size l.size_fits in
    let a =
      mark_region_unusable-Marked s l.i l.r (round_fdt_size l.size) v l.blob_in
        (omega (arith, l.blob_first)) (omega (arith, l.blob_fits)) in
    let b =
      mark_region_unusable-Marked a.out l.k l.q (kernel_length image) a.valid l.kernel_in
        (omega (arith, l.kernel_first, a.same_length))
        (omega (arith, l.kernel_fits, a.same_length)) in
    let base : a.out.phys_base_address + 4096 * l.k + l.q ≡ kernel_start image =
      omega (arith, l.kernel_at, a.same_base) in
    (
      b.out,
      rw (e, l.size_at, l.blob_at, a.returns, sym base, b.returns) refl,
      b.valid,
      b.same_length ∙ a.same_length,
      b.same_base ∙ a.same_base,
      λ j. ground (arith, b.pages j, a.pages j),
    )
