-- ===== src/Arch.antt =====
-- kernel/arch/rv64/init.c: the order in which the kernel comes up, and kernel/kmain.c behind it.
pub mod Boot
pub mod Regions
pub mod Pages
pub mod Start
mod StartTests
use sysrv.Prelude.{ℕ, ◌/◌, List, [], ◌∷◌, ◌++◌, Outcome, done, ◌>>=◌, if◌then◌else◌}
use sysrv.Word.{add64, sub64, mul64}
use sysrv.Memory.{Memory}
use sysrv.Kpalloc.{Kpalloc, srv_page_size, init_page_allocator, mark_region_unusable}
use sysrv.Kstdio.{kprintf}
use sysrv.Hal.{Csrs, install_trap_handler}
use sysrv.Fdt.{Fdt, FdtNode, init, get_fdt_size, get_memory_size, load32}

-- `srv_arch_init_result_t`. As `kmain` does not return, neither does a start that reaches it.
pub data InitResult : Type 0 where
  success device_tree_invalid in_kmain : InitResult

-- `srv_boot_info_t`
pub record BootInfo : Type 0 where
  pub kernel_physical_address : ℕ
  pub kernel_load_offset : ℕ
  pub fdt_ptr : ℕ
  pub physical_memory_base : ℕ

-- Where the string constants of the kernel stand, and the linker symbols of its image.
pub record Image : Type 0 where
  pub bringing_up : ℕ
  pub detected : ℕ
  pub hello : ℕ
  pub memory_name : ℕ
  pub reg : ℕ
  pub trap_handler : ℕ
  pub kernel_virtual_start : ℕ
  pub kernel_virtual_end : ℕ

-- What is reached: the result, the device tree, the page allocator, the control registers, and the
-- bytes written.
pub record Booted : Type 0 where
  pub result : InitResult
  pub fdt : Fdt
  pub kpalloc : Kpalloc
  pub csrs : Csrs
  pub output : List ℕ

-- `SRV_PAGING_KERNEL_REGION_BASE`
abbrev pub kernel_region_base : ℕ
kernel_region_base = 0xFFFFFFFF00000000

-- The size of the device tree, in whole pages.
unfoldable pub round_fdt_size : ℕ → ℕ
round_fdt_size size = mul64 (sub64 (add64 size srv_page_size) 1 / srv_page_size) srv_page_size

-- The two regions that are marked, that of the device tree and that of the kernel.
unfoldable pub mark_regions : Memory → Image → BootInfo → Fdt → Kpalloc → Outcome Kpalloc
mark_regions m image boot_info fdt kpalloc = do
  size ← get_fdt_size m fdt
  kpalloc' ← mark_region_unusable kpalloc boot_info.fdt_ptr (round_fdt_size size)
  mark_region_unusable kpalloc' (sub64 image.kernel_virtual_start kernel_region_base)
      (sub64 image.kernel_virtual_end image.kernel_virtual_start)

-- `srv_arch_Init` once the device tree has been read.
unfoldable pub start_memory :
    ℕ → Memory → (ℕ → ℕ) → Image → BootInfo → Fdt → Csrs → List ℕ → Outcome Booted
start_memory fuel m words image boot_info fdt csrs output = do
  memory_size ← get_memory_size fuel m fdt image.memory_name image.reg
  (detected, n) ← kprintf fuel m image.detected (memory_size ∷ boot_info.physical_memory_base ∷ [])
  (heap, kpalloc) ← init_page_allocator words fdt.heap boot_info.physical_memory_base memory_size
  kpalloc' ← mark_regions m image boot_info fdt kpalloc
  test ← load32 m 0
  (hello, n') ← kprintf fuel m image.hello []
  done (record {
    result = in_kmain;
    fdt = record fdt { heap = heap };
    kpalloc = kpalloc';
    csrs = csrs;
    output = output ++ detected ++ hello;
  })

-- `srv_arch_Init`. `words` and `found` give what fresh memory of the eternal heap holds.
unfoldable pub arch_init :
    ℕ → Memory → (ℕ → ℕ) → (ℕ → FdtNode) → Image → BootInfo → Fdt → Kpalloc → Csrs → Outcome Booted
arch_init fuel m words found image boot_info fdt kpalloc csrs = do
  (output, n) ← kprintf fuel m image.bringing_up []
  let csrs' = install_trap_handler image.trap_handler csrs
  (fdt_init_ok, fdt') ← init fuel m found boot_info.fdt_ptr fdt
  if fdt_init_ok
      then start_memory fuel m words image boot_info fdt' csrs' output
      else done (record {
        result = device_tree_invalid;
        fdt = fdt';
        kpalloc = kpalloc;
        csrs = csrs';
        output = output;
      })
