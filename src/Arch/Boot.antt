-- ===== src/Arch/Boot.antt =====
-- What the start of the kernel comes to (kernel/arch/rv64/init.c).
use sysrv.Prelude.{
  Holds, Holds-if, Holds-bind, Holds-any, ℕ, ◌≡◌, refl, subst, List, none, done, fault,
}
use sysrv.Memory.{Memory}
use sysrv.Kpalloc.{Kpalloc, init_page_allocator}
use sysrv.Kstdio.{kprintf}
use sysrv.Hal.{Csrs, install_trap_handler}
use sysrv.Fdt.{Fdt, FdtNode, init, get_memory_size, load32}
use sysrv.Arch.{device_tree_invalid, BootInfo, Image, Booted, mark_regions, start_memory, arch_init}

-- The device tree was refused, with the trap handler in place.
abbrev IsRefused : ℕ → Booted → Type 0
IsRefused handler b = (b.result ≡ device_tree_invalid) × (b.csrs.stvec ≡ handler)

load32_null : (m : Memory) → m 0 ≡ none → load32 m 0 ≡ fault
unfolding load32
load32_null m e = rw e refl

module _ (fuel : ℕ) (m : Memory) (words : ℕ → ℕ) (image : Image) (boot_info : BootInfo)
    (e : m 0 ≡ none) where
  start_memory-Holds :
      (fdt : Fdt) (csrs : Csrs) (output : List ℕ)
      → Holds
          (IsRefused image.trap_handler)
          (start_memory fuel m words image boot_info fdt csrs output)
  unfolding start_memory
  start_memory-Holds fdt csrs output =
      Holds-bind (λ _. Unit {0}) _ (get_memory_size fuel m fdt image.memory_name image.reg) _
        (Holds-any _)
        (λ size _.
          Holds-bind (λ _. Unit {0}) _ (kprintf fuel m image.detected _) _ (Holds-any _)
            (λ _ _.
              Holds-bind (λ _. Unit {0}) _ (init_page_allocator words fdt.heap _ size) _
                (Holds-any _)
                (λ (heap, kpalloc) _.
                  Holds-bind (λ _. Unit {0}) _ (mark_regions m image boot_info fdt kpalloc) _
                    (Holds-any _) (λ _ _. rw (load32_null m e) tt))))

  arch_init-Holds :
      (found : ℕ → FdtNode) (fdt : Fdt) (kpalloc : Kpalloc) (csrs : Csrs)
      → Holds
          (IsRefused image.trap_handler)
          (arch_init fuel m words found image boot_info fdt kpalloc csrs)
  unfolding arch_init install_trap_handler
  arch_init-Holds found fdt kpalloc csrs =
      Holds-bind (λ _. Unit {0}) _ (kprintf fuel m image.bringing_up _) _ (Holds-any _)
        (λ (output, n) _.
          Holds-bind (λ _. Unit {0}) _ (init fuel m found boot_info.fdt_ptr fdt) _ (Holds-any _)
            (λ (ok, fdt') _.
              Holds-if (IsRefused image.trap_handler) ok _ _ (start_memory-Holds fdt' _ output)
                (refl, refl)))

-- Where the byte at NULL cannot be read, the only way in which `srv_arch_Init` gets to its end is that
-- it refuses the device tree, with the trap handler installed: with a device tree it accepts it never
-- reaches `kmain`.
pub arch_init_stops :
    (fuel : ℕ) (m : Memory) (words : ℕ → ℕ) (found : ℕ → FdtNode) (image : Image)
    (boot_info : BootInfo) (fdt : Fdt) (kpalloc : Kpalloc) (csrs : Csrs) (b : Booted)
    → m 0 ≡ none
    → arch_init fuel m words found image boot_info fdt kpalloc csrs ≡ done b
    → (b.result ≡ device_tree_invalid) × (b.csrs.stvec ≡ image.trap_handler)
arch_init_stops fuel m words found image boot_info fdt kpalloc csrs b e r =
    subst (Holds (IsRefused image.trap_handler)) r
      (arch_init-Holds fuel m words image boot_info e found fdt kpalloc csrs)
