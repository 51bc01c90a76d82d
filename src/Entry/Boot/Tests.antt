-- ===== src/Entry/Boot/Tests.antt =====
-- A boot of hart 0 that the device tree ends (kernel/boot/rv64/start.s, kernel/arch/rv64/init.c).
use sysrv.Prelude.{
  ap, ℕ, ◌/◌, ◌%◌, ◌^◌, ◌≡◌, ◌∙◌, refl, inl, inr, true, Bool-cases, [], ◌∷◌, none, some, done,
  ◌>>=◌, get_elem?, ◌==◌, if◌then◌else◌, arith,
}
use sysrv.Memory.{Memory}
use sysrv.Rv64.{Machine}
use sysrv.Rv64.Reg
use sysrv.Sv39.{walk_page_table}
use sysrv.Sv39.Walk.{sv39}
use sysrv.Kpalloc.{Kpalloc}
use sysrv.Kstdio.{kprintf, printf_loop, turn}
use sysrv.Hal.{install_trap_handler}
use sysrv.Fdt.{Fdt, FdtNode, init, read32, load32}
use sysrv.Arch.{device_tree_invalid, Image, Booted, arch_init}
use sysrv.Entry.Tables.{paged}
use sysrv.Entry.Reach.{walk_page_table-paged}
use sysrv.Entry.Tests.{
  symbols, links, clear, at_reset, gigapages, gigapages-Translates, clear-CanPage, clear-CanEnter,
}
use sysrv.Entry.Boot.{Surroundings, boot}
use sysrv.Entry.Boot.Stops.{passed, csrs_in, boot-arch_init, boot_stops}

-- "up" at 0x80000000, and a zero word at 0x80000004.
abbrev bytes : Memory
bytes a =
    if a / 2 ^ 30 == 2
    then get_elem? (b'u' ∷ b'p' ∷ 0 ∷ 0 ∷ 0 ∷ 0 ∷ 0 ∷ 0 ∷ []) (a % 2 ^ 30)
    else none

abbrev image : Image
image = record {
  bringing_up = 0x80000000;
  detected = 0x80000000;
  hello = 0x80000000;
  memory_name = 0x80000000;
  reg = 0x80000000;
  trap_handler = 0xFFFFFFFF80201000;
  kernel_virtual_start = 0xFFFFFFFF80200000;
  kernel_virtual_end = 0xFFFFFFFF80300000;
}

abbrev no_fdt : Fdt
no_fdt = record {
  fdt_info_block = 0;
  root_node = 0;
  heap = record { curr_kalloc_eternal_address = 0x1000; kalloc_eternal_end = 0x2000 };
  nodes = λ _. none;
  node_properties = λ _. none;
}

abbrev no_pages : Kpalloc
no_pages = record {
  page_bitmap = [];
  free_pages = 0;
  phys_base_address = 0;
  bitmap_entry_count = 0;
}

abbrev no_node : FdtNode
no_node = record { parent = 0; children = []; properties = []; name = 0 }

abbrev refused : Booted
refused = record {
  result = device_tree_invalid;
  fdt = no_fdt;
  kpalloc = no_pages;
  csrs = record { sstatus = 0; stvec = 0xFFFFFFFF80201000 };
  output = b'u' ∷ b'p' ∷ [];
}

abbrev surroundings : Surroundings
surroundings = record {
  fuel = 4;
  bytes = bytes;
  words = λ _. 0;
  found = λ _. no_node;
  image = image;
  fdt = no_fdt;
  kpalloc = no_pages;
}

-- The firmware gives the address of the zero word.
abbrev machine : Machine
machine = record at_reset { regs = λ r. if r == 11 then 0x80000004 else 0 }

refused_runs :
    arch_init 4 bytes
      (λ _. 0)
      (λ _. no_node)
      image
      (passed symbols 0x80000004)
      no_fdt
      no_pages
      (csrs_in machine)
    ≡ done refused
unfolding install_trap_handler arch_init kprintf printf_loop turn init read32 load32
refused_runs = refl

boot_runs : boot gigapages symbols links surroundings machine ≡ done (some refused)
boot_runs =
    boot-arch_init gigapages symbols links 0x2FFFF8 surroundings machine gigapages-Translates
      clear-CanEnter refl
    ∙ ap (λ r. r >>= λ b. done (some b)) refused_runs

bytes_unmapped :
    (a : ℕ) → walk_page_table sv39 (paged symbols clear) 0x80201000 a ≡ done 0 → bytes a ≡ none
bytes_unmapped a e = elim (Bool-cases (a / 2 ^ 30 == 2)) [
  | inl t ↦
      let low : (a / 2 ^ 30 % 512 == 2) ≡ true = ground arith in
      let found = rw low at (walk_page_table-paged sv39 symbols clear a refl clear-CanPage) in cc
  | inr t ↦ rw t refl
]

boot_stops_example :
    (machine.regs Reg.a0 ≡ 0)
    × (refused.result ≡ device_tree_invalid)
    × (refused.csrs.stvec ≡ 0xFFFFFFFF80201000)
boot_stops_example =
    boot_stops gigapages symbols links 0x2FFFF8 sv39 surroundings machine refused
      gigapages-Translates clear-CanEnter refl bytes_unmapped boot_runs
