-- ===== src/Entry/Tests.antt =====
-- A boot with a small image at 0x80200000 (kernel/boot/rv64/start.s).
use sysrv.Prelude.{
  ℕ, ◌+◌, ◌*◌, ◌/◌, ◌%◌, ◌^◌, ◌≡◌, refl, Option, none, some, done, ◌==◌, if◌then◌else◌, arith,
}
use sysrv.Memory.{Memory}
use sysrv.Rv64.{Machine}
use sysrv.Sv39.{walk_page_table}
use sysrv.Sv39.Walk.{sv39, entry_at, page_of}
use sysrv.Entry.{Symbols, Links, boot_map_virt_to_phys, start}
use sysrv.Entry.Map.{Mapped, boot_map_virt_to_phys-Mapped}
use sysrv.Entry.Tables.{CanPage, paged}
use sysrv.Entry.Reach.{walk_page_table-paged}
use sysrv.Entry.View.{Translates, CanEnter}
use sysrv.Entry.Enter.{Calls, start-Calls}

abbrev pub symbols : Symbols
symbols = record {
  boot_info = 0x80200200;
  boot_root_page_table = 0x80201000;
  boot_start = 0x80200000;
  kernel_stack_top = 0xFFFFFFFF80300000;
  kernel_physical_start = 0x80200000;
  physical_memory_start = 0x80000000;
}

abbrev pub links : Links
links = record { identity = 0x80200020; high = 0x80200040; init = 0x80200090 }

abbrev pub clear : Memory
clear a = some 0

-- Hart 0, with the device tree at 0x82000000.
abbrev pub at_reset : Machine
at_reset = record { regs = λ r. if r == 11 then 0x82000000 else 0; words = clear; csrs = λ c. 0 }

-- A call of the mapping function for the address 0xFFFFFFFF80200000.
abbrev at_call : Machine
at_call = record at_reset {
  regs = λ r. if r == 10 then 0x80201000 else if r == 11 then 0x80200000 else 0xFFFFFFFF80200000;
}

-- A processor that knows gigapages only.
abbrev seen_by : Memory → ℕ → Option ℕ → Option ℕ
seen_by m va none = none
seen_by m va (some pte) = m (page_of pte + va % 2 ^ 30)

abbrev pub gigapages : ℕ → Memory → Memory
gigapages satp m va = seen_by m va (m (entry_at va 2 (satp % 2 ^ 44 * 2 ^ 12)))

pub gigapages-Translates : Translates gigapages
gigapages-Translates = record {
  at_leaf = λ m root va pte z below canonical w e valid readable writable page.
      let same : (8 * 2 ^ 60 + root / 2 ^ 12) % 2 ^ 44 * 2 ^ 12 ≡ root = omega arith in
      rw (same, e) refl;
}

pub clear-CanPage : CanPage symbols clear
clear-CanPage = record {
  at_page = refl;
  root_fits = omega arith;
  in_gigapage = refl;
  is_clear = λ i l. refl;
}

pub clear-CanEnter : CanEnter symbols 0x2FFFF8 clear
clear-CanEnter = record {
  can_page = clear-CanPage;
  info_first = refl;
  info_last = refl;
  info_aligned = refl;
  info_mapped = λ o l z. (0, refl);
  stack_top = refl;
  stack_fits = omega arith;
  stack_aligned = refl;
  stack_mapped = (0, refl);
}

boot_map_virt_to_phys-Mapped_example :
    Mapped 0x80201000 0x80200000 0xFFFFFFFF80200000 at_call (boot_map_virt_to_phys at_call)
boot_map_virt_to_phys-Mapped_example =
    boot_map_virt_to_phys-Mapped 0x80201000 0x80200000 0xFFFFFFFF80200000 0 at_call refl refl refl
      refl (omega arith) (omega arith) refl

abbrev high_entry : ℕ
high_entry = 0x80201FF0

walk_page_table-paged_example :
    walk_page_table sv39 (paged symbols clear) 0x80201000 0xFFFFFFFF80312345 ≡ done high_entry
walk_page_table-paged_example =
    walk_page_table-paged sv39 symbols clear 0xFFFFFFFF80312345 refl clear-CanPage

start-Calls_example : Calls symbols links at_reset (start gigapages symbols links at_reset)
start-Calls_example =
    start-Calls gigapages symbols links 0x2FFFF8 at_reset gigapages-Translates clear-CanEnter refl
