-- ===== src/Entry/Boot.antt =====
-- From the firmware through `srv_arch_Init` (kernel/boot/rv64/start.s, kernel/arch/rv64/init.c).
pub mod Stops
mod Tests
use sysrv.Prelude.{ℕ, List, [], ◌∷◌, Option, none, some, Outcome, done, ◌>>=◌, get_or}
use sysrv.Memory.{Memory}
use sysrv.Rv64.{Machine}
use sysrv.Rv64.Reg
use sysrv.Kpalloc.{Kpalloc}
use sysrv.Hal.{Csrs}
use sysrv.Fdt.{Fdt, FdtNode}
use sysrv.Arch.{BootInfo, Image, Booted, arch_init}
use sysrv.Trap.{load_words}
use sysrv.Entry.{Symbols, Links, Entered, parked, calls_init, start}

-- The layout of `srv_boot_info_t`: its four fields in their order.
abbrev pub boot_info_of : List ℕ → BootInfo
boot_info_of ws = record {
  kernel_physical_address = get_or ws 0 0;
  kernel_load_offset = get_or ws 1 0;
  fdt_ptr = get_or ws 2 0;
  physical_memory_base = get_or ws 3 0;
}

unfoldable pub boot_info_at : Memory → ℕ → Outcome BootInfo
boot_info_at m p = do ws ← load_words 4 m p; done (boot_info_of ws)

-- What the C code is run with: rounds, the bytes that it sees, and what its memory holds at first.
pub record Surroundings : Type 0 where
  pub fuel : ℕ
  pub bytes : Memory
  pub words : ℕ → ℕ
  pub found : ℕ → FdtNode
  pub image : Image
  pub fdt : Fdt
  pub kpalloc : Kpalloc

-- The call of `srv_arch_Init`; another hart stays in its loop.
unfoldable pub call_init : Surroundings → Entered → Outcome (Option Booted)
call_init c (parked s) = done none
call_init c (calls_init s) = do
  info ← boot_info_at s.words (s.regs Reg.a0)
  let csrs : Csrs = record { sstatus = s.csrs Reg.sstatus; stvec = s.csrs Reg.stvec }
  b ← arch_init c.fuel c.bytes c.words c.found c.image info c.fdt c.kpalloc csrs
  done (some b)

-- `_start`, and `srv_arch_Init` behind it.
unfoldable pub boot :
    (ℕ → Memory → Memory) → Symbols → Links → Surroundings → Machine → Outcome (Option Booted)
boot view symbols links c s = start view symbols links s >>= call_init c
