-- ===== src/Entry.antt =====
-- kernel/boot/rv64/start.s: from the firmware to the call of `srv_arch_Init`. How the running code sees
-- the memory once `satp` is set is a parameter: it follows from the root table and the architecture.
pub mod Map
pub mod Tables
pub mod Reach
pub mod View
pub mod Enter
pub mod Boot
pub mod Tests
use sysrv.Prelude.{ℕ, List, [], ◌∷◌, Outcome, done, ◌>>=◌, ◌==◌, if◌then◌else◌}
use sysrv.Memory.{Memory}
use sysrv.Rv64.{Instr, addi, add, or, andi, srli, slli, li, mv, sd, ld, csrw, Machine, set_reg, run}
use sysrv.Rv64.Reg
use sysrv.Trap.{negative}

-- `__boot_map_virt_to_phys`, up to `jr ra`.
abbrev pub map_code : List Instr
map_code =
    srli Reg.t0 Reg.a2 30
    ∷ andi Reg.t0 Reg.t0 0x1FF
    ∷ srli Reg.t1 Reg.a1 30
    ∷ slli Reg.t1 Reg.t1 28
    ∷ li Reg.t2 0xF
    ∷ or Reg.t1 Reg.t1 Reg.t2
    ∷ slli Reg.t0 Reg.t0 3
    ∷ add Reg.t0 Reg.a0 Reg.t0
    ∷ sd Reg.t1 0 Reg.t0
    ∷ []

unfoldable pub boot_map_virt_to_phys : Machine → Outcome Machine
boot_map_virt_to_phys s = run map_code s

-- The addresses that the linker gives to the symbols of the file.
pub record Symbols : Type 0 where
  pub boot_info : ℕ
  pub boot_root_page_table : ℕ
  pub boot_start : ℕ
  pub kernel_stack_top : ℕ
  pub kernel_physical_start : ℕ
  pub physical_memory_start : ℕ

-- Where the three calls of `_start` return to.
pub record Links : Type 0 where
  pub identity : ℕ
  pub high : ℕ
  pub init : ℕ

-- The code of `_start` between its branch and its calls.
abbrev pub first_code : List Instr
first_code = li Reg.t0 0 ∷ mv Reg.tp Reg.a0 ∷ []

abbrev pub identity_code : Symbols → List Instr
identity_code symbols =
    mv Reg.t6 Reg.a1
    ∷ li Reg.a0 symbols.boot_root_page_table
    ∷ li Reg.a1 symbols.boot_start
    ∷ mv Reg.a2 Reg.a1
    ∷ []

abbrev pub high_code : Symbols → List Instr
high_code symbols =
    li Reg.a0 symbols.boot_root_page_table
    ∷ li Reg.a1 symbols.boot_start
    ∷ li Reg.a2 0xFFFFFFFF00000000
    ∷ add Reg.a2 Reg.a2 Reg.a1
    ∷ []

abbrev pub satp_code : List Instr
satp_code =
    srli Reg.a0 Reg.a0 12
    ∷ li Reg.t1 8
    ∷ slli Reg.t1 Reg.t1 60
    ∷ or Reg.a0 Reg.a0 Reg.t1
    ∷ csrw Reg.satp Reg.a0
    ∷ []

abbrev pub enter_code : Symbols → List Instr
enter_code symbols =
    li Reg.a0 symbols.boot_info
    ∷ li Reg.t0 symbols.kernel_physical_start
    ∷ li Reg.t1 symbols.physical_memory_start
    ∷ sd Reg.t0 0 Reg.a0
    ∷ sd Reg.t1 8 Reg.a0
    ∷ sd Reg.t6 16 Reg.a0
    ∷ sd Reg.t1 24 Reg.a0
    ∷ li Reg.t0 symbols.kernel_stack_top
    ∷ mv Reg.sp Reg.t0
    ∷ addi Reg.sp Reg.sp (negative 8)
    ∷ sd Reg.a0 0 Reg.sp
    ∷ ld Reg.a0 0 Reg.sp
    ∷ []

-- How `_start` ends: at the loop of the other harts, or in the call of `srv_arch_Init`.
pub data Entered : Type 0 where
  parked : Machine → Entered
  calls_init : Machine → Entered

-- The page tables and `satp`, on hart 0.
unfoldable pub start_paging : Symbols → Links → Machine → Outcome Machine
start_paging symbols links s = do
  s1 ← run (identity_code symbols) s
  s2 ← boot_map_virt_to_phys (set_reg Reg.ra links.identity s1)
  s3 ← run (high_code symbols) s2
  s4 ← boot_map_virt_to_phys (set_reg Reg.ra links.high s3)
  run satp_code s4

-- `_start`: `view satp words` is the memory as the code sees it when `satp` is set.
unfoldable pub start : (ℕ → Memory → Memory) → Symbols → Links → Machine → Outcome Entered
start view symbols links s = do
  s1 ← run first_code s
  if s1.regs Reg.a0 == s1.regs Reg.t0
      then (do
        s2 ← start_paging symbols links s1
        s3 ← run (enter_code symbols) (record s2 { words = view (s2.csrs Reg.satp) s2.words })
        done (calls_init (set_reg Reg.ra links.init s3)))
      else done (parked s1)
