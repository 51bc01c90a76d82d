-- ===== src/Hal.antt =====
-- hal/rv64/irq.c, hal/rv64/debug.c, hal/rv64/sbicall.c, and what hal/rv64/cpu.c does to a control
-- register: the functions of inline assembly, instruction by instruction. A parameter is the firmware
-- that answers `ecall`, and the compiler's choice of registers for the operands.
pub mod Interrupts
pub mod Calls
mod Tests
use sysrv.Prelude.{ℕ, ◌%◌, ◌^◌, bit_and, bit_or, ◌==◌, if◌then◌else◌}
use sysrv.Word.{u32, not64}

-- The control registers that the kernel writes.
pub record Csrs : Type 0 where
  pub sstatus : ℕ
  pub stvec : ℕ

-- `csrrsi` and `csrrci` without a result: the bits of a mask are set, or cleared.
abbrev csrrsi : ℕ → ℕ → ℕ
csrrsi csr mask = bit_or csr mask

abbrev csrrci : ℕ → ℕ → ℕ
csrrci csr mask = bit_and csr (not64 mask)

-- `srv_hal_EnableInterrupts`
unfoldable pub enable_interrupts : Csrs → Csrs
enable_interrupts csrs = record csrs { sstatus = csrrsi csrs.sstatus 1 }

-- `srv_hal_DisableInterrupts`
unfoldable pub disable_interrupts : Csrs → Csrs
disable_interrupts csrs = record csrs { sstatus = csrrci csrs.sstatus 1 }

-- `srv_hal_InstallTrapHandler`
unfoldable pub install_trap_handler : ℕ → Csrs → Csrs
install_trap_handler handler csrs = record csrs { stvec = handler }

-- The general registers of a processor, by number.
abbrev pub Registers : Type 0
Registers = ℕ → ℕ

abbrev write : ℕ → ℕ → Registers → Registers
write rd value x r = if r == rd then value else x r

-- `mv`
abbrev mv : ℕ → ℕ → Registers → Registers
mv rd rs x = write rd (x rs) x

-- What the firmware was given in `a7` and `a0`, and what the call returns.
pub record Called : Type 0 where
  pub extension : ℕ
  pub argument : ℕ
  pub result : ℕ

-- `ecall`: `a7` is register 17, `a0` is register 10, and the firmware writes `a0` only.
abbrev ecall : (ℕ → ℕ → ℕ) → Registers → Registers
ecall firmware x = write 10 (firmware (x 17) (x 10)) x

-- `sbicall_LegacyEcall1`, with its variables `a0` and `a7` in the registers that the compiler chose.
unfoldable pub legacy_ecall1 : (ℕ → ℕ → ℕ) → ℕ → ℕ → Registers → ℕ → ℕ → Called
legacy_ecall1 firmware a0_in a7_in x arg0 eid =
    let operands = write a7_in (u32 eid) (write a0_in (u32 arg0) x) in
    let given = mv 17 a7_in (mv 10 a0_in operands) in
    record { extension = given 17; argument = given 10; result = u32 (ecall firmware given a0_in) }

abbrev console_putchar : ℕ
console_putchar = 1

-- `srv_hal_WriteDebugChar`; a `char` is a byte.
unfoldable pub write_debug_char : (ℕ → ℕ → ℕ) → ℕ → ℕ → Registers → ℕ → Called
write_debug_char firmware a0_in a7_in x c =
    legacy_ecall1 firmware a0_in a7_in x (c % 2 ^ 8) console_putchar
