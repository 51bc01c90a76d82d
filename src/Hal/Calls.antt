-- ===== src/Hal/Calls.antt =====
-- Calls of the firmware, and the registers that the compiler picks (hal/rv64/sbicall.c).
use sysrv.Prelude.{ℕ, ◌%◌, ◌≡◌, ◌≢◌, ◌==◌, if◌then◌else◌, arith}
use sysrv.Word.{u32}
use sysrv.Hal.{Registers, legacy_ecall1, write_debug_char}

-- Where the compiler keeps the two operands in different registers, the firmware gets the byte of the
-- character as its argument, and the number of the console extension (1) unless the second operand is
-- in `a0`, where it gets the character for it. The result is that of the firmware if the first operand
-- is in `a0`; in `a7` it is what was given for the extension, and elsewhere the character.
pub write_debug_char_lem :
    (firmware : ℕ → ℕ → ℕ) (a0_in a7_in : ℕ) (x : Registers) (c : ℕ)
    → a0_in ≢ a7_in
    → ((write_debug_char firmware a0_in a7_in x c).argument ≡ c % 256)
      × ((write_debug_char firmware a0_in a7_in x c).extension
          ≡ (if a7_in == 10 then c % 256 else 1))
      × ((write_debug_char firmware a0_in a7_in x c).result ≡ (
          if a0_in == 10
          then u32 (firmware (if a7_in == 10 then c % 256 else 1) (c % 256))
          else if a0_in == 17
          then (if a7_in == 10 then c % 256 else 1)
          else c % 256))
unfolding write_debug_char legacy_ecall1
write_debug_char_lem firmware a0_in a7_in x c d = (ground arith, ground arith, ground arith)
