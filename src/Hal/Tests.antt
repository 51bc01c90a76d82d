-- ===== src/Hal/Tests.antt =====
-- The switches and a call at concrete registers (hal/rv64/irq.c, hal/rv64/sbicall.c).
use sysrv.Prelude.{ℕ, ◌+◌, ◌*◌, ◌%◌, ◌≡◌, ◌==◌, if◌then◌else◌, arith}
use sysrv.Word.{u32}
use sysrv.Hal.{Csrs, Registers, write_debug_char}
use sysrv.Hal.Calls.{write_debug_char_lem}

abbrev masked : Csrs
masked = record { sstatus = 0x100; stvec = 0 }

abbrev firmware : ℕ → ℕ → ℕ
firmware eid argument = eid * 1000 + argument

abbrev cleared : Registers
cleared _ = 0

write_debug_char_lem_example :
    ((write_debug_char firmware 15 14 cleared b'A').argument ≡ b'A' % 256)
    × ((write_debug_char firmware 15 14 cleared b'A').extension
        ≡ (if 14 == 10 then b'A' % 256 else 1))
    × ((write_debug_char firmware 15 14 cleared b'A').result ≡ (
        if 15 == 10
        then u32 (firmware (if 14 == 10 then b'A' % 256 else 1) (b'A' % 256))
        else if 15 == 17
        then (if 14 == 10 then b'A' % 256 else 1)
        else b'A' % 256))
write_debug_char_lem_example = write_debug_char_lem firmware 15 14 cleared b'A' (omega arith)
