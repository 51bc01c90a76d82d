-- ===== src/Hal/Interrupts.antt =====
-- What the switches of hal/rv64/irq.c do to the status register.
use sysrv.Prelude.{ℕ, ◌-◌, ◌<◌, ◌≡◌, ◌^◌, ◌==◌, if◌then◌else◌, arith}
use sysrv.Word.Bits.{bit, bit-bit_or, bit-bit_and, bit-two_pow, bit_complement, bit-le-one}
use sysrv.Hal.{Csrs, enable_interrupts, disable_interrupts}

-- Of the bits of `sstatus`, a 64-bit register, enabling sets bit 0 and disabling clears it, and
-- neither changes another bit: the interrupt enable, bit 1, stays what it was.
interrupts-bit :
    (csrs : Csrs) (i : ℕ)
    → i < 64
    → (bit (enable_interrupts csrs).sstatus i ≡ (if i == 0 then 1 else bit csrs.sstatus i))
      × (bit (disable_interrupts csrs).sstatus i ≡ (if i == 0 then 0 else bit csrs.sstatus i))
unfolding enable_interrupts disable_interrupts
interrupts-bit csrs i h = (
  ground (arith, bit-bit_or csrs.sstatus 1 i, bit-two_pow 0 i, bit-le-one csrs.sstatus i),
  ground (
    arith,
    bit-bit_and csrs.sstatus (2 ^ 64 - 1 - 1) i,
    bit_complement 64 1 i (omega arith) h,
    bit-two_pow 0 i,
    bit-le-one csrs.sstatus i,
  ),
)
