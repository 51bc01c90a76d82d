-- ===== src/Rv64.antt =====
-- The instructions of the RV64 processor that the assembly of the kernel is made of
-- (hal/rv64/context.s, kernel/arch/rv64/trap.s, kernel/boot/rv64/start.s). Memory is of 64-bit words at
-- multiples of 8; another address is a fault. A code is a list of instructions that run in order.
pub mod Reg
pub mod Stores
use sysrv.Prelude.{
  ℕ, ◌*◌, ◌/◌, ◌%◌, ◌^◌, ◌≤◌, ◌<◌, ◌+◌, ◌≡◌, Bool, true, ◌||◌, ◌&&◌, List, [], ◌∷◌, Outcome, done,
  fault, ◌>>=◌, ltb, leb, ◌==◌, if◌then◌else◌, bit_and, bit_or,
}
use sysrv.Word.{u64, add64}
use sysrv.Memory.{Memory, load, store}

-- Operands in the order of the assembler: `sd src offset base` is `sd src, offset(base)`. `la` loads an
-- address as `li` does, and so does `lui` of 0.
pub data Instr : Type 0 where
  addi : (rd rs imm : ℕ) → Instr
  add : (rd rs1 rs2 : ℕ) → Instr
  or : (rd rs1 rs2 : ℕ) → Instr
  andi : (rd rs imm : ℕ) → Instr
  srli : (rd rs shift : ℕ) → Instr
  slli : (rd rs shift : ℕ) → Instr
  li : (rd imm : ℕ) → Instr
  mv : (rd rs : ℕ) → Instr
  sd : (src offset base : ℕ) → Instr
  ld : (rd offset base : ℕ) → Instr
  csrr : (rd csr : ℕ) → Instr
  csrw : (csr rs : ℕ) → Instr

pub record Machine : Type 0 where
  pub regs : ℕ → ℕ
  pub words : Memory
  pub csrs : ℕ → ℕ

abbrev pub write_to : (ℕ → ℕ) → ℕ → ℕ → ℕ → ℕ
write_to x rd value r = if r == rd then value else x r

-- A write to register 0 is lost.
abbrev pub set_reg : ℕ → ℕ → Machine → Machine
set_reg rd value s = if rd == 0 then s else record s { regs = write_to s.regs rd value }

abbrev pub load_word : Memory → ℕ → Outcome ℕ
load_word m a = if a % 8 == 0 then load m a else fault

abbrev pub store_word : Memory → ℕ → ℕ → Outcome Memory
store_word m a v = if a % 8 == 0 then store m a v else fault

unfoldable pub step : Instr → Machine → Outcome Machine
step (addi rd rs imm) s = done (set_reg rd (add64 (s.regs rs) imm) s)
step (add rd rs1 rs2) s = done (set_reg rd (add64 (s.regs rs1) (s.regs rs2)) s)
step (or rd rs1 rs2) s = done (set_reg rd (bit_or (s.regs rs1) (s.regs rs2)) s)
step (andi rd rs imm) s = done (set_reg rd (bit_and (s.regs rs) imm) s)
step (srli rd rs shift) s = done (set_reg rd (s.regs rs / 2 ^ shift) s)
step (slli rd rs shift) s = done (set_reg rd (u64 (s.regs rs * 2 ^ shift)) s)
step (li rd imm) s = done (set_reg rd imm s)
step (mv rd rs) s = done (set_reg rd (s.regs rs) s)
step (sd src offset base) s = do
  words ← store_word s.words (add64 (s.regs base) offset) (s.regs src)
  done (record s { words = words })
step (ld rd offset base) s = do
  value ← load_word s.words (add64 (s.regs base) offset)
  done (set_reg rd value s)
step (csrr rd csr) s = done (set_reg rd (s.csrs csr) s)
step (csrw csr rs) s = done (record s { csrs = write_to s.csrs csr (s.regs rs) })

unfoldable pub run : List Instr → Machine → Outcome Machine
run [] s = done s
run (i ∷ code) s = step i s >>= run code

-- The registers that a called function leaves as they were: `zero`, `sp`, `gp`, `tp` and `s0` to `s11`.
abbrev pub is_saved : ℕ → Bool
is_saved r = r == 0 || (leb 2 r && leb r 4) || (leb 8 r && leb r 9) || (leb 18 r && leb r 27)

-- What the calling convention says of a function that was called in `s` and has returned in `s'`, to a
-- caller with `size` bytes on the stack that it may not write.
pub record Abi (size : ℕ) (s s' : Machine) : Type 0 where
  pub saved : (r : ℕ) → is_saved r ≡ true → s'.regs r ≡ s.regs r
  pub frame : (a : ℕ) → s.regs 2 ≤ a → a < s.regs 2 + size → s'.words a ≡ s.words a
