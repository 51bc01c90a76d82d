-- ===== src/Trap.antt =====
-- hal/rv64/context.s and kernel/arch/rv64/trap.s: the entry of a trap. What the compiled C functions do
-- to the registers is a parameter; what they do to the saved registers of the processors is the
-- model of hal/rv64/cpu.c and kernel/arch/rv64/exception.c. `sret` ends a run.
pub mod Frame
pub mod Save
pub mod Lost
pub mod Report
mod Tests
use sysrv.Prelude.{ℕ, zero, suc, ◌+◌, ◌-◌, ◌^◌, List, [], ◌∷◌, Outcome, done, ◌>>=◌, get_or, ◌==◌}
use sysrv.Word.{u32}
use sysrv.Memory.{Memory}
use sysrv.Cpu.{CpuContext, Cpus, save_context, Causes, exception_handler}
use sysrv.Rv64.{Instr, addi, mv, sd, ld, csrr, Machine, set_reg, load_word, run}
use sysrv.Rv64.Reg

-- A negative immediate.
abbrev pub negative : ℕ → ℕ
negative n = 2 ^ 64 - n

-- `srv_hal_SaveCPUContext` up to its call.
abbrev pub save_code : List Instr
save_code =
    addi Reg.sp Reg.sp (negative 288)
    ∷ sd Reg.zero 0 Reg.sp
    ∷ sd Reg.ra 8 Reg.sp
    ∷ sd Reg.t0 40 Reg.sp
    ∷ addi Reg.t0 Reg.sp 288
    ∷ sd Reg.t0 16 Reg.sp
    ∷ sd Reg.gp 24 Reg.sp
    ∷ sd Reg.tp 32 Reg.sp
    ∷ sd Reg.t1 48 Reg.sp
    ∷ sd Reg.t2 56 Reg.sp
    ∷ sd Reg.s0 64 Reg.sp
    ∷ sd Reg.s1 72 Reg.sp
    ∷ sd Reg.a0 80 Reg.sp
    ∷ sd Reg.a1 88 Reg.sp
    ∷ sd Reg.a2 96 Reg.sp
    ∷ sd Reg.a3 104 Reg.sp
    ∷ sd Reg.a4 112 Reg.sp
    ∷ sd Reg.a5 120 Reg.sp
    ∷ sd Reg.a6 128 Reg.sp
    ∷ sd Reg.a7 136 Reg.sp
    ∷ sd Reg.s2 144 Reg.sp
    ∷ sd Reg.s3 152 Reg.sp
    ∷ sd Reg.s4 160 Reg.sp
    ∷ sd Reg.s5 168 Reg.sp
    ∷ sd Reg.s6 176 Reg.sp
    ∷ sd Reg.s7 184 Reg.sp
    ∷ sd Reg.s8 192 Reg.sp
    ∷ sd Reg.s9 200 Reg.sp
    ∷ sd Reg.s10 208 Reg.sp
    ∷ sd Reg.s11 216 Reg.sp
    ∷ sd Reg.t3 224 Reg.sp
    ∷ sd Reg.t4 232 Reg.sp
    ∷ sd Reg.t5 240 Reg.sp
    ∷ sd Reg.t6 248 Reg.sp
    ∷ csrr Reg.t0 Reg.sepc
    ∷ csrr Reg.t1 Reg.scause
    ∷ csrr Reg.t2 Reg.stval
    ∷ csrr Reg.t3 Reg.sstatus
    ∷ sd Reg.t0 256 Reg.sp
    ∷ sd Reg.t1 264 Reg.sp
    ∷ sd Reg.t2 272 Reg.sp
    ∷ sd Reg.t3 280 Reg.sp
    ∷ mv Reg.a0 Reg.sp
    ∷ []

-- `srv_hal_SaveCPUContext` behind its call.
abbrev pub return_code : List Instr
return_code = ld Reg.ra 8 Reg.sp ∷ addi Reg.sp Reg.sp 288 ∷ []

-- The `count` words from `p` on.
unfoldable pub load_words : ℕ → Memory → ℕ → Outcome (List ℕ)
load_words zero m p = done []
load_words (suc count) m p = do v ← load_word m p; vs ← load_words count m (p + 8); done (v ∷ vs)

-- The layout of `srv_cpu_context_t`: its 36 fields in their order.
abbrev pub context_of : List ℕ → CpuContext
context_of ws = record {
  x0 = get_or ws 0 0;
  ra = get_or ws 1 0;
  sp = get_or ws 2 0;
  gp = get_or ws 3 0;
  tp = get_or ws 4 0;
  t0 = get_or ws 5 0;
  t1 = get_or ws 6 0;
  t2 = get_or ws 7 0;
  s0 = get_or ws 8 0;
  s1 = get_or ws 9 0;
  a0 = get_or ws 10 0;
  a1 = get_or ws 11 0;
  a2 = get_or ws 12 0;
  a3 = get_or ws 13 0;
  a4 = get_or ws 14 0;
  a5 = get_or ws 15 0;
  a6 = get_or ws 16 0;
  a7 = get_or ws 17 0;
  s2 = get_or ws 18 0;
  s3 = get_or ws 19 0;
  s4 = get_or ws 20 0;
  s5 = get_or ws 21 0;
  s6 = get_or ws 22 0;
  s7 = get_or ws 23 0;
  s8 = get_or ws 24 0;
  s9 = get_or ws 25 0;
  s10 = get_or ws 26 0;
  s11 = get_or ws 27 0;
  t3 = get_or ws 28 0;
  t4 = get_or ws 29 0;
  t5 = get_or ws 30 0;
  t6 = get_or ws 31 0;
  sepc = get_or ws 32 0;
  scause = get_or ws 33 0;
  stval = get_or ws 34 0;
  sstatus = get_or ws 35 0;
}

unfoldable pub context_at : Memory → ℕ → Outcome CpuContext
context_at m p = do ws ← load_words 36 m p; done (context_of ws)

-- `srv_hal_SaveCPUContext`: `compiled` is the code of `hal_SaveContextToProcControlBlock`, and `here` is
-- where that returns to.
unfoldable pub save_cpu_context :
    (Machine → Outcome Machine) → ℕ → Machine → Cpus → Outcome (Machine × Cpus)
save_cpu_context compiled here s cpus = do
  s1 ← run save_code s
  context ← context_at s1.words (s1.regs Reg.a0)
  cpus' ← save_context (u32 (s1.regs Reg.tp)) context cpus
  s2 ← compiled (set_reg Reg.ra here s1)
  s3 ← run return_code s2
  done (s3, cpus')

-- Where the three calls on the way of a trap return to.
pub record Returns : Type 0 where
  pub in_save : ℕ
  pub after_save : ℕ
  pub after_handler : ℕ

-- The code of the two C functions.
pub record Compiled : Type 0 where
  pub save : Machine → Outcome Machine
  pub handler : Machine → Outcome Machine

-- `trap_handler`, from the first instruction to `sret`.
unfoldable pub trap_handler :
    Compiled → Returns → Causes → Machine → Cpus → Outcome (Machine × Cpus)
trap_handler compiled returns causes s cpus = do
  (s1, cpus') ←
      save_cpu_context compiled.save returns.in_save (set_reg Reg.ra returns.after_save s) cpus
  handled ← exception_handler causes (u32 (s1.regs Reg.tp)) cpus'
  s2 ← compiled.handler (set_reg Reg.ra returns.after_handler s1)
  done (s2, cpus')
