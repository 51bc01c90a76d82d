-- ===== src/Panic.antt =====
-- kernel/panic.c: what a panic writes. The string constants are addresses in the memory; that the
-- function then spins for ever is a normal end here.
pub mod Lines
pub mod Dump
pub mod Wrapper
pub mod Tests
use sysrv.Prelude.{ℕ, List, [], ◌∷◌, ◌++◌, Outcome, done, ◌>>=◌}
use sysrv.Memory.{Memory}
use sysrv.Kstdio.{kprintf}
use sysrv.Cpu.{CpuContext, Cpus, get_current_context_struct}

-- Where the nine format strings stand, in their order.
pub record Formats : Type 0 where
  pub panic_line : ℕ
  pub ra_line : ℕ
  pub t0_line : ℕ
  pub s1_line : ℕ
  pub a3_line : ℕ
  pub a7_line : ℕ
  pub s5_line : ℕ
  pub s9_line : ℕ
  pub t4_line : ℕ

-- The calls of `kprintf` that dump the registers: format and arguments.
abbrev pub dump_calls : Formats → CpuContext → List (ℕ × List ℕ)
dump_calls f c =
    (f.ra_line, c.ra ∷ c.sp ∷ c.gp ∷ c.tp ∷ [])
    ∷ (f.t0_line, c.t0 ∷ c.t1 ∷ c.t2 ∷ c.s0 ∷ [])
    ∷ (f.s1_line, c.s1 ∷ c.a0 ∷ c.a1 ∷ c.a2 ∷ [])
    ∷ (f.a3_line, c.a3 ∷ c.a4 ∷ c.a5 ∷ c.a6 ∷ [])
    ∷ (f.a7_line, c.a7 ∷ c.s2 ∷ c.s3 ∷ c.s4 ∷ [])
    ∷ (f.s5_line, c.s5 ∷ c.s6 ∷ c.s7 ∷ c.s8 ∷ [])
    ∷ (f.s9_line, c.s9 ∷ c.s10 ∷ c.s11 ∷ c.t3 ∷ [])
    ∷ (f.t4_line, c.t4 ∷ c.t5 ∷ c.t6 ∷ [])
    ∷ []

-- The calls one after the other: the bytes written.
unfoldable pub print_calls : ℕ → Memory → List (ℕ × List ℕ) → Outcome (List ℕ)
print_calls fuel m [] = done []
print_calls fuel m ((format, args) ∷ calls) = do
  (line, n) ← kprintf fuel m format args
  rest ← print_calls fuel m calls
  done (line ++ rest)

-- `srv_KernelPanic` on processor `cpu_num`, up to the loop at its end.
unfoldable pub kernel_panic : ℕ → Memory → Formats → ℕ → ℕ → Cpus → Outcome (List ℕ)
kernel_panic fuel m f cpu_num cause cpus = do
  (line, n) ← kprintf fuel m f.panic_line (cpu_num ∷ cause ∷ [])
  context ← get_current_context_struct cpu_num cpus
  dump ← print_calls fuel m (dump_calls f context)
  done (line ++ dump)
