-- ===== src/Trap/Report.antt =====
-- A trap from its first instruction to what is done about it (kernel/arch/rv64/trap.s with
-- hal/rv64/context.s, hal/rv64/cpu.c, kernel/arch/rv64/exception.c and kernel/panic.c).
use sysrv.Prelude.{
  ℕ, ◌+◌, ◌%◌, ◌≤◌, ◌<◌, ◌^◌, ◌≡◌, refl, ◌∙◌, Bool, true, false, codes, List, [], ◌∷◌, ◌++◌, some,
  Outcome, done, panic, ◌>>=◌, length, get_elem?, get_elem?-set_self, get_elem?-below, set, ◌==◌,
  if◌then◌else◌, arith,
}
use sysrv.Word.{u32}
use sysrv.Word.Bits.{bit}
use sysrv.Memory.{Memory, IsString}
use sysrv.Kstdio.Pieces.{Prints}
use sysrv.Cpu.{CpuContext, Cpus, Causes, get_current_context_struct, exception_handler}
use sysrv.Cpu.Exception.{IsEnum, describe, exception_handler_lem}
use sysrv.Panic.{Formats, kernel_panic}
use sysrv.Panic.Lines.{panic_line, dump_lines, HasFormats}
use sysrv.Panic.Dump.{PrintsAll, kernel_panic-PrintsAll}
use sysrv.Rv64.{Machine, set_reg, is_saved}
use sysrv.Rv64.Reg
use sysrv.Rv64.Stores.{IsFrame}
use sysrv.Trap.{Compiled, Returns, save_cpu_context, trap_handler}
use sysrv.Trap.Frame.{context_in}
use sysrv.Trap.Save.{Conforms, Saved, save_cpu_context-Saved}

-- What is saved of the machine when the trap comes: the return address is that of the handler's `call`.
abbrev pub trapped : Returns → Machine → CpuContext
trapped returns s = context_in (set_reg Reg.ra returns.after_save s)

-- What a trap asks for: 288 bytes of stack, a processor within the array, and compiled functions that
-- keep to the calling convention.
pub record CanTrap (compiled : Compiled) (p : ℕ) (s : Machine) (cpus : Cpus) (old : CpuContext)
    : Type 0 where
  pub save : Conforms compiled.save p
  pub handler : Conforms compiled.handler (p + 288)
  pub at_sp : s.regs Reg.sp ≡ p + 288
  pub below : p + 288 < 2 ^ 64
  pub frame : IsFrame s.words p 288
  pub at_cpu : get_elem? cpus (u32 (s.regs Reg.tp)) ≡ some old

abbrev pub cpus_after : Returns → Machine → Cpus → Cpus
cpus_after returns s cpus = set cpus (u32 (s.regs Reg.tp)) (trapped returns s)

saves :
    (compiled : Compiled) (returns : Returns) (p : ℕ) (s : Machine) (cpus : Cpus) (old : CpuContext)
    → CanTrap compiled p s cpus old
    → Saved
        (u32 (s.regs Reg.tp))
        cpus
        (set_reg Reg.ra returns.after_save s)
        (save_cpu_context compiled.save returns.in_save (set_reg Reg.ra returns.after_save s) cpus)
saves compiled returns p s cpus old c =
    save_cpu_context-Saved compiled.save returns.in_save p (set_reg Reg.ra returns.after_save s)
      cpus old c.save c.at_sp c.below c.frame c.at_cpu

saved_context :
    (cpus : Cpus) (n : ℕ) (old new : CpuContext)
    → get_elem? cpus n ≡ some old
    → get_current_context_struct n (set cpus n new) ≡ done new
unfolding get_current_context_struct
saved_context cpus n old new e =
    let e' = get_elem?-set_self cpus n new (get_elem?-below cpus n old e) in rw e' refl

handled :
    (causes : Causes) (returns : Returns) (s : Machine) (cpus : Cpus) (old : CpuContext) (b : Bool)
    → IsEnum causes
    → get_elem? cpus (u32 (s.regs Reg.tp)) ≡ some old
    → (bit (s.csrs Reg.sstatus) 8 == 1) ≡ b
    → exception_handler causes (u32 (s.regs Reg.tp)) (cpus_after returns s cpus)
      ≡ (if b then panic (describe (s.csrs Reg.scause % 2 ^ 63)) else done tt)
handled causes returns s cpus old b d e k =
    let q = saved_context cpus (u32 (s.regs Reg.tp)) old (trapped returns s) e in
    exception_handler_lem causes (u32 (s.regs Reg.tp)) (cpus_after returns s cpus) d
    ∙ rw (q, k) refl

trap_steps :
    (compiled : Compiled) (returns : Returns) (causes : Causes) (s s1 : Machine) (cpus cpus' : Cpus)
    (r : Outcome (Unit {0}))
    → save_cpu_context compiled.save returns.in_save (set_reg Reg.ra returns.after_save s) cpus
      ≡ done (s1, cpus')
    → s1.regs Reg.tp ≡ s.regs Reg.tp
    → exception_handler causes (u32 (s.regs Reg.tp)) cpus' ≡ r
    → trap_handler compiled returns causes s cpus ≡ (
        r >>= λ _.
        compiled.handler (set_reg Reg.ra returns.after_handler s1) >>= λ s2. done (s2, cpus'))
unfolding trap_handler
trap_steps compiled returns causes s s1 cpus cpus' r a b c = rw (a, b, c) refl

-- A trap in the kernel, which bit 8 of `sstatus` tells, with what a trap asks for (`CanTrap`) and
-- exception causes that are pairwise different: the handler panics with the description of the exception code, which is `scause` without
-- bit 63, and the panic comes to its end, having written the line of that description and the lines
-- of the general registers of the interrupted code, but for `ra`, in whose place stands where the
-- handler's own call returns to. Asked for are the string constants of the source in the memory, the
-- description at `cause`, at most `most` characters of it, and more rounds than `most` and 64 together.
pub trap_handler-Prints :
    (compiled : Compiled) (returns : Returns) (causes : Causes) (p : ℕ) (s : Machine) (cpus : Cpus)
    (old : CpuContext) (fuel most cause : ℕ) (m : Memory) (f : Formats)
    → CanTrap compiled p s cpus old
    → IsEnum causes
    → bit (s.csrs Reg.sstatus) 8 ≡ 1
    → HasFormats m f
    → IsString m cause (codes (describe (s.csrs Reg.scause % 2 ^ 63)))
    → length (codes (describe (s.csrs Reg.scause % 2 ^ 63))) ≤ most
    → most + 64 < fuel
    → (trap_handler compiled returns causes s cpus ≡ panic (describe (s.csrs Reg.scause % 2 ^ 63)))
      × (line : List ℕ) × (dump : List ℕ) × Prints m panic_line
          (u32 (s.regs Reg.tp) ∷ cause ∷ [])
          line
      × PrintsAll m (dump_lines (trapped returns s)) dump
      × (kernel_panic fuel m f (u32 (s.regs Reg.tp)) cause (cpus_after returns s cpus)
          ≡ done (line ++ dump))
trap_handler-Prints compiled returns causes p s cpus old fuel most cause m f c d k has is_cause
      short more =
    let saved = saves compiled returns p s cpus old c in
    let (line, dump, a, b, e) =
      kernel_panic-PrintsAll fuel most (u32 (s.regs Reg.tp)) cause m f (cpus_after returns s cpus)
        (trapped returns s) (codes (describe (s.csrs Reg.scause % 2 ^ 63))) has is_cause short more
        (saved_context cpus (u32 (s.regs Reg.tp)) old (trapped returns s) c.at_cpu) in
    (
      trap_steps compiled returns causes s saved.out cpus (cpus_after returns s cpus)
          (panic (describe (s.csrs Reg.scause % 2 ^ 63))) saved.returns (saved.same_saved 4 refl)
          (handled causes returns s cpus old true d c.at_cpu (ground arith)),
      line,
      dump,
      a,
      b,
      e,
    )

-- A trap from user mode, which bit 8 of `sstatus` tells, with what a trap asks for (`CanTrap`) and
-- exception causes that are pairwise different: the handler comes to
-- `sret`, the entry of the processor holds the registers as the handler's first call found them, and
-- `sp`, `gp`, `tp` and `s0` to `s11` are those of the interrupted code.
pub trap_handler_returns :
    (compiled : Compiled) (returns : Returns) (causes : Causes) (p : ℕ) (s : Machine) (cpus : Cpus)
    (old : CpuContext)
    → CanTrap compiled p s cpus old
    → IsEnum causes
    → bit (s.csrs Reg.sstatus) 8 ≡ 0
    → (out : Machine) × (trap_handler compiled returns causes s cpus
        ≡ done (out, cpus_after returns s cpus))
      × ((r : ℕ) → is_saved r ≡ true → out.regs r ≡ s.regs r)
trap_handler_returns compiled returns causes p s cpus old c d k =
    let saved = saves compiled returns p s cpus old c in
    let (out, r, abi) =
      c.handler (set_reg Reg.ra returns.after_handler saved.out)
        (saved.same_saved 2 refl ∙ c.at_sp) in
    (
      out,
      trap_steps compiled returns causes s saved.out cpus (cpus_after returns s cpus) (done tt)
            saved.returns (saved.same_saved 4 refl)
            (handled causes returns s cpus old false d c.at_cpu (ground arith))
          ∙ rw r refl,
      λ q w.
          let not_ra : (q == 1) ≡ false = ground arith in
          abi.saved q w ∙ rw not_ra (saved.same_saved q w ∙ rw not_ra refl),
    )
