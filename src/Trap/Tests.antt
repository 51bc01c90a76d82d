-- ===== src/Trap/Tests.antt =====
-- A load page fault on processor 0 of one, with a stack of 288 bytes below 4384.
use sysrv.Prelude.{
  ℕ, ◌+◌, ◌≡◌, refl, true, false, List, [], ◌∷◌, ◌++◌, none, some, Outcome, done, panic, ltb, ◌==◌,
  if◌then◌else◌, arith,
}
use sysrv.Word.Bits.{bit}
use sysrv.Kstdio.Pieces.{Prints}
use sysrv.Cpu.Tests.{blank, numbered, numbered-IsEnum}
use sysrv.Panic.{kernel_panic}
use sysrv.Panic.Lines.{panic_line, dump_lines}
use sysrv.Panic.Dump.{PrintsAll}
use sysrv.Panic.Tests.{ram, formats, formats-HasFormats, cause-IsString}
use sysrv.Rv64.{Machine, set_reg, is_saved}
use sysrv.Rv64.Reg
use sysrv.Rv64.Stores.{IsFrame}
use sysrv.Trap.{Compiled, Returns, save_cpu_context, trap_handler}
use sysrv.Trap.Save.{Conforms, Saved, save_cpu_context-Saved}
use sysrv.Trap.Lost.{trap_handler_forgets}
use sysrv.Trap.Report.{CanTrap, trapped, cpus_after, trap_handler-Prints, trap_handler_returns}

abbrev interrupted : ℕ → Machine
interrupted sstatus = record {
  regs = λ r. if r == 2 then 4384 else if r == 4 then 0 else r + 1000;
  words = λ a. if ltb a 8192 then some 7 else none;
  csrs = λ c. if c == Reg.sstatus then sstatus else if c == Reg.scause then 13 else c;
}

-- Functions that return at once, having used a temporary register.
abbrev brief : Machine → Outcome Machine
brief s = done (set_reg Reg.t0 99 s)

brief-Conforms : (p : ℕ) → Conforms brief p
brief-Conforms p t e = (
  set_reg Reg.t0 99 t,
  refl,
  record {
    saved = λ r w. let not_t0 : (r == 5) ≡ false = ground arith in rw not_t0 refl;
    frame = λ a l u. refl;
  },
)

abbrev compiled : Compiled
compiled = record { save = brief; handler = brief }

abbrev returns : Returns
returns = record { in_save = 501; after_save = 502; after_handler = 503 }

stack-IsFrame : (sstatus : ℕ) → IsFrame (interrupted sstatus).words 4096 288
stack-IsFrame sstatus = record {
  aligned = refl;
  fits = omega arith;
  mapped = λ o l z. let below : ltb (4096 + o) 8192 ≡ true = ground arith in (7, rw below refl);
}

interrupted-CanTrap : (sstatus : ℕ) → CanTrap compiled 4096 (interrupted sstatus) (blank ∷ []) blank
interrupted-CanTrap sstatus = record {
  save = brief-Conforms 4096;
  handler = brief-Conforms 4384;
  at_sp = refl;
  below = omega arith;
  frame = stack-IsFrame sstatus;
  at_cpu = refl;
}

bit_is_set : bit ((interrupted 256).csrs Reg.sstatus) 8 ≡ 1
unfolding bit
bit_is_set = refl

bit_is_clear : bit ((interrupted 0).csrs Reg.sstatus) 8 ≡ 0
unfolding bit
bit_is_clear = refl

save_cpu_context-Saved_example :
    Saved 0
      (blank ∷ [])
      (interrupted 256)
      (save_cpu_context brief 501 (interrupted 256) (blank ∷ []))
save_cpu_context-Saved_example =
    save_cpu_context-Saved brief 501 4096 (interrupted 256) (blank ∷ []) blank (brief-Conforms 4096)
      refl (omega arith) (stack-IsFrame 256) refl

trap_handler_forgets_example :
    trap_handler compiled returns numbered (set_reg Reg.ra 77 (interrupted 0)) (blank ∷ [])
    ≡ trap_handler compiled returns numbered (interrupted 0) (blank ∷ [])
trap_handler_forgets_example =
    trap_handler_forgets compiled returns numbered 77 (interrupted 0) (blank ∷ [])

trap_handler-Prints_example :
    (trap_handler compiled returns numbered (interrupted 256) (blank ∷ []) ≡ panic "Page fault")
    × (line : List ℕ) × (dump : List ℕ) × Prints ram panic_line (0 ∷ 900 ∷ []) line
    × PrintsAll ram (dump_lines (trapped returns (interrupted 256))) dump
    × (kernel_panic 100 ram formats 0 900 (cpus_after returns (interrupted 256) (blank ∷ []))
        ≡ done (line ++ dump))
trap_handler-Prints_example =
    trap_handler-Prints compiled returns numbered 4096 (interrupted 256) (blank ∷ []) blank 100 20
      900 ram formats (interrupted-CanTrap 256) numbered-IsEnum bit_is_set formats-HasFormats
      cause-IsString (omega arith) (omega arith)

trap_handler_returns_example :
    (out : Machine) × (trap_handler compiled returns numbered (interrupted 0) (blank ∷ [])
      ≡ done (out, cpus_after returns (interrupted 0) (blank ∷ [])))
    × ((r : ℕ) → is_saved r ≡ true → out.regs r ≡ (interrupted 0).regs r)
trap_handler_returns_example =
    trap_handler_returns compiled returns numbered 4096 (interrupted 0) (blank ∷ []) blank
      (interrupted-CanTrap 0) numbered-IsEnum bit_is_clear
