-- ===== src/Cpu/Tests.antt =====
-- Saved registers and exceptions of eight processors (hal/rv64/cpu.c).
use sysrv.Prelude.{◌≡◌, refl, [], ◌∷◌, panic}
use sysrv.Cpu.{
  CpuContext, Cpus, get_current_context_struct, Causes, decode_cause, get_exception_cause,
  get_exception_string, exception_handler,
}
use sysrv.Cpu.Exception.{IsEnum}

abbrev pub blank : CpuContext
blank = record {
  x0 = 0;
  ra = 0;
  sp = 0;
  gp = 0;
  tp = 0;
  t0 = 0;
  t1 = 0;
  t2 = 0;
  s0 = 0;
  s1 = 0;
  a0 = 0;
  a1 = 0;
  a2 = 0;
  a3 = 0;
  a4 = 0;
  a5 = 0;
  a6 = 0;
  a7 = 0;
  s2 = 0;
  s3 = 0;
  s4 = 0;
  s5 = 0;
  s6 = 0;
  s7 = 0;
  s8 = 0;
  s9 = 0;
  s10 = 0;
  s11 = 0;
  t3 = 0;
  t4 = 0;
  t5 = 0;
  t6 = 0;
  sepc = 0;
  scause = 0;
  stval = 0;
  sstatus = 0;
}

-- A load page fault in the kernel.
abbrev faulted : CpuContext
faulted = record blank { scause = 13; sstatus = 0x100; sp = 0x8000 }

abbrev cpus : Cpus
cpus = blank ∷ faulted ∷ blank ∷ blank ∷ blank ∷ blank ∷ blank ∷ blank ∷ []

abbrev pub numbered : Causes
numbered = record {
  unaligned_instruction = 0;
  illegal_instruction = 1;
  instruction_access_fault = 2;
  breakpoint_reached = 3;
  unaligned_load = 4;
  load_fault = 5;
  page_fault = 6;
  unknown = 7;
}

page_fault_panics : exception_handler numbered 1 cpus ≡ panic "Page fault"
unfolding exception_handler get_current_context_struct get_exception_cause decode_cause
    get_exception_string
page_fault_panics = refl

pub numbered-IsEnum : IsEnum numbered
numbered-IsEnum = (
  (refl, (refl, (refl, (refl, (refl, (refl, (refl, tt))))))),
  (
    (refl, (refl, (refl, (refl, (refl, (refl, tt)))))),
    (
      (refl, (refl, (refl, (refl, (refl, tt))))),
      (
        (refl, (refl, (refl, (refl, tt)))),
        ((refl, (refl, (refl, tt))), ((refl, (refl, tt)), ((refl, tt), (tt, tt)))),
      ),
    ),
  ),
)
