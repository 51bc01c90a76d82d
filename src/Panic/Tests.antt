-- ===== src/Panic/Tests.antt =====
-- A panic with its string constants in a small memory (kernel/panic.c).
use sysrv.Prelude.{
  codes, ℕ, ◌/◌, ◌%◌, ◌≡◌, refl, List, [], ◌∷◌, ◌++◌, done, get_elem?, get_or, arith, ◌+◌, ◌^◌, ◌≤◌,
  inl, some, ◌==◌, if◌then◌else◌,
}
use sysrv.Memory.{Memory, IsString}
use sysrv.Memory.Checks.{is_string-IsString}
use sysrv.Kstdio.Pieces.{Prints}
use sysrv.Cpu.{CpuContext, get_current_context_struct}
use sysrv.Rv64.{Machine}
use sysrv.Rv64.Stores.{IsFrame}
use sysrv.Panic.Wrapper.{panic_entry}
use sysrv.Panic.Wrapper.Frame.{Framed, panic_entry-Framed}
use sysrv.Panic.{Formats, kernel_panic}
use sysrv.Panic.Lines.{panic_line, dump_lines, HasFormats}
use sysrv.Panic.Dump.{PrintsAll, kernel_panic-PrintsAll}

-- Ten strings, at the multiples of 100.
abbrev texts : List (List ℕ)
texts =
    codes "panic[cpu%d]: %s\n"
    ∷ codes "ra: 0x%016lx sp:  0x%016lx gp:  0x%016lx tp: 0x%016lx\n"
    ∷ codes "t0: 0x%016lx t1:  0x%016lx t2:  0x%016lx s0: 0x%016lx\n"
    ∷ codes "s1: 0x%016lx a0:  0x%016lx a1:  0x%016lx a2: 0x%016lx\n"
    ∷ codes "a3: 0x%016lx a4:  0x%016lx a5:  0x%016lx a6: 0x%016lx\n"
    ∷ codes "a7: 0x%016lx s2:  0x%016lx s3:  0x%016lx s4: 0x%016lx\n"
    ∷ codes "s5: 0x%016lx s6:  0x%016lx s7:  0x%016lx s8: 0x%016lx\n"
    ∷ codes "s9: 0x%016lx s10: 0x%016lx s11: 0x%016lx t3: 0x%016lx\n"
    ∷ codes "t4: 0x%016lx t5:  0x%016lx t6:  0x%016lx\n"
    ∷ codes "Page fault"
    ∷ []

abbrev pub ram : Memory
ram a = get_elem? (get_or texts (a / 100) [] ++ (0 ∷ [])) (a % 100)

abbrev pub formats : Formats
formats = record {
  panic_line = 0;
  ra_line = 100;
  t0_line = 200;
  s1_line = 300;
  a3_line = 400;
  a7_line = 500;
  s5_line = 600;
  s9_line = 700;
  t4_line = 800;
}

pub formats-HasFormats : HasFormats ram formats
formats-HasFormats = record {
  panic_line = is_string-IsString ram 0 (get_or texts 0 []) refl;
  ra_line = is_string-IsString ram 100 (get_or texts 1 []) refl;
  t0_line = is_string-IsString ram 200 (get_or texts 2 []) refl;
  s1_line = is_string-IsString ram 300 (get_or texts 3 []) refl;
  a3_line = is_string-IsString ram 400 (get_or texts 4 []) refl;
  a7_line = is_string-IsString ram 500 (get_or texts 5 []) refl;
  s5_line = is_string-IsString ram 600 (get_or texts 6 []) refl;
  s9_line = is_string-IsString ram 700 (get_or texts 7 []) refl;
  t4_line = is_string-IsString ram 800 (get_or texts 8 []) refl;
}

pub cause-IsString : IsString ram 900 (codes "Page fault")
cause-IsString = is_string-IsString ram 900 (get_or texts 9 []) refl

abbrev context : CpuContext
context = record {
  x0 = 0;
  ra = 4369;
  sp = 8738;
  gp = 13107;
  tp = 17476;
  t0 = 21845;
  t1 = 26214;
  t2 = 30583;
  s0 = 34952;
  s1 = 39321;
  a0 = 43690;
  a1 = 48059;
  a2 = 52428;
  a3 = 56797;
  a4 = 61166;
  a5 = 65535;
  a6 = 69904;
  a7 = 74273;
  s2 = 78642;
  s3 = 83011;
  s4 = 87380;
  s5 = 91749;
  s6 = 96118;
  s7 = 100487;
  s8 = 104856;
  s9 = 109225;
  s10 = 113594;
  s11 = 117963;
  t3 = 122332;
  t4 = 126701;
  t5 = 131070;
  t6 = 135439;
  sepc = 139808;
  scause = 144177;
  stval = 148546;
  sstatus = 152915;
}

context_found : get_current_context_struct 0 (context ∷ []) ≡ done context
unfolding get_current_context_struct
context_found = refl

kernel_panic-PrintsAll_example :
    (line : List ℕ) × (dump : List ℕ) × Prints ram panic_line (0 ∷ 900 ∷ []) line
    × PrintsAll ram (dump_lines context) dump
    × (kernel_panic 100 ram formats 0 900 (context ∷ []) ≡ done (line ++ dump))
kernel_panic-PrintsAll_example =
    kernel_panic-PrintsAll 100 20 0 900 ram formats (context ∷ []) context (codes "Page fault")
      formats-HasFormats cause-IsString (omega arith) (omega arith) context_found

-- A stack at 4096 and a frame behind it.
abbrev panicking : Machine
panicking = record {
  regs = λ r. if r == 2 then 4096 else r + 1000;
  words = λ a. some 0;
  csrs = λ c. 0;
}

block-IsFrame : (p : ℕ) → p % 8 ≡ 0 → p + 248 ≤ 2 ^ 64 → IsFrame panicking.words p 248
block-IsFrame p z l = record { aligned = z; fits = l; mapped = λ o h q. (0, refl) }

panic_entry-Framed_example : Framed 8192 4096 panicking (panic_entry 8192 700 panicking)
panic_entry-Framed_example =
    panic_entry-Framed 8192 4096 700 panicking refl (block-IsFrame 4096 refl (omega arith))
      (block-IsFrame 8192 refl (omega arith)) (inl (omega arith))
