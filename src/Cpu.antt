-- ===== src/Cpu.antt =====
-- hal/rv64/cpu.c and kernel/arch/rv64/exception.c: the saved registers of each processor, what an
-- exception was, and the handler. The number in `tp` is an argument. The header exception_types.h,
-- which is not in the repository, defines the exception causes; they are parameters here.
pub mod Context
pub mod Exception
pub mod Tests
use sysrv.Prelude.{
  ℕ, ◌%◌, ◌^◌, String, Bool, not, List, Outcome, done, panic, ◌>>=◌, expect, get_elem?, set, ◌==◌,
  if◌then◌else◌, bit_and,
}
use sysrv.Word.{bit_mask}

-- `srv_cpu_context_t`; `x0` is its field `zero`.
pub record CpuContext : Type 0 where
  pub x0 : ℕ
  pub ra : ℕ
  pub sp : ℕ
  pub gp : ℕ
  pub tp : ℕ
  pub t0 : ℕ
  pub t1 : ℕ
  pub t2 : ℕ
  pub s0 : ℕ
  pub s1 : ℕ
  pub a0 : ℕ
  pub a1 : ℕ
  pub a2 : ℕ
  pub a3 : ℕ
  pub a4 : ℕ
  pub a5 : ℕ
  pub a6 : ℕ
  pub a7 : ℕ
  pub s2 : ℕ
  pub s3 : ℕ
  pub s4 : ℕ
  pub s5 : ℕ
  pub s6 : ℕ
  pub s7 : ℕ
  pub s8 : ℕ
  pub s9 : ℕ
  pub s10 : ℕ
  pub s11 : ℕ
  pub t3 : ℕ
  pub t4 : ℕ
  pub t5 : ℕ
  pub t6 : ℕ
  pub sepc : ℕ
  pub scause : ℕ
  pub stval : ℕ
  pub sstatus : ℕ

-- `cpus`: an access behind the end of the array is a fault.
abbrev pub Cpus : Type 0
Cpus = List CpuContext

-- `srv_hal_GetCurrentContextStruct`, read through the pointer.
unfoldable pub get_current_context_struct : ℕ → Cpus → Outcome CpuContext
get_current_context_struct cpu_num cpus = expect (get_elem? cpus cpu_num)

-- The assignments of `hal_SaveContextToProcControlBlock`.
unfoldable pub copy_context : CpuContext → CpuContext
copy_context context = record {
  x0 = context.x0;
  ra = context.ra;
  sp = context.sp;
  gp = context.gp;
  tp = context.tp;
  t0 = context.t0;
  t1 = context.t1;
  t2 = context.t2;
  s0 = context.s0;
  s1 = context.s1;
  a0 = context.a0;
  a1 = context.a1;
  a2 = context.a2;
  a3 = context.a3;
  a4 = context.a4;
  a5 = context.a5;
  a6 = context.a6;
  a7 = context.a7;
  s2 = context.s2;
  s3 = context.s3;
  s4 = context.s4;
  s5 = context.s5;
  s6 = context.s6;
  s7 = context.s7;
  s8 = context.s8;
  s9 = context.s9;
  s10 = context.s10;
  s11 = context.s11;
  t3 = context.t3;
  t4 = context.t4;
  t5 = context.t5;
  t6 = context.t6;
  sepc = context.sepc;
  scause = context.scause;
  stval = context.stval;
  sstatus = context.sstatus;
}

-- `hal_SaveContextToProcControlBlock`
unfoldable pub save_context : ℕ → CpuContext → Cpus → Outcome Cpus
save_context cpu_num context cpus = do
  our_context ← expect (get_elem? cpus cpu_num)
  done (set cpus cpu_num (copy_context context))

-- The values of `srv_hal_exception_cause_t`, each without its prefix `SRV_EXCEPTION_CAUSE_`.
pub record Causes : Type 0 where
  pub unaligned_instruction : ℕ
  pub illegal_instruction : ℕ
  pub instruction_access_fault : ℕ
  pub breakpoint_reached : ℕ
  pub unaligned_load : ℕ
  pub load_fault : ℕ
  pub page_fault : ℕ
  pub unknown : ℕ

abbrev pub exception_code_mask : ℕ
exception_code_mask = 0x7FFFFFFFFFFFFFFF

abbrev pub sstatus_spp_bit : ℕ
sstatus_spp_bit = bit_mask 8

-- The `switch` of `srv_hal_GetExceptionCause`.
unfoldable pub decode_cause : Causes → ℕ → ℕ
decode_cause k cause =
    if cause == 0
    then k.unaligned_instruction
    else if cause == 2
    then k.illegal_instruction
    else if cause == 1
    then k.instruction_access_fault
    else if cause == 3
    then k.breakpoint_reached
    else if cause == 4
    then k.unaligned_load
    else if cause == 5
    then k.load_fault
    else if cause == 6
    then k.unaligned_load
    else if cause == 7
    then k.load_fault
    else if cause == 12
    then k.page_fault
    else if cause == 13
    then k.page_fault
    else if cause == 15
    then k.page_fault
    else k.unknown

-- `srv_hal_GetExceptionCause`: the cause, and `was_in_kernel_mode`.
unfoldable pub get_exception_cause : Causes → CpuContext → ℕ × Bool
get_exception_cause k context =
    let cause = bit_and context.scause exception_code_mask in
    (decode_cause k cause, not (bit_and context.sstatus sstatus_spp_bit == 0))

-- `srv_hal_GetExceptionString`
unfoldable pub get_exception_string : Causes → ℕ → String
get_exception_string k cause =
    if cause == k.unaligned_instruction
    then "Instruction address misaligned"
    else if cause == k.instruction_access_fault
    then "Instruction access fault"
    else if cause == k.illegal_instruction
    then "Illegal instruction"
    else if cause == k.breakpoint_reached
    then "Breakpoint"
    else if cause == k.unaligned_load
    then "Load address misaligned"
    else if cause == k.load_fault
    then "Load access fault"
    else if cause == k.page_fault
    then "Page fault"
    else "Unknown"

-- `srv_arch_ExceptionHandler` on processor `cpu_num`.
unfoldable pub exception_handler : Causes → ℕ → Cpus → Outcome (Unit {0})
exception_handler k cpu_num cpus = do
  context ← get_current_context_struct cpu_num cpus
  let (exception_cause, in_kernel_space) = get_exception_cause k context
  if in_kernel_space then panic (get_exception_string k exception_cause) else done tt
