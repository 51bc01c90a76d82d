-- ===== src/Cpu/Exception.antt =====
-- The exception handler (kernel/arch/rv64/exception.c, hal/rv64/cpu.c) against the exception codes of
-- the RISC-V privileged architecture.
use sysrv.Prelude.{
  ℕ, ◌%◌, ◌^◌, ◌≡◌, refl, ap, false, ◌||◌, not, List, [], ◌∷◌, fun_ext, String, done, panic, ◌>>=◌,
  ◌==◌, if◌then◌else◌, bit_and, arith,
}
use sysrv.Word.Bits.{bit, bit-le-one, bit_and-two_pow, bit_and_mask}
use sysrv.Cpu.{
  Cpus, get_current_context_struct, Causes, decode_cause, get_exception_cause, get_exception_string,
  exception_handler,
}

-- What the kernel says of an exception code.
abbrev pub describe : ℕ → String
describe code =
    if code == 0
    then "Instruction address misaligned"
    else if code == 1
    then "Instruction access fault"
    else if code == 2
    then "Illegal instruction"
    else if code == 3
    then "Breakpoint"
    else if code == 4 || code == 6
    then "Load address misaligned"
    else if code == 5 || code == 7
    then "Load access fault"
    else if code == 12 || code == 13 || code == 15
    then "Page fault"
    else "Unknown"

-- The numbers are pairwise different.
abbrev pub Absent : ℕ → List ℕ → Type 0
Absent x [] = Unit
Absent x (y ∷ ys) = ((y == x) ≡ false) × Absent x ys

abbrev pub AllDistinct : List ℕ → Type 0
AllDistinct [] = Unit
AllDistinct (x ∷ xs) = Absent x xs × AllDistinct xs

-- The labels of the `switch` in `srv_hal_GetExceptionString`, and the cause that falls through it, are
-- pairwise different.
abbrev pub IsEnum : Causes → Type 0
IsEnum k = AllDistinct (
    k.unaligned_instruction ∷ k.instruction_access_fault ∷ k.illegal_instruction
    ∷ k.breakpoint_reached ∷ k.unaligned_load ∷ k.load_fault ∷ k.page_fault ∷ k.unknown ∷ [])

string_lem :
    (k : Causes) (code : ℕ)
    → IsEnum k
    → get_exception_string k (decode_cause k code) ≡ describe code
unfolding get_exception_string decode_cause
string_lem k code
      (
        (a1, (a2, (a3, (a4, (a5, (a6, (a7, _))))))),
        (
          (b2, (b3, (b4, (b5, (b6, (b7, _)))))),
          (
            (c3, (c4, (c5, (c6, (c7, _))))),
            ((d4, (d5, (d6, (d7, _)))), ((e5, (e6, (e7, _))), ((f6, (f7, _)), ((g7, _), (_, _))))),
          ),
        ),
      ) =
    ground arith

-- Where the exception causes are pairwise different, the handler faults for a processor past the
-- array, returns if the saved `sstatus` says that the processor was in user mode (bit 8), and
-- otherwise panics with the description of the exception code, which is `scause` without bit 63.
pub exception_handler_lem :
    (k : Causes) (cpu_num : ℕ) (cpus : Cpus)
    → IsEnum k
    → exception_handler k cpu_num cpus ≡ (
        get_current_context_struct cpu_num cpus >>= λ context.
        if bit context.sstatus 8 == 1 then panic (describe (context.scause % 2 ^ 63)) else done tt)
unfolding exception_handler get_exception_cause
exception_handler_lem k cpu_num cpus d =
    ap (λ f. get_current_context_struct cpu_num cpus >>= f)
      (fun_ext λ context.
        let in_kernel : not (bit_and context.sstatus (2 ^ 8) == 0) ≡ (bit context.sstatus 8 == 1) =
          ground (arith, bit_and-two_pow 8 context.sstatus, bit-le-one context.sstatus 8) in
        let code : bit_and context.scause 0x7FFFFFFFFFFFFFFF ≡ context.scause % 2 ^ 63 =
          bit_and_mask 63 context.scause in
        rw (in_kernel, code, string_lem k (context.scause % 2 ^ 63) d) refl)
