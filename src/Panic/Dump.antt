-- ===== src/Panic/Dump.antt =====
-- That a panic (kernel/panic.c) writes its cause and the registers of its processor.
use sysrv.Prelude.{ℕ, ◌+◌, ◌<◌, ◌≤◌, ◌≡◌, refl, List, [], ◌∷◌, ◌++◌, done, length, arith}
use sysrv.Memory.{Memory, IsString}
use sysrv.Kstdio.Pieces.{Piece, format_of, IsFormat, Supplied, Prints}
use sysrv.Kstdio.Render.{kprintf-Prints}
use sysrv.Cpu.{CpuContext, Cpus, get_current_context_struct}
use sysrv.Panic.{Formats, dump_calls, print_calls, kernel_panic}
use sysrv.Panic.Lines.{panic_line, dump_lines, HasFormats}

-- `out` is what the lines write, one after the other.
abbrev pub PrintsAll : Memory → List (List Piece × List ℕ) → List ℕ → Type 0
PrintsAll m [] out = out ≡ []
PrintsAll m ((ps, args) ∷ lines) out =
    (line : List ℕ) × (rest : List ℕ) × (out ≡ line ++ rest)
    × Prints m ps args line
    × PrintsAll m lines rest

-- The calls are calls with the formats and arguments of the lines.
abbrev AreCalls : ℕ → Memory → List (ℕ × List ℕ) → List (List Piece × List ℕ) → Type 0
AreCalls fuel m [] [] = Unit
AreCalls fuel m ((p, args) ∷ calls) ((ps, args') ∷ lines) =
    (args ≡ args')
    × IsString m p (format_of ps)
    × IsFormat ps
    × Supplied m 0 ps args'
    × (length (format_of ps) + 0 < fuel)
    × AreCalls fuel m calls lines
AreCalls fuel m _ _ = ⊥

print_calls-PrintsAll :
    (fuel : ℕ) (m : Memory) (calls : List (ℕ × List ℕ)) (lines : List (List Piece × List ℕ))
    → AreCalls fuel m calls lines
    → (out : List ℕ) × PrintsAll m lines out × (print_calls fuel m calls ≡ done out)
unfolding print_calls
print_calls-PrintsAll fuel m [] [] c = ([], refl, refl)
print_calls-PrintsAll fuel m ((p, args) ∷ calls) ((ps, args') ∷ lines) (e, s, f, a, h, c) =
    let (line, q, k) = kprintf-Prints fuel p 0 m ps args' s f a h in
    let (rest, qs, ks) = print_calls-PrintsAll fuel m calls lines c in
    (line ++ rest, (line, rest, refl, q, qs), rw (e, k, ks) refl)
print_calls-PrintsAll fuel m [] (l ∷ lines) c = elim c [ ]
print_calls-PrintsAll fuel m (p ∷ calls) [] c = elim c [ ]

dump-AreCalls :
    (fuel : ℕ) (m : Memory) (f : Formats) (c : CpuContext)
    → HasFormats m f
    → 64 < fuel
    → AreCalls fuel m (dump_calls f c) (dump_lines c)
dump-AreCalls fuel m f c h l = (
  refl,
  h.ra_line,
  omega arith,
  tt,
  omega arith,
  (
    refl,
    h.t0_line,
    omega arith,
    tt,
    omega arith,
    (
      refl,
      h.s1_line,
      omega arith,
      tt,
      omega arith,
      (
        refl,
        h.a3_line,
        omega arith,
        tt,
        omega arith,
        (
          refl,
          h.a7_line,
          omega arith,
          tt,
          omega arith,
          (
            refl,
            h.s5_line,
            omega arith,
            tt,
            omega arith,
            (
              refl,
              h.s9_line,
              omega arith,
              tt,
              omega arith,
              (refl, h.t4_line, omega arith, tt, omega arith, tt),
            ),
          ),
        ),
      ),
    ),
  ),
)

-- A panic on a processor within the array, with the string constants of the source in the memory, a
-- cause that is a string of at most `most` characters, and more rounds than `most` and 64 together:
-- it comes to its end, having written the line of its cause and then, line by line, the 31 general
-- registers that are saved for the processor, each as its hexadecimal numeral modulo 2^64 with zeros
-- before it up to 16 digits.
pub kernel_panic-PrintsAll :
    (fuel most cpu_num cause : ℕ) (m : Memory) (f : Formats) (cpus : Cpus) (context : CpuContext)
    (cs : List ℕ)
    → HasFormats m f
    → IsString m cause cs
    → length cs ≤ most
    → most + 64 < fuel
    → get_current_context_struct cpu_num cpus ≡ done context
    → (line : List ℕ) × (dump : List ℕ) × Prints m panic_line (cpu_num ∷ cause ∷ []) line
      × PrintsAll m (dump_lines context) dump
      × (kernel_panic fuel m f cpu_num cause cpus ≡ done (line ++ dump))
unfolding kernel_panic
kernel_panic-PrintsAll fuel most cpu_num cause m f cpus context cs h s l more e =
    let (line, p, k) =
      kprintf-Prints fuel f.panic_line most m panic_line (cpu_num ∷ cause ∷ []) h.panic_line
        (omega arith) ((cs, s, l), tt) (omega arith) in
    let (dump, q, d) =
      print_calls-PrintsAll fuel m (dump_calls f context) (dump_lines context)
        (dump-AreCalls fuel m f context h (omega arith)) in
    (line, dump, p, q, rw (k, e, d) refl)
