-- ===== src/Kstdio/Format.antt =====
-- The count that the format loop of kernel/kstdlib/stdio.c returns.
use sysrv.Prelude.{
  Holds, Holds-if, Holds-bind, Holds-any, sym, subst, ℕ, zero, suc, ◌+◌, ◌<◌, ◌^◌, ◌≡◌, refl, ap,
  ◌∙◌, List, [], ◌∷◌, done, length, length-append, ◌==◌, if◌then◌else◌, Bool-cases, inl, inr, arith,
}
use sysrv.Word.{u32, u64}
use sysrv.Memory.{Memory, load}
use sysrv.Kstdio.{
  length32, is_negative, decimal_loop, print_number, print_ulong, parse_zero_pad_width, string_loop,
  next_arg, Turn, long_conversion, conversion, turn, printf_loop, kprintf,
}
use sysrv.Kstdio.Hex.{length-print_hex}

-- What a turn counts is what it writes, as 32-bit patterns.
abbrev Counts : Turn → Type 0
Counts t = u32 t.counted ≡ u32 (length t.bytes)

length32-mod : (cs : List ℕ) → length32 cs ≡ u32 (length cs)
length32-mod [] = refl
length32-mod (c ∷ cs) = omega (arith, length32-mod cs)

Counts-ulong : (val : ℕ) → Holds (λ (p : List ℕ × ℕ). u32 p.1 ≡ u32 (length p.0)) (print_ulong val)
unfolding print_ulong
Counts-ulong val =
    Holds-bind (λ _. Unit {0}) _ (decimal_loop 20 val) _ (Holds-any _)
      (λ ds _. omega (arith, length32-mod ds))

Counts-number :
    (val : ℕ)
    → Holds
        (λ (p : List ℕ × ℕ).
          u32 (if is_negative val then u32 (p.1 + 1) else p.1) ≡ u32 (length p.0))
        (print_number val)
unfolding print_number
Counts-number val =
    Holds-bind (λ _. Unit {0}) _ (decimal_loop 20 _) _ (Holds-any _)
      (λ ds _. elim (Bool-cases (is_negative val)) [
        | inl p ↦ ground (arith, p, length32-mod ds)
        | inr p ↦ ground (arith, p, length32-mod ds)
      ])

Counts-long :
    (m : Memory) (format index width : ℕ) (args : List ℕ)
    → Holds Counts (long_conversion m format index width args)
unfolding long_conversion
Counts-long m format index width args =
    Holds-bind (λ _. Unit {0}) _ (load m _) _ (Holds-any _)
      (λ c _.
        Holds-if Counts (c == b'x') _ _
          (Holds-bind (λ _. Unit {0}) _ (next_arg args) _ (Holds-any _)
            (λ (val, rest) _. ap u32 (sym (length-print_hex (u64 val) width))))
          (Holds-if Counts (c == b'u') _ _
            (Holds-bind (λ _. Unit {0}) _ (next_arg args) _ (Holds-any _)
              (λ (val, rest) _.
                Holds-bind _ _ (print_ulong (u64 val)) _ (Counts-ulong (u64 val)) (λ _ h. h)))
            refl))

Counts-conversion :
    (fuel : ℕ) (m : Memory) (format index width : ℕ) (args : List ℕ)
    → Holds Counts (conversion fuel m format index width args)
unfolding conversion
Counts-conversion fuel m format index width args =
    Holds-bind (λ _. Unit {0}) _ (load m _) _ (Holds-any _)
      (λ c _. Holds-if Counts (c == b'l') _ _ (Counts-long m format index width args) (
        Holds-if Counts (c == b'c') _ _
          (Holds-bind (λ _. Unit {0}) _ (next_arg args) _ (Holds-any _) (λ _ _. refl))
          (Holds-if Counts (c == b'd') _ _
            (Holds-bind (λ _. Unit {0}) _ (next_arg args) _ (Holds-any _)
              (λ (val, rest) _.
                Holds-bind _ _ (print_number (u32 val)) _ (Counts-number (u32 val)) (λ _ h. h)))
            (Holds-if Counts (c == b'x') _ _
              (Holds-bind (λ _. Unit {0}) _ (next_arg args) _ (Holds-any _)
                (λ (val, rest) _. ap u32 (sym (length-print_hex (u32 val) width))))
              (Holds-if Counts (c == b's') _ _
                (Holds-bind (λ _. Unit {0}) _ (next_arg args) _ (Holds-any _)
                  (λ (s, rest) _.
                    Holds-bind (λ _. Unit {0}) _ (string_loop fuel m s 0) _ (Holds-any _)
                      (λ bytes _. omega (arith, length32-mod bytes))))
                (Holds-if Counts (c == b'%') _ _ refl refl))))))

Counts-turn :
    (fuel : ℕ) (m : Memory) (format index c : ℕ) (args : List ℕ)
    → Holds Counts (turn fuel m format index c args)
unfolding turn
Counts-turn fuel m format index c args =
    Holds-if Counts (c == b'%') _ _
      (Holds-bind (λ _. Unit {0}) _ (parse_zero_pad_width fuel m format _) _ (Holds-any _)
        (λ (width, index') _.
          Holds-bind _ _ (conversion fuel m format index' width args) _
            (Counts-conversion fuel m format index' width args) (λ _ h. h)))
      refl

Counts-loop :
    (fuel : ℕ) (m : Memory) (format index num_written : ℕ) (args : List ℕ)
    → num_written < 2 ^ 32
    → Holds
        (λ (p : List ℕ × ℕ). p.1 ≡ u32 (num_written + length p.0))
        (printf_loop fuel m format index num_written args)
unfolding printf_loop
Counts-loop zero m format index num args l = tt
Counts-loop (suc fuel) m format index num args l =
    Holds-bind (λ _. Unit {0}) _ (load m _) _ (Holds-any _)
      (λ c _. Holds-if _ (c == 0) _ _ (ground arith) (
        Holds-bind Counts _ (turn fuel m format index c args) _
          (Counts-turn fuel m format index c args)
          (λ t h.
            Holds-bind _ _ (printf_loop fuel m format t.index _ t.args) _
              (Counts-loop fuel m format t.index (u32 (num + t.counted)) t.args (omega arith))
              (λ (rest, total) k. grind (arith, length-append t.bytes rest, h, k)))))

-- Whenever `kprintf` returns, on any format and arguments, the count it returns is the number of
-- bytes it has written, modulo 2^32.
pub kprintf_counts :
    (fuel format total : ℕ) (m : Memory) (args out : List ℕ)
    → kprintf fuel m format args ≡ done (out, total)
    → total ≡ u32 (length out)
unfolding kprintf
kprintf_counts fuel format total m args out e =
    (subst (Holds (λ (p : List ℕ × ℕ). p.1 ≡ u32 (0 + length p.0))) e
      (Counts-loop fuel m format 0 0 args (omega arith)))
    ∙ ap u32 (omega arith)
