-- ===== src/Kstdio/Text.antt =====
-- The format loop of kernel/kstdlib/stdio.c on plain text, and where it reads.
use sysrv.Prelude.{
  ℕ, zero, suc, ◌+◌, ◌<◌, ◌^◌, ◌≡◌, ◌≢◌, refl, ap, ◌∙◌, List, [], ◌∷◌, ◌++◌, none, some, false,
  done, fault, length, ◌==◌, arith,
}
use sysrv.Word.{u32}
use sysrv.Memory.{Memory, IsString}
use sysrv.Kstdio.{parse_zero_pad_width, conversion, turn, printf_loop, kprintf}

-- A text without `%`.
abbrev pub IsPlain : List ℕ → Type 0
IsPlain [] = Unit
IsPlain (c ∷ cs) = (c ≢ b'%') × IsPlain cs

printf_loop_text :
    (fuel : ℕ) (m : Memory) (format index num : ℕ) (args cs : List ℕ)
    → IsString m (format + index) cs
    → IsPlain cs
    → length cs < fuel
    → num < 2 ^ 32
    → printf_loop fuel m format index num args ≡ done (cs, u32 (num + length cs))
unfolding printf_loop turn
printf_loop_text zero m format index num args cs s a h l = elim h [ ]
printf_loop_text (suc fuel) m format index num args [] s a h l =
    rw s (ap done (ap (λ n. ([], n)) (omega arith)))
printf_loop_text (suc fuel) m format index num args (c ∷ cs) s (a, b) h l =
    let next : format + index + 1 ≡ format + (index + 1) = omega arith in
    let t : (c == 0) ≡ false = ground (arith, s.1) in
    let u : (c == b'%') ≡ false = ground (arith, a) in
    rw
      (
        s.0,
        t,
        u,
        printf_loop_text fuel m format (index + 1) (u32 (num + 1)) args cs (rw next at s.3) b
            (omega arith) (omega arith),
      )
      (ap (λ n. done (c ∷ cs, n)) (omega arith))

-- A format without `%` is written as it stands, whatever the arguments, and its length modulo 2^32 is
-- returned, where there are more rounds than it has characters.
pub kprintf_text :
    (fuel format : ℕ) (m : Memory) (args cs : List ℕ)
    → IsString m format cs
    → IsPlain cs
    → length cs < fuel
    → kprintf fuel m format args ≡ done (cs, u32 (length cs))
unfolding kprintf
kprintf_text fuel format m args cs s a h =
    let e : format ≡ format + 0 = omega arith in
    printf_loop_text fuel m format 0 0 args cs (rw e at s) a h (omega arith)
    ∙ ap (λ n. done (cs, n)) (omega arith)

parse_zero_pad_width_nul :
    (fuel : ℕ) (m : Memory) (format index : ℕ)
    → m (format + index) ≡ some 0
    → parse_zero_pad_width fuel m format index ≡ done (0, index)
unfolding parse_zero_pad_width
parse_zero_pad_width_nul fuel m format index e = rw e refl

conversion_nul :
    (fuel : ℕ) (m : Memory) (format index : ℕ) (args : List ℕ)
    → m (format + index) ≡ some 0
    → conversion fuel m format index 0 args
      ≡ done (record { bytes = []; counted = 0; index = index; args = args })
unfolding conversion
conversion_nul fuel m format index args e = rw e refl

turn_nul :
    (fuel : ℕ) (m : Memory) (format index : ℕ) (args : List ℕ)
    → m (format + (index + 1)) ≡ some 0
    → turn fuel m format index b'%' args
      ≡ done (record { bytes = []; counted = 0; index = index + 1 + 1; args = args })
unfolding turn
turn_nul fuel m format index args e =
    rw
      (
        parse_zero_pad_width_nul fuel m format (index + 1) e,
        conversion_nul fuel m format (index + 1) args e,
      )
      refl

printf_loop_trailing :
    (fuel : ℕ) (m : Memory) (format index num : ℕ) (args cs : List ℕ)
    → IsString m (format + index) (cs ++ b'%' ∷ [])
    → IsPlain cs
    → m (format + index + length cs + 2) ≡ none
    → length cs + 1 < fuel
    → printf_loop fuel m format index num args ≡ fault
unfolding printf_loop turn
printf_loop_trailing zero m format index num args cs s a e h = elim h [ ]
printf_loop_trailing (suc zero) m format index num args cs s a e h = absurd (omega arith)
printf_loop_trailing (suc (suc fuel)) m format index num args [] s a e h =
    let next : format + index + 1 ≡ format + (index + 1) = omega arith in
    let past : format + index + 0 + 2 ≡ format + (index + 1 + 1) = omega arith in
    rw (s.0, turn_nul (suc fuel) m format index args (rw next at s.3), (rw past at e)) refl
printf_loop_trailing (suc (suc fuel)) m format index num args (c ∷ cs) s (a, b) e h =
    let next : format + index + 1 ≡ format + (index + 1) = omega arith in
    let past : format + index + length (c ∷ cs) + 2 ≡ format + (index + 1) + length cs + 2 =
      omega arith in
    let t : (c == 0) ≡ false = ground (arith, s.1) in
    let u : (c == b'%') ≡ false = ground (arith, a) in
    rw
      (
        s.0,
        t,
        u,
        printf_loop_trailing (suc fuel) m format (index + 1) (u32 (num + 1)) args cs
            (rw next at s.3) b (rw past at e) (omega arith),
      )
      refl

-- A format whose only `%` is its last character makes `kprintf` read the byte behind the NUL: where
-- that byte is not mapped, the call faults.
pub kprintf_trailing :
    (fuel format : ℕ) (m : Memory) (args cs : List ℕ)
    → IsString m format (cs ++ b'%' ∷ [])
    → IsPlain cs
    → m (format + length cs + 2) ≡ none
    → length cs + 1 < fuel
    → kprintf fuel m format args ≡ fault
unfolding kprintf
kprintf_trailing fuel format m args cs s a e h =
    let z : format ≡ format + 0 = omega arith in
    printf_loop_trailing fuel m format 0 0 args cs (rw z at s) a (rw z at e) h
