-- ===== src/Kstdio/Render.antt =====
-- The format loop of kernel/kstdlib/stdio.c on whole formats.
use sysrv.Prelude.{
  ℕ, zero, suc, ◌+◌, ◌<◌, ◌≡◌, ◌≢◌, refl, ap, ◌∙◌, List, [], ◌∷◌, ◌++◌, some, false, Outcome, done,
  length, length-append, ◌==◌, arith,
}
use sysrv.Word.{u32}
use sysrv.Memory.{Memory, IsString}
use sysrv.Kstdio.{conversion, turn, printf_loop, kprintf}
use sysrv.Kstdio.Format.{kprintf_counts}
use sysrv.Kstdio.Pieces.{
  Conversion, percent, Width, Piece, text, converted, code, width_code, format_of, IsFormat,
  width_of, Prints, nothing, literal, sign, argument, Supplied,
}
use sysrv.Kstdio.Convert.{
  IsString-append, turned, last_index, conversion-Converts, length-code, IsFormat-tail,
  Supplied-HasArgument, turn_converted,
}

printf_loop-turn :
    (fuel format index num c n i total : ℕ) (m : Memory) (args rest bs out : List ℕ)
    → m (format + index) ≡ some c
    → c ≢ 0
    → turn fuel m format index c args ≡ turned bs n i rest
    → printf_loop fuel m format i (u32 (num + n)) rest ≡ done (out, total)
    → printf_loop (suc fuel) m format index num args ≡ done (bs ++ out, total)
unfolding printf_loop
printf_loop-turn fuel format index num c n i total m args rest bs out e z t l =
    let f : (c == 0) ≡ false = ground arith in rw (e, f, t, l) refl

length-converted :
    (w : Width) (k : Conversion) (ps : List Piece)
    → length (format_of (converted w k ∷ ps))
      ≡ 1 + length (width_code w) + length (code k) + length (format_of ps)
length-converted w k ps = omega (
  arith,
  length-append (width_code w) (code k ++ format_of ps),
  length-append (code k) (format_of ps),
)

abbrev Renders : Memory → List Piece → List ℕ → Outcome (List ℕ × ℕ) → Type 0
Renders m ps args r = (out : List ℕ) × (total : ℕ) × Prints m ps args out × (r ≡ done (out, total))

-- The string behind a conversion.
behind :
    (format index : ℕ) (m : Memory) (w : Width) (k : Conversion) (ps : List Piece)
    → IsString m (format + index) (format_of (converted w k ∷ ps))
    → IsString m (format + (index + 1 + length (width_code w))) (code k ++ format_of ps)
      × IsString m (format + (index + (1 + length (width_code w) + length (code k)))) (format_of ps)
behind format index m w k ps s =
    let e : format + index + 1 + length (width_code w)
        ≡ format + (index + 1 + length (width_code w)) =
      omega arith in
    let f : format + (index + 1 + length (width_code w)) + length (code k)
        ≡ format + (index + (1 + length (width_code w) + length (code k))) =
      omega arith in
    let t =
      rw e at
        (IsString-append m (format + index + 1) (width_code w) (code k ++ format_of ps) s.3) in
    (t, rw f at (IsString-append m _ (code k) (format_of ps) t))

-- `%%`, given what the rest comes to.
sign-Renders :
    (fuel format index num : ℕ) (m : Memory) (w : Width) (ps : List Piece) (args : List ℕ)
    → IsString m (format + index) (format_of (converted w percent ∷ ps))
    → IsFormat (converted w percent ∷ [])
    → length (width_code w) < suc fuel
    → Renders m ps args
        (printf_loop fuel m format (index + (1 + length (width_code w) + 1)) (u32 (num + 1)) args)
    → Renders m (converted w percent ∷ ps) args (printf_loop (suc fuel) m format index num args)
sign-Renders fuel format index num m w ps args s f h (out, total, p, q) =
    let (here, after) = behind format index m w percent ps s in
    let c : conversion fuel m format (index + 1 + length (width_code w)) (width_of w) args
        ≡ turned (b'%' ∷ []) 1 (index + 1 + length (width_code w) + 0) args =
      unfold conversion in rw here.0 (last_index _ _ _ args) in
    let t =
      turn_converted fuel format index m w percent args args (format_of ps) (b'%' ∷ []) 1 s f h c in
    (
      b'%' ∷ out,
      total,
      sign p,
      printf_loop-turn fuel format index num b'%' 1 _ total m args args (b'%' ∷ []) out s.0 s.1 t q,
    )

printf_loop-Renders :
    (fuel format index num most : ℕ) (m : Memory) (ps : List Piece) (args : List ℕ)
    → IsString m (format + index) (format_of ps)
    → IsFormat ps
    → Supplied m most ps args
    → length (format_of ps) + most < fuel
    → Renders m ps args (printf_loop fuel m format index num args)
printf_loop-Renders zero format index num most m ps args s f a h = elim h [ ]
printf_loop-Renders (suc fuel) format index num most m [] args s f a h =
    ([], num, nothing, unfold printf_loop in rw s refl)
printf_loop-Renders (suc fuel) format index num most m (text c ∷ ps) args s (f, fs) a h =
    let next : format + index + 1 ≡ format + (index + 1) = omega arith in
    let plain : (c == b'%') ≡ false = ground (arith, f) in
    let t : turn fuel m format index c args ≡ turned (c ∷ []) 1 (index + 1) args =
      unfold turn in rw plain refl in
    let (out, total, p, e) =
      printf_loop-Renders fuel format (index + 1) (u32 (num + 1)) most m ps args (rw next at s.3) fs
        a (omega arith) in
    (
      c ∷ out,
      total,
      literal p,
      printf_loop-turn fuel format index num c 1 (index + 1) total m args args (c ∷ []) out s.0 s.1
          t e,
    )
printf_loop-Renders (suc fuel) format index num most m (converted w percent ∷ ps) args s f a h =
    let (wf, fs) = IsFormat-tail w percent ps f in
    let l = length-converted w percent ps in
    sign-Renders fuel format index num m w ps args s wf (omega (arith, l)) (
      printf_loop-Renders fuel format (index + (1 + length (width_code w) + 1)) (u32 (num + 1)) most
        m ps args (behind format index m w percent ps s).1 fs a (omega (arith, l)))
printf_loop-Renders (suc fuel) format index num most m (converted w k ∷ ps) args s f a h =
    let (wf, fs) = IsFormat-tail w k ps f in
    let (here, after) = behind format index m w k ps s in
    let l = length-converted w k ps in
    let (b, rest, e, str, supplied) = Supplied-HasArgument m most w k ps args (λ e. cc) a in
    let (bs, counted, shown, c) =
      conversion-Converts fuel format (index + 1 + length (width_code w)) (width_of w) b m k rest
        (format_of ps) here (λ e. cc) (λ z. let (xs, t, q) = str z in (xs, t, omega (arith, l))) in
    let t =
      turn_converted fuel format index m w k args rest (format_of ps) bs counted s wf
        (omega (arith, l)) (rw e c) in
    let (out, total, p, q) =
      printf_loop-Renders fuel format (index + (1 + length (width_code w) + length (code k)))
        (u32 (num + counted)) most m ps rest after fs supplied (omega (arith, l, length-code k)) in
    (
      bs ++ out,
      total,
      rw e (argument bs shown p),
      printf_loop-turn fuel format index num b'%' counted _ total m args rest bs out s.0 s.1 t q,
    )

-- `kprintf` on any format of text and the seven conversions, zero-padding widths included, where the
-- arguments suffice, those for `%s` are strings of at most `most` characters, and there are more
-- rounds than the format has characters and `most` together: it returns, and writes the text as it
-- stands, and for each argument the character, the string or the numeral, hexadecimal with zeros up to
-- the width, decimal with the units first, and "-0" for any negative number. Its result is the number
-- of the bytes written, modulo 2^32.
pub kprintf-Prints :
    (fuel format most : ℕ) (m : Memory) (ps : List Piece) (args : List ℕ)
    → IsString m format (format_of ps)
    → IsFormat ps
    → Supplied m most ps args
    → length (format_of ps) + most < fuel
    → (out : List ℕ) × Prints m ps args out
      × (kprintf fuel m format args ≡ done (out, u32 (length out)))
kprintf-Prints fuel format most m ps args s f a h =
    let start : format ≡ format + 0 = omega arith in
    let (out, total, p, e) =
      printf_loop-Renders fuel format 0 0 most m ps args (rw start at s) f a h in
    let k : kprintf fuel m format args ≡ done (out, total) = unfold kprintf in e in
    (out, p, k ∙ ap (λ n. done (out, n)) (kprintf_counts fuel format total m args out k))
