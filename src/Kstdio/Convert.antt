-- ===== src/Kstdio/Convert.antt =====
-- The conversions of kernel/kstdlib/stdio.c, each at its place in a format.
use sysrv.Prelude.{
  ℕ, zero, suc, ◌+◌, ◌-◌, ◌*◌, ◌%◌, ◌≤◌, ◌<◌, ◌^◌, ◌≡◌, ◌≢◌, inl, inr, refl, subst, ap, ◌∙◌, List,
  [], ◌∷◌, ◌++◌, map, some, true, false, Outcome, done, length, length-map, leb, leb→le, ◌&&◌, ◌==◌,
  Bool-cases, arith,
}
use sysrv.Word.{u32, u64}
use sysrv.Memory.{Memory, IsString}
use sysrv.Kstdio.{
  length32, print_number, print_hex, width_loop, parse_zero_pad_width, string_loop, Turn,
  long_conversion, conversion, turn,
}
use sysrv.Kstdio.Numbers.{print_ulong_lem, print_number_lem}
use sysrv.Kstdio.Hex.{print_hex_lem}
use sysrv.Kstdio.Pieces.{
  Conversion, character, number, hex, string, percent, long_hex, long_unsigned, Width, unpadded,
  padded, Piece, converted, code, width_code, AreDigits, IsFormat, decimal, width_of, Shows,
  Supplied,
}

-- The text behind the first part of a string.
pub IsString-append :
    (m : Memory) (p : ℕ) (cs ds : List ℕ) → IsString m p (cs ++ ds) → IsString m (p + length cs) ds
IsString-append m p [] ds s = let e : p ≡ p + 0 = omega arith in rw e at s
IsString-append m p (c ∷ cs) ds s =
    let e : p + 1 + length cs ≡ p + suc (length cs) = omega arith in
    rw e at (IsString-append m (p + 1) cs ds s.3)

string_loop_lem :
    (fuel string curr_index : ℕ) (m : Memory) (cs : List ℕ)
    → IsString m (string + curr_index) cs
    → length cs < fuel
    → string_loop fuel m string curr_index ≡ done cs
unfolding string_loop
string_loop_lem zero p i m cs s h = elim h [ ]
string_loop_lem (suc fuel) p i m [] s h = rw s refl
string_loop_lem (suc fuel) p i m (c ∷ cs) s h =
    let next : p + i + 1 ≡ p + (i + 1) = omega arith in
    let t : (c == 0) ≡ false = ground (arith, s.1) in
    rw (s.0, t, string_loop_lem fuel p (i + 1) m cs (rw next at s.3) (omega arith)) refl

-- A character that no width goes on with.
abbrev IsEnd : ℕ → Type 0
IsEnd c = (leb b'0' c && leb c b'9') ≡ false

width_loop_lem :
    (fuel format index acc c : ℕ) (m : Memory) (ds cs : List ℕ)
    → IsString m (format + index) (map (λ d. d + b'0') ds ++ c ∷ cs)
    → AreDigits ds
    → IsEnd c
    → length ds < fuel
    → width_loop fuel m format index (u32 acc) ≡ done (u32 (decimal acc ds), index + length ds)
unfolding width_loop
width_loop_lem zero format index acc c m ds cs s a e h = elim h [ ]
width_loop_lem (suc fuel) format index acc c m [] cs s a e h =
    rw (s.0, e) (ap (λ i. done (u32 acc, i)) (omega arith))
width_loop_lem (suc fuel) format index acc c m (d ∷ ds) cs s (a, as') e h =
    let next : format + index + 1 ≡ format + (index + 1) = omega arith in
    let t : (leb b'0' (d + b'0') && leb (d + b'0') b'9') ≡ true = ground arith in
    let v : u32 (u32 (u32 acc * 10) + (d + b'0' - b'0')) ≡ u32 (acc * 10 + d) = omega arith in
    rw (s.0, t, v)
      (width_loop_lem fuel format (index + 1) (acc * 10 + d) c m ds cs (rw next at s.3) as' e
          (omega arith)
        ∙ ap (λ i. done (u32 (decimal (acc * 10 + d) ds), i)) (omega arith))

parse_zero_pad_width_lem :
    (fuel format index c : ℕ) (m : Memory) (w : Width) (cs : List ℕ)
    → IsString m (format + index) (width_code w ++ c ∷ cs)
    → IsFormat (converted w percent ∷ [])
    → IsEnd c
    → length (width_code w) < suc fuel
    → parse_zero_pad_width fuel m format index ≡ done (width_of w, index + length (width_code w))
unfolding parse_zero_pad_width
parse_zero_pad_width_lem fuel format index c m unpadded cs s f e h =
    let t : (c == b'0') ≡ false = ground arith in rw (s.0, t) (ap (λ i. done (0, i)) (omega arith))
parse_zero_pad_width_lem fuel format index c m (padded ds) cs s f e h =
    let next : format + index + 1 ≡ format + (index + 1) = omega arith in
    rw s.0 (
      width_loop_lem fuel format (index + 1) 0 c m ds cs (rw next at s.3) f.0 e
        (omega (arith, length-map ds (λ d. d + b'0')))
      ∙ ap (λ i. done (u32 (decimal 0 ds), i)) (omega (arith, length-map ds (λ d. d + b'0'))))

abbrev pub turned : List ℕ → ℕ → ℕ → List ℕ → Outcome Turn
turned bs n index args = done (record { bytes = bs; counted = n; index = index; args = args })

-- What a conversion comes to at its code: bytes that show the argument, and the index of the last
-- character of the code.
abbrev pub Converts : Memory → ℕ → ℕ → Conversion → ℕ → List ℕ → Outcome Turn → Type 0
Converts m index width k a args r =
    (bs : List ℕ) × (n : ℕ) × Shows m width k a bs
    × (r ≡ turned bs n (index + (length (code k) - 1)) args)

pub last_index :
    (bs : List ℕ) (n index : ℕ) (args : List ℕ)
    → turned bs n index args ≡ turned bs n (index + 0) args
last_index bs n index args = ap (λ i. turned bs n i args) (omega arith)

pub conversion-Converts :
    (fuel format index width a : ℕ) (m : Memory) (k : Conversion) (args cs : List ℕ)
    → IsString m (format + index) (code k ++ cs)
    → k ≢ percent
    → (k ≡ string → (bs : List ℕ) × IsString m a bs × (length bs < fuel))
    → Converts m index width k a args (conversion fuel m format index width (a ∷ args))
unfolding conversion long_conversion
conversion-Converts fuel format index width a m character args cs s np str =
    (a % 256 ∷ [], 1, refl, rw s.0 (last_index _ _ index args))
conversion-Converts fuel format index width a m number args cs s np str =
    let (ds, e, v) = print_number_lem (u32 a) (omega arith) in
    elim (Bool-cases (leb (2 ^ 31) (u32 a))) [
      | inl n ↦
          let r : print_number (u32 a) ≡ done (b'-' ∷ b'0' ∷ [], 1) = rw n at e in
          (
            b'-' ∷ b'0' ∷ [],
            2,
            inr (leb→le _ _ n, refl),
            rw (s.0, r, n) (last_index _ _ index args),
          )
      | inr n ↦
          let r : print_number (u32 a) ≡ done (ds, length ds) = rw n at e in
          (ds, length ds, inl (ground arith, v), rw (s.0, r, n) (last_index _ _ index args))
    ]
conversion-Converts fuel format index width a m hex args cs s np str =
    let l = print_hex_lem (u32 a) width (omega arith) in
    (
      (print_hex (u32 a) width).0,
      (print_hex (u32 a) width).1,
      l.0,
      rw s.0 (last_index _ _ index args),
    )
conversion-Converts fuel format index width a m string args cs s np str =
    let (bs, t, l) = str refl in
    let e : a ≡ a + 0 = omega arith in
    (
      bs,
      length32 bs,
      t,
      rw (s.0, string_loop_lem fuel a 0 m bs (rw e at t) l) (last_index _ _ index args),
    )
conversion-Converts fuel format index width a m percent args cs s np str = absurd (np refl)
conversion-Converts fuel format index width a m long_hex args cs s np str =
    let l = print_hex_lem (u64 a) width (omega arith) in
    let next : format + index + 1 ≡ format + (index + 1) = omega arith in
    let c : m (format + (index + 1)) ≡ some b'x' = (rw next at s.3).0 in
    ((print_hex (u64 a) width).0, (print_hex (u64 a) width).1, l.0, rw (s.0, c) refl)
conversion-Converts fuel format index width a m long_unsigned args cs s np str =
    let (ds, e, v) = print_ulong_lem (u64 a) (omega arith) in
    let next : format + index + 1 ≡ format + (index + 1) = omega arith in
    let c : m (format + (index + 1)) ≡ some b'u' = (rw next at s.3).0 in
    (ds, length ds, v, rw (s.0, c, e) refl)

code_head :
    (k : Conversion) (cs : List ℕ) → (c : ℕ) × (rest : List ℕ) × (code k ++ cs ≡ c ∷ rest) × IsEnd c
code_head character cs = (_, _, refl, refl)
code_head number cs = (_, _, refl, refl)
code_head hex cs = (_, _, refl, refl)
code_head string cs = (_, _, refl, refl)
code_head percent cs = (_, _, refl, refl)
code_head long_hex cs = (_, _, refl, refl)
code_head long_unsigned cs = (_, _, refl, refl)

pub length-code : (k : Conversion) → 1 ≤ length (code k)
length-code character = omega arith
length-code number = omega arith
length-code hex = omega arith
length-code string = omega arith
length-code percent = omega arith
length-code long_hex = omega arith
length-code long_unsigned = omega arith

pub IsFormat-tail :
    (w : Width) (k : Conversion) (ps : List Piece)
    → IsFormat (converted w k ∷ ps)
    → IsFormat (converted w percent ∷ []) × IsFormat ps
IsFormat-tail unpadded k ps f = (tt, f)
IsFormat-tail (padded ds) k ps f = ((f.0, tt), f.1)

-- A conversion that takes an argument has one.
abbrev pub HasArgument : Memory → ℕ → Conversion → List Piece → List ℕ → Type 0
HasArgument m most k ps args =
    (a : ℕ) × (rest : List ℕ) × (args ≡ a ∷ rest)
    × (k ≡ string → (bs : List ℕ) × IsString m a bs × (length bs < suc most))
    × Supplied m most ps rest

pub Supplied-HasArgument :
    (m : Memory) (most : ℕ) (w : Width) (k : Conversion) (ps : List Piece) (args : List ℕ)
    → k ≢ percent
    → Supplied m most (converted w k ∷ ps) args
    → HasArgument m most k ps args
Supplied-HasArgument m most w character ps (a ∷ args) n s = (a, args, refl, (λ e. cc), s)
Supplied-HasArgument m most w number ps (a ∷ args) n s = (a, args, refl, (λ e. cc), s)
Supplied-HasArgument m most w hex ps (a ∷ args) n s = (a, args, refl, (λ e. cc), s)
Supplied-HasArgument m most w string ps (a ∷ args) n s =
    (a, args, refl, (λ e. (s.0.0, s.0.1, omega arith)), s.1)
Supplied-HasArgument m most w long_hex ps (a ∷ args) n s = (a, args, refl, (λ e. cc), s)
Supplied-HasArgument m most w long_unsigned ps (a ∷ args) n s = (a, args, refl, (λ e. cc), s)
Supplied-HasArgument m most w percent ps args n s = absurd (n refl)
Supplied-HasArgument m most w character ps [] n s = elim s [ ]
Supplied-HasArgument m most w number ps [] n s = elim s [ ]
Supplied-HasArgument m most w hex ps [] n s = elim s [ ]
Supplied-HasArgument m most w string ps [] n s = elim s [ ]
Supplied-HasArgument m most w long_hex ps [] n s = elim s [ ]
Supplied-HasArgument m most w long_unsigned ps [] n s = elim s [ ]

pub turn_converted :
    (fuel format index : ℕ) (m : Memory) (w : Width) (k : Conversion) (args rest cs bs : List ℕ)
    (n : ℕ)
    → IsString m (format + index) (b'%' ∷ width_code w ++ (code k ++ cs))
    → IsFormat (converted w percent ∷ [])
    → length (width_code w) < suc fuel
    → conversion fuel m format (index + 1 + length (width_code w)) (width_of w) args
      ≡ turned bs n (index + 1 + length (width_code w) + (length (code k) - 1)) rest
    → turn fuel m format index b'%' args
      ≡ turned bs n (index + (1 + length (width_code w) + length (code k))) rest
unfolding turn
turn_converted fuel format index m w k args rest cs bs n s f h e =
    let next : format + index + 1 ≡ format + (index + 1) = omega arith in
    let (c, tail, head, end) = code_head k cs in
    let t =
      subst (λ x. IsString m (format + (index + 1)) (width_code w ++ x)) head (rw next at s.3) in
    rw (parse_zero_pad_width_lem fuel format (index + 1) c m w tail t f end h, e)
      (ap (λ i. turned bs n i rest) (omega (arith, length-code k)))
