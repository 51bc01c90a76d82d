-- ===== src/Kstdio/Pieces.antt =====
-- What a format means to `kprintf` (kernel/kstdlib/stdio.c): a format as its pieces, its text, and
-- what is to be written for it.
use sysrv.Prelude.{ℕ, ◌+◌, ◌*◌, ◌%◌, ◌≤◌, ◌<◌, ◌^◌, ◌≡◌, ◌≢◌, ◌⊎◌, List, [], ◌∷◌, ◌++◌, map, length}
use sysrv.Word.{u32, u64}
use sysrv.Memory.{Memory, IsString}
use sysrv.Kstdio.Numerals.{IsDecimal, IsHex}

-- The conversions: `c`, `d`, `x`, `s`, `%`, `lx` and `lu`.
pub data Conversion : Type 0 where
  character number hex string percent long_hex long_unsigned : Conversion

-- A zero-padding width: none, or `0` and digits after it, given by their values.
pub data Width : Type 0 where
  unpadded : Width
  padded : List ℕ → Width

pub data Piece : Type 0 where
  text : ℕ → Piece
  converted : Width → Conversion → Piece

abbrev pub code : Conversion → List ℕ
code character = b'c' ∷ []
code number = b'd' ∷ []
code hex = b'x' ∷ []
code string = b's' ∷ []
code percent = b'%' ∷ []
code long_hex = b'l' ∷ b'x' ∷ []
code long_unsigned = b'l' ∷ b'u' ∷ []

abbrev pub width_code : Width → List ℕ
width_code unpadded = []
width_code (padded ds) = b'0' ∷ map (λ d. d + b'0') ds

-- The text of a format.
abbrev pub format_of : List Piece → List ℕ
format_of [] = []
format_of (text c ∷ ps) = c ∷ format_of ps
format_of (converted w k ∷ ps) = b'%' ∷ width_code w ++ (code k ++ format_of ps)

abbrev pub AreDigits : List ℕ → Type 0
AreDigits [] = Unit
AreDigits (d ∷ ds) = (d < 10) × AreDigits ds

-- Text has no `%`, and widths are of decimal digits.
abbrev pub IsFormat : List Piece → Type 0
IsFormat [] = Unit
IsFormat (text c ∷ ps) = (c ≢ b'%') × IsFormat ps
IsFormat (converted unpadded k ∷ ps) = IsFormat ps
IsFormat (converted (padded ds) k ∷ ps) = AreDigits ds × IsFormat ps

-- The number that the digits stand for, behind those of `acc`.
abbrev pub decimal : ℕ → List ℕ → ℕ
decimal acc [] = acc
decimal acc (d ∷ ds) = decimal (acc * 10 + d) ds

-- A width as the `int` that is kept, modulo 2^32.
abbrev pub width_of : Width → ℕ
width_of unpadded = 0
width_of (padded ds) = u32 (decimal 0 ds)

-- The bytes `bs` are what is to be written for the argument `a`; `%%` takes none. As the source has
-- it, decimal digits come with the units first, and any negative number is "-0".
abbrev pub Shows : Memory → ℕ → Conversion → ℕ → List ℕ → Type 0
Shows m width character a bs = bs ≡ a % 256 ∷ []
Shows m width number a bs =
    ((u32 a < 2 ^ 31) × IsDecimal (u32 a) bs) ⊎ ((2 ^ 31 ≤ u32 a) × (bs ≡ b'-' ∷ b'0' ∷ []))
Shows m width hex a bs = IsHex (u32 a) width bs
Shows m width string a bs = IsString m a bs
Shows m width percent a bs = ⊥
Shows m width long_hex a bs = IsHex (u64 a) width bs
Shows m width long_unsigned a bs = IsDecimal (u64 a) bs

-- `out` is what a format writes for its arguments.
pub data Prints (m : Memory) : List Piece → List ℕ → List ℕ → Type 0 where
  nothing : {args : List ℕ} → Prints m [] args []
  literal :
      {c : ℕ} {ps : List Piece} {args out : List ℕ}
      → Prints m ps args out
      → Prints m (text c ∷ ps) args (c ∷ out)
  sign :
      {w : Width} {ps : List Piece} {args out : List ℕ}
      → Prints m ps args out
      → Prints m (converted w percent ∷ ps) args (b'%' ∷ out)
  argument :
      {w : Width} {k : Conversion} {ps : List Piece} {a : ℕ} {args out : List ℕ} (bs : List ℕ)
      → Shows m (width_of w) k a bs
      → Prints m ps args out
      → Prints m (converted w k ∷ ps) (a ∷ args) (bs ++ out)

-- The arguments suffice, and those for `%s` are strings of at most `most` characters.
abbrev pub Supplied : Memory → ℕ → List Piece → List ℕ → Type 0
Supplied m most [] args = Unit
Supplied m most (text c ∷ ps) args = Supplied m most ps args
Supplied m most (converted w percent ∷ ps) args = Supplied m most ps args
Supplied m most (converted w string ∷ ps) [] = ⊥
Supplied m most (converted w string ∷ ps) (a ∷ args) =
    ((cs : List ℕ) × IsString m a cs × (length cs ≤ most)) × Supplied m most ps args
Supplied m most (converted w k ∷ ps) [] = ⊥
Supplied m most (converted w k ∷ ps) (a ∷ args) = Supplied m most ps args
