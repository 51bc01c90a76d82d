-- ===== src/Kstdio/Numerals.antt =====
-- Numerals, apart from how kernel/kstdlib/stdio.c prints them: the digits of a number and the bytes
-- that they are written with.
use sysrv.Prelude.{
  ℕ, ◌+◌, ◌-◌, ◌*◌, ◌≤◌, ◌<◌, ◌^◌, ◌≡◌, List, [], ◌∷◌, map, length, max, ltb, if◌then◌else◌,
}

-- The byte for a digit: `0` to `9`, and `A` and so on behind them.
abbrev pub symbol : ℕ → ℕ
symbol d = if ltb d 10 then b'0' + d else b'A' + (d - 10)

abbrev pub AreBelow : ℕ → List ℕ → Type 0
AreBelow base [] = Unit
AreBelow base (d ∷ ds) = (d < base) × AreBelow base ds

-- The number that digits stand for, in the usual order behind those of `acc`, and units first.
abbrev pub read_digits : ℕ → ℕ → List ℕ → ℕ
read_digits base acc [] = acc
read_digits base acc (d ∷ ds) = read_digits base (acc * base + d) ds

abbrev pub units_first : ℕ → List ℕ → ℕ
units_first base [] = 0
units_first base (d ∷ ds) = d + base * units_first base ds

-- There are at least `least` digits, and fewer, if they are still so many, are too few for `n`.
pub record IsTight (base n least : ℕ) (ds : List ℕ) : Type 0 where
  pub enough : least ≤ length ds
  pub needed : (k : ℕ) → least ≤ k → k < length ds → base ^ k ≤ n

-- The bytes are the decimal numeral of `n`, its units first.
abbrev pub IsDecimal : ℕ → List ℕ → Type 0
IsDecimal n bs =
    (ds : List ℕ) × (bs ≡ map symbol ds)
    × AreBelow 10 ds
    × (units_first 10 ds ≡ n)
    × IsTight 10 n 1 ds

-- The bytes are the hexadecimal numeral of `n`, in the usual order, with zeros before it up to the
-- width if that is a positive int.
abbrev pub IsHex : ℕ → ℕ → List ℕ → Type 0
IsHex n width bs =
    (ds : List ℕ) × (bs ≡ map symbol ds)
    × AreBelow 16 ds
    × (read_digits 16 0 ds ≡ n)
    × IsTight 16 n (if ltb width (2 ^ 31) then max 1 width else 1) ds
