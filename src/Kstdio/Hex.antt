-- ===== src/Kstdio/Hex.antt =====
-- What the hexadecimal printers of kernel/kstdlib/stdio.c write.
use native.Mathlib.Nat.{
  pow-suc, one-le-pow, pow-le-pow_right, mod-lt, mod-eq_of_lt, mul-add-mod_self_right, div-add-mod',
  div-eq_of_lt,
}
use native.Mathlib.Numerals.{towards_suc}
use sysrv.Prelude.{
  ℕ, zero, suc, ◌+◌, ◌*◌, ◌/◌, ◌%◌, ◌<◌, ◌^◌, ◌≡◌, ◌≤◌, refl, ap, ap₂, ◌∙◌, List, [], ◌∷◌, map,
  length, ltb, leb, ◌==◌, ==_iff, if◌then◌else◌, Bool-cases, inl, inr, arith, bit_and, max,
}
use sysrv.Word.Bits.{bit_and_mask}
use sysrv.Kstdio.{digit, count_hex, hex_digits, padded_width, hex_loop, print_hex}
use sysrv.Kstdio.Numbers.{digit-symbol}
use sysrv.Kstdio.Numerals.{symbol, AreBelow, read_digits, IsTight, IsHex}

nibbles : (i : ℕ) → 2 ^ (i * 4) ≡ 16 ^ i
nibbles zero = refl
nibbles (suc i) =
    let e : suc i * 4 ≡ i * 4 + 4 = omega arith in
    let step : 2 ^ (i * 4 + 4) ≡ 16 * 2 ^ (i * 4) = simp towards_suc (omega arith) in
    rw e (step ∙ omega (arith, nibbles i, pow-suc 16 i))

fits_nibble : (d p r : ℕ) → d < 16 → r < p → d * p + r < p * 16
fits_nibble d p r h l = grind arith

-- The remainder by 16 p, from the digit above p and the remainder by p.
mod_nibble : (n p : ℕ) → 0 < p → n % (p * 16) ≡ n / p % 16 * p + n % p
mod_nibble n p h =
    let q : ℕ = n / p in
    let split : q * p ≡ q / 16 * (p * 16) + q % 16 * p =
      omega (arith, ap (λ (t : ℕ). t * p) (div-add-mod' q 16)) in
    let small : q % 16 * p + n % p < p * 16 =
      fits_nibble (q % 16) p (n % p) (omega arith) (mod-lt n h) in
    let whole : n ≡ q / 16 * (p * 16) + (q % 16 * p + n % p) =
      omega (arith, split, div-add-mod' n p) in
    ap (λ (t : ℕ). t % (p * 16)) whole
    ∙ mul-add-mod_self_right (q / 16) (p * 16) (q % 16 * p + n % p)
    ∙ mod-eq_of_lt small

length-hex_loop : (k v n : ℕ) → length (hex_loop k v n) ≡ k
unfolding hex_loop
length-hex_loop zero v n = refl
length-hex_loop (suc k) v n = ap suc (length-hex_loop k v n)

count_hex-lt : (fuel n : ℕ) → n < 16 ^ fuel → n < 16 ^ count_hex fuel n
unfolding count_hex
count_hex-lt zero n h = h
count_hex-lt (suc fuel) n h = elim (Bool-cases (ltb 0 n)) [
  | inl p ↦ rw p (
      omega (
        arith,
        count_hex-lt fuel (n / 16) (omega (arith, pow-suc 16 fuel)),
        pow-suc 16 (count_hex fuel (n / 16)),
      ))
  | inr z ↦ rw z (ground arith)
]

-- A number has one digit more than its sixteenth.
pow-le_sixteenth :
    (n l k : ℕ) → 0 < n → ((i : ℕ) → i < l → 16 ^ i ≤ n / 16) → k < suc l → 16 ^ k ≤ n
pow-le_sixteenth n l zero pos h less = omega arith
pow-le_sixteenth n l (suc k) pos h less = omega (arith, h k (omega arith), pow-suc 16 k)

-- With fewer digits than are counted the number does not fit.
count_hex-le : (fuel n k : ℕ) → k < count_hex fuel n → 16 ^ k ≤ n
unfolding count_hex
count_hex-le zero n k h = elim h [ ]
count_hex-le (suc fuel) n k h = elim (Bool-cases (ltb 0 n)) [
  | inl p ↦
      pow-le_sixteenth n (count_hex fuel (n / 16)) k (ground arith) (count_hex-le fuel (n / 16))
        (rw p at h)
  | inr z ↦ let e = rw z at h in elim e [ ]
]

-- The byte at place `i`, of `v` digits.
place :
    (i v n : ℕ)
    → n < 16 ^ v
    → (if leb v i then b'0' else digit (bit_and (n / 2 ^ (i * 4)) 0xf)) ≡ symbol (n / 16 ^ i % 16)
place i v n h = elim (Bool-cases (leb v i)) [
  | inl past ↦
      let z : n / 16 ^ i ≡ 0 =
        div-eq_of_lt
          (omega (arith, pow-le-pow_right {n = 16} (omega arith) {i = v} {j = i} (ground arith))) in
      rw (past, z) refl
  | inr inside ↦
      rw (inside, nibbles i, bit_and_mask 4 (n / 16 ^ i))
        (digit-symbol (n / 16 ^ i % 16) (omega arith))
]

-- The `k` lowest digits of a number.
abbrev low_digits : ℕ → ℕ → List ℕ
low_digits zero n = []
low_digits (suc i) n = n / 16 ^ i % 16 ∷ low_digits i n

hex_loop-low_digits : (k v n : ℕ) → n < 16 ^ v → hex_loop k v n ≡ map symbol (low_digits k n)
unfolding hex_loop
hex_loop-low_digits zero v n h = refl
hex_loop-low_digits (suc i) v n h =
    ap₂ (λ b bs. b ∷ bs) (place i v n h) (hex_loop-low_digits i v n h)

low_digits-AreBelow : (k n : ℕ) → AreBelow 16 (low_digits k n)
low_digits-AreBelow zero n = tt
low_digits-AreBelow (suc i) n = (omega arith, low_digits-AreBelow i n)

length-low_digits : (k n : ℕ) → length (low_digits k n) ≡ k
length-low_digits zero n = refl
length-low_digits (suc i) n = ap suc (length-low_digits i n)

read_digits-low_digits :
    (k n acc : ℕ) → read_digits 16 acc (low_digits k n) ≡ acc * 16 ^ k + n % 16 ^ k
read_digits-low_digits zero n acc = omega arith
read_digits-low_digits (suc i) n acc =
    read_digits-low_digits i n (acc * 16 + n / 16 ^ i % 16)
    ∙ rw (pow-suc 16 i, mod_nibble n (16 ^ i) (one-le-pow i 16 (omega arith))) (omega arith)

hex_digits-lt : (n : ℕ) → n < 2 ^ 64 → n < 16 ^ hex_digits n
unfolding hex_digits
hex_digits-lt n h = elim (Bool-cases (count_hex 16 n == 0)) [
  | inl z ↦
      let e : count_hex 16 n ≡ 0 = (==_iff _ _).0 z in
      let small : n < 16 ^ 0 = rw e at (count_hex-lt 16 n (omega arith)) in rw z (omega arith)
  | inr e ↦ rw e (count_hex-lt 16 n (omega arith))
]

hex_digits-le : (n : ℕ) → (1 ≤ hex_digits n) × ((k : ℕ) → 1 ≤ k → k < hex_digits n → 16 ^ k ≤ n)
unfolding hex_digits
hex_digits-le n = elim (Bool-cases (count_hex 16 n == 0)) [
  | inl z ↦ rw z (omega arith, λ k one l. absurd (omega arith))
  | inr e ↦ rw e (ground arith, λ k one l. count_hex-le 16 n k l)
]

-- The width adds digits, and takes none away.
padded-IsTight :
    (n v width : ℕ)
    → 1 ≤ v
    → ((k : ℕ) → 1 ≤ k → k < v → 16 ^ k ≤ n)
    → IsTight 16 n
        (if ltb width (2 ^ 31) then max 1 width else 1)
        (low_digits (padded_width v width) n)
padded-IsTight n v width one h = record {
  enough = ground (arith, length-low_digits (padded_width v width) n);
  needed =
      λ k least l. h k (ground arith) (ground (arith, length-low_digits (padded_width v width) n));
}

-- `%x` and `%lx` of any number that fits 64 bits write its hexadecimal numeral, with zeros before it
-- up to the zero-padding width (where that is a positive int); the count returned is that of the
-- bytes written.
pub print_hex_lem :
    (number width : ℕ)
    → number < 2 ^ 64
    → IsHex number width (print_hex number width).0
      × (length (print_hex number width).0 ≡ (print_hex number width).1)
unfolding print_hex
print_hex_lem number width h = (
  (
    low_digits k number,
    hex_loop-low_digits k v number (hex_digits-lt number h),
    low_digits-AreBelow k number,
    read_digits-low_digits k number 0 ∙ omega (arith, mod-eq_of_lt {m = 16 ^ k} fits),
    padded-IsTight number v width (hex_digits-le number).0 (hex_digits-le number).1,
  ),
  length-hex_loop k v number,
)
  where
    v : ℕ
    v = hex_digits number

    k : ℕ
    k = padded_width v width

    fits : number < 16 ^ k
    fits = omega (
      arith,
      hex_digits-lt number h,
      pow-le-pow_right {n = 16} (omega arith) {i = v} {j = k} (ground arith),
    )

pub length-print_hex :
    (number width : ℕ) → length (print_hex number width).0 ≡ (print_hex number width).1
unfolding print_hex
length-print_hex number width = length-hex_loop _ _ _
