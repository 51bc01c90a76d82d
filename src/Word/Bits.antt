-- ===== src/Word/Bits.antt =====
-- The bits of a word under `|`, `&`, `~` and `1 << k`. The native operations stand for `bitwise`,
-- a recursion on binary digits with fuel; here the fuel is dropped.
use Prim.Native.Nat.{digits, bitwise, bit_and-bitwise, bit_or-bitwise}
use native.Mathlib.Nat.{le_refl, pow-suc, one-le-pow}
use sysrv.Prelude.{
  ℕ, zero, suc, ◌+◌, ◌-◌, ◌*◌, ◌/◌, ◌%◌, ◌^◌, ◌≤◌, ◌<◌, min, max, bit_and, bit_or, ◌≡◌, refl, ap,
  arith, ◌==◌, if◌then◌else◌,
}

module _ (z : ℕ → ℕ) (f : ℕ → ℕ → ℕ) where
  digits_more : (n m a b : ℕ) → a ≤ n → a ≤ m → digits z f n a b ≡ digits z f m a b
  digits_more zero zero a b p q = refl
  digits_more zero (suc m) zero b p q = refl
  digits_more zero (suc m) (suc a) b p q = absurd (omega arith)
  digits_more (suc n) zero zero b p q = refl
  digits_more (suc n) zero (suc a) b p q = absurd (omega arith)
  digits_more (suc n) (suc m) zero b p q = refl
  digits_more (suc n) (suc m) (suc a) b p q =
      rw (digits_more n m (suc a / 2) (b / 2) (omega arith) (omega arith))

  bitwise_low :
      (a b : ℕ)
      → bitwise z f (suc a) b ≡ bitwise z f (suc a / 2) (b / 2) * 2 + f (suc a % 2) (b % 2)
  bitwise_low a b =
      omega (arith, digits_more a (suc a / 2) (suc a / 2) (b / 2) (omega arith) (le_refl _))

or_low : (a b : ℕ) → bit_or a b ≡ bit_or (a / 2) (b / 2) * 2 + max (a % 2) (b % 2)
or_low zero b = simp bit_or-bitwise (omega arith)
or_low (suc a) b = simp bit_or-bitwise (bitwise_low (λ y. y) max a b)

and_low : (a b : ℕ) → bit_and a b ≡ bit_and (a / 2) (b / 2) * 2 + min (a % 2) (b % 2)
and_low zero b = simp bit_and-bitwise (omega arith)
and_low (suc a) b = simp bit_and-bitwise (bitwise_low (λ y. 0) min a b)

-- The bit of `w` at position `i`, 0 or 1.
unfoldable pub bit : ℕ → ℕ → ℕ
bit w zero = w % 2
bit w (suc i) = bit (w / 2) i

pub bit-le-one : (w i : ℕ) → bit w i ≤ 1
unfolding bit
bit-le-one w zero = omega arith
bit-le-one w (suc i) = bit-le-one (w / 2) i

pub bit-bit_or : (a b i : ℕ) → bit (bit_or a b) i ≡ max (bit a i) (bit b i)
unfolding bit
bit-bit_or a b zero = omega (arith, or_low a b)
bit-bit_or a b (suc i) =
    let e : bit_or a b / 2 ≡ bit_or (a / 2) (b / 2) = omega (arith, or_low a b) in
    rw e (bit-bit_or (a / 2) (b / 2) i)

pub bit-bit_and : (a b i : ℕ) → bit (bit_and a b) i ≡ min (bit a i) (bit b i)
unfolding bit
bit-bit_and a b zero = omega (arith, and_low a b)
bit-bit_and a b (suc i) =
    let e : bit_and a b / 2 ≡ bit_and (a / 2) (b / 2) = omega (arith, and_low a b) in
    rw e (bit-bit_and (a / 2) (b / 2) i)

pub bit-zero : (i : ℕ) → bit 0 i ≡ 0
unfolding bit
bit-zero zero = refl
bit-zero (suc i) = bit-zero i

pub bit-two_pow : (k i : ℕ) → bit (2 ^ k) i ≡ (if k == i then 1 else 0)
unfolding bit
bit-two_pow zero zero = refl
bit-two_pow zero (suc i) = ground (arith, bit-zero i)
bit-two_pow (suc k) zero = ground (arith, pow-suc 2 k)
bit-two_pow (suc k) (suc i) =
    let e : 2 ^ suc k / 2 ≡ 2 ^ k = omega (arith, pow-suc 2 k) in
    rw e (ground (arith, bit-two_pow k i))

-- The complement within `n` bits.
pub bit_complement : (n w i : ℕ) → w < 2 ^ n → i < n → bit (2 ^ n - 1 - w) i ≡ 1 - bit w i
unfolding bit
bit_complement zero w i h k = absurd (omega arith)
bit_complement (suc n) w zero h k = omega (arith, pow-suc 2 n, one-le-pow n 2)
bit_complement (suc n) w (suc i) h k =
    let e : (2 ^ suc n - 1 - w) / 2 ≡ 2 ^ n - 1 - w / 2 = omega (arith, pow-suc 2 n) in
    rw e (bit_complement n (w / 2) i (omega (arith, pow-suc 2 n)) (omega arith))

-- A word of `n` bits is determined by them.
pub bit_ext : (n a b : ℕ) → a < 2 ^ n → b < 2 ^ n → ((i : ℕ) → i < n → bit a i ≡ bit b i) → a ≡ b
unfolding bit
bit_ext zero a b p q h = omega arith
bit_ext (suc n) a b p q h = omega (
  arith,
  h 0 (omega arith),
  bit_ext n (a / 2) (b / 2) (omega (arith, pow-suc 2 n)) (omega (arith, pow-suc 2 n))
      (λ i l. h (suc i) (omega arith)),
)

pub bit_or-lt : (n a b : ℕ) → a < 2 ^ n → b < 2 ^ n → bit_or a b < 2 ^ n
bit_or-lt zero a b p q =
    let e : a ≡ 0 = omega arith in let e' : b ≡ 0 = omega arith in rw (e, e') (omega arith)
bit_or-lt (suc n) a b p q = omega (
  arith,
  or_low a b,
  pow-suc 2 n,
  bit_or-lt n (a / 2) (b / 2) (omega (arith, pow-suc 2 n)) (omega (arith, pow-suc 2 n)),
)

pub bit_and-le : (n a b : ℕ) → a < 2 ^ n → bit_and a b ≤ a
bit_and-le zero a b p = let e : a ≡ 0 = omega arith in rw (e, bit_and-bitwise 0 b) (omega arith)
bit_and-le (suc n) a b p =
    omega (arith, and_low a b, bit_and-le n (a / 2) (b / 2) (omega (arith, pow-suc 2 n)))

-- Where every bit is clear the word is 0, and a set bit makes it positive.
pub bit-le : (w i : ℕ) → bit w i ≤ w
unfolding bit
bit-le w zero = omega arith
bit-le w (suc i) = omega (arith, bit-le (w / 2) i)

bit_and-zero : (n a : ℕ) → a ≤ n → bit_and a 0 ≡ 0
bit_and-zero n zero h = bit_and-bitwise 0 0
bit_and-zero zero (suc a) h = elim h [ ]
bit_and-zero (suc n) (suc a) h =
    omega (arith, and_low (suc a) 0, bit_and-zero n (suc a / 2) (omega arith))

mask_split : (n q r : ℕ) → r < 2 ^ n → bit_and (q * 2 ^ n + r) (2 ^ n - 1) ≡ r
mask_split zero q r h = omega (arith, bit_and-zero (q * 2 ^ 0 + r) (q * 2 ^ 0 + r) (le_refl _))
mask_split (suc n) q r h =
    let e : q * 2 ^ suc n ≡ 2 * (q * 2 ^ n) = omega (arith, ap (λ (t : ℕ). q * t) (pow-suc 2 n)) in
    ground (
      arith,
      and_low (q * 2 ^ suc n + r) (2 ^ suc n - 1),
      pow-suc 2 n,
      one-le-pow n 2,
      e,
      mask_split n q (r / 2) (omega (arith, pow-suc 2 n)),
    )

-- `a & (2^n - 1)` is the remainder by 2^n.
pub bit_and_mask : (n a : ℕ) → bit_and a (2 ^ n - 1) ≡ a % 2 ^ n
bit_and_mask n a = ground (arith, one-le-pow n 2, mask_split n (a / 2 ^ n) (a % 2 ^ n))

-- `a & (1 << k)` keeps one bit.
pub bit_and-two_pow : (k a : ℕ) → bit_and a (2 ^ k) ≡ bit a k * 2 ^ k
unfolding bit
bit_and-two_pow zero a = omega (arith, and_low a 1, bit_and-zero (a / 2) (a / 2) (le_refl _))
bit_and-two_pow (suc k) a =
    let e : 2 ^ suc k / 2 ≡ 2 ^ k = omega (arith, pow-suc 2 k) in
    let f : bit (a / 2) k * 2 ^ suc k ≡ 2 * (bit (a / 2) k * 2 ^ k) =
      omega (arith, ap (λ (t : ℕ). bit (a / 2) k * t) (pow-suc 2 k)) in
    let g : bit_and (a / 2) (2 ^ suc k / 2) ≡ bit (a / 2) k * 2 ^ k =
      rw e (bit_and-two_pow k (a / 2)) in
    omega (arith, and_low a (2 ^ suc k), f, g, pow-suc 2 k)

-- `a & (r | w | x)` for the bits 1, 2 and 3.
pub bit_and_fourteen : (a : ℕ) → bit_and a 14 ≡ bit a 1 * 2 + bit a 2 * 4 + bit a 3 * 8
unfolding bit
bit_and_fourteen a = omega (arith, and_low a 14, bit_and_mask 3 (a / 2))

bit_or-zero : (n a : ℕ) → a ≤ n → bit_or a 0 ≡ a
bit_or-zero n zero h = bit_or-bitwise 0 0
bit_or-zero zero (suc a) h = elim h [ ]
bit_or-zero (suc n) (suc a) h =
    omega (arith, or_low (suc a) 0, bit_or-zero n (suc a / 2) (omega arith))

-- `a << n | b`, where `b` has no bit from `n` on, is a sum.
pub bit_or-sum : (n a b : ℕ) → b < 2 ^ n → bit_or (a * 2 ^ n) b ≡ a * 2 ^ n + b
bit_or-sum zero a b h =
    let e : b ≡ 0 = omega arith in
    let f : a * 2 ^ 0 ≡ a = omega arith in rw (e, f) (omega (arith, bit_or-zero a a (le_refl _)))
bit_or-sum (suc n) a b h =
    let e : a * 2 ^ suc n ≡ 2 * (a * 2 ^ n) = omega (arith, ap (λ (t : ℕ). a * t) (pow-suc 2 n)) in
    let f : a * 2 ^ suc n / 2 ≡ a * 2 ^ n = omega (arith, e) in
    let r : bit_or (a * 2 ^ suc n / 2) (b / 2) ≡ a * 2 ^ n + b / 2 =
      rw f (bit_or-sum n a (b / 2) (omega (arith, pow-suc 2 n))) in
    omega (arith, or_low (a * 2 ^ suc n) b, e, r)

bit_or-below : (n a b : ℕ) → a + b ≤ n → bit_or a b ≡ bit_or b a
bit_or-below zero a b h =
    let e : a ≡ 0 = omega arith in let f : b ≡ 0 = omega arith in rw (e, f) refl
bit_or-below (suc n) a b h =
    omega (arith, or_low a b, or_low b a, bit_or-below n (a / 2) (b / 2) (omega arith))

pub bit_or_comm : (a b : ℕ) → bit_or a b ≡ bit_or b a
bit_or_comm a b = bit_or-below (a + b) a b (le_refl _)
