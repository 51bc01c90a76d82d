-- ===== src/Kstdio/Numbers.antt =====
-- What the decimal printers of kernel/kstdlib/stdio.c write.
use native.Mathlib.Nat.{pow-suc}
use sysrv.Prelude.{
  ℕ, zero, suc, ◌+◌, ◌-◌, ◌/◌, ◌%◌, ◌≤◌, ◌<◌, ◌^◌, ◌≡◌, refl, ap, ap₂, List, [], ◌∷◌, Bool, true,
  Outcome, done, ◌>>=◌, length, leb, ◌==◌, ==_iff, ◌&&◌, if◌then◌else◌, Bool-cases, inl, inr, arith,
}
use sysrv.Word.{u32}
use sysrv.Kstdio.{digit, decimal_loop, length32, print_number, print_ulong}
use sysrv.Kstdio.Numerals.{symbol, IsDecimal}

check_below : ℕ → (ℕ → Bool) → Bool
check_below zero p = true
check_below (suc n) p = p n && check_below n p

check_below_lem : (n : ℕ) (p : ℕ → Bool) (k : ℕ) → check_below n p ≡ true → k < n → p k ≡ true
unfolding check_below
check_below_lem zero p k h l = elim l [ ]
check_below_lem (suc n) p k h l = ground (arith, check_below_lem n p k)

digit_table : check_below 16 (λ k. digit k == symbol k) ≡ true
unfolding check_below
digit_table = refl

-- The table of the source has the digits at their places.
pub digit-symbol : (k : ℕ) → k < 16 → digit k ≡ symbol k
digit-symbol k h = (==_iff _ _).0 (check_below_lem 16 _ k digit_table h)

-- `r` is the decimal numeral of `number`, the units first, in at most `n` bytes.
abbrev Writes : ℕ → ℕ → Outcome (List ℕ) → Type 0
Writes number n r = (bs : List ℕ) × (r ≡ done bs) × IsDecimal number bs × (length bs ≤ n)

last-IsDecimal : (number : ℕ) → number / 10 ≡ 0 → IsDecimal number (digit (number % 10) ∷ [])
last-IsDecimal number z = (
  number % 10 ∷ [],
  ap (λ b. b ∷ []) (digit-symbol (number % 10) (omega arith)),
  (omega arith, tt),
  omega arith,
  record { enough = omega arith; needed = λ k one l. absurd (omega arith) },
)

-- A number has one digit more than its tenth.
pow-le_tenth :
    (number l k : ℕ)
    → 0 < number / 10
    → ((i : ℕ) → 1 ≤ i → i < l → 10 ^ i ≤ number / 10)
    → 1 ≤ k
    → k < suc l
    → 10 ^ k ≤ number
pow-le_tenth number l zero pos h one less = elim one [ ]
pow-le_tenth number l (suc zero) pos h one less = omega arith
pow-le_tenth number l (suc (suc k)) pos h one less =
    omega (arith, h (suc k) (omega arith) (omega arith), pow-suc 10 (suc k))

next-IsDecimal :
    (number : ℕ) (bs : List ℕ)
    → 0 < number / 10
    → IsDecimal (number / 10) bs
    → IsDecimal number (digit (number % 10) ∷ bs)
next-IsDecimal number bs pos (ds, e, below, v, t) = (
  number % 10 ∷ ds,
  ap₂ (λ b cs. b ∷ cs) (digit-symbol (number % 10) (omega arith)) e,
  (omega arith, below),
  omega (arith, v),
  record { enough = omega arith; needed = λ k. pow-le_tenth number (length ds) k pos t.needed },
)

next-Writes :
    (number n : ℕ) (r : Outcome (List ℕ))
    → 0 < number / 10
    → Writes (number / 10) n r
    → Writes number (suc n) (r >>= λ rest. done (digit (number % 10) ∷ rest))
next-Writes number n r pos (bs, e, v, l) =
    rw e (digit (number % 10) ∷ bs, refl, next-IsDecimal number bs pos v, omega arith)

decimal_loop_lem :
    (fuel number : ℕ)
    → number < 10 ^ suc fuel
    → Writes number (suc fuel) (decimal_loop (suc fuel) number)
unfolding decimal_loop
decimal_loop_lem zero number h =
    let last : (number / 10 == 0) ≡ true = ground arith in
    rw last (digit (number % 10) ∷ [], refl, last-IsDecimal number (ground arith), omega arith)
decimal_loop_lem (suc fuel) number h = elim (Bool-cases (number / 10 == 0)) [
  | inl last ↦
      rw last (digit (number % 10) ∷ [], refl, last-IsDecimal number (ground arith), omega arith)
  | inr more ↦ rw more (
      next-Writes number (suc fuel) _ (ground arith)
        (decimal_loop_lem fuel (number / 10) (omega (arith, pow-suc 10 (suc fuel)))))
]

pub length32_lem : (cs : List ℕ) → length cs < 2 ^ 32 → length32 cs ≡ length cs
length32_lem [] h = refl
length32_lem (c ∷ cs) h = omega (arith, length32_lem cs (omega arith))

-- `%lu` of any 64-bit number writes its decimal numeral with the units first, that is in the reverse
-- of the usual order, and returns how many bytes it wrote.
pub print_ulong_lem :
    (number : ℕ)
    → number < 2 ^ 64
    → (bs : List ℕ) × (print_ulong number ≡ done (bs, length bs)) × IsDecimal number bs
unfolding print_ulong
print_ulong_lem number h =
    let (bs, e, v, l) = decimal_loop_lem 19 number (omega arith) in
    (bs, rw (e, length32_lem bs (omega arith)), v)

-- `%d` of a number that is not negative does the same; of every negative number it writes "-0" and
-- returns 1.
pub print_number_lem :
    (number : ℕ)
    → number < 2 ^ 32
    → (bs : List ℕ) × (print_number number
        ≡ (if leb (2 ^ 31) number then done (b'-' ∷ b'0' ∷ [], 1) else done (bs, length bs)))
      × IsDecimal number bs
unfolding print_number
print_number_lem number h =
    let (bs, e, v, l) = decimal_loop_lem 19 number (omega arith) in
    let zero_run : decimal_loop 20 0 ≡ done (b'0' ∷ []) = unfold decimal_loop in refl in
    elim (Bool-cases (leb (2 ^ 31) number)) [
      | inl negative ↦
          let z : u32 (number + 2 ^ 32 - number) ≡ 0 = omega arith in
          (bs, rw (negative, z, zero_run), v)
      | inr positive ↦ (bs, rw (positive, e, length32_lem bs (omega arith)), v)
    ]
