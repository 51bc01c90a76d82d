-- ===== src/Word/Count.antt =====
-- `__builtin_ctzl`: the number of trailing zero bits. At 0, where the builtin is undefined, this
-- gives the width.
use native.Mathlib.Nat.{pow-suc}
use sysrv.Prelude.{
  ℕ, zero, suc, ◌%◌, ◌/◌, ◌^◌, Bool, ◌<◌, ◌≡◌, Bool-cases, inl, inr, arith, ◌==◌, if◌then◌else◌,
}
use sysrv.Word.Bits.{bit}

ctz_from : ℕ → ℕ → ℕ
ctz_from zero x = 0
ctz_from (suc n) x = if x % 2 == 1 then 0 else suc (ctz_from n (x / 2))

unfoldable pub ctz64 : ℕ → ℕ
unfolding ctz_from
ctz64 x = ctz_from 64 x

-- For a word that is not 0 the counted position holds a set bit and all below it are clear.
pub record IsLowest (n x k : ℕ) : Type 0 where
  pub within : k < n
  pub found : bit x k ≡ 1
  pub below : (i : ℕ) → i < k → bit x i ≡ 0

ctz_from-below :
    (n x : ℕ)
    → ((i : ℕ) → i < ctz_from n (x / 2) → bit (x / 2) i ≡ 0)
    → (x % 2 == 1) ≡ Bool.false
    → (i : ℕ) → i < suc (ctz_from n (x / 2))
    → bit x i ≡ 0
unfolding bit
ctz_from-below n x h e zero l = ground arith
ctz_from-below n x h e (suc i) l = h i (omega arith)

ctz_from-IsLowest : (n x : ℕ) → 0 < x → x < 2 ^ n → IsLowest n x (ctz_from n x)
unfolding ctz_from bit
ctz_from-IsLowest zero x p q = absurd (omega arith)
ctz_from-IsLowest (suc n) x p q = elim (Bool-cases (x % 2 == 1)) [
  | inl odd ↦
      rw odd
        (record { within = omega arith; found = ground arith; below = λ i l. absurd (omega arith) })
  | inr even ↦
      let rest : IsLowest n (x / 2) (ctz_from n (x / 2)) =
        ctz_from-IsLowest n (x / 2) (ground arith) (omega (arith, pow-suc 2 n)) in
      rw even (record {
        within = omega (arith, rest.within);
        found = rest.found;
        below = ctz_from-below n x rest.below even;
      })
]

pub ctz64-IsLowest : (x : ℕ) → 0 < x → x < 2 ^ 64 → IsLowest 64 x (ctz64 x)
unfolding ctz64
ctz64-IsLowest x p q = ctz_from-IsLowest 64 x p q
