-- ===== src/Kalloc/Align.antt =====
-- What `srv_kalloc_EternalAllocAligned` returns (kernel/mm/kalloc.c).
use native.Mathlib.Nat.{one-le-pow, mod-lt, mod-eq_of_lt, mod-eq-sub-mod, add-mod, mod-mod}
use sysrv.Prelude.{
  ℕ, ◌+◌, ◌*◌, ◌%◌, ◌-◌, ◌<◌, ◌^◌, ◌≡◌, ◌⊎◌, ◌↔◌, inl, inr, done, arith, dec_lt, ap, ◌∙◌,
}
use sysrv.Word.{sub64}
use sysrv.Word.Bits.{bit_and_mask}
use sysrv.Kalloc.{Kalloc, eternal_alloc, align_current, eternal_alloc_aligned}

-- The pointer after the aligning step, for an alignment that is a power of two.
align_current_lem :
    (k : Kalloc) (n : ℕ)
    → n < 64
    → k.curr_kalloc_eternal_address + 2 ^ n < 2 ^ 64
    → (align_current k (2 ^ n)).curr_kalloc_eternal_address
      ≡ k.curr_kalloc_eternal_address + k.curr_kalloc_eternal_address % 2 ^ n
unfolding align_current
align_current_lem k n h room =
    let e : sub64 (2 ^ n) 1 ≡ 2 ^ n - 1 = omega (arith, one-le-pow n 2) in
    rw (e, bit_and_mask n k.curr_kalloc_eternal_address)
      (omega
        (arith, mod-lt k.curr_kalloc_eternal_address {m = 2 ^ n} (one-le-pow n 2 (omega arith))))

double_mod : (r m : ℕ) → r < m → ((r + r) % m ≡ 0) ↔ ((r ≡ 0) ⊎ (2 * r ≡ m))
double_mod r m h = elim (dec_lt (r + r) m) [
  | yes low ↦ rw (mod-eq_of_lt low) ((λ e. inl (omega arith)), ground arith)
  | no high ↦
      let e : (r + r) % m ≡ r + r - m = mod-eq-sub-mod (omega arith) ∙ mod-eq_of_lt (omega arith) in
      rw e ((λ z. inr (omega arith)), ground arith)
]

-- Twice a remainder is divisible in two ways.
double_remainder : (c m : ℕ) → 0 < m → ((c + c % m) % m ≡ 0) ↔ ((c % m ≡ 0) ⊎ (2 * (c % m) ≡ m))
double_remainder c m h =
    let e : (c + c % m) % m ≡ (c % m + c % m) % m =
      add-mod c (c % m) m ∙ ap (λ (t : ℕ). (c % m + t) % m) (mod-mod c m) in
    rw e (double_mod (c % m) m (mod-lt c h))

-- For a power of two, and sizes that do not wrap, the block that `srv_kalloc_EternalAllocAligned`
-- returns is aligned exactly if the pointer was already aligned or half an alignment past it: the
-- step adds the remainder where it should add what is missing to the next multiple.
pub eternal_alloc_aligned_iff :
    (k : Kalloc) (size n p : ℕ) (k' : Kalloc)
    → n < 64
    → k.curr_kalloc_eternal_address + 2 ^ n < 2 ^ 64
    → eternal_alloc_aligned k size (2 ^ n) ≡ done (p, k')
    → (p % 2 ^ n ≡ 0) ↔ (
        (k.curr_kalloc_eternal_address % 2 ^ n ≡ 0)
        ⊎ (2 * (k.curr_kalloc_eternal_address % 2 ^ n) ≡ 2 ^ n))
unfolding eternal_alloc_aligned eternal_alloc
eternal_alloc_aligned_iff k size n p k' h room r =
    let c = k.curr_kalloc_eternal_address in
    let e : p ≡ c + c % 2 ^ n = ground (arith, align_current_lem k n h room) in
    rw e (double_remainder c (2 ^ n) (one-le-pow n 2 (omega arith)))
