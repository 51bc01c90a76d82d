-- ===== src/Sv39/Flags.antt =====
-- The flags of a page table entry (hal/rv64/sv39_vm.c).
use sysrv.Prelude.{ℕ, ◌^◌, ◌<◌, ◌≡◌, Bool, ◌&&◌, ◌||◌, ◌==◌, bit_or, arith}
use sysrv.Word.Bits.{
  bit, bit-bit_or, bit-two_pow, bit-le-one, bit_or-lt, bit_and-two_pow, bit_and_fourteen,
}
use sysrv.Sv39.{
  mark_pte_valid, mark_pte_readable, mark_pte_writable, mark_pte_executable, is_pte_dirty,
  is_pte_valid, is_pte_leaf,
}

-- The bit `k` of an entry as a truth value.
abbrev pub flag : ℕ → ℕ → Bool
flag pte k = bit pte k == 1

-- `after` is `pte` with the bit `k` set.
abbrev pub HasSet : ℕ → ℕ → ℕ → Type 0
HasSet k pte after = (after < 2 ^ 64) × ((i : ℕ) → flag after i ≡ (i == k || flag pte i))

set-HasSet : (k pte : ℕ) → 2 ^ k < 2 ^ 64 → pte < 2 ^ 64 → HasSet k pte (bit_or pte (2 ^ k))
set-HasSet k pte l h = (
  bit_or-lt 64 pte (2 ^ k) h l,
  λ i. ground (arith, bit-bit_or pte (2 ^ k) i, bit-two_pow k i, bit-le-one pte i),
)

-- Each of the four marking functions sets its own bit of a 64-bit entry (0 valid, 1 readable, 2
-- writable, 3 executable) and changes no other.
mark_pte-HasSet :
    (pte : ℕ)
    → pte < 2 ^ 64
    → HasSet 0 pte (mark_pte_valid pte)
      × HasSet 1 pte (mark_pte_readable pte)
      × HasSet 2 pte (mark_pte_writable pte)
      × HasSet 3 pte (mark_pte_executable pte)
unfolding mark_pte_valid mark_pte_readable mark_pte_writable mark_pte_executable
mark_pte-HasSet pte h = (
  set-HasSet 0 pte (omega arith) h,
  set-HasSet 1 pte (omega arith) h,
  set-HasSet 2 pte (omega arith) h,
  set-HasSet 3 pte (omega arith) h,
)

-- An entry is valid by bit 0 and dirty by bit 7; it is a leaf if it is valid and one of the bits 1, 2
-- and 3 is set.
pub is_pte_lem :
    (pte : ℕ)
    → (is_pte_valid pte ≡ flag pte 0)
      × (is_pte_dirty pte ≡ flag pte 7)
      × (is_pte_leaf pte ≡ (flag pte 0 && (flag pte 1 || flag pte 2 || flag pte 3)))
unfolding is_pte_valid is_pte_dirty is_pte_leaf
is_pte_lem pte = (
  ground (arith, bit_and-two_pow 0 pte, bit-le-one pte 0),
  ground (arith, bit_and-two_pow 7 pte, bit-le-one pte 7),
  ground (
    arith,
    bit_and-two_pow 0 pte,
    bit_and_fourteen pte,
    bit-le-one pte 0,
    bit-le-one pte 1,
    bit-le-one pte 2,
    bit-le-one pte 3,
  ),
)
