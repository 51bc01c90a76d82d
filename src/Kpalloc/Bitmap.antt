-- ===== src/Kpalloc/Bitmap.antt =====
-- The bitmap of kernel/mm/phys/kpalloc.c as a set of pages in use, and the bit operations on it.
use native.Mathlib.Nat.{pow-le-pow_right}
use sysrv.Prelude.{
  ℕ, zero, suc, ◌*◌, ◌/◌, ◌%◌, ◌<◌, ◌^◌, ◌≡◌, List, [], ◌∷◌, done, get_or, set, length, length-set,
  get_elem?-get_or, get_or-set, get_or_ext, ◌==◌, ◌+◌, ◌-◌, ◌∙◌, ◌≤◌, Bool-cases, inl, inr, false,
  fault, dec_lt, ltb, lt→ltb, get_elem?-none, if◌then◌else◌, bit_and, bit_or, arith,
}
use sysrv.Word.{not64, bit_mask}
use sysrv.Word.Bits.{
  bit, bit-bit_or, bit-bit_and, bit-two_pow, bit_complement, bit-le-one, bit_or-lt, bit_and-le,
  bit_ext, bit-zero,
}
use sysrv.Kpalloc.{Kpalloc, set_bit, unset_bit, is_bit_set}

-- The bit of page `i`, 1 while the page is in use. Past the end of the bitmap there is no page.
unfoldable pub used : List ℕ → ℕ → ℕ
used bm i = bit (get_or bm (i / 64) 0) (i % 64)

-- The entries are 64-bit words.
abbrev pub AllWords : List ℕ → Type 0
AllWords [] = Unit
AllWords (w ∷ ws) = (w < 2 ^ 64) × AllWords ws

pub AllWords-get_or : (bm : List ℕ) (k : ℕ) → AllWords bm → get_or bm k 0 < 2 ^ 64
AllWords-get_or [] k h = omega arith
AllWords-get_or (w ∷ ws) zero h = h.0
AllWords-get_or (w ∷ ws) (suc k) h = AllWords-get_or ws k h.1

AllWords-set : (bm : List ℕ) (k v : ℕ) → v < 2 ^ 64 → AllWords bm → AllWords (set bm k v)
AllWords-set [] k v h a = tt
AllWords-set (w ∷ ws) zero v h a = (h, a.1)
AllWords-set (w ∷ ws) (suc k) v h a = (a.0, AllWords-set ws k v h a.1)

-- The bitmap with the bit of page `i` set, or cleared.
unfoldable pub with_bit : List ℕ → ℕ → List ℕ
with_bit bm i = set bm (i / 64) (bit_or (get_or bm (i / 64) 0) (bit_mask (i % 64)))

unfoldable pub without_bit : List ℕ → ℕ → List ℕ
without_bit bm i = set bm (i / 64) (bit_and (get_or bm (i / 64) 0) (not64 (bit_mask (i % 64))))

pub set_bit_lem :
    (s : Kpalloc) (i : ℕ)
    → i < 64 * length s.page_bitmap
    → set_bit s i ≡ done (record s { page_bitmap = with_bit s.page_bitmap i })
unfolding set_bit with_bit
set_bit_lem s i h = rw (get_elem?-get_or s.page_bitmap (i / 64) 0 (omega arith))

pub unset_bit_lem :
    (s : Kpalloc) (i : ℕ)
    → i < 64 * length s.page_bitmap
    → unset_bit s i ≡ done (record s { page_bitmap = without_bit s.page_bitmap i })
unfolding unset_bit without_bit
unset_bit_lem s i h = rw (get_elem?-get_or s.page_bitmap (i / 64) 0 (omega arith))

pub length-with_bit : (bm : List ℕ) (i : ℕ) → length (with_bit bm i) ≡ length bm
unfolding with_bit
length-with_bit bm i = length-set bm _ _

pub length-without_bit : (bm : List ℕ) (i : ℕ) → length (without_bit bm i) ≡ length bm
unfolding without_bit
length-without_bit bm i = length-set bm _ _

mask-lt : (i : ℕ) → i < 64 → 2 ^ i < 2 ^ 64
mask-lt i h = omega (arith, pow-le-pow_right {n = 2} (omega arith) {i = i} {j = 63} (omega arith))

pub with_bit-AllWords : (bm : List ℕ) (i : ℕ) → AllWords bm → AllWords (with_bit bm i)
unfolding with_bit
with_bit-AllWords bm i a =
    AllWords-set bm _ _ (bit_or-lt 64 _ _ (AllWords-get_or bm _ a) (mask-lt (i % 64) (omega arith)))
      a

pub without_bit-AllWords : (bm : List ℕ) (i : ℕ) → AllWords bm → AllWords (without_bit bm i)
unfolding without_bit
without_bit-AllWords bm i a =
    AllWords-set bm _ _
      (omega (
        arith,
        bit_and-le 64 (get_or bm (i / 64) 0) (not64 (bit_mask (i % 64))) (AllWords-get_or bm _ a),
        AllWords-get_or bm (i / 64) a,
      ))
      a

-- Setting a bit puts one page among those in use, and changes no other.
pub used-with_bit :
    (bm : List ℕ) (i j : ℕ)
    → i < 64 * length bm
    → used (with_bit bm i) j ≡ (if i == j then 1 else used bm j)
unfolding used with_bit
used-with_bit bm i j h = ground (
  arith,
  get_or-set bm (i / 64) (j / 64) (bit_or (get_or bm (i / 64) 0) (2 ^ (i % 64))) 0 (omega arith),
  bit-bit_or (get_or bm (i / 64) 0) (2 ^ (i % 64)) (j % 64),
  bit-two_pow (i % 64) (j % 64),
  bit-le-one (get_or bm (i / 64) 0) (j % 64),
)

-- Clearing a bit takes one page out, and changes no other.
pub used-without_bit :
    (bm : List ℕ) (i j : ℕ)
    → i < 64 * length bm
    → used (without_bit bm i) j ≡ (if i == j then 0 else used bm j)
unfolding used without_bit
used-without_bit bm i j h = ground (
  arith,
  get_or-set bm (i / 64) (j / 64) (bit_and (get_or bm (i / 64) 0) (not64 (2 ^ (i % 64)))) 0
      (omega arith),
  bit-bit_and (get_or bm (i / 64) 0) (not64 (2 ^ (i % 64))) (j % 64),
  bit_complement 64 (2 ^ (i % 64)) (j % 64) (mask-lt (i % 64) (omega arith)) (omega arith),
  bit-two_pow (i % 64) (j % 64),
  bit-le-one (get_or bm (i / 64) 0) (j % 64),
)

-- A bitmap is determined by its length and by which pages are in use.
pub used_ext :
    (bm bm' : List ℕ)
    → length bm ≡ length bm'
    → AllWords bm
    → AllWords bm'
    → ((i : ℕ) → i < 64 * length bm → used bm i ≡ used bm' i)
    → bm ≡ bm'
unfolding used
used_ext bm bm' e a a' h = get_or_ext 0 bm bm' e λ k l.
    bit_ext 64 (get_or bm k 0) (get_or bm' k 0) (AllWords-get_or bm k a) (AllWords-get_or bm' k a')
      λ j m.
        let q : (64 * k + j) / 64 ≡ k = omega arith in
        let r : (64 * k + j) % 64 ≡ j = omega arith in rw (q, r) at (h (64 * k + j) (omega arith))

-- Setting a bit that is set changes nothing.
pub with_bit_self :
    (bm : List ℕ) (i : ℕ) → AllWords bm → i < 64 * length bm → used bm i ≡ 1 → with_bit bm i ≡ bm
with_bit_self bm i a h e =
    used_ext (with_bit bm i) bm (length-with_bit bm i) (with_bit-AllWords bm i a) a
      λ j m. ground (arith, used-with_bit bm i j h, length-with_bit bm i)

-- Clearing a bit undoes setting it, where it was clear.
pub without_bit-with_bit :
    (bm : List ℕ) (i : ℕ)
    → AllWords bm
    → i < 64 * length bm
    → used bm i ≡ 0
    → without_bit (with_bit bm i) i ≡ bm
without_bit-with_bit bm i a h e =
    used_ext (without_bit (with_bit bm i) i) bm
      (length-without_bit (with_bit bm i) i ∙ length-with_bit bm i)
      (without_bit-AllWords (with_bit bm i) i (with_bit-AllWords bm i a)) a
      λ j m. ground (
        arith,
        used-without_bit (with_bit bm i) i j (omega (arith, length-with_bit bm i)),
        used-with_bit bm i j h,
      )

-- A full entry is all ones, an empty one all zeros.
pub used_full : (bm : List ℕ) (i : ℕ) → get_or bm (i / 64) 0 ≡ 2 ^ 64 - 1 → used bm i ≡ 1
unfolding used
used_full bm i e =
    rw e
      (omega (arith, bit_complement 64 0 (i % 64) (omega arith) (omega arith), bit-zero (i % 64)))

pub used_empty : (bm : List ℕ) (i : ℕ) → get_or bm (i / 64) 0 ≡ 0 → used bm i ≡ 0
unfolding used
used_empty bm i e = rw e (bit-zero (i % 64))

pub used_in_entry : (bm : List ℕ) (k c : ℕ) → c < 64 → used bm (64 * k + c) ≡ bit (get_or bm k 0) c
unfolding used
used_in_entry bm k c h =
    let q : (64 * k + c) / 64 ≡ k = omega arith in
    let r : (64 * k + c) % 64 ≡ c = omega arith in rw (q, r)

pub used-le-one : (bm : List ℕ) (i : ℕ) → used bm i ≤ 1
unfolding used
used-le-one bm i = bit-le-one (get_or bm (i / 64) 0) (i % 64)

-- Clearing a bit that is clear changes nothing.
pub without_bit_self :
    (bm : List ℕ) (i : ℕ) → AllWords bm → i < 64 * length bm → used bm i ≡ 0 → without_bit bm i ≡ bm
without_bit_self bm i a h e =
    used_ext (without_bit bm i) bm (length-without_bit bm i) (without_bit-AllWords bm i a) a
      λ j m. ground (arith, used-without_bit bm i j h, length-without_bit bm i)

bit_and-two_pow : (k w : ℕ) → k < 64 → bit_and (2 ^ k) w ≡ (if bit w k == 1 then 2 ^ k else 0)
bit_and-two_pow k w h = elim (Bool-cases (bit w k == 1)) [
  | inl on ↦ rw on (
      bit_ext 64 _ _ bound (mask-lt k h)
        (λ i l. ground (arith, bit-bit_and (2 ^ k) w i, bit-two_pow k i, bit-le-one w i)))
  | inr off ↦ rw off (
      bit_ext 64 _ _ bound (omega arith) (λ i l.
        ground (arith, bit-bit_and (2 ^ k) w i, bit-two_pow k i, bit-zero i, bit-le-one w i)))
]
  where
    bound : bit_and (2 ^ k) w < 2 ^ 64
    bound = omega (arith, bit_and-le 64 (2 ^ k) w (mask-lt k h), mask-lt k h)

-- `kpalloc_bitmap_IsBitSet` tells whether the page is in use, and faults past the bitmap.
is_bit_set_lem :
    (s : Kpalloc) (i : ℕ)
    → is_bit_set s i
      ≡ (if ltb (i / 64) (length s.page_bitmap) then done (used s.page_bitmap i == 1) else fault)
unfolding is_bit_set used
is_bit_set_lem s i = elim (dec_lt (i / 64) (length s.page_bitmap)) [
  | yes p ↦
      rw
        (
          get_elem?-get_or s.page_bitmap (i / 64) 0 p,
          lt→ltb _ _ p,
          bit_and-two_pow (i % 64) (get_or s.page_bitmap (i / 64) 0) (omega arith),
        )
        (ground (arith, pow-le-pow_right {n = 2} (omega arith) {i = 0} {j = i % 64} (omega arith)))
  | no p ↦
      let e : ltb (i / 64) (length s.page_bitmap) ≡ false = ground arith in
      rw (get_elem?-none s.page_bitmap (i / 64) (omega arith), e)
]
