-- ===== src/Kpalloc/Alloc.antt =====
-- `srv_kpalloc_AllocPage` (kernel/mm/phys/kpalloc.c): which page it hands out.
use sysrv.Prelude.{
  ℕ, zero, suc, ◌+◌, ◌*◌, ◌/◌, ◌-◌, ◌≤◌, ◌<◌, ◌^◌, ◌≡◌, ◌≢◌, inl, inr, refl, List, false,
  Bool-cases, Outcome, done, get_or, length, get_elem?-get_or, ◌==◌, ==_iff, ◌∙◌, dec_lt, arith,
}
use sysrv.Word.{not64, max64, add64}
use sysrv.Word.Bits.{bit, bit_complement, bit-le-one}
use sysrv.Word.Count.{ctz64, ctz64-IsLowest, IsLowest}
use sysrv.Kpalloc.{
  Kpalloc, bit_index_to_page_address, alloc_in_entry, alloc_loop, alloc_page, less_free,
}
use sysrv.Kpalloc.Bitmap.{
  used, AllWords, AllWords-get_or, with_bit, set_bit_lem, used_full, used_empty, used_in_entry,
  length-with_bit, with_bit-AllWords,
}

-- The bitmap has the entries that the count says, each a 64-bit word, and the pages that it covers
-- lie in the address space.
pub record IsValid (s : Kpalloc) : Type 0 where
  pub counted : s.bitmap_entry_count ≡ length s.page_bitmap
  pub words : AllWords s.page_bitmap
  pub fits : s.phys_base_address + 4096 * (64 * length s.page_bitmap) ≤ 2 ^ 64

-- The state after page `i` has been marked and counted as taken.
abbrev pub taken : Kpalloc → ℕ → Kpalloc
taken s i = less_free (record s { page_bitmap = with_bit s.page_bitmap i })

pub taken-IsValid : (s : Kpalloc) (i : ℕ) → IsValid s → IsValid (taken s i)
taken-IsValid s i v = record {
  counted = omega (arith, v.counted, length-with_bit s.page_bitmap i);
  words = with_bit-AllWords s.page_bitmap i v.words;
  fits = rw length-with_bit v.fits;
}

-- The entries from `i` up to `k` are full.
abbrev pub FullBetween : List ℕ → ℕ → ℕ → Type 0
FullBetween bm i k = (j : ℕ) → i ≤ j → j < k → get_or bm j 0 ≡ max64

pub page_address :
    {s : Kpalloc} (i : ℕ)
    → IsValid s
    → i < 64 * length s.page_bitmap
    → bit_index_to_page_address s i ≡ s.phys_base_address + 4096 * i
unfolding bit_index_to_page_address
page_address i v h = omega (arith, v.fits)

-- What the scan from entry `i` on comes to.
pub data Scan (s : Kpalloc) (i : ℕ) (r : Outcome (ℕ × Kpalloc)) : Type 0 where
  exhausted : FullBetween s.page_bitmap i (length s.page_bitmap) → r ≡ done (0, s) → Scan s i r
  stopped :
      (k : ℕ)
      → i ≤ k
      → k < length s.page_bitmap
      → FullBetween s.page_bitmap i k
      → get_or s.page_bitmap k 0 ≢ max64
      → r ≡ alloc_in_entry (get_or s.page_bitmap k 0) (64 * k) s
      → Scan s i r

Scan-next :
    {s : Kpalloc} {r : Outcome (ℕ × Kpalloc)} (i : ℕ)
    → get_or s.page_bitmap i 0 ≡ max64
    → Scan s (i + 1) r
    → Scan s i r
Scan-next i e (exhausted f q) = exhausted (λ j l m. ground (arith, f j)) q
Scan-next i e (stopped k l m f n q) = stopped k (omega arith) m (λ j l m. ground (arith, f j)) n q

alloc_loop-Scan :
    (left i : ℕ) (s : Kpalloc)
    → IsValid s
    → i + left ≡ length s.page_bitmap
    → Scan s i (alloc_loop left i (64 * i) s)
unfolding alloc_loop
alloc_loop-Scan zero i s v e = exhausted (λ j l m. absurd (omega arith)) refl
alloc_loop-Scan (suc left) i s v e =
    let entry = get_or s.page_bitmap i 0 in
    rw (get_elem?-get_or s.page_bitmap i 0 (omega arith)) (elim (Bool-cases (entry == max64)) [
      | inl full ↦
          let next : add64 (64 * i) 64 ≡ 64 * (i + 1) = omega (arith, v.fits) in
          rw (full, next)
            (Scan-next i ((==_iff _ _).0 full) (alloc_loop-Scan left (i + 1) s v (omega arith)))
      | inr open_entry ↦ rw open_entry (
          stopped i (omega arith) (omega arith) (λ j l m. absurd (omega arith)) (λ q. ground arith)
            refl)
    ])

pub alloc_page-Scan : (s : Kpalloc) → IsValid s → Scan s 0 (alloc_page s)
unfolding alloc_page
alloc_page-Scan s v = alloc_loop-Scan s.bitmap_entry_count 0 s v (omega (arith, v.counted))

-- The first clear bit of an entry that is not full, as the code finds it.
pub record IsFirstClear (entry c : ℕ) : Type 0 where
  pub within : c < 64
  pub clear : bit entry c ≡ 0
  below : (i : ℕ) → i < c → bit entry i ≡ 1

pub first_clear :
    (entry : ℕ) → entry < 2 ^ 64 → entry ≢ max64 → IsFirstClear entry (ctz64 (not64 entry))
first_clear entry h n =
    let low : IsLowest 64 (not64 entry) (ctz64 (not64 entry)) =
      ctz64-IsLowest (not64 entry) (ground arith) (omega arith) in
    record {
      within = low.within;
      clear = omega (
        arith,
        low.found,
        low.within,
        bit_complement 64 entry (ctz64 (not64 entry)) h low.within,
      );
      below = λ i l.
          let w = low.within in
          omega
            (arith, low.below i l, bit_complement 64 entry i h (omega arith), bit-le-one entry i);
    }

-- What `srv_kpalloc_AllocPage` should come to: the lowest page that is free, marked and counted as
-- taken, or NULL and no change where every page is in use.
pub data Granted (s : Kpalloc) (r : Outcome (ℕ × Kpalloc)) : Type 0 where
  none_left :
      ((i : ℕ) → i < 64 * length s.page_bitmap → used s.page_bitmap i ≡ 1)
      → r ≡ done (0, s)
      → Granted s r
  granted :
      (i : ℕ)
      → i < 64 * length s.page_bitmap
      → used s.page_bitmap i ≡ 0
      → ((j : ℕ) → j < i → used s.page_bitmap j ≡ 1)
      → r ≡ done (s.phys_base_address + 4096 * i, taken s i)
      → Granted s r

-- An empty entry right behind full ones, other than the first entry.
abbrev pub EmptyBehindFull : List ℕ → ℕ → Type 0
EmptyBehindFull bm k = (0 < k) × (k < length bm) × FullBetween bm 0 k × (get_or bm k 0 ≡ 0)

pub used_in_full : (bm : List ℕ) (k j : ℕ) → FullBetween bm 0 k → j < 64 * k → used bm j ≡ 1
used_in_full bm k j f h = used_full bm j (f (j / 64) (omega arith) (omega arith))

alloc_in_entry_empty :
    (s : Kpalloc)
    → IsValid s
    → 0 < length s.page_bitmap
    → alloc_in_entry 0 0 s ≡ done (s.phys_base_address + 4096 * 0, taken s 0)
unfolding alloc_in_entry
alloc_in_entry_empty s v h = rw (set_bit_lem s 0 (omega arith), page_address 0 v (omega arith))

pub alloc_in_entry_partial :
    (s : Kpalloc) (entry k : ℕ)
    → IsValid s
    → k < length s.page_bitmap
    → entry ≢ 0
    → ctz64 (not64 entry) < 64
    → alloc_in_entry entry (64 * k) s
      ≡ done (
        s.phys_base_address + 4096 * (64 * k + ctz64 (not64 entry)),
        taken s (64 * k + ctz64 (not64 entry)),
      )
unfolding alloc_in_entry
alloc_in_entry_partial s entry k v h n c =
    let i = 64 * k + ctz64 (not64 entry) in
    let e : add64 (64 * k) (ctz64 (not64 entry)) ≡ i = omega (arith, v.fits) in
    let t : (entry == 0) ≡ false = ground arith in
    rw (t, e, set_bit_lem s i (omega arith), page_address i v (omega arith))

partial-Granted :
    (s : Kpalloc) (k : ℕ)
    → IsValid s
    → k < length s.page_bitmap
    → FullBetween s.page_bitmap 0 k
    → get_or s.page_bitmap k 0 ≢ max64
    → get_or s.page_bitmap k 0 ≢ 0
    → Granted s (alloc_in_entry (get_or s.page_bitmap k 0) (64 * k) s)
partial-Granted s k v l f n z =
    let entry = get_or s.page_bitmap k 0 in
    let c = ctz64 (not64 entry) in
    let first : IsFirstClear entry c = first_clear entry (AllWords-get_or _ k v.words) n in
    let w : c < 64 = first.within in
    granted (64 * k + c) (omega arith) (used_in_entry s.page_bitmap k c w ∙ first.clear)
      (λ j m. elim (dec_lt j (64 * k)) [
        | yes p ↦ used_in_full s.page_bitmap k j f p
        | no p ↦
            let e : j ≡ 64 * k + (j - 64 * k) = omega arith in
            rw e (
              used_in_entry s.page_bitmap k (j - 64 * k) (omega arith)
              ∙ first.below (j - 64 * k) (omega arith))
      ])
      (alloc_in_entry_partial s entry k v l z w)

-- `srv_kpalloc_AllocPage` hands out the lowest page that is free, marks exactly that page and counts
-- one free page less; it returns NULL, and changes nothing, only where all pages are in use. This
-- holds of a valid allocator in which no entry other than the first is empty right behind entries
-- that are all full.
pub alloc_page-Granted :
    (s : Kpalloc)
    → IsValid s
    → ((k : ℕ) → ¬ EmptyBehindFull s.page_bitmap k)
    → Granted s (alloc_page s)
alloc_page-Granted s v gap = elim (alloc_page-Scan s v) [
  | exhausted f q ↦
      rw q (none_left (λ i h. used_in_full s.page_bitmap (length s.page_bitmap) i f h) refl)
  | stopped k _ l f n q ↦ rw q (elim (Bool-cases (get_or s.page_bitmap k 0 == 0)) [
    | inl empty ↦
        let e : get_or s.page_bitmap k 0 ≡ 0 = (==_iff _ _).0 empty in
        elim (dec_lt 0 k) [
          | yes p ↦ absurd (gap k (p, l, f, e))
          | no p ↦
              let z : k ≡ 0 = omega arith in
              let e' : get_or s.page_bitmap 0 0 ≡ 0 = rw z at e in
              rw (z, e')
                (granted 0 (omega arith) (used_empty s.page_bitmap 0 e')
                  (λ j m. absurd (omega arith)) (alloc_in_entry_empty s v (omega arith)))
        ]
    | inr other ↦ partial-Granted s k v l f n (λ e. ground arith)
  ])
]
