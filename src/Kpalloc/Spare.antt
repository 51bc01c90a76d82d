-- ===== src/Kpalloc/Spare.antt =====
-- Sequences of calls of `srv_kpalloc_AllocPage` (kernel/mm/phys/kpalloc.c): what is never handed out.
use sysrv.Prelude.{
  ℕ, zero, suc, ◌+◌, ◌*◌, ◌/◌, ◌≤◌, ◌<◌, ◌≡◌, refl, ◌∙◌, List, [], ◌∷◌, ◌⊎◌, inl, inr, Outcome,
  done, ◌>>=◌, get_or, length, ◌==◌, ==_iff, Bool-cases, arith,
}
use sysrv.Word.{not64}
use sysrv.Word.Count.{ctz64}
use sysrv.Kpalloc.{Kpalloc, alloc_in_entry, alloc_page}
use sysrv.Kpalloc.Bitmap.{
  used, AllWords-get_or, set_bit_lem, used_empty, used_in_entry, used-with_bit, used-le-one,
  length-with_bit,
}
use sysrv.Kpalloc.Alloc.{
  IsValid, taken, taken-IsValid, page_address, exhausted, stopped, alloc_page-Scan, first_clear,
  alloc_in_entry_partial,
}

-- `p` is NULL or a page that is free in the state.
abbrev pub IsSpare : Kpalloc → ℕ → Type 0
IsSpare s p =
    (p ≡ 0)
    ⊎ ((i : ℕ) × (i < 64 * length s.page_bitmap)
        × (used s.page_bitmap i ≡ 0)
        × (p ≡ s.phys_base_address + 4096 * i))

-- No page of `s` becomes free in `s'`.
pub record Keeps (s s' : Kpalloc) : Type 0 where
  pub valid : IsValid s'
  pub same_base : s'.phys_base_address ≡ s.phys_base_address
  pub same_length : length s'.page_bitmap ≡ length s.page_bitmap
  pub stays : (j : ℕ) → used s.page_bitmap j ≤ used s'.page_bitmap j

taken-Keeps :
    (s : Kpalloc) (i : ℕ) → IsValid s → i < 64 * length s.page_bitmap → Keeps s (taken s i)
taken-Keeps s i v h = record {
  valid = taken-IsValid s i v;
  same_base = refl;
  same_length = length-with_bit s.page_bitmap i;
  stays = λ j. ground (arith, used-with_bit s.page_bitmap i j h, used-le-one s.page_bitmap j);
}

-- One call: a spare page, and a state that keeps what is in use.
abbrev Served : Kpalloc → Outcome (ℕ × Kpalloc) → Type 0
Served s r = (p : ℕ) × (s' : Kpalloc) × (r ≡ done (p, s')) × IsSpare s p × Keeps s s'

alloc_in_entry_empty :
    (s : Kpalloc) (k : ℕ)
    → IsValid s
    → k < length s.page_bitmap
    → alloc_in_entry 0 (64 * k) s ≡ done (s.phys_base_address + 4096 * (64 * k), taken s 0)
unfolding alloc_in_entry
alloc_in_entry_empty s k v h =
    rw (set_bit_lem s 0 (omega arith), page_address (64 * k) v (omega arith)) refl

alloc_page-Served : (s : Kpalloc) → IsValid s → Served s (alloc_page s)
alloc_page-Served s v = elim (alloc_page-Scan s v) [
  | exhausted f q ↦ (
    0,
    s,
    q,
    inl refl,
    record { valid = v; same_base = refl; same_length = refl; stays = λ j. omega arith },
  )
  | stopped k _ l f n q ↦ rw q (elim (Bool-cases (get_or s.page_bitmap k 0 == 0)) [
    | inl empty ↦
        let e : get_or s.page_bitmap k 0 ≡ 0 = (==_iff _ _).0 empty in
        let here : 64 * k / 64 ≡ k = omega arith in
        (
          s.phys_base_address + 4096 * (64 * k),
          taken s 0,
          rw e (alloc_in_entry_empty s k v l),
          inr (64 * k, omega arith, used_empty s.page_bitmap (64 * k) (rw here e), refl),
          taken-Keeps s 0 v (omega arith),
        )
    | inr other ↦
        let c = ctz64 (not64 (get_or s.page_bitmap k 0)) in
        let first = first_clear (get_or s.page_bitmap k 0) (AllWords-get_or _ k v.words) n in
        (
          s.phys_base_address + 4096 * (64 * k + c),
          taken s (64 * k + c),
          alloc_in_entry_partial s (get_or s.page_bitmap k 0) k v l (λ e. ground arith)
              first.within,
          inr (
            64 * k + c,
            omega (arith, first.within),
            used_in_entry s.page_bitmap k c first.within ∙ first.clear,
            refl,
          ),
          taken-Keeps s (64 * k + c) v (omega (arith, first.within)),
        )
  ])
]

-- `count` calls one after the other.
unfoldable pub alloc_pages : ℕ → Kpalloc → Outcome (List ℕ × Kpalloc)
alloc_pages zero s = done ([], s)
alloc_pages (suc count) s = do
  (p, s') ← alloc_page s
  (ps, s'') ← alloc_pages count s'
  done (p ∷ ps, s'')

abbrev pub AreSpare : Kpalloc → List ℕ → Type 0
AreSpare s [] = Unit
AreSpare s (p ∷ ps) = IsSpare s p × AreSpare s ps

IsSpare-Keeps : (s s' : Kpalloc) (p : ℕ) → Keeps s s' → IsSpare s' p → IsSpare s p
IsSpare-Keeps s s' p k (inl z) = inl z
IsSpare-Keeps s s' p k (inr (i, l, f, e)) =
    inr (i, omega (arith, k.same_length), omega (arith, k.stays i), omega (arith, k.same_base))

AreSpare-Keeps : (s s' : Kpalloc) (ps : List ℕ) → Keeps s s' → AreSpare s' ps → AreSpare s ps
AreSpare-Keeps s s' [] k a = tt
AreSpare-Keeps s s' (p ∷ ps) k (a, b) = (IsSpare-Keeps s s' p k a, AreSpare-Keeps s s' ps k b)

-- Any number of calls of `srv_kpalloc_AllocPage` on a valid allocator return, also where an entry is
-- empty behind full ones, and each hands out NULL or a page that was free before the first of them.
-- No page that was in use is free after them, and the allocator is valid.
pub alloc_pages-AreSpare :
    (count : ℕ) (s : Kpalloc)
    → IsValid s
    → (ps : List ℕ) × (s' : Kpalloc) × (alloc_pages count s ≡ done (ps, s'))
      × (length ps ≡ count)
      × AreSpare s ps
      × Keeps s s'
unfolding alloc_pages
alloc_pages-AreSpare zero s v = (
  [],
  s,
  refl,
  refl,
  tt,
  record { valid = v; same_base = refl; same_length = refl; stays = λ j. omega arith },
)
alloc_pages-AreSpare (suc count) s v =
    let (p, s1, r1, spare, k1) = alloc_page-Served s v in
    let (ps, s2, r2, l, are, k2) = alloc_pages-AreSpare count s1 k1.valid in
    (
      p ∷ ps,
      s2,
      rw (r1, r2) refl,
      omega (arith, l),
      (spare, AreSpare-Keeps s s1 ps k1 are),
      record {
        valid = k2.valid;
        same_base = k2.same_base ∙ k1.same_base;
        same_length = k2.same_length ∙ k1.same_length;
        stays = λ j. omega (arith, k1.stays j, k2.stays j);
      },
    )
