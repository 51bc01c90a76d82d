-- ===== src/Kpalloc/History.antt =====
-- Histories of calls of `srv_kpalloc_AllocPage` and `srv_kpalloc_FreePage` (kernel/mm/phys/kpalloc.c)
-- against a set of pages.
use sysrv.Prelude.{
  ℕ, zero, suc, ◌+◌, ◌*◌, ◌%◌, ◌≤◌, ◌<◌, ◌≡◌, refl, List, [], ◌∷◌, Outcome, done, ◌>>=◌, length,
  ◌==◌, ◌∙◌, if◌then◌else◌, arith, dec_lt, ap,
}
use sysrv.Kpalloc.{Kpalloc, alloc_page, free_page}
use sysrv.Kpalloc.Bitmap.{
  used, used-with_bit, used-without_bit, length-with_bit, length-without_bit,
}
use sysrv.Kpalloc.Alloc.{
  IsValid, taken, none_left, granted, EmptyBehindFull, used_in_full, alloc_page-Granted,
  taken-IsValid,
}
use sysrv.Kpalloc.Free.{returned, free_page_lem}
use sysrv.Kpalloc.Count.{count_used, count_used-with_bit, returned-IsValid}

-- A request for a page, or the return of the page with a number.
pub data Request : Type 0 where
  allocate : Request
  release : (page : ℕ) → Request

-- The calls in turn: the addresses handed out, and the allocator after them.
unfoldable pub serve : List Request → Kpalloc → Outcome (List ℕ × Kpalloc)
serve [] s = done ([], s)
serve (allocate ∷ requests) s = do
  (p, s') ← alloc_page s
  (ps, s'') ← serve requests s'
  done (p ∷ ps, s'')
serve (release page ∷ requests) s = do
  s' ← free_page s (s.phys_base_address + 4096 * page)
  serve requests s'

-- What the calls should come to, where the number `u j` is 1 for the pages `j` in use and 0 for the
-- others: each request gets the lowest page that is not in use, and puts it among those in use; each
-- return takes its page out.
pub data Follows (base : ℕ) : (ℕ → ℕ) → List Request → List ℕ → (ℕ → ℕ) → Type 0 where
  ended : {u : ℕ → ℕ} → Follows base u [] [] u
  took :
      {u u1 u' : ℕ → ℕ} {requests : List Request} {ps : List ℕ} (i : ℕ)
      → u i ≡ 0
      → ((j : ℕ) → j < i → u j ≡ 1)
      → ((j : ℕ) → u1 j ≡ (if i == j then 1 else u j))
      → Follows base u1 requests ps u'
      → Follows base u (allocate ∷ requests) ((base + 4096 * i) ∷ ps) u'
  gave :
      {u u1 u' : ℕ → ℕ} {requests : List Request} {ps : List ℕ} (i : ℕ)
      → ((j : ℕ) → u1 j ≡ (if i == j then 0 else u j))
      → Follows base u1 requests ps u'
      → Follows base u (release i ∷ requests) ps u'

-- How many pages are asked for, and that pages come back that the bitmap covers.
abbrev pub count_allocate : List Request → ℕ
count_allocate [] = 0
count_allocate (allocate ∷ requests) = 1 + count_allocate requests
count_allocate (release page ∷ requests) = count_allocate requests

abbrev pub AreWithin : ℕ → List Request → Type 0
AreWithin n [] = Unit
AreWithin n (allocate ∷ requests) = AreWithin n requests
AreWithin n (release page ∷ requests) = (page < n) × AreWithin n requests

count_used_all : (bm : List ℕ) (n : ℕ) → ((j : ℕ) → j < n → used bm j ≡ 1) → count_used bm n ≡ n
unfolding count_used
count_used_all bm zero h = refl
count_used_all bm (suc n) h =
    omega (arith, h n (omega arith), count_used_all bm n (λ j l. h j (omega arith)))

count_used_less :
    (bm bm' : List ℕ) (n : ℕ)
    → ((j : ℕ) → used bm' j ≤ used bm j)
    → count_used bm' n ≤ count_used bm n
unfolding count_used
count_used_less bm bm' zero h = omega arith
count_used_less bm bm' (suc n) h = omega (arith, h n, count_used_less bm bm' n h)

-- While one of the first 64 pages is free, no entry behind the first is looked at.
no_gap : (bm : List ℕ) → count_used bm 64 < 64 → (k : ℕ) → ¬ EmptyBehindFull bm k
no_gap bm h k (p, l, f, e) =
    let full = count_used_all bm 64 (λ j m. used_in_full bm k j f (omega arith)) in
    absurd (omega (arith, full))

-- A history on a valid allocator whose memory starts at a page boundary, with pages returned that the
-- bitmap covers, and with as many of its first 64 pages free as pages are asked for: all calls return,
-- each request gets the lowest page that is not in use at that moment, the returned pages are free
-- again, and the allocator is valid. At most 64 pages can be asked for in this way.
pub serve-Follows :
    (requests : List Request) (s : Kpalloc)
    → IsValid s
    → s.phys_base_address % 4096 ≡ 0
    → 1 ≤ length s.page_bitmap
    → AreWithin (64 * length s.page_bitmap) requests
    → count_used s.page_bitmap 64 + count_allocate requests ≤ 64
    → (ps : List ℕ) × (s' : Kpalloc) × (serve requests s ≡ done (ps, s'))
      × Follows s.phys_base_address (used s.page_bitmap) requests ps (used s'.page_bitmap)
      × IsValid s'
unfolding serve
serve-Follows [] s v b one w h = ([], s, refl, ended, v)
serve-Follows (allocate ∷ requests) s v b one w h =
    let free : count_used s.page_bitmap 64 < 64 = omega arith in
    elim (alloc_page-Granted s v (no_gap s.page_bitmap free)) [
      | none_left all q ↦
          let full = count_used_all s.page_bitmap 64 (λ j m. all j (omega arith)) in
          absurd (omega (arith, full))
      | granted i l u low q ↦
          let below : i < 64 = elim (dec_lt i 64) [
            | yes p ↦ p
            | no p ↦
                let full = count_used_all s.page_bitmap 64 (λ j m. low j (omega arith)) in
                absurd (omega (arith, full))
          ] in
          let more = count_used-with_bit s.page_bitmap i 64 l below u in
          let same = length-with_bit s.page_bitmap i in
          let (ps, s', r, f, v') =
            serve-Follows requests (taken s i) (taken-IsValid s i v) b (omega arith) (rw same w)
              (omega arith) in
          (
            (s.phys_base_address + 4096 * i) ∷ ps,
            s',
            rw (q, r) refl,
            took i u low (λ j. used-with_bit s.page_bitmap i j l) f,
            v',
          )
    ]
serve-Follows (release i ∷ requests) s v b one (l, w) h =
    let less =
      count_used_less s.page_bitmap (returned s i).page_bitmap 64
        (λ j. ground (arith, used-without_bit s.page_bitmap i j l)) in
    let same = length-without_bit s.page_bitmap i in
    let (ps, s', r, f, v') =
      serve-Follows requests (returned s i) (returned-IsValid s i v) b (omega arith) (rw same w)
        (omega arith) in
    let start : s.phys_base_address + 4096 * i ≡ s.phys_base_address + 4096 * i + 0 = omega arith in
    let freed : free_page s (s.phys_base_address + 4096 * i) ≡ done (returned s i) =
      ap (free_page s) start ∙ free_page_lem s i 0 v b l (omega arith) in
    (ps, s', rw (freed, r) refl, gave i (λ j. used-without_bit s.page_bitmap i j l) f, v')
