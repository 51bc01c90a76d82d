-- ===== src/Entry/View.antt =====
-- The memory as the running kernel sees it through the boot page tables (kernel/boot/rv64/start.s,
-- kernel/arch/rv64/linker.ld).
use sysrv.Prelude.{
  ℕ, ◌+◌, ◌*◌, ◌/◌, ◌%◌, ◌^◌, ◌≤◌, ◌<◌, ◌≡◌, refl, ap, ◌∙◌, Bool-cases, ◌⊎◌, inl, inr, true, some,
  ◌==◌, arith,
}
use sysrv.Word.Bits.{bit}
use sysrv.Memory.{Memory, update}
use sysrv.Rv64.Stores.{IsFrame}
use sysrv.Sv39.Flags.{flag}
use sysrv.Sv39.Walk.{entry_at, page_of}
use sysrv.Entry.{Symbols}
use sysrv.Entry.Map.{gigapage}
use sysrv.Entry.Tables.{CanPage, paged, paged_low, paged_high, satp_of}

-- With `satp` in the mode of Sv39, an address that the root table maps by a valid gigapage, to be read
-- and written, is seen as the word of this gigapage. The address is one of the lowest or highest 2^38.
pub record Translates (view : ℕ → Memory → Memory) : Type 0 where
  pub at_leaf :
      (m : Memory) (root va pte : ℕ)
      → root % 2 ^ 12 ≡ 0
      → root < 2 ^ 56
      → (va < 2 ^ 38) ⊎ (2 ^ 64 ≤ va + 2 ^ 38)
      → va < 2 ^ 64
      → m (entry_at va 2 root) ≡ some pte
      → flag pte 0 ≡ true
      → flag pte 1 ≡ true
      → flag pte 2 ≡ true
      → page_of pte % 2 ^ 30 ≡ 0
      → view (8 * 2 ^ 60 + root / 2 ^ 12) m va ≡ m (page_of pte + va % 2 ^ 30)

-- The boot information lies in the memory from 0x80000000, and the stack ends at a multiple of 8
-- in the high half, with the word below it `offset` bytes behind 0xFFFFFFFF80000000.
pub record CanEnter (symbols : Symbols) (offset : ℕ) (m : Memory) : Type 0 where
  pub can_page : CanPage symbols m
  pub info_first : symbols.boot_info / 2 ^ 30 ≡ 2
  pub info_last : (symbols.boot_info + 31) / 2 ^ 30 ≡ 2
  pub info_aligned : symbols.boot_info % 8 ≡ 0
  pub info_mapped : (o : ℕ) → o < 32 → o % 8 ≡ 0 → (v : ℕ) × (m (symbols.boot_info + o) ≡ some v)
  pub stack_top : symbols.kernel_stack_top ≡ 0xFFFFFFFF80000000 + offset + 8
  pub stack_fits : offset + 8 < 2 ^ 30
  pub stack_aligned : offset % 8 ≡ 0
  pub stack_mapped : (v : ℕ) × (m (2 ^ 31 + offset) ≡ some v)

update_mapped : (m : Memory) (p u a v : ℕ) → m a ≡ some v → (w : ℕ) × (update m p u a ≡ some w)
update_mapped m p u a v e = elim (Bool-cases (a == p)) [
  | inl t ↦ (u, rw t refl)
  | inr t ↦ (v, rw (t, e) refl)
]

paged_mapped :
    (symbols : Symbols) (m : Memory) (a v : ℕ)
    → m a ≡ some v
    → (w : ℕ) × (paged symbols m a ≡ some w)
paged_mapped symbols m a v e =
    let low = symbols.boot_root_page_table + 2 * 8 in
    let (w, q) = update_mapped m low (gigapage symbols.boot_start) a v e in
    update_mapped (update m low (gigapage symbols.boot_start))
      (symbols.boot_root_page_table + 510 * 8) (gigapage symbols.boot_start) a w q

gigapage_flags :
    (pa : ℕ)
    → pa / 2 ^ 30 ≡ 2
    → (flag (gigapage pa) 0 ≡ true)
      × (flag (gigapage pa) 1 ≡ true)
      × (flag (gigapage pa) 2 ≡ true)
      × (page_of (gigapage pa) ≡ 2 ^ 31)
unfolding bit
gigapage_flags pa e = rw e (refl, refl, refl, refl)

module _ (view : ℕ → Memory → Memory) (t : Translates view) (symbols : Symbols) (offset : ℕ)
    (m : Memory) (c : CanEnter symbols offset m) where
  abbrev pub seen : Memory
  seen = view (satp_of symbols) (paged symbols m)

  seen_leaf :
      (va : ℕ)
      → (va < 2 ^ 38) ⊎ (2 ^ 64 ≤ va + 2 ^ 38)
      → va < 2 ^ 64
      → paged symbols m (entry_at va 2 symbols.boot_root_page_table)
        ≡ some (gigapage symbols.boot_start)
      → seen va ≡ paged symbols m (2 ^ 31 + va % 2 ^ 30)
  seen_leaf va canonical below e =
      let can = c.can_page in
      let fits = can.root_fits in
      let (valid, readable, writable, page) = gigapage_flags symbols.boot_start can.in_gigapage in
      t.at_leaf (paged symbols m) symbols.boot_root_page_table va (gigapage symbols.boot_start)
        can.at_page (omega arith) canonical below e valid readable writable (omega arith)
      ∙ ap (λ p. paged symbols m (p + va % 2 ^ 30)) page

  seen_low : (a : ℕ) → a / 2 ^ 30 ≡ 2 → seen a ≡ paged symbols m a
  seen_low a e =
      let same : 2 ^ 31 + a % 2 ^ 30 ≡ a = omega arith in
      seen_leaf a (inl (omega arith)) (omega arith) (paged_low symbols m a (omega arith))
      ∙ ap (paged symbols m) same

  seen_high : seen (0xFFFFFFFF80000000 + offset) ≡ paged symbols m (2 ^ 31 + offset)
  seen_high =
      let l = c.stack_fits in
      let same : 2 ^ 31 + (0xFFFFFFFF80000000 + offset) % 2 ^ 30 ≡ 2 ^ 31 + offset = omega arith in
      seen_leaf (0xFFFFFFFF80000000 + offset) (inr (omega arith)) (omega arith)
        (paged_high symbols m (0xFFFFFFFF80000000 + offset) (omega arith))
      ∙ ap (paged symbols m) same

  pub info_IsFrame : IsFrame seen symbols.boot_info 32
  info_IsFrame =
      let g = c.info_first in
      let g' = c.info_last in
      let z = c.info_aligned in
      record {
        aligned = z;
        fits = omega arith;
        mapped = λ o l q.
            let (v, e) = c.info_mapped o l q in
            let (w, f) = paged_mapped symbols m (symbols.boot_info + o) v e in
            (w, seen_low (symbols.boot_info + o) (omega arith) ∙ f);
      }

  pub stack_seen : (v : ℕ) × (seen (0xFFFFFFFF80000000 + offset) ≡ some v)
  stack_seen =
      let (v, e) = c.stack_mapped in
      let (w, f) = paged_mapped symbols m (2 ^ 31 + offset) v e in (w, seen_high ∙ f)
