-- ===== src/Entry/Tables.antt =====
-- The boot page tables of `_start` (kernel/boot/rv64/start.s, kernel/arch/rv64/linker.ld).
use sysrv.Prelude.{
  ℕ, ◌+◌, ◌*◌, ◌/◌, ◌%◌, ◌^◌, ◌<◌, ◌≡◌, refl, ap, ap₂, ◌∙◌, true, false, some, Outcome, done, ◌==◌,
  bit_or, arith,
}
use sysrv.Word.{u64, add64}
use sysrv.Word.Bits.{bit_or-sum, bit_or_comm}
use sysrv.Memory.{Memory, update}
use sysrv.Rv64.{Machine, set_reg, write_to, step, run}
use sysrv.Rv64.Reg
use sysrv.Sv39.Walk.{entry_at}
use sysrv.Entry.{Symbols, Links, boot_map_virt_to_phys, start_paging}
use sysrv.Entry.Map.{gigapage, Mapped, boot_map_virt_to_phys-Mapped}

-- The symbols lie as the linker script puts them, and the root table is clear.
pub record CanPage (symbols : Symbols) (m : Memory) : Type 0 where
  pub at_page : symbols.boot_root_page_table % 2 ^ 12 ≡ 0
  pub root_fits : symbols.boot_root_page_table + 2 ^ 12 < 2 ^ 56
  pub in_gigapage : symbols.boot_start / 2 ^ 30 ≡ 2
  pub is_clear : (i : ℕ) → i < 512 → m (symbols.boot_root_page_table + i * 8) ≡ some 0

-- The words with the two entries of the root table.
abbrev pub paged : Symbols → Memory → Memory
paged symbols m =
    update (update m (symbols.boot_root_page_table + 2 * 8) (gigapage symbols.boot_start))
      (symbols.boot_root_page_table + 510 * 8) (gigapage symbols.boot_start)

abbrev pub satp_of : Symbols → ℕ
satp_of symbols = 8 * 2 ^ 60 + symbols.boot_root_page_table / 2 ^ 12

-- What the first part of `_start` leaves.
pub record Paged (symbols : Symbols) (s : Machine) (r : Outcome Machine) : Type 0 where
  pub out : Machine
  pub returns : r ≡ done out
  pub words : out.words ≡ paged symbols s.words
  pub csrs : out.csrs ≡ write_to s.csrs Reg.satp (satp_of symbols)
  pub t6 : out.regs Reg.t6 ≡ s.regs Reg.a1
  pub tp : out.regs Reg.tp ≡ s.regs Reg.tp

-- The machine before each call.
abbrev first : Symbols → Links → Machine → Machine
first symbols links s = set_reg Reg.ra links.identity (
    set_reg Reg.a2 symbols.boot_start (
      set_reg Reg.a1 symbols.boot_start
        (set_reg Reg.a0 symbols.boot_root_page_table (set_reg Reg.t6 (s.regs Reg.a1) s))))

abbrev second : Symbols → Links → Machine → Machine
second symbols links s = set_reg Reg.ra links.high (
    set_reg Reg.a2 (add64 0xFFFFFFFF00000000 symbols.boot_start) (
      set_reg Reg.a2 0xFFFFFFFF00000000
        (set_reg Reg.a1 symbols.boot_start (set_reg Reg.a0 symbols.boot_root_page_table s))))

abbrev last : Machine → Machine
last s =
    let root = s.regs Reg.a0 / 2 ^ 12 in
    let t =
      set_reg Reg.a0 (bit_or root (u64 (8 * 2 ^ 60)))
        (set_reg Reg.t1 (u64 (8 * 2 ^ 60)) (set_reg Reg.t1 8 (set_reg Reg.a0 root s))) in
    record t { csrs = write_to s.csrs Reg.satp (bit_or root (u64 (8 * 2 ^ 60))) }

paging_steps :
    (symbols : Symbols) (links : Links) (s s2 s4 : Machine)
    → boot_map_virt_to_phys (first symbols links s) ≡ done s2
    → boot_map_virt_to_phys (second symbols links s2) ≡ done s4
    → start_paging symbols links s ≡ done (last s4)
unfolding start_paging run step
paging_steps symbols links s s2 s4 a b = rw (a, b) refl

last_satp :
    (root : ℕ)
    → root % 2 ^ 12 ≡ 0
    → root + 2 ^ 12 < 2 ^ 56
    → bit_or (root / 2 ^ 12) (u64 (8 * 2 ^ 60)) ≡ 8 * 2 ^ 60 + root / 2 ^ 12
last_satp root z h =
    bit_or_comm (root / 2 ^ 12) (8 * 2 ^ 60) ∙ bit_or-sum 60 8 (root / 2 ^ 12) (omega arith)

module _ (symbols : Symbols) (links : Links) (m : Memory) (c : CanPage symbols m) where
  at_low :
      entry_at symbols.boot_start 2 symbols.boot_root_page_table
      ≡ symbols.boot_root_page_table + 2 * 8
  at_low = let e = c.in_gigapage in omega arith

  at_high :
      entry_at (add64 0xFFFFFFFF00000000 symbols.boot_start) 2 symbols.boot_root_page_table
      ≡ symbols.boot_root_page_table + 510 * 8
  at_high = let e = c.in_gigapage in omega arith

  maps_first :
      (s : Machine)
      → s.words ≡ m
      → Mapped symbols.boot_root_page_table symbols.boot_start symbols.boot_start
          (first symbols links s)
          (boot_map_virt_to_phys (first symbols links s))
  maps_first s e =
      let z = c.at_page in
      let h = c.root_fits in
      let g = c.in_gigapage in
      boot_map_virt_to_phys-Mapped symbols.boot_root_page_table symbols.boot_start
        symbols.boot_start 0 (first symbols links s) refl refl refl (omega arith) (omega arith)
        (omega arith) (rw (at_low, e) (c.is_clear 2 (omega arith)))

  maps_second :
      (s : Machine)
      → s.words ≡ update m (symbols.boot_root_page_table + 2 * 8) (gigapage symbols.boot_start)
      → Mapped symbols.boot_root_page_table symbols.boot_start
          (add64 0xFFFFFFFF00000000 symbols.boot_start)
          (second symbols links s)
          (boot_map_virt_to_phys (second symbols links s))
  maps_second s e =
      let z = c.at_page in
      let h = c.root_fits in
      let g = c.in_gigapage in
      let apart : (symbols.boot_root_page_table + 510 * 8 == symbols.boot_root_page_table + 2 * 8)
          ≡ false =
        ground arith in
      boot_map_virt_to_phys-Mapped symbols.boot_root_page_table symbols.boot_start
        (add64 0xFFFFFFFF00000000 symbols.boot_start) 0 (second symbols links s) refl refl refl
        (omega arith) (omega arith) (omega arith)
        (rw (at_high, e, apart) (c.is_clear 510 (omega arith)))

-- From tables where the linker script puts them: the first part of `_start` returns with two entries
-- in the root table, `satp` pointing to it in the mode of Sv39, the address of the device tree in `t6`
-- and nothing else changed in memory and in the control registers.
pub start_paging-Paged :
    (symbols : Symbols) (links : Links) (s : Machine)
    → CanPage symbols s.words
    → Paged symbols s (start_paging symbols links s)
start_paging-Paged symbols links s c =
    let m1 = maps_first symbols links s.words c s refl in
    let w1 : m1.out.words
        ≡ update s.words (symbols.boot_root_page_table + 2 * 8) (gigapage symbols.boot_start) =
      m1.words
      ∙ ap (λ a. update s.words a (gigapage symbols.boot_start)) (at_low symbols links s.words c) in
    let m2 = maps_second symbols links s.words c m1.out w1 in
    record {
      out = last m2.out;
      returns = paging_steps symbols links s m1.out m2.out m1.returns m2.returns;
      words =
          m2.words
          ∙ ap (λ a. update m1.out.words a (gigapage symbols.boot_start))
              (at_high symbols links s.words c)
          ∙ ap
              (λ w. update w (symbols.boot_root_page_table + 510 * 8) (gigapage symbols.boot_start))
              w1;
      csrs =
          ap₂ (λ f v. write_to f Reg.satp v) (m2.csrs ∙ m1.csrs)
            (ap (λ r. bit_or (r / 2 ^ 12) (u64 (8 * 2 ^ 60))) (m2.regs Reg.a0 refl)
              ∙ last_satp symbols.boot_root_page_table c.at_page c.root_fits);
      t6 = m2.regs Reg.t6 refl ∙ m1.regs Reg.t6 refl;
      tp = m2.regs Reg.tp refl ∙ m1.regs Reg.tp refl;
    }

-- The entries that a lookup finds in these tables.
pub paged_low :
    (symbols : Symbols) (m : Memory) (va : ℕ)
    → va / 2 ^ 30 % 512 ≡ 2
    → paged symbols m (entry_at va 2 symbols.boot_root_page_table)
      ≡ some (gigapage symbols.boot_start)
paged_low symbols m va e =
    let at : entry_at va 2 symbols.boot_root_page_table ≡ symbols.boot_root_page_table + 16 =
      omega arith in
    let apart : (symbols.boot_root_page_table + 16 == symbols.boot_root_page_table + 4080) ≡ false =
      ground arith in
    let self : (symbols.boot_root_page_table + 16 == symbols.boot_root_page_table + 16) ≡ true =
      ground arith in
    rw (at, apart, self) refl

pub paged_high :
    (symbols : Symbols) (m : Memory) (va : ℕ)
    → va / 2 ^ 30 % 512 ≡ 510
    → paged symbols m (entry_at va 2 symbols.boot_root_page_table)
      ≡ some (gigapage symbols.boot_start)
paged_high symbols m va e =
    let at : entry_at va 2 symbols.boot_root_page_table ≡ symbols.boot_root_page_table + 4080 =
      omega arith in
    let self : (symbols.boot_root_page_table + 4080 == symbols.boot_root_page_table + 4080) ≡ true =
      ground arith in
    rw (at, self) refl
