-- ===== src/Entry/Reach.antt =====
-- What the boot page tables (kernel/boot/rv64/start.s) map, seen by the walk of hal/rv64/sv39_vm.c.
use sysrv.Prelude.{
  ℕ, ◌+◌, ◌*◌, ◌/◌, ◌%◌, ◌^◌, ◌<◌, ◌≡◌, refl, ap, ◌∙◌, Bool-cases, inl, inr, true, false, some,
  done, ◌==◌, if◌then◌else◌, arith,
}
use sysrv.Word.{add64}
use sysrv.Word.Bits.{bit_and_mask}
use sysrv.Memory.{Memory}
use sysrv.Sv39.{Layout, get_vpn2, is_pte_valid, is_pte_leaf, walk_loop, walk_page_table}
use sysrv.Sv39.Walk.{sv39, entry_at}
use sysrv.Entry.{Symbols}
use sysrv.Entry.Map.{gigapage}
use sysrv.Entry.Tables.{CanPage, paged, paged_low, paged_high}

-- The first level decides when the word there is a leaf or not valid.
ends_at_leaf :
    (m : Memory) (va root pte : ℕ)
    → root + 2 ^ 12 < 2 ^ 64
    → m (entry_at va 2 root) ≡ some pte
    → is_pte_valid pte ≡ true
    → is_pte_leaf pte ≡ true
    → walk_page_table sv39 m root va ≡ done (entry_at va 2 root)
unfolding walk_page_table walk_loop get_vpn2
ends_at_leaf m va root pte h e valid leaf =
    let index = bit_and_mask 9 (va / 2 ^ 30) in
    let at : add64 root (va / 2 ^ 30 % 2 ^ 9 * 8) ≡ entry_at va 2 root = omega arith in
    rw (index, at, e, valid, leaf) refl

ends_at_hole :
    (m : Memory) (va root pte : ℕ)
    → root + 2 ^ 12 < 2 ^ 64
    → m (entry_at va 2 root) ≡ some pte
    → is_pte_valid pte ≡ false
    → walk_page_table sv39 m root va ≡ done 0
unfolding walk_page_table walk_loop get_vpn2
ends_at_hole m va root pte h e invalid =
    let index = bit_and_mask 9 (va / 2 ^ 30) in
    let at : add64 root (va / 2 ^ 30 % 2 ^ 9 * 8) ≡ entry_at va 2 root = omega arith in
    rw (index, at, e, invalid) refl

boot_leaf :
    (pa : ℕ)
    → pa / 2 ^ 30 ≡ 2
    → (is_pte_valid (gigapage pa) ≡ true) × (is_pte_leaf (gigapage pa) ≡ true)
unfolding is_pte_valid is_pte_leaf
boot_leaf pa e = rw e (refl, refl)

zero_hole : is_pte_valid 0 ≡ false
unfolding is_pte_valid
zero_hole = refl

-- In the tables that `_start` leaves, where rv64_vm.h lays addresses out as Sv39 does: the walk finds
-- the third entry of the root for the virtual addresses of the gigapage 2, which is the memory from
-- 0x80000000, the last but one for those of the gigapage 510, where the kernel runs, and NULL for all
-- others.
pub walk_page_table-paged :
    (c : Layout) (symbols : Symbols) (m : Memory) (va : ℕ)
    → c ≡ sv39
    → CanPage symbols m
    → walk_page_table c (paged symbols m) symbols.boot_root_page_table va
      ≡ done (
          if va / 2 ^ 30 % 512 == 2
          then symbols.boot_root_page_table + 16
          else if va / 2 ^ 30 % 512 == 510
          then symbols.boot_root_page_table + 4080
          else 0)
walk_page_table-paged c symbols m va layout can =
    let root = symbols.boot_root_page_table in
    let h = can.root_fits in
    let fits : root + 2 ^ 12 < 2 ^ 64 = omega arith in
    let (valid, leaf) = boot_leaf symbols.boot_start can.in_gigapage in
    rw layout (elim (Bool-cases (va / 2 ^ 30 % 512 == 2)) [
      | inl low ↦
          let e : va / 2 ^ 30 % 512 ≡ 2 = ground arith in
          let at : entry_at va 2 root ≡ root + 16 = omega arith in
          rw low (
            ends_at_leaf (paged symbols m) va root (gigapage symbols.boot_start) fits
              (paged_low symbols m va e) valid leaf
            ∙ ap done at)
      | inr not_low ↦ elim (Bool-cases (va / 2 ^ 30 % 512 == 510)) [
        | inl high ↦
            let e : va / 2 ^ 30 % 512 ≡ 510 = ground arith in
            let at : entry_at va 2 root ≡ root + 4080 = omega arith in
            rw (not_low, high)
              (ends_at_leaf (paged symbols m) va root (gigapage symbols.boot_start) fits
                  (paged_high symbols m va e) valid leaf
                ∙ ap done at)
        | inr not_high ↦
            let apart1 : (entry_at va 2 root == root + 16) ≡ false = ground arith in
            let apart2 : (entry_at va 2 root == root + 4080) ≡ false = ground arith in
            let here : paged symbols m (entry_at va 2 root) ≡ some 0 =
              rw (apart1, apart2) (can.is_clear (va / 2 ^ 30 % 512) (omega arith)) in
            rw (not_low, not_high) (ends_at_hole (paged symbols m) va root 0 fits here zero_hole)
      ]
    ])
