-- ===== src/Sv39/Tests.antt =====
-- A page table of three levels (hal/rv64/sv39_vm.c).
use sysrv.Prelude.{ℕ, ◌≡◌, ◌↔◌, refl, none, some, done, ◌==◌, if◌then◌else◌, arith}
use sysrv.Memory.{Memory}
use sysrv.Sv39.{
  walk_page_table, walk_loop, get_vpn0, get_vpn1, get_vpn2, is_pte_valid, is_pte_leaf,
  pte_to_phys_addr,
}
use sysrv.Sv39.Walk.{sv39, Maps, walk_page_table-Maps}

-- The root at 0x1000 points to a table at 0x2000, that to one at 0x3000, and that to a page.
abbrev tables : Memory
tables a =
    if a == 0x1008
    then some 0x801
    else if a == 0x2008
    then some 0xc01
    else if a == 0x3008
    then some 0x140f
    else if a == 0x1000
    then some 0
    else none

walk_finds : walk_page_table sv39 tables 0x1000 0x40201234 ≡ done 0x3008
unfolding walk_page_table walk_loop get_vpn0 get_vpn1 get_vpn2 is_pte_valid is_pte_leaf
    pte_to_phys_addr
walk_finds = refl

walk_misses : walk_page_table sv39 tables 0x1000 0x234 ≡ done 0
unfolding walk_page_table walk_loop get_vpn0 get_vpn1 get_vpn2 is_pte_valid is_pte_leaf
    pte_to_phys_addr
walk_misses = refl

abbrev leaf_entry : ℕ
leaf_entry = 0x3008

walk_page_table-Maps_example :
    (walk_page_table sv39 tables 0x1000 0x40201234 ≡ done leaf_entry)
    ↔ Maps tables 0x40201234 3 0x1000 leaf_entry
walk_page_table-Maps_example =
    walk_page_table-Maps sv39 tables 0x1000 0x40201234 leaf_entry refl (omega arith) (omega arith)
