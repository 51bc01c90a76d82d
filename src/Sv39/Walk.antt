-- ===== src/Sv39/Walk.antt =====
-- The page table walk (hal/rv64/sv39_vm.c) against the address translation of Sv39.
use sysrv.Prelude.{
  ℕ, zero, suc, ◌+◌, ◌*◌, ◌/◌, ◌%◌, ◌^◌, ◌<◌, ◌≡◌, ◌↔◌, ◌≢◌, ◌⊎◌, inl, inr, refl, sym, ap, Bool,
  true, false, ◌||◌, some, done, fault, List, [], ◌∷◌, get_or, bit_and, arith, Bool-cases,
  Option-cases,
}
use sysrv.Word.{add64}
use sysrv.Word.Bits.{bit_and_mask}
use sysrv.Memory.{Memory}
use sysrv.Sv39.{
  Layout, get_vpn2, get_vpn1, get_vpn0, pte_to_phys_addr, is_pte_leaf, walk_loop, walk_page_table,
}
use sysrv.Sv39.Flags.{flag, is_pte_lem}

-- The layout of Sv39 addresses: page numbers of 9 bits each, above a page offset of 12 bits.
abbrev pub sv39 : Layout
sv39 = record { vpn2_bitp = 30; vpn1_bitp = 21; vpn0_bitp = 12; vpn_mask = 511; max_levels = 3 }

-- The entry for `va` in the table at `table` on `level`.
abbrev pub entry_at : ℕ → ℕ → ℕ → ℕ
entry_at va level table = table + va / 2 ^ (12 + 9 * level) % 2 ^ 9 * 8

abbrev pub permits : ℕ → Bool
permits pte = flag pte 1 || flag pte 2 || flag pte 3

-- The page that an entry points to, by its 44-bit page number.
abbrev pub page_of : ℕ → ℕ
page_of pte = pte / 2 ^ 10 % 2 ^ 44 * 2 ^ 12

-- The leaf entry for `va` stands at `a`, searched from the table at `table` with `levels` levels to go.
abbrev pub Maps : Memory → ℕ → ℕ → ℕ → ℕ → Type 0
Maps m va zero table a = ⊥
Maps m va (suc level) table a =
    (pte : ℕ) × (m (entry_at va level table) ≡ some pte)
    × (flag pte 0 ≡ true)
    × (((permits pte ≡ true) × (a ≡ entry_at va level table))
        ⊎ ((permits pte ≡ false) × Maps m va level (page_of pte) a))

pte_to_phys_addr_lem : (pte : ℕ) → pte_to_phys_addr pte ≡ page_of pte
unfolding pte_to_phys_addr
pte_to_phys_addr_lem pte = omega (arith, bit_and_mask 44 (pte / 2 ^ 10))

done_inj : {a b : ℕ} → done a ≡ done b → a ≡ b
done_inj e = cc

fault_not_done : {a : ℕ} → fault ≡ done a → ⊥
fault_not_done e = cc

module _ (m : Memory) (va : ℕ) (vpn : List ℕ) where
  walk_loop_finds :
      (level table a : ℕ)
      → ((l : ℕ) → l < level → get_or vpn l 0 ≡ va / 2 ^ (12 + 9 * l) % 2 ^ 9)
      → table + 2 ^ 12 < 2 ^ 64
      → Maps m va level table a
      → walk_loop m vpn level table ≡ done a
  unfolding walk_loop
  walk_loop_finds zero table a v h p = elim p [ ]
  walk_loop_finds (suc level) table a v h (pte, e, valid, q) =
      let (t0, _, t2) = is_pte_lem pte in
      let at : add64 table (get_or vpn level 0 * 8) ≡ entry_at va level table =
        omega (arith, v level (omega arith)) in
      elim q [
        | inl (r, b) ↦
            let leaf : is_pte_leaf pte ≡ true = rw (t2, valid, r) refl in
            rw (at, e, t0, valid, leaf) (ap done (sym b))
        | inr (r, b) ↦
            let leaf : is_pte_leaf pte ≡ false = rw (t2, valid, r) refl in
            rw (at, e, t0, valid, leaf, pte_to_phys_addr_lem pte)
              (walk_loop_finds level (page_of pte) a (λ l k. v l (omega arith)) (omega arith) b)
      ]

  walk_loop_found :
      (level table a : ℕ)
      → ((l : ℕ) → l < level → get_or vpn l 0 ≡ va / 2 ^ (12 + 9 * l) % 2 ^ 9)
      → table + 2 ^ 12 < 2 ^ 64
      → walk_loop m vpn level table ≡ done a
      → a ≢ 0
      → Maps m va level table a
  unfolding walk_loop
  walk_loop_found zero table a v h e n = absurd (n (sym (done_inj e)))
  walk_loop_found (suc level) table a v h e n =
      let at : add64 table (get_or vpn level 0 * 8) ≡ entry_at va level table =
        omega (arith, v level (omega arith)) in
      elim (Option-cases (m (entry_at va level table))) [
        | inl missing ↦ absurd (fault_not_done (rw (at, missing) at e))
        | inr (pte, r) ↦
            let (t0, _, t2) = is_pte_lem pte in
            elim (Bool-cases (flag pte 0)) [
              | inr invalid ↦ absurd (n (sym (done_inj (rw (at, r, t0, invalid) at e))))
              | inl valid ↦ elim (Bool-cases (permits pte)) [
                | inl p ↦
                    let leaf : is_pte_leaf pte ≡ true = rw (t2, valid, p) refl in
                    (pte, r, valid, inl (p, sym (done_inj (rw (at, r, t0, valid, leaf) at e))))
                | inr p ↦
                    let leaf : is_pte_leaf pte ≡ false = rw (t2, valid, p) refl in
                    (
                      pte,
                      r,
                      valid,
                      inr (
                        p,
                        walk_loop_found level (page_of pte) a (λ l k. v l (omega arith))
                            (omega arith)
                            (rw (at, r, t0, valid, leaf, pte_to_phys_addr_lem pte) at e) n,
                      ),
                    )
              ]
            ]
      ]

get_vpn_lem : (n va : ℕ) → bit_and (va / 2 ^ n) 511 ≡ va / 2 ^ n % 2 ^ 9
get_vpn_lem n va = bit_and_mask 9 (va / 2 ^ n)

vpn_lem :
    (va l : ℕ)
    → l < 3
    → get_or (get_vpn0 sv39 va ∷ get_vpn1 sv39 va ∷ get_vpn2 sv39 va ∷ []) l 0
      ≡ va / 2 ^ (12 + 9 * l) % 2 ^ 9
unfolding get_vpn0 get_vpn1 get_vpn2
vpn_lem va zero h = get_vpn_lem 12 va
vpn_lem va (suc zero) h = get_vpn_lem 21 va
vpn_lem va (suc (suc zero)) h = get_vpn_lem 30 va
vpn_lem va (suc (suc (suc l))) h = absurd (omega arith)

-- Where rv64_vm.h lays addresses out as Sv39 does and the root table lies at least a page below 2^64,
-- the walk returns an address other than NULL exactly if the leaf entry that the three levels of Sv39
-- tables have for the virtual address stands there.
pub walk_page_table-Maps :
    (c : Layout) (m : Memory) (root va a : ℕ)
    → c ≡ sv39
    → root + 2 ^ 12 < 2 ^ 64
    → a ≢ 0
    → (walk_page_table c m root va ≡ done a) ↔ Maps m va 3 root a
unfolding walk_page_table
walk_page_table-Maps c m root va a e h n =
    let vpn = get_vpn0 sv39 va ∷ get_vpn1 sv39 va ∷ get_vpn2 sv39 va ∷ [] in
    rw e (
      (λ r. walk_loop_found m va vpn 3 root a (vpn_lem va) h r n),
      walk_loop_finds m va vpn 3 root a (vpn_lem va) h,
    )
