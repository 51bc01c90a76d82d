-- ===== src/Sv39.antt =====
-- hal/rv64/sv39_vm.c: page table entries and the walk. The header rv64_vm.h, which is not in the
-- repository, defines the positions and the mask of the page numbers; they are parameters here.
pub mod Flags
pub mod Walk
mod Tests
use sysrv.Prelude.{
  ℕ, zero, suc, ◌+◌, ◌*◌, ◌/◌, ◌%◌, ◌^◌, Bool, ◌&&◌, not, List, [], ◌∷◌, Outcome, done, ◌>>=◌,
  get_or, ◌==◌, if◌then◌else◌, bit_or, bit_and,
}
use sysrv.Word.{u64, add64, bit_mask}
use sysrv.Memory.{Memory, load}

abbrev pub pte_valid : ℕ
pte_valid = bit_mask 0

abbrev pub pte_read : ℕ
pte_read = bit_mask 1

abbrev pub pte_write : ℕ
pte_write = bit_mask 2

abbrev pub pte_execute : ℕ
pte_execute = bit_mask 3

abbrev pub pte_dirty : ℕ
pte_dirty = bit_mask 7

-- What rv64_vm.h defines: `RV64_SV39_VPN2_BITP` and so on.
pub record Layout : Type 0 where
  pub vpn2_bitp : ℕ
  pub vpn1_bitp : ℕ
  pub vpn0_bitp : ℕ
  pub vpn_mask : ℕ
  pub max_levels : ℕ

-- `rv64_GetVPN2`, `rv64_GetVPN1`, `rv64_GetVPN0`
unfoldable pub get_vpn2 : Layout → ℕ → ℕ
get_vpn2 c va = bit_and (va / 2 ^ c.vpn2_bitp) c.vpn_mask

unfoldable pub get_vpn1 : Layout → ℕ → ℕ
get_vpn1 c va = bit_and (va / 2 ^ c.vpn1_bitp) c.vpn_mask

unfoldable pub get_vpn0 : Layout → ℕ → ℕ
get_vpn0 c va = bit_and (va / 2 ^ c.vpn0_bitp) c.vpn_mask

-- `rv64_PTEToPhysAddr`
unfoldable pub pte_to_phys_addr : ℕ → ℕ
pte_to_phys_addr pte = u64 (bit_and (pte / 2 ^ 10) 0xFFFFFFFFFFF * 2 ^ 12)

-- `srv_hal_MarkPTEValid` and so on: the entry after the call.
unfoldable pub mark_pte_valid : ℕ → ℕ
mark_pte_valid pte = bit_or pte pte_valid

unfoldable pub mark_pte_readable : ℕ → ℕ
mark_pte_readable pte = bit_or pte pte_read

unfoldable pub mark_pte_writable : ℕ → ℕ
mark_pte_writable pte = bit_or pte pte_write

unfoldable pub mark_pte_executable : ℕ → ℕ
mark_pte_executable pte = bit_or pte pte_execute

unfoldable pub is_pte_dirty : ℕ → Bool
is_pte_dirty pte = not (bit_and pte pte_dirty == 0)

unfoldable pub is_pte_valid : ℕ → Bool
is_pte_valid pte = not (bit_and pte pte_valid == 0)

unfoldable pub is_pte_leaf : ℕ → Bool
is_pte_leaf pte =
    let are_rwx_bits_set =
      not (bit_and pte (bit_or (bit_or pte_read pte_write) pte_execute) == 0) in
    let is_valid = not (bit_and pte pte_valid == 0) in are_rwx_bits_set && is_valid

-- The loop of `srv_hal_WalkPageTable` with `level` rounds to go. `m` holds the 64-bit word at an
-- address; the result is the address of the entry found, 0 for NULL.
unfoldable pub walk_loop : Memory → List ℕ → ℕ → ℕ → Outcome ℕ
walk_loop m vpn zero curr_table = done 0
walk_loop m vpn (suc level) curr_table = do
  let pte = add64 curr_table (get_or vpn level 0 * 8)
  entry ← load m pte
  if is_pte_valid entry
      then if is_pte_leaf entry then done pte else walk_loop m vpn level (pte_to_phys_addr entry)
      else done 0

-- `srv_hal_WalkPageTable`
unfoldable pub walk_page_table : Layout → Memory → ℕ → ℕ → Outcome ℕ
walk_page_table c m page_table va =
    walk_loop m (get_vpn0 c va ∷ get_vpn1 c va ∷ get_vpn2 c va ∷ []) c.max_levels page_table
