-- ===== src/Entry/Map.antt =====
-- One entry of the boot page table (`__boot_map_virt_to_phys` of kernel/boot/rv64/start.s).
use sysrv.Prelude.{
  ℕ, ◌+◌, ◌*◌, ◌/◌, ◌%◌, ◌^◌, ◌≤◌, ◌<◌, ◌≡◌, refl, ap, true, false, Bool, ◌&&◌, leb, some, Outcome,
  done, ◌==◌, bit_and, bit_or, arith,
}
use sysrv.Word.{u64, add64}
use sysrv.Word.Bits.{bit_and_mask, bit_or-sum}
use sysrv.Memory.{update}
use sysrv.Rv64.{Machine, set_reg, step, run}
use sysrv.Rv64.Reg
use sysrv.Sv39.Walk.{entry_at}
use sysrv.Entry.{boot_map_virt_to_phys}

-- An entry that maps the gigapage of `pa`, to be read, written and executed.
abbrev pub gigapage : ℕ → ℕ
gigapage pa = pa / 2 ^ 30 * 2 ^ 28 + 15

-- `t0`, `t1` and `t2`
abbrev pub is_scratch : ℕ → Bool
is_scratch q = leb Reg.t0 q && leb q Reg.t2

-- The root table has the entry for `va`, and nothing else has changed but three temporaries.
pub record Mapped (root pa va : ℕ) (s : Machine) (r : Outcome Machine) : Type 0 where
  pub out : Machine
  pub returns : r ≡ done out
  pub words : out.words ≡ update s.words (entry_at va 2 root) (gigapage pa)
  pub regs : (q : ℕ) → is_scratch q ≡ false → out.regs q ≡ s.regs q
  pub csrs : out.csrs ≡ s.csrs

-- What the code computes: the entry's offset, its address and its value.
abbrev offset_in : Machine → ℕ
offset_in s = u64 (bit_and (s.regs Reg.a2 / 2 ^ 30) 0x1FF * 2 ^ 3)

abbrev address_in : Machine → ℕ
address_in s = add64 (s.regs Reg.a0) (offset_in s)

abbrev shifted_in : Machine → ℕ
shifted_in s = u64 (s.regs Reg.a1 / 2 ^ 30 * 2 ^ 28)

abbrev value_in : Machine → ℕ
value_in s = bit_or (shifted_in s) 0xF

-- The machine before the store.
abbrev prepared : Machine → Machine
prepared s = set_reg Reg.t0 (address_in s) (
    set_reg Reg.t0 (offset_in s) (
      set_reg Reg.t1 (value_in s) (
        set_reg Reg.t2 0xF (
          set_reg Reg.t1 (shifted_in s) (
            set_reg Reg.t1 (s.regs Reg.a1 / 2 ^ 30) (
              set_reg Reg.t0 (bit_and (s.regs Reg.a2 / 2 ^ 30) 0x1FF)
                (set_reg Reg.t0 (s.regs Reg.a2 / 2 ^ 30) s)))))))

run-map_code :
    (v a : ℕ) (s : Machine)
    → add64 (address_in s) 0 ≡ a
    → a % 8 ≡ 0
    → s.words a ≡ some v
    → boot_map_virt_to_phys s ≡ done (record (prepared s) { words = update s.words a (value_in s) })
unfolding boot_map_virt_to_phys run step
run-map_code v a s e z w =
    let aligned : (a % 8 == 0) ≡ true = ground arith in rw (e, aligned, w) refl

prepared-regs : (s : Machine) (q : ℕ) → is_scratch q ≡ false → (prepared s).regs q ≡ s.regs q
prepared-regs s q h =
    let a' : (q == Reg.t0) ≡ false = ground arith in
    let b' : (q == Reg.t1) ≡ false = ground arith in
    let c' : (q == Reg.t2) ≡ false = ground arith in rw (a', b', c') refl

address-entry_at :
    (root va : ℕ) (s : Machine)
    → s.regs Reg.a0 ≡ root
    → s.regs Reg.a2 ≡ va
    → root % 8 ≡ 0
    → root + 2 ^ 12 ≤ 2 ^ 64
    → add64 (address_in s) 0 ≡ entry_at va 2 root
address-entry_at root va s e0 e2 z h =
    let index = bit_and_mask 9 (va / 2 ^ 30) in rw (e0, e2, index) (omega arith)

value-gigapage :
    (pa : ℕ) (s : Machine) → s.regs Reg.a1 ≡ pa → pa < 2 ^ 56 → value_in s ≡ gigapage pa
value-gigapage pa s e l =
    let shifted : u64 (pa / 2 ^ 30 * 2 ^ 28) ≡ pa / 2 ^ 30 * 2 ^ 28 = omega arith in
    rw (e, shifted) (bit_or-sum 28 (pa / 2 ^ 30) 15 (omega arith))

-- Where `a0` points to a table at a multiple of 8 that ends below 2^64, `a1` is a physical address
-- below 2^56 and the entry for the address in `a2` can be written: the function returns, and the entry
-- that Sv39 looks up in this root table is the valid leaf of the gigapage of `a1`; every other word,
-- the control registers and all registers but `t0`, `t1` and `t2` are as before.
pub boot_map_virt_to_phys-Mapped :
    (root pa va v : ℕ) (s : Machine)
    → s.regs Reg.a0 ≡ root
    → s.regs Reg.a1 ≡ pa
    → s.regs Reg.a2 ≡ va
    → root % 8 ≡ 0
    → root + 2 ^ 12 ≤ 2 ^ 64
    → pa < 2 ^ 56
    → s.words (entry_at va 2 root) ≡ some v
    → Mapped root pa va s (boot_map_virt_to_phys s)
boot_map_virt_to_phys-Mapped root pa va v s e0 e1 e2 z h l w = record {
  out = record (prepared s) { words = update s.words (entry_at va 2 root) (value_in s) };
  returns =
      run-map_code v (entry_at va 2 root) s (address-entry_at root va s e0 e2 z h) (omega arith) w;
  words = ap (update s.words (entry_at va 2 root)) (value-gigapage pa s e1 l);
  regs = prepared-regs s;
  csrs = refl;
}
