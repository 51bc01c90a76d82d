-- ===== src/Entry/Boot/Stops.antt =====
-- Where a boot comes to an end (kernel/boot/rv64/start.s, kernel/arch/rv64/init.c).
use sysrv.Prelude.{
  Bool-cases, inl, inr, ◌==◌, false, arith, ℕ, ◌%◌, ◌≡◌, refl, ◌∙◌, sym, ap, none, some, Outcome,
  done, panic, fault, out_of_fuel, ◌>>=◌,
}
use sysrv.Memory.{Memory}
use sysrv.Rv64.{Machine}
use sysrv.Rv64.Reg
use sysrv.Rv64.Stores.{WordsAt}
use sysrv.Sv39.{Layout, walk_page_table}
use sysrv.Sv39.Walk.{sv39}
use sysrv.Hal.{Csrs}
use sysrv.Arch.{device_tree_invalid, BootInfo, Booted, arch_init}
use sysrv.Arch.Boot.{arch_init_stops}
use sysrv.Trap.Frame.{load_words-WordsAt}
use sysrv.Entry.{Symbols, Links, calls_init, start}
use sysrv.Entry.Tables.{paged}
use sysrv.Entry.Reach.{walk_page_table-paged}
use sysrv.Entry.View.{Translates, CanEnter}
use sysrv.Entry.Enter.{info_words, start-Calls, start_parks}
use sysrv.Entry.Boot.{boot_info_of, boot_info_at, Surroundings, call_init, boot}

-- What `srv_arch_Init` gets.
abbrev pub passed : Symbols → ℕ → BootInfo
passed symbols fdt = boot_info_of (info_words symbols fdt)

abbrev pub csrs_in : Machine → Csrs
csrs_in s = record { sstatus = s.csrs Reg.sstatus; stvec = s.csrs Reg.stvec }

boot_steps :
    (view : ℕ → Memory → Memory) (symbols : Symbols) (links : Links) (c : Surroundings)
    (s t : Machine) (info : BootInfo)
    → start view symbols links s ≡ done (calls_init t)
    → boot_info_at t.words (t.regs Reg.a0) ≡ done info
    → boot view symbols links c s ≡ (
        arch_init c.fuel c.bytes c.words c.found c.image info c.fdt c.kpalloc (csrs_in t) >>= λ b.
        done (some b))
unfolding boot call_init
boot_steps view symbols links c s t info a b = rw (a, b) refl

information-passed :
    (symbols : Symbols) (fdt p : ℕ) (m : Memory)
    → p % 8 ≡ 0
    → WordsAt m p (info_words symbols fdt)
    → boot_info_at m p ≡ done (passed symbols fdt)
unfolding boot_info_at
information-passed symbols fdt p m z w =
    let r = load_words-WordsAt (info_words symbols fdt) m p z w in rw r refl

-- On hart 0, under the conditions of the entry: the boot is `srv_arch_Init`, run with the four words of
-- the boot information, among them the address of the device tree that the firmware gave in `a1`.
pub boot-arch_init :
    (view : ℕ → Memory → Memory) (symbols : Symbols) (links : Links) (offset : ℕ) (c : Surroundings)
    (s : Machine)
    → Translates view
    → CanEnter symbols offset s.words
    → s.regs Reg.a0 ≡ 0
    → boot view symbols links c s ≡ (
        arch_init c.fuel c.bytes c.words c.found c.image
          (passed symbols (s.regs Reg.a1))
          c.fdt
          c.kpalloc
          (csrs_in s)
        >>= λ b. done (some b))
boot-arch_init view symbols links offset c s t can hart =
    let calls = start-Calls view symbols links offset s t can hart in
    let info : boot_info_at calls.out.words (calls.out.regs Reg.a0)
        ≡ done (passed symbols (s.regs Reg.a1)) =
      rw calls.argument (
        information-passed symbols (s.regs Reg.a1) symbols.boot_info calls.out.words
          can.info_aligned calls.information) in
    boot_steps view symbols links c s calls.out (passed symbols (s.regs Reg.a1)) calls.returned info
    ∙ ap
        (λ f.
          arch_init c.fuel c.bytes c.words c.found c.image (passed symbols (s.regs Reg.a1)) c.fdt
            c.kpalloc (record { sstatus = f Reg.sstatus; stvec = f Reg.stvec })
          >>= λ b. done (some b))
        calls.csrs

ends_with :
    (r : Outcome Booted) (b : Booted) → (r >>= λ b'. done (some b')) ≡ done (some b) → r ≡ done b
ends_with (done b') b e = cc
ends_with (panic text) b e = cc
ends_with fault b e = cc
ends_with out_of_fuel b e = cc

boot_parks :
    (view : ℕ → Memory → Memory) (symbols : Symbols) (links : Links) (c : Surroundings)
    (s : Machine)
    → (s.regs Reg.a0 == 0) ≡ false
    → boot view symbols links c s ≡ done none
unfolding boot call_init
boot_parks view symbols links c s e = let r = start_parks view symbols links s e in rw r refl

-- Under the conditions of the entry, with addresses laid out as Sv39 does and no byte to be read where
-- the walk through the boot page tables finds no leaf: if the boot of a hart comes to an end in the
-- kernel, the hart is 0 and the kernel has refused the device tree, with the trap handler installed.
-- With a device tree that it accepts it never reaches `kmain`.
pub boot_stops :
    (view : ℕ → Memory → Memory) (symbols : Symbols) (links : Links) (offset : ℕ) (layout : Layout)
    (c : Surroundings) (s : Machine) (b : Booted)
    → Translates view
    → CanEnter symbols offset s.words
    → layout ≡ sv39
    → ((a : ℕ)
        → walk_page_table layout (paged symbols s.words) symbols.boot_root_page_table a ≡ done 0
        → c.bytes a ≡ none)
    → boot view symbols links c s ≡ done (some b)
    → (s.regs Reg.a0 ≡ 0) × (b.result ≡ device_tree_invalid) × (b.csrs.stvec ≡ c.image.trap_handler)
boot_stops view symbols links offset layout c s b t can as_sv39 unmapped e =
    elim (Bool-cases (s.regs Reg.a0 == 0)) [
      | inr other ↦ let parks = boot_parks view symbols links c s other in cc
      | inl hart0 ↦
          let hart : s.regs Reg.a0 ≡ 0 = ground arith in
          let ran =
            ends_with _ b (sym (boot-arch_init view symbols links offset c s t can hart) ∙ e) in
          let null =
            unmapped 0 (walk_page_table-paged layout symbols s.words 0 as_sv39 can.can_page) in
          let (refused, installed) =
            arch_init_stops c.fuel c.bytes c.words c.found c.image (passed symbols (s.regs Reg.a1))
              c.fdt c.kpalloc (csrs_in s) b null ran in
          (hart, refused, installed)
    ]
