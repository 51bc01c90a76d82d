-- ===== src/Entry/Enter.antt =====
-- From the firmware to `srv_arch_Init` on hart 0 (kernel/boot/rv64/start.s, kernel/arch/rv64/linker.ld).
use sysrv.Prelude.{
  ℕ, ◌+◌, ◌%◌, ◌≡◌, refl, subst, ap, ap₂, ◌∙◌, inr, true, false, List, [], ◌∷◌, some, Outcome, done,
  ◌==◌, arith,
}
use sysrv.Word.{add64}
use sysrv.Memory.{Memory, update}
use sysrv.Rv64.{Instr, addi, mv, sd, ld, li, Machine, set_reg, write_to, step, run}
use sysrv.Rv64.Reg
use sysrv.Rv64.Stores.{
  WordsAt, IsFrame, values, put_all, put_all-WordsAt, WordsAt-update, put_all-outside, run-stores,
}
use sysrv.Trap.{negative}
use sysrv.Entry.{Symbols, Links, enter_code, Entered, parked, calls_init, start_paging, start}
use sysrv.Entry.Tables.{satp_of, start_paging-Paged}
use sysrv.Entry.View.{Translates, CanEnter, seen, info_IsFrame, stack_seen}

abbrev info_stores : List (ℕ × ℕ)
info_stores = (Reg.t0, 0) ∷ (Reg.t1, 8) ∷ (Reg.t6, 16) ∷ (Reg.t1, 24) ∷ []

-- The boot information, in the order of the fields of `srv_boot_info_t`.
abbrev pub info_words : Symbols → ℕ → List ℕ
info_words symbols fdt =
    symbols.kernel_physical_start ∷ symbols.physical_memory_start ∷ fdt
    ∷ symbols.physical_memory_start ∷ []

-- The machine before the boot information is stored, and after it.
abbrev filled : Symbols → Machine → Machine
filled symbols s =
    set_reg Reg.t1 symbols.physical_memory_start
      (set_reg Reg.t0 symbols.kernel_physical_start (set_reg Reg.a0 symbols.boot_info s))

abbrev informed : Symbols → Machine → Machine
informed symbols s = record (filled symbols s) {
  words = put_all symbols.boot_info (values (filled symbols s).regs info_stores) s.words;
}

stack_code : Symbols → List Instr
stack_code symbols =
    li Reg.t0 symbols.kernel_stack_top
    ∷ mv Reg.sp Reg.t0
    ∷ addi Reg.sp Reg.sp (negative 8)
    ∷ sd Reg.a0 0 Reg.sp
    ∷ ld Reg.a0 0 Reg.sp
    ∷ []

abbrev stacked : Symbols → Machine → Machine
stacked symbols s =
    set_reg Reg.sp (add64 symbols.kernel_stack_top (negative 8))
      (set_reg Reg.sp symbols.kernel_stack_top (set_reg Reg.t0 symbols.kernel_stack_top s))

-- The machine behind the code, with the word at the stack pointer `p`.
abbrev entered : Symbols → ℕ → Machine → Machine
entered symbols p s =
    let t = stacked symbols (informed symbols s) in
    set_reg Reg.a0 symbols.boot_info (record t { words = update t.words p symbols.boot_info })

run-stack_code :
    (symbols : Symbols) (p v : ℕ) (s : Machine)
    → add64 (add64 symbols.kernel_stack_top (negative 8)) 0 ≡ p
    → p % 8 ≡ 0
    → s.words p ≡ some v
    → run (stack_code symbols) s
      ≡ done (
          let t = stacked symbols s in
          set_reg Reg.a0 (s.regs Reg.a0) (record t { words = update t.words p (s.regs Reg.a0) }))
unfolding run step stack_code
run-stack_code symbols p v s e z w =
    let aligned : (p % 8 == 0) ≡ true = ground arith in
    let self : (p == p) ≡ true = ground arith in rw (e, aligned, w, e, aligned, self) refl

run-enter_code :
    (symbols : Symbols) (p v : ℕ) (s : Machine)
    → IsFrame s.words symbols.boot_info 32
    → add64 (add64 symbols.kernel_stack_top (negative 8)) 0 ≡ p
    → p % 8 ≡ 0
    → (informed symbols s).words p ≡ some v
    → run (enter_code symbols) s ≡ done (entered symbols p s)
unfolding run step stack_code
run-enter_code symbols p v s f e z w =
    run-stores 32 Reg.a0 symbols.boot_info info_stores (stack_code symbols) (filled symbols s) refl
      refl f
    ∙ run-stack_code symbols p v (informed symbols s) e z w

-- How `srv_arch_Init` is called.
pub record Calls (symbols : Symbols) (links : Links) (s : Machine) (r : Outcome Entered)
    : Type 0 where
  pub out : Machine
  pub returned : r ≡ done (calls_init out)
  pub argument : out.regs Reg.a0 ≡ symbols.boot_info
  pub information : WordsAt out.words symbols.boot_info (info_words symbols (s.regs Reg.a1))
  pub stack : out.regs Reg.sp + 8 ≡ symbols.kernel_stack_top
  pub number : out.regs Reg.tp ≡ 0
  pub back : out.regs Reg.ra ≡ links.init
  pub csrs : out.csrs ≡ write_to s.csrs Reg.satp (satp_of symbols)

informed-WordsAt :
    (symbols : Symbols) (s : Machine)
    → WordsAt (informed symbols s).words symbols.boot_info (info_words symbols (s.regs Reg.t6))
informed-WordsAt symbols s =
    let base : symbols.boot_info + 0 ≡ symbols.boot_info = omega arith in
    subst (λ q. WordsAt (informed symbols s).words q (info_words symbols (s.regs Reg.t6))) base
      (put_all-WordsAt symbols.boot_info 0 (info_words symbols (s.regs Reg.t6))
        (values (filled symbols s).regs info_stores) s.words refl)

-- The parts of `_start` on hart 0, put together.
start_steps :
    (view : ℕ → Memory → Memory) (symbols : Symbols) (links : Links) (s s2 s3 : Machine)
    → s.regs Reg.a0 ≡ 0
    → start_paging symbols links (set_reg Reg.tp (s.regs Reg.a0) (set_reg Reg.t0 0 s)) ≡ done s2
    → run (enter_code symbols) (record s2 { words = view (s2.csrs Reg.satp) s2.words }) ≡ done s3
    → start view symbols links s ≡ done (calls_init (set_reg Reg.ra links.init s3))
unfolding start run step
start_steps view symbols links s s2 s3 z a b =
    let hart : (s.regs Reg.a0 == 0) ≡ true = ground arith in rw (hart, a, b) refl

-- On hart 0, with the symbols where the linker script puts them, clear tables and a view of the memory
-- that translates as Sv39 does: `_start` calls `srv_arch_Init` with the address of the boot
-- information, which is seen there complete, with the device tree that the firmware gave in `a1`. The
-- stack pointer lies 8 below the top of the stack, `tp` is 0, `satp` points to the root table in the
-- mode of Sv39, and the other control registers are as the firmware left them.
pub start-Calls :
    (view : ℕ → Memory → Memory) (symbols : Symbols) (links : Links) (offset : ℕ) (s : Machine)
    → Translates view
    → CanEnter symbols offset s.words
    → s.regs Reg.a0 ≡ 0
    → Calls symbols links s (start view symbols links s)
start-Calls view symbols links offset s t c hart =
    let s1 = set_reg Reg.tp (s.regs Reg.a0) (set_reg Reg.t0 0 s) in
    let paging = start_paging-Paged symbols links s1 c.can_page in
    let s2 = paging.out in
    let satp : s2.csrs Reg.satp ≡ satp_of symbols = ap (λ f. f Reg.satp) paging.csrs in
    let view_eq : view (s2.csrs Reg.satp) s2.words ≡ seen view t symbols offset s.words c =
      ap₂ view satp paging.words in
    let g = c.info_first in
    let top = c.stack_top in
    let fits = c.stack_fits in
    let z = c.stack_aligned in
    let p = 0xFFFFFFFF80000000 + offset in
    let s2' = record s2 { words = view (s2.csrs Reg.satp) s2.words } in
    let frame : IsFrame s2'.words symbols.boot_info 32 =
      rw view_eq (info_IsFrame view t symbols offset s.words c) in
    let (v, e) = stack_seen view t symbols offset s.words c in
    let at_p : (informed symbols s2').words p ≡ some v =
      put_all-outside 32 symbols.boot_info p (filled symbols s2').regs info_stores s2'.words refl
        (inr (omega arith))
      ∙ rw view_eq e in
    record {
      out = set_reg Reg.ra links.init (entered symbols p s2');
      returned =
          start_steps view symbols links s s2 (entered symbols p s2') hart paging.returns
            (run-enter_code symbols p v s2' frame (omega arith) (omega arith) at_p);
      argument = refl;
      information =
          subst
            (λ x. WordsAt (entered symbols p s2').words symbols.boot_info (info_words symbols x))
            paging.t6
            (WordsAt-update (info_words symbols (s2'.regs Reg.t6)) (informed symbols s2').words
              symbols.boot_info p symbols.boot_info (inr (omega arith))
              (informed-WordsAt symbols s2'));
      stack = omega arith;
      number = paging.tp ∙ hart;
      back = refl;
      csrs = paging.csrs;
    }

-- Every other hart goes to its loop, having written `t0` and `tp` only.
pub start_parks :
    (view : ℕ → Memory → Memory) (symbols : Symbols) (links : Links) (s : Machine)
    → (s.regs Reg.a0 == 0) ≡ false
    → start view symbols links s
      ≡ done (parked (set_reg Reg.tp (s.regs Reg.a0) (set_reg Reg.t0 0 s)))
unfolding start run step
start_parks view symbols links s e = rw e refl
