-- ===== src/Trap/Frame.antt =====
-- The frame that a trap fills on the stack (hal/rv64/context.s).
use sysrv.Prelude.{
  ℕ, ◌+◌, ◌%◌, ◌<◌, ◌^◌, ◌≡◌, refl, sym, subst, ◌∙◌, true, List, [], ◌∷◌, ◌++◌, done, length, ◌==◌,
  arith,
}
use sysrv.Word.{add64}
use sysrv.Memory.{Memory}
use sysrv.Cpu.{CpuContext}
use sysrv.Rv64.{Instr, addi, mv, csrr, Machine, set_reg, step, run}
use sysrv.Rv64.Reg
use sysrv.Rv64.Stores.{
  stores, values, put_all, put_all-append, IsFrame, IsFrame-put_all, run-stores, WordsAt,
  put_all-WordsAt,
}
use sysrv.Trap.{negative, save_code, load_words, context_at}

-- The registers and control registers of a processor.
abbrev pub context_in : Machine → CpuContext
context_in s = record {
  x0 = s.regs Reg.zero;
  ra = s.regs Reg.ra;
  sp = s.regs Reg.sp;
  gp = s.regs Reg.gp;
  tp = s.regs Reg.tp;
  t0 = s.regs Reg.t0;
  t1 = s.regs Reg.t1;
  t2 = s.regs Reg.t2;
  s0 = s.regs Reg.s0;
  s1 = s.regs Reg.s1;
  a0 = s.regs Reg.a0;
  a1 = s.regs Reg.a1;
  a2 = s.regs Reg.a2;
  a3 = s.regs Reg.a3;
  a4 = s.regs Reg.a4;
  a5 = s.regs Reg.a5;
  a6 = s.regs Reg.a6;
  a7 = s.regs Reg.a7;
  s2 = s.regs Reg.s2;
  s3 = s.regs Reg.s3;
  s4 = s.regs Reg.s4;
  s5 = s.regs Reg.s5;
  s6 = s.regs Reg.s6;
  s7 = s.regs Reg.s7;
  s8 = s.regs Reg.s8;
  s9 = s.regs Reg.s9;
  s10 = s.regs Reg.s10;
  s11 = s.regs Reg.s11;
  t3 = s.regs Reg.t3;
  t4 = s.regs Reg.t4;
  t5 = s.regs Reg.t5;
  t6 = s.regs Reg.t6;
  sepc = s.csrs Reg.sepc;
  scause = s.csrs Reg.scause;
  stval = s.csrs Reg.stval;
  sstatus = s.csrs Reg.sstatus;
}

-- What is stored in the frame, in the order of the code, in three parts.
abbrev first_stores : List (ℕ × ℕ)
first_stores = (Reg.zero, 0) ∷ (Reg.ra, 8) ∷ (Reg.t0, 40) ∷ []

abbrev second_stores : List (ℕ × ℕ)
second_stores =
    (Reg.t0, 16)
    ∷ (Reg.gp, 24)
    ∷ (Reg.tp, 32)
    ∷ (Reg.t1, 48)
    ∷ (Reg.t2, 56)
    ∷ (Reg.s0, 64)
    ∷ (Reg.s1, 72)
    ∷ (Reg.a0, 80)
    ∷ (Reg.a1, 88)
    ∷ (Reg.a2, 96)
    ∷ (Reg.a3, 104)
    ∷ (Reg.a4, 112)
    ∷ (Reg.a5, 120)
    ∷ (Reg.a6, 128)
    ∷ (Reg.a7, 136)
    ∷ (Reg.s2, 144)
    ∷ (Reg.s3, 152)
    ∷ (Reg.s4, 160)
    ∷ (Reg.s5, 168)
    ∷ (Reg.s6, 176)
    ∷ (Reg.s7, 184)
    ∷ (Reg.s8, 192)
    ∷ (Reg.s9, 200)
    ∷ (Reg.s10, 208)
    ∷ (Reg.s11, 216)
    ∷ (Reg.t3, 224)
    ∷ (Reg.t4, 232)
    ∷ (Reg.t5, 240)
    ∷ (Reg.t6, 248)
    ∷ []

abbrev third_stores : List (ℕ × ℕ)
third_stores = (Reg.t0, 256) ∷ (Reg.t1, 264) ∷ (Reg.t2, 272) ∷ (Reg.t3, 280) ∷ []

-- The control registers, read into temporaries.
abbrev with_csrs : Machine → Machine
with_csrs s = set_reg Reg.t3 (s.csrs Reg.sstatus) (
    set_reg Reg.t2 (s.csrs Reg.stval)
      (set_reg Reg.t1 (s.csrs Reg.scause) (set_reg Reg.t0 (s.csrs Reg.sepc) s)))

pub load_words-WordsAt :
    (ws : List ℕ) (m : Memory) (p : ℕ)
    → p % 8 ≡ 0
    → WordsAt m p ws
    → load_words (length ws) m p ≡ done ws
unfolding load_words
load_words-WordsAt [] m p z w = refl
load_words-WordsAt (v ∷ ws) m p z (e, w) =
    let t : (p % 8 == 0) ≡ true = ground arith in
    rw (t, e, load_words-WordsAt ws m (p + 8) (omega arith) w) refl

-- The machine after each part of `save_code`, with its frame at `p`.
abbrev pub lowered : Machine → Machine
lowered s = set_reg Reg.sp (add64 (s.regs Reg.sp) (negative 288)) s

abbrev part1 : ℕ → Machine → Machine
part1 p s = record (lowered s) { words = put_all p (values (lowered s).regs first_stores) s.words }

abbrev with_sp : ℕ → Machine → Machine
with_sp p s = set_reg Reg.t0 (add64 ((part1 p s).regs Reg.sp) 288) (part1 p s)

abbrev part2 : ℕ → Machine → Machine
part2 p s = record (with_sp p s) {
  words = put_all p (values (with_sp p s).regs second_stores) (part1 p s).words;
}

abbrev part3 : ℕ → Machine → Machine
part3 p s = record (with_csrs (part2 p s)) {
  words = put_all p (values (with_csrs (part2 p s)).regs third_stores) (part2 p s).words;
}

abbrev pub entered : ℕ → Machine → Machine
entered p s = set_reg Reg.a0 ((part3 p s).regs Reg.sp) (part3 p s)

rest3 : List Instr
rest3 = mv Reg.a0 Reg.sp ∷ []

rest2 : List Instr
unfolding rest3
rest2 =
    csrr Reg.t0 Reg.sepc
    ∷ csrr Reg.t1 Reg.scause
    ∷ csrr Reg.t2 Reg.stval
    ∷ csrr Reg.t3 Reg.sstatus
    ∷ (stores Reg.sp third_stores ++ rest3)

rest1 : List Instr
unfolding rest2
rest1 = addi Reg.t0 Reg.sp 288 ∷ (stores Reg.sp second_stores ++ rest2)

pub lowered_sp :
    (p : ℕ) (s : Machine) → s.regs Reg.sp ≡ p + 288 → p + 288 < 2 ^ 64 → (lowered s).regs Reg.sp ≡ p
lowered_sp p s e h = omega (arith, e)

pub run-save_code :
    (p : ℕ) (s : Machine)
    → s.regs Reg.sp ≡ p + 288
    → p + 288 < 2 ^ 64
    → IsFrame s.words p 288
    → run save_code s ≡ done (entered p s)
unfolding run step rest1 rest2 rest3
run-save_code p s e h f =
    let at_p = lowered_sp p s e h in
    run-stores 288 Reg.sp p first_stores rest1 (lowered s) at_p refl f
    ∙ run-stores 288 Reg.sp p second_stores rest2 (with_sp p s) at_p refl
        (IsFrame-put_all p 288 (values (lowered s).regs first_stores) s.words f)
    ∙ run-stores 288 Reg.sp p third_stores rest3 (with_csrs (part2 p s)) at_p refl (
        IsFrame-put_all p 288 (values (with_sp p s).regs second_stores) (part1 p s).words
          (IsFrame-put_all p 288 (values (lowered s).regs first_stores) s.words f))

-- The words of the frame, with `v` as the stack pointer.
abbrev frame_words : ℕ → Machine → List ℕ
frame_words v s =
    s.regs Reg.zero
    ∷ s.regs Reg.ra
    ∷ v
    ∷ s.regs Reg.gp
    ∷ s.regs Reg.tp
    ∷ s.regs Reg.t0
    ∷ s.regs Reg.t1
    ∷ s.regs Reg.t2
    ∷ s.regs Reg.s0
    ∷ s.regs Reg.s1
    ∷ s.regs Reg.a0
    ∷ s.regs Reg.a1
    ∷ s.regs Reg.a2
    ∷ s.regs Reg.a3
    ∷ s.regs Reg.a4
    ∷ s.regs Reg.a5
    ∷ s.regs Reg.a6
    ∷ s.regs Reg.a7
    ∷ s.regs Reg.s2
    ∷ s.regs Reg.s3
    ∷ s.regs Reg.s4
    ∷ s.regs Reg.s5
    ∷ s.regs Reg.s6
    ∷ s.regs Reg.s7
    ∷ s.regs Reg.s8
    ∷ s.regs Reg.s9
    ∷ s.regs Reg.s10
    ∷ s.regs Reg.s11
    ∷ s.regs Reg.t3
    ∷ s.regs Reg.t4
    ∷ s.regs Reg.t5
    ∷ s.regs Reg.t6
    ∷ s.csrs Reg.sepc
    ∷ s.csrs Reg.scause
    ∷ s.csrs Reg.stval
    ∷ s.csrs Reg.sstatus
    ∷ []

abbrev all_values : ℕ → Machine → List (ℕ × ℕ)
all_values p s =
    values (lowered s).regs first_stores
    ++ (values (with_sp p s).regs second_stores ++ values (with_csrs (part2 p s)).regs third_stores)

entered-words : (p : ℕ) (s : Machine) → (entered p s).words ≡ put_all p (all_values p s) s.words
entered-words p s =
    let xs = values (lowered s).regs first_stores in
    let ys = values (with_sp p s).regs second_stores in
    let zs = values (with_csrs (part2 p s)).regs third_stores in
    sym (put_all-append p xs (ys ++ zs) s.words ∙ put_all-append p ys zs (put_all p xs s.words))

pub entered-WordsAt :
    (p : ℕ) (s : Machine)
    → s.regs Reg.sp ≡ p + 288
    → p + 288 < 2 ^ 64
    → WordsAt (entered p s).words p (frame_words (s.regs Reg.sp) s)
entered-WordsAt p s e h =
    let v = add64 (add64 (s.regs Reg.sp) (negative 288)) 288 in
    let same : v ≡ s.regs Reg.sp = omega (arith, e) in
    let zero_off : p + 0 ≡ p = omega arith in
    let w : WordsAt (put_all p (all_values p s) s.words) (p + 0) (frame_words v s) =
      put_all-WordsAt p 0 (frame_words v s) (all_values p s) s.words refl in
    subst (λ u. WordsAt (entered p s).words p (frame_words u s)) same
      (subst (λ m. WordsAt m p (frame_words v s)) (sym (entered-words p s))
        (subst (λ q. WordsAt (put_all p (all_values p s) s.words) q (frame_words v s)) zero_off w))

pub entered-context_in :
    (p : ℕ) (s : Machine)
    → s.regs Reg.sp ≡ p + 288
    → p + 288 < 2 ^ 64
    → p % 8 ≡ 0
    → context_at (entered p s).words p ≡ done (context_in s)
unfolding context_at
entered-context_in p s e h z =
    let r =
      load_words-WordsAt (frame_words (s.regs Reg.sp) s) (entered p s).words p z
        (entered-WordsAt p s e h) in
    rw r refl
