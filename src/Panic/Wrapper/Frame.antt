-- ===== src/Panic/Wrapper/Frame.antt =====
-- What `panic` of kernel/arch/rv64/panic.s writes.
use sysrv.Prelude.{
  ℕ, ◌+◌, ◌*◌, ◌%◌, ◌≤◌, ◌<◌, ◌^◌, ◌≡◌, ◌⊎◌, refl, subst, ◌∙◌, true, List, [], ◌∷◌, some, Outcome,
  done, length, ◌==◌, arith,
}
use sysrv.Word.{add64}
use sysrv.Memory.{Memory}
use sysrv.Rv64.{Instr, li, ld, Machine, set_reg, step, run}
use sysrv.Rv64.Reg
use sysrv.Rv64.Stores.{
  values, put_all, put_all-WordsAt, put_all-outside, run-stores, IsFrame, WordsAt,
}
use sysrv.Panic.Wrapper.{store_code, copy_code, panic_entry}
use sysrv.Panic.Wrapper.Copies.{run-copies}

abbrev panic_stores : List (ℕ × ℕ)
panic_stores =
    (Reg.ra, 0)
    ∷ (Reg.sp, 8)
    ∷ (Reg.gp, 16)
    ∷ (Reg.tp, 24)
    ∷ (Reg.t0, 32)
    ∷ (Reg.t1, 40)
    ∷ (Reg.t2, 48)
    ∷ (Reg.s0, 56)
    ∷ (Reg.s1, 64)
    ∷ (Reg.a0, 72)
    ∷ (Reg.a1, 80)
    ∷ (Reg.a2, 88)
    ∷ (Reg.a3, 96)
    ∷ (Reg.a4, 104)
    ∷ (Reg.a5, 112)
    ∷ (Reg.a6, 120)
    ∷ (Reg.a7, 128)
    ∷ (Reg.s2, 136)
    ∷ (Reg.s3, 144)
    ∷ (Reg.s4, 152)
    ∷ (Reg.s5, 160)
    ∷ (Reg.s6, 168)
    ∷ (Reg.s7, 176)
    ∷ (Reg.s8, 184)
    ∷ (Reg.s9, 192)
    ∷ (Reg.s10, 200)
    ∷ (Reg.s11, 208)
    ∷ (Reg.t3, 216)
    ∷ (Reg.t4, 224)
    ∷ (Reg.t5, 232)
    ∷ (Reg.t6, 240)
    ∷ []

-- The general registers but `zero`, in the order of their numbers.
abbrev pub general : Machine → List ℕ
general s =
    s.regs Reg.ra
    ∷ s.regs Reg.sp
    ∷ s.regs Reg.gp
    ∷ s.regs Reg.tp
    ∷ s.regs Reg.t0
    ∷ s.regs Reg.t1
    ∷ s.regs Reg.t2
    ∷ s.regs Reg.s0
    ∷ s.regs Reg.s1
    ∷ s.regs Reg.a0
    ∷ s.regs Reg.a1
    ∷ s.regs Reg.a2
    ∷ s.regs Reg.a3
    ∷ s.regs Reg.a4
    ∷ s.regs Reg.a5
    ∷ s.regs Reg.a6
    ∷ s.regs Reg.a7
    ∷ s.regs Reg.s2
    ∷ s.regs Reg.s3
    ∷ s.regs Reg.s4
    ∷ s.regs Reg.s5
    ∷ s.regs Reg.s6
    ∷ s.regs Reg.s7
    ∷ s.regs Reg.s8
    ∷ s.regs Reg.s9
    ∷ s.regs Reg.s10
    ∷ s.regs Reg.s11
    ∷ s.regs Reg.t3
    ∷ s.regs Reg.t4
    ∷ s.regs Reg.t5
    ∷ s.regs Reg.t6
    ∷ []

run-store_code :
    (p : ℕ) (s : Machine)
    → s.regs Reg.sp ≡ p
    → IsFrame s.words p 248
    → run store_code s ≡ done (record s { words = put_all p (values s.regs panic_stores) s.words })
unfolding run
run-store_code p s e f = run-stores 248 Reg.sp p panic_stores [] s e refl f

store_code-WordsAt :
    (p : ℕ) (s : Machine) → WordsAt (put_all p (values s.regs panic_stores) s.words) p (general s)
store_code-WordsAt p s =
    let base : p + 0 ≡ p = omega arith in
    subst (λ q. WordsAt (put_all p (values s.regs panic_stores) s.words) q (general s)) base
      (put_all-WordsAt p 0 (general s) (values s.regs panic_stores) s.words refl)

WordsAt-same :
    (ws : List ℕ) (m m' : Memory) (p : ℕ)
    → ((a : ℕ) → p ≤ a → a < p + 8 * length ws → m' a ≡ m a)
    → WordsAt m p ws
    → WordsAt m' p ws
WordsAt-same [] m m' p h w = tt
WordsAt-same (x ∷ ws) m m' p h (e, w) = (
  h p (omega arith) (omega arith) ∙ e,
  WordsAt-same ws m m' (p + 8) (λ a l u. h a (omega arith) (omega arith)) w,
)

cause_word :
    (m : Memory) (p : ℕ) (s : Machine) → WordsAt m p (general s) → m (p + 72) ≡ some (s.regs Reg.a0)
cause_word m p s w =
    let nine : p + 8 + 8 + 8 + 8 + 8 + 8 + 8 + 8 + 8 ≡ p + 72 = omega arith in
    subst (λ a. m a ≡ some (s.regs Reg.a0)) nine w.1.1.1.1.1.1.1.1.1.0

apart-IsFrame :
    (q p : ℕ) (s : Machine)
    → IsFrame s.words q 248
    → (p + 248 ≤ q) ⊎ (q + 248 ≤ p)
    → IsFrame (put_all p (values s.regs panic_stores) s.words) q 248
apart-IsFrame q p s g apart = record {
  aligned = g.aligned;
  fits = g.fits;
  mapped = λ o l z.
      let (v, e) = g.mapped o l z in
      (v, put_all-outside 248 p (q + o) s.regs panic_stores s.words refl (ground arith) ∙ e);
}

run-li :
    (r v : ℕ) (code : List Instr) (s : Machine) → run (li r v ∷ code) s ≡ run code (set_reg r v s)
unfolding run step
run-li r v code s = refl

run-ld :
    (r o b a v : ℕ) (s : Machine)
    → add64 (s.regs b) o ≡ a
    → (a % 8 == 0) ≡ true
    → s.words a ≡ some v
    → run (ld r o b ∷ []) s ≡ done (set_reg r v s)
unfolding run step
run-ld r o b a v s e z w = rw (e, z, w) refl

entry_steps :
    (panic_frame here p : ℕ) (s s1 s2 : Machine)
    → run store_code s ≡ done s1
    → run copy_code (set_reg Reg.t6 panic_frame s1) ≡ done s2
    → s2.regs Reg.sp ≡ p
    → p % 8 ≡ 0
    → p + 248 ≤ 2 ^ 64
    → s2.words (p + 72) ≡ some (s.regs Reg.a0)
    → panic_entry panic_frame here s
      ≡ done (set_reg Reg.ra here (set_reg Reg.a0 (s.regs Reg.a0) s2))
unfolding panic_entry
entry_steps panic_frame here p s s1 s2 a b e z l w =
    let at : add64 (s2.regs Reg.sp) 72 ≡ p + 72 = omega (arith, e) in
    let aligned : ((p + 72) % 8 == 0) ≡ true = ground arith in
    rw
      (
        a,
        run-li Reg.t6 panic_frame copy_code s1,
        b,
        run-ld Reg.a0 72 Reg.sp (p + 72) (s.regs Reg.a0) s2 at aligned w,
      )
      refl

-- What `srv_KernelPanic` is called with, and what has been written.
pub record Framed (panic_frame p : ℕ) (s : Machine) (r : Outcome Machine) : Type 0 where
  pub out : Machine
  pub returns : r ≡ done out
  pub cause : out.regs Reg.a0 ≡ s.regs Reg.a0
  pub frame : WordsAt out.words panic_frame (general s)
  pub stack : WordsAt out.words p (general s)

-- Where the stack pointer and `panic_frame` are multiples of 8 and 248 bytes at each, apart from each
-- other, can be read and written: `panic` comes to its call with the cause in `a0` and the registers 1
-- to 31 in `panic_frame`, and the 31 words that stood on the stack of the caller, from the stack
-- pointer up, are overwritten with these registers.
pub panic_entry-Framed :
    (panic_frame p here : ℕ) (s : Machine)
    → s.regs Reg.sp ≡ p
    → IsFrame s.words p 248
    → IsFrame s.words panic_frame 248
    → (p + 248 ≤ panic_frame) ⊎ (panic_frame + 248 ≤ p)
    → Framed panic_frame p s (panic_entry panic_frame here s)
panic_entry-Framed panic_frame p here s e f g apart =
    let saved = record s { words = put_all p (values s.regs panic_stores) s.words } in
    let w = store_code-WordsAt p s in
    let base : p ≡ p + 0 * 8 = omega arith in
    let c =
      run-copies p panic_frame 248 0 (general s) (set_reg Reg.t6 panic_frame saved) e refl f.aligned
        f.fits (apart-IsFrame panic_frame p s g apart) apart (omega arith)
        (subst (λ q. WordsAt saved.words q (general s)) base w) in
    let zero_off : panic_frame + 0 * 8 ≡ panic_frame = omega arith in
    let stack =
      WordsAt-same (general s) saved.words c.out.words p (λ a l u. c.outside a (ground arith)) w in
    record {
      out = set_reg Reg.ra here (set_reg Reg.a0 (s.regs Reg.a0) c.out);
      returns =
          entry_steps panic_frame here p s saved c.out (run-store_code p s e f) c.returns
            (c.regs Reg.sp refl ∙ e) f.aligned f.fits (cause_word c.out.words p s stack);
      cause = refl;
      frame = subst (λ q. WordsAt c.out.words q (general s)) zero_off c.target;
      stack = stack;
    }
