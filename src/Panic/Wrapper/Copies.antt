-- ===== src/Panic/Wrapper/Copies.antt =====
-- The copy of the saved registers into `panic_frame` (kernel/arch/rv64/panic.s).
use sysrv.Prelude.{
  ℕ, zero, suc, ◌+◌, ◌*◌, ◌%◌, ◌≤◌, ◌<◌, ◌^◌, ◌≡◌, ◌⊎◌, inl, refl, subst, ◌∙◌, true, false, List,
  [], ◌∷◌, some, Outcome, done, length, ◌==◌, arith,
}
use sysrv.Word.{add64}
use sysrv.Memory.{update}
use sysrv.Rv64.{Instr, sd, ld, Machine, set_reg, step, run}
use sysrv.Rv64.Reg
use sysrv.Rv64.Stores.{IsFrame, IsFrame-update, WordsAt, WordsAt-update}

-- `count` words are copied, from that with the number `i` on.
abbrev pub copies : ℕ → ℕ → List Instr
copies zero i = []
copies (suc count) i = ld Reg.t0 (i * 8) Reg.sp ∷ sd Reg.t0 (i * 8) Reg.t6 ∷ copies count (suc i)

-- What is left to copy stands at the end of the two blocks, and was copied.
pub record Copied (p q i : ℕ) (ws : List ℕ) (s : Machine) (r : Outcome Machine) : Type 0 where
  pub out : Machine
  pub returns : r ≡ done out
  pub target : WordsAt out.words (q + i * 8) ws
  pub outside : (a : ℕ) → (a < q + i * 8) ⊎ (q + (i + length ws) * 8 ≤ a) → out.words a ≡ s.words a
  pub regs : (r : ℕ) → (r == Reg.t0) ≡ false → out.regs r ≡ s.regs r
  pub csrs : out.csrs ≡ s.csrs

run-copy :
    (a b o x old : ℕ) (code : List Instr) (s : Machine)
    → add64 (s.regs Reg.sp) o ≡ a
    → add64 (s.regs Reg.t6) o ≡ b
    → (a % 8 == 0) ≡ true
    → (b % 8 == 0) ≡ true
    → s.words a ≡ some x
    → s.words b ≡ some old
    → run (ld Reg.t0 o Reg.sp ∷ sd Reg.t0 o Reg.t6 ∷ code) s
      ≡ run code (record (set_reg Reg.t0 x s) { words = update s.words b x })
unfolding run step
run-copy a b o x old code s ea eb za zb wa wb = rw (ea, za, wa, eb, zb, wb) refl

pub run-copies :
    (p q size i : ℕ) (ws : List ℕ) (s : Machine)
    → s.regs Reg.sp ≡ p
    → s.regs Reg.t6 ≡ q
    → p % 8 ≡ 0
    → p + size ≤ 2 ^ 64
    → IsFrame s.words q size
    → (p + size ≤ q) ⊎ (q + size ≤ p)
    → (i + length ws) * 8 ≤ size
    → WordsAt s.words (p + i * 8) ws
    → Copied p q i ws s (run (copies (length ws) i) s)
unfolding run
run-copies p q size i [] s e2 e6 z l f apart h w = record {
  out = s;
  returns = refl;
  target = tt;
  outside = λ a o. refl;
  regs = λ r d. refl;
  csrs = refl;
}
run-copies p q size i (x ∷ ws) s e2 e6 z l f apart h (e, w) =
    let qz = f.aligned in
    let ql = f.fits in
    let from : add64 (s.regs Reg.sp) (i * 8) ≡ p + i * 8 = omega (arith, e2) in
    let to : add64 (s.regs Reg.t6) (i * 8) ≡ q + i * 8 = omega (arith, e6) in
    let from_word : ((p + i * 8) % 8 == 0) ≡ true = ground arith in
    let to_word : ((q + i * 8) % 8 == 0) ≡ true = ground arith in
    let (old, at) = f.mapped (i * 8) (omega arith) (omega arith) in
    let s' = record (set_reg Reg.t0 x s) { words = update s.words (q + i * 8) x } in
    let next : p + i * 8 + 8 ≡ p + suc i * 8 = omega arith in
    let w' : WordsAt s'.words (p + suc i * 8) ws =
      WordsAt-update ws s.words (p + suc i * 8) (q + i * 8) x (ground arith)
        (subst (λ a. WordsAt s.words a ws) next w) in
    let rest =
      run-copies p q size (suc i) ws s' e2 e6 z l (IsFrame-update s.words q size (i * 8) x f) apart
        (omega arith) w' in
    let self : (q + i * 8 == q + i * 8) ≡ true = ground arith in
    let target_next : q + suc i * 8 ≡ q + i * 8 + 8 = omega arith in
    record {
      out = rest.out;
      returns =
          run-copy (p + i * 8) (q + i * 8) (i * 8) x old (copies (length ws) (suc i)) s from to
            from_word to_word e at
          ∙ rest.returns;
      target = (
        rest.outside (q + i * 8) (inl (omega arith)) ∙ rw self refl,
        subst (λ a. WordsAt rest.out.words a ws) target_next rest.target,
      );
      outside = λ a o.
          let ne : (a == q + i * 8) ≡ false = ground arith in
          rest.outside a (ground arith) ∙ rw ne refl;
      regs = λ r d. rest.regs r d ∙ rw d refl;
      csrs = rest.csrs;
    }
