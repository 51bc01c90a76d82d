-- ===== src/Trap/Save.antt =====
-- What a trap saves (hal/rv64/context.s): the registers as they were.
use sysrv.Prelude.{
  ℕ, ◌+◌, ◌%◌, ◌<◌, ◌^◌, ◌≡◌, refl, sym, subst, ◌∙◌, true, false, Bool-cases, inl, inr, some,
  Outcome, done, get_elem?, set, ◌==◌, arith,
}
use sysrv.Word.{u32, add64}
use sysrv.Cpu.{CpuContext, Cpus, copy_context, save_context}
use sysrv.Rv64.{Machine, set_reg, step, run, is_saved, Abi}
use sysrv.Rv64.Reg
use sysrv.Rv64.Stores.{IsFrame}
use sysrv.Trap.{save_code, return_code, context_at, save_cpu_context}
use sysrv.Trap.Frame.{
  context_in, entered, lowered_sp, run-save_code, entered-WordsAt, entered-context_in,
}

-- A compiled function that, called with the stack pointer `p`, returns and keeps to the calling
-- convention.
abbrev pub Conforms : (Machine → Outcome Machine) → ℕ → Type 0
Conforms compiled p =
    (t : Machine) → t.regs Reg.sp ≡ p → (t' : Machine) × (compiled t ≡ done t') × Abi 288 t t'

entered-saved :
    (p here r : ℕ) (s : Machine)
    → is_saved r ≡ true
    → (r == 2) ≡ false
    → (set_reg Reg.ra here (entered p s)).regs r ≡ s.regs r
entered-saved p here r s saved e = ground arith

-- The way back: the return address is read from the frame, and the frame is given up.
run-return_code :
    (p v : ℕ) (s : Machine)
    → s.regs Reg.sp ≡ p
    → p % 8 ≡ 0
    → p + 288 < 2 ^ 64
    → s.words (p + 8) ≡ some v
    → run return_code s ≡ done (set_reg Reg.sp (p + 288) (set_reg Reg.ra v s))
unfolding run step
run-return_code p v s e z h w =
    let a : add64 (s.regs Reg.sp) 8 ≡ p + 8 = omega (arith, e) in
    let b : add64 (s.regs Reg.sp) 288 ≡ p + 288 = omega (arith, e) in
    let t : ((p + 8) % 8 == 0) ≡ true = ground arith in
    subst (λ q. run return_code s ≡ done (set_reg Reg.sp q (set_reg Reg.ra v s))) b
      (rw (a, t, w) refl)

returned-saved :
    (p q : ℕ) (s2 s : Machine)
    → s.regs Reg.sp ≡ p + 288
    → is_saved q ≡ true
    → ((q == 2) ≡ false → s2.regs q ≡ s.regs q)
    → (set_reg Reg.sp (p + 288) (set_reg Reg.ra (s.regs Reg.ra) s2)).regs q ≡ s.regs q
returned-saved p q s2 s e saved other = elim (Bool-cases (q == 2)) [
  | inl t ↦ let two : q ≡ 2 = ground arith in rw (t, two) (sym e)
  | inr t ↦ let not_ra : (q == 1) ≡ false = ground arith in rw (t, not_ra) (other t)
]

-- The steps of the function, put together.
save_steps :
    (compiled : Machine → Outcome Machine) (here : ℕ) (s s1 s2 s3 : Machine) (context : CpuContext)
    (cpus cpus' : Cpus)
    → run save_code s ≡ done s1
    → context_at s1.words (s1.regs Reg.a0) ≡ done context
    → save_context (u32 (s1.regs Reg.tp)) context cpus ≡ done cpus'
    → compiled (set_reg Reg.ra here s1) ≡ done s2
    → run return_code s2 ≡ done s3
    → save_cpu_context compiled here s cpus ≡ done (s3, cpus')
unfolding save_cpu_context
save_steps compiled here s s1 s2 s3 context cpus cpus' a b c d e = rw (a, b, c, d, e) refl

save_context-set :
    (n : ℕ) (context old : CpuContext) (cpus : Cpus)
    → get_elem? cpus n ≡ some old
    → save_context n context cpus ≡ done (set cpus n context)
unfolding save_context copy_context
save_context-set n context old cpus e = rw e refl

-- What the function leaves: the saved context in the array, and the return address and the registers
-- that the calling convention saves as they were.
pub record Saved (cpu_num : ℕ) (cpus : Cpus) (s : Machine) (r : Outcome (Machine × Cpus))
    : Type 0 where
  pub out : Machine
  pub returns : r ≡ done (out, set cpus cpu_num (context_in s))
  pub same_ra : out.regs Reg.ra ≡ s.regs Reg.ra
  pub same_saved : (r : ℕ) → is_saved r ≡ true → out.regs r ≡ s.regs r

-- Where the stack has 288 bytes at a multiple of 8 that can be written, the number of the processor in
-- `tp` lies within the array, and the compiled function that is called keeps to the calling convention:
-- `srv_hal_SaveCPUContext` returns, the entry of the processor holds every register and the four
-- control registers with the values that they had at its call, and `ra`, `sp`, `gp`, `tp` and `s0` to
-- `s11` have these values again.
pub save_cpu_context-Saved :
    (compiled : Machine → Outcome Machine) (here p : ℕ) (s : Machine) (cpus : Cpus)
    (old : CpuContext)
    → Conforms compiled p
    → s.regs Reg.sp ≡ p + 288
    → p + 288 < 2 ^ 64
    → IsFrame s.words p 288
    → get_elem? cpus (u32 (s.regs Reg.tp)) ≡ some old
    → Saved (u32 (s.regs Reg.tp)) cpus s (save_cpu_context compiled here s cpus)
save_cpu_context-Saved compiled here p s cpus old conforms e h f at_cpu =
    let at_p = lowered_sp p s e h in
    let called = set_reg Reg.ra here (entered p s) in
    let (s2, r, abi) = conforms called at_p in
    let sp2 : s2.regs Reg.sp ≡ p = abi.saved 2 refl ∙ at_p in
    let ra_at : (entered p s).words (p + 8) ≡ some (s.regs Reg.ra) =
      (entered-WordsAt p s e h).1.0 in
    let kept : s2.words (p + 8) ≡ some (s.regs Reg.ra) =
      abi.frame (p + 8) (omega (arith, at_p)) (omega (arith, at_p)) ∙ ra_at in
    record {
      out = set_reg Reg.sp (p + 288) (set_reg Reg.ra (s.regs Reg.ra) s2);
      returns =
          save_steps compiled here s (entered p s) s2
            (set_reg Reg.sp (p + 288) (set_reg Reg.ra (s.regs Reg.ra) s2)) (context_in s) cpus
            (set cpus (u32 (s.regs Reg.tp)) (context_in s)) (run-save_code p s e h f)
            (subst (λ q. context_at (entered p s).words q ≡ done (context_in s)) (sym at_p)
              (entered-context_in p s e h f.aligned))
            (save_context-set (u32 (s.regs Reg.tp)) (context_in s) old cpus at_cpu) r
            (run-return_code p (s.regs Reg.ra) s2 sp2 f.aligned h kept);
      same_ra = refl;
      same_saved = λ q saved.
          returned-saved p q s2 s e saved
            (λ other. abi.saved q saved ∙ entered-saved p here q s saved other);
    }
