-- ===== src/Panic/Wrapper.antt =====
-- kernel/arch/rv64/panic.s: `panic`, the wrapper of `srv_KernelPanic` for the assembly.
pub mod Copies
pub mod Frame
use sysrv.Prelude.{
  ℕ, zero, suc, ◌+◌, ◌*◌, ◌%◌, ◌≤◌, ◌<◌, ◌^◌, ◌≡◌, ◌⊎◌, inl, inr, refl, sym, subst, ◌∙◌, true,
  false, List, [], ◌∷◌, ◌++◌, some, Outcome, done, ◌>>=◌, length, ◌==◌, if◌then◌else◌, arith,
}
use sysrv.Word.{add64}
use sysrv.Memory.{Memory, update}
use sysrv.Rv64.{Instr, li, sd, ld, Machine, set_reg, step, run}
use sysrv.Rv64.Reg
use sysrv.Rv64.Stores.{
  stores, values, put_all, put_all-WordsAt, put_all-outside, run-append, run-stores, IsFrame,
  IsFrame-update, IsFrame-put_all, WordsAt, WordsAt-update,
}

-- The stores to the stack of the caller.
abbrev pub store_code : List Instr
store_code =
    sd Reg.ra 0 Reg.sp
    ∷ sd Reg.sp 8 Reg.sp
    ∷ sd Reg.gp 16 Reg.sp
    ∷ sd Reg.tp 24 Reg.sp
    ∷ sd Reg.t0 32 Reg.sp
    ∷ sd Reg.t1 40 Reg.sp
    ∷ sd Reg.t2 48 Reg.sp
    ∷ sd Reg.s0 56 Reg.sp
    ∷ sd Reg.s1 64 Reg.sp
    ∷ sd Reg.a0 72 Reg.sp
    ∷ sd Reg.a1 80 Reg.sp
    ∷ sd Reg.a2 88 Reg.sp
    ∷ sd Reg.a3 96 Reg.sp
    ∷ sd Reg.a4 104 Reg.sp
    ∷ sd Reg.a5 112 Reg.sp
    ∷ sd Reg.a6 120 Reg.sp
    ∷ sd Reg.a7 128 Reg.sp
    ∷ sd Reg.s2 136 Reg.sp
    ∷ sd Reg.s3 144 Reg.sp
    ∷ sd Reg.s4 152 Reg.sp
    ∷ sd Reg.s5 160 Reg.sp
    ∷ sd Reg.s6 168 Reg.sp
    ∷ sd Reg.s7 176 Reg.sp
    ∷ sd Reg.s8 184 Reg.sp
    ∷ sd Reg.s9 192 Reg.sp
    ∷ sd Reg.s10 200 Reg.sp
    ∷ sd Reg.s11 208 Reg.sp
    ∷ sd Reg.t3 216 Reg.sp
    ∷ sd Reg.t4 224 Reg.sp
    ∷ sd Reg.t5 232 Reg.sp
    ∷ sd Reg.t6 240 Reg.sp
    ∷ []

-- The copy into `panic_frame`, whose address is in `t6`.
abbrev pub copy_code : List Instr
copy_code =
    ld Reg.t0 0 Reg.sp
    ∷ sd Reg.t0 0 Reg.t6
    ∷ ld Reg.t0 8 Reg.sp
    ∷ sd Reg.t0 8 Reg.t6
    ∷ ld Reg.t0 16 Reg.sp
    ∷ sd Reg.t0 16 Reg.t6
    ∷ ld Reg.t0 24 Reg.sp
    ∷ sd Reg.t0 24 Reg.t6
    ∷ ld Reg.t0 32 Reg.sp
    ∷ sd Reg.t0 32 Reg.t6
    ∷ ld Reg.t0 40 Reg.sp
    ∷ sd Reg.t0 40 Reg.t6
    ∷ ld Reg.t0 48 Reg.sp
    ∷ sd Reg.t0 48 Reg.t6
    ∷ ld Reg.t0 56 Reg.sp
    ∷ sd Reg.t0 56 Reg.t6
    ∷ ld Reg.t0 64 Reg.sp
    ∷ sd Reg.t0 64 Reg.t6
    ∷ ld Reg.t0 72 Reg.sp
    ∷ sd Reg.t0 72 Reg.t6
    ∷ ld Reg.t0 80 Reg.sp
    ∷ sd Reg.t0 80 Reg.t6
    ∷ ld Reg.t0 88 Reg.sp
    ∷ sd Reg.t0 88 Reg.t6
    ∷ ld Reg.t0 96 Reg.sp
    ∷ sd Reg.t0 96 Reg.t6
    ∷ ld Reg.t0 104 Reg.sp
    ∷ sd Reg.t0 104 Reg.t6
    ∷ ld Reg.t0 112 Reg.sp
    ∷ sd Reg.t0 112 Reg.t6
    ∷ ld Reg.t0 120 Reg.sp
    ∷ sd Reg.t0 120 Reg.t6
    ∷ ld Reg.t0 128 Reg.sp
    ∷ sd Reg.t0 128 Reg.t6
    ∷ ld Reg.t0 136 Reg.sp
    ∷ sd Reg.t0 136 Reg.t6
    ∷ ld Reg.t0 144 Reg.sp
    ∷ sd Reg.t0 144 Reg.t6
    ∷ ld Reg.t0 152 Reg.sp
    ∷ sd Reg.t0 152 Reg.t6
    ∷ ld Reg.t0 160 Reg.sp
    ∷ sd Reg.t0 160 Reg.t6
    ∷ ld Reg.t0 168 Reg.sp
    ∷ sd Reg.t0 168 Reg.t6
    ∷ ld Reg.t0 176 Reg.sp
    ∷ sd Reg.t0 176 Reg.t6
    ∷ ld Reg.t0 184 Reg.sp
    ∷ sd Reg.t0 184 Reg.t6
    ∷ ld Reg.t0 192 Reg.sp
    ∷ sd Reg.t0 192 Reg.t6
    ∷ ld Reg.t0 200 Reg.sp
    ∷ sd Reg.t0 200 Reg.t6
    ∷ ld Reg.t0 208 Reg.sp
    ∷ sd Reg.t0 208 Reg.t6
    ∷ ld Reg.t0 216 Reg.sp
    ∷ sd Reg.t0 216 Reg.t6
    ∷ ld Reg.t0 224 Reg.sp
    ∷ sd Reg.t0 224 Reg.t6
    ∷ ld Reg.t0 232 Reg.sp
    ∷ sd Reg.t0 232 Reg.t6
    ∷ ld Reg.t0 240 Reg.sp
    ∷ sd Reg.t0 240 Reg.t6
    ∷ []

-- `panic` up to the call of `srv_KernelPanic`, which returns to `here`.
unfoldable pub panic_entry : ℕ → ℕ → Machine → Outcome Machine
panic_entry panic_frame here s = do
  s1 ← run store_code s
  s2 ← run (li Reg.t6 panic_frame ∷ copy_code) s1
  s3 ← run (ld Reg.a0 72 Reg.sp ∷ []) s2
  done (set_reg Reg.ra here s3)
