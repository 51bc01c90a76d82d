-- ===== src/Trap/Lost.antt =====
-- What a trap forgets (kernel/arch/rv64/trap.s): the `call` overwrites `ra` before anything is saved.
use sysrv.Prelude.{ℕ, ◌≡◌, refl, ap, inl, inr, Bool-cases, ◌==◌, fun_ext}
use sysrv.Cpu.{Cpus, Causes}
use sysrv.Rv64.{Machine, set_reg}
use sysrv.Rv64.Reg
use sysrv.Trap.{Compiled, Returns, trap_handler}

set_reg-twice : (r v w : ℕ) (s : Machine) → set_reg r v (set_reg r w s) ≡ set_reg r v s
set_reg-twice r v w s = elim (Bool-cases (r == 0)) [
  | inl e ↦ rw e refl
  | inr e ↦ rw e (
      ap (λ x. record s { regs = x })
        (fun_ext (λ q. elim (Bool-cases (q == r)) [ inl t ↦ rw t refl | inr t ↦ rw t refl ])))
]

-- A trap goes the same way, to the same saved registers, the same panic and the same machine, whatever
-- value `ra` had in the code that was interrupted: nothing that it leaves tells what that was.
pub trap_handler_forgets :
    (compiled : Compiled) (returns : Returns) (causes : Causes) (v : ℕ) (s : Machine) (cpus : Cpus)
    → trap_handler compiled returns causes (set_reg Reg.ra v s) cpus
      ≡ trap_handler compiled returns causes s cpus
unfolding trap_handler
trap_handler_forgets compiled returns causes v s cpus =
    rw (set_reg-twice Reg.ra returns.after_save v s) refl
