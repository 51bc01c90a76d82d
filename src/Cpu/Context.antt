-- ===== src/Cpu/Context.antt =====
-- The saved registers of the processors (hal/rv64/cpu.c).
use sysrv.Prelude.{
  ℕ, zero, suc, [], ◌∷◌, ◌<◌, ◌≡◌, ◌≢◌, refl, ap, List, done, expect, get_elem?, set, length,
  length-set, get_elem?-set_self, get_elem?-set_ne, some, arith,
}
use sysrv.Cpu.{CpuContext, Cpus, get_current_context_struct, copy_context, save_context}

get_elem?-some {ℓ} :
    {A : Type ℓ} (xs : List A) (i : ℕ) → i < length xs → (a : A) × (get_elem? xs i ≡ some a)
get_elem?-some [] i h = elim h [ ]
get_elem?-some (x ∷ xs) zero h = (x, refl)
get_elem?-some (x ∷ xs) (suc i) h = get_elem?-some xs i (omega arith)

copy_context_lem : (context : CpuContext) → copy_context context ≡ context
unfolding copy_context
copy_context_lem context = refl

-- Saving the registers of a processor within the array succeeds; the processor's entry is then
-- exactly what was saved, in all 36 registers, and that of any other processor is as before.
save_context-get :
    (cpu_num other : ℕ) (context : CpuContext) (cpus : Cpus)
    → cpu_num < length cpus
    → cpu_num ≢ other
    → (after : Cpus) × (save_context cpu_num context cpus ≡ done after)
      × (length after ≡ length cpus)
      × (get_current_context_struct cpu_num after ≡ done context)
      × (get_current_context_struct other after ≡ get_current_context_struct other cpus)
unfolding save_context get_current_context_struct
save_context-get cpu_num other context cpus h apart =
    let (old, e) = get_elem?-some cpus cpu_num h in
    (
      set cpus cpu_num context,
      rw (e, copy_context_lem context) refl,
      length-set cpus cpu_num context,
      ap expect (get_elem?-set_self cpus cpu_num context h),
      ap expect (get_elem?-set_ne cpus context apart),
    )
