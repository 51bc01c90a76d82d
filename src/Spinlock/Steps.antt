-- ===== src/Spinlock/Steps.antt =====
-- `spinlock_Acquire` and `spinlock_Release` (kernel/lock/spinlock.c) one memory access at a time, on
-- processors that interleave in any order. Accesses take effect in the order of the program.
use sysrv.Prelude.{ℕ, ◌<◌, ◌≡◌, ◌≢◌, Bool, true, false, ◌==◌, if◌then◌else◌}
use sysrv.Spinlock.{Spinlock, no_cpu, init_anonymous}

-- Where a processor stands.
pub data Pc : Type 0 where
  idle : Pc  -- outside both functions, without the lock
  spinning : Pc  -- the `while` of `spinlock_Acquire`
  owning : Pc  -- behind the `while`, before the write of `cpu`
  critical : Pc  -- between the two functions, with the lock
  checking : (held : Bool) → Pc  -- before the test of `spinlock_Release`
  clearing : Pc  -- before the flag is cleared
  disowning : Pc  -- before the write of -1
  panicked : Pc  -- in `srv_KernelPanic`

-- One step of processor `i`. With `misuse` a processor may also call `spinlock_Release` while it
-- does not have the lock.
pub data Move (misuse : Bool) (i : ℕ) (s : Spinlock) : Pc → Spinlock → Pc → Type 0 where
  enter : Move misuse i s idle s spinning
  spin : s.lock ≡ true → Move misuse i s spinning s spinning
  win : s.lock ≡ false → Move misuse i s spinning (record s { lock = true }) owning
  own : Move misuse i s owning (record s { cpu = i }) critical
  leave : Move misuse i s critical s (checking true)
  misused : misuse ≡ true → Move misuse i s idle s (checking false)
  pass : {held : Bool} → i ≡ s.cpu → Move misuse i s (checking held) s clearing
  fail : {held : Bool} → i ≢ s.cpu → Move misuse i s (checking held) s panicked
  clear : Move misuse i s clearing (record s { lock = false }) disowning
  disown : Move misuse i s disowning (record s { cpu = no_cpu }) idle

abbrev pub update : (ℕ → Pc) → ℕ → Pc → ℕ → Pc
update pc i p j = if i == j then p else pc j

-- One lock and the processors that use it.
pub record System : Type 0 where
  pub spinlock : Spinlock
  pub pc : ℕ → Pc

pub data Step (misuse : Bool) (n : ℕ) (s : System) : System → Type 0 where
  pick :
      (i : ℕ) {l : Spinlock} {p : Pc}
      → i < n
      → Move misuse i s.spinlock (s.pc i) l p
      → Step misuse n s (record { spinlock = l; pc = update s.pc i p })

-- The lock after `spinlock_InitAnonymous`, with all processors outside.
abbrev pub start_from : Spinlock → System
start_from l = record { spinlock = init_anonymous l; pc = λ _. idle }

-- What can be reached from `s`.
pub data Reach (misuse : Bool) (n : ℕ) (s : System) : System → Type 0 where
  here : Reach misuse n s s
  next : {t u : System} → Reach misuse n s t → Step misuse n t u → Reach misuse n s u
