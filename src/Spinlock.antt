-- ===== src/Spinlock.antt =====
-- kernel/lock/spinlock.c: a test-and-set lock that records its owner. The functions here run without
-- interruption; `Steps` has them one memory access at a time, for processors that interleave.
pub mod Steps
pub mod Safety
pub mod Race
pub mod Sequential
mod Tests
use sysrv.Prelude.{
  ℕ, zero, suc, ◌-◌, ◌^◌, Bool, true, false, Option, none, some, Outcome, done, panic, ◌==◌,
  if◌then◌else◌,
}

-- `spinlock_t`. `cpu` is an int32_t, kept as its bit pattern; `name` is a pointer, 0 for NULL.
pub record Spinlock : Type 0 where
  pub lock : Bool
  pub cpu : ℕ
  pub name : ℕ

-- The int32_t -1.
abbrev pub no_cpu : ℕ
no_cpu = 2 ^ 32 - 1

-- `spinlock_InitAnonymous`
unfoldable pub init_anonymous : Spinlock → Spinlock
init_anonymous s = record { lock = false; cpu = no_cpu; name = 0 }

-- `atomic_flag_test_and_set_explicit`: the old flag, and the flag set.
abbrev pub test_and_set : Spinlock → Bool × Spinlock
test_and_set s = (s.lock, record s { lock = true })

-- `spinlock_Acquire` on processor `cpu`, for at most `fuel` rounds of its loop; `none` means that it
-- is still spinning.
unfoldable pub acquire : ℕ → ℕ → Spinlock → Option Spinlock
acquire zero cpu s = none
acquire (suc fuel) cpu s =
    let (was_set, s') = test_and_set s in
    let again = acquire fuel cpu s' in if was_set then again else some (record s' { cpu = cpu })

-- `spinlock_Release` on processor `this_cpu`.
unfoldable pub release : ℕ → Spinlock → Outcome Spinlock
release this_cpu s =
    if this_cpu == s.cpu
    then done (record s { lock = false; cpu = no_cpu })
    else panic "this_cpu != spinlock->cpu!"
