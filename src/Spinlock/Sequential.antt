-- ===== src/Spinlock/Sequential.antt =====
-- The spinlock without contention (kernel/lock/spinlock.c).
use sysrv.Prelude.{ℕ, zero, suc, ◌≡◌, ◌≢◌, refl, true, false, none, some, done, panic, arith}
use sysrv.Spinlock.{Spinlock, no_cpu, acquire, release}

-- A lock that is set is never acquired, however long the loop runs.
acquire_set : (fuel cpu : ℕ) (s : Spinlock) → s.lock ≡ true → acquire fuel cpu s ≡ none
unfolding acquire
acquire_set zero cpu s e = refl
acquire_set (suc fuel) cpu s e = rw e (acquire_set fuel cpu (record s { lock = true }) refl)

-- On a free lock without an owner `spinlock_Acquire` returns after one round. Then the owner's
-- `spinlock_Release` restores the lock, that of any other processor panics, and another
-- `spinlock_Acquire` spins for as long as it runs.
acquire-release :
    (rounds fuel cpu other : ℕ) (s : Spinlock)
    → s.lock ≡ false
    → s.cpu ≡ no_cpu
    → other ≢ cpu
    → (s' : Spinlock) × (acquire (suc rounds) cpu s ≡ some s')
      × (release cpu s' ≡ done s)
      × (release other s' ≡ panic "this_cpu != spinlock->cpu!")
      × (acquire fuel other s' ≡ none)
unfolding acquire release
acquire-release rounds fuel cpu other s free unowned apart = (
  record s { lock = true; cpu = cpu },
  ground arith,
  ground arith,
  ground arith,
  acquire_set fuel other (record s { lock = true; cpu = cpu }) refl,
)
