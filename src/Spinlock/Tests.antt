-- ===== src/Spinlock/Tests.antt =====
-- The spinlock at concrete states (kernel/lock/spinlock.c).
use sysrv.Prelude.{ℕ, ◌≡◌, refl, true, false, arith}
use sysrv.Spinlock.{Spinlock, no_cpu, init_anonymous}
use sysrv.Spinlock.Steps.{
  idle, spinning, owning, critical, checking, panicked, Move, enter, win, own, misused, fail,
  System, pick, start_from, Reach, here, next, update,
}
use sysrv.Spinlock.Safety.{holds, mutual_exclusion}
use sysrv.Spinlock.Race.{IsStranded, race-IsStranded, stranded_forever}

abbrev fresh : Spinlock
fresh = record { lock = false; cpu = no_cpu; name = 0 }

-- Processor 0 takes the lock and processor 1 calls `spinlock_Release` without it.
abbrev mixed : System
mixed = record {
  spinlock = record { lock = true; cpu = 0; name = 0 };
  pc =
      update (update (update (update (λ _. idle) 0 spinning) 0 owning) 0 critical) 1
        (checking false);
}

mixed_reached : Reach true 2 (start_from fresh) mixed
unfolding init_anonymous
mixed_reached =
    next
      (next (next (next here (pick 0 (omega arith) enter)) (pick 0 (omega arith) (win refl)))
        (pick 0 (omega arith) own))
      (pick 1 (omega arith) (misused refl))

mutual_exclusion_example : ◌≡◌ {A = ℕ} 0 0
mutual_exclusion_example = mutual_exclusion fresh (omega arith) mixed_reached 0 0 refl refl

abbrev failed : Move true 1 mixed.spinlock (mixed.pc 1) mixed.spinlock panicked
failed = fail (omega arith)

race-IsStranded_example : (s : System) × Reach false 2 (start_from fresh) s × IsStranded 1 s
race-IsStranded_example =
    race-IsStranded 2 0 1 fresh (omega arith) (omega arith) (omega arith) (omega arith)

abbrev lost : System
lost = record {
  spinlock = record { lock = true; cpu = no_cpu; name = 0 };
  pc = update (λ _. idle) 1 panicked;
}

lost-IsStranded : IsStranded 1 lost
lost-IsStranded = record {
  set = refl;
  unowned = refl;
  stopped = refl;
  outside = λ k n. ground arith;
}

stranded_forever_example :
    (true ≡ true) × ((k : ℕ) → holds (update (update (λ _. idle) 1 panicked) 0 spinning k) ≡ false)
stranded_forever_example =
    stranded_forever {misuse = true} {n = 2} (omega arith) lost-IsStranded
      (next here (pick 0 (omega arith) enter))
