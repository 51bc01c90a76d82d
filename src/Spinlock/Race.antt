-- ===== src/Spinlock/Race.antt =====
-- `spinlock_Release` clears the flag before it resets the owner (kernel/lock/spinlock.c): what another
-- processor that takes the lock in between meets.
use sysrv.Prelude.{
  ℕ, ◌<◌, ◌≤◌, ◌≡◌, ◌≢◌, refl, sym, subst, Bool, true, false, not, ℕ_discrete, arith,
}
use sysrv.Spinlock.{Spinlock, no_cpu, init_anonymous}
use sysrv.Spinlock.Steps.{
  Pc, idle, spinning, checking, panicked, Move, enter, spin, win, own, leave, misused, pass, fail,
  clear, disown, update, System, Step, pick, start_from, Reach, here, next,
}
use sysrv.Spinlock.Safety.{holds}

-- The flag is set and no owner is recorded, while processor `j` is in the panic and everyone else is
-- outside.
pub record IsStranded (j : ℕ) (s : System) : Type 0 where
  pub set : s.spinlock.lock ≡ true
  pub unowned : s.spinlock.cpu ≡ no_cpu
  pub stopped : s.pc j ≡ panicked
  pub outside : (k : ℕ) → k ≢ j → s.pc k ≡ idle

module _ {n : ℕ} {s₀ : System} where
  -- One more step of processor `k`, which stands at `q`.
  go :
      {s : System} {q p : Pc} {l : Spinlock}
      → Reach false n s₀ s
      → (k : ℕ) → k < n
      → s.pc k ≡ q
      → Move false k s.spinlock q l p
      → Reach false n s₀ (record { spinlock = l; pc = update s.pc k p })
  go {s} {p} {l} r k lt e mv =
      next r (pick k lt (subst (λ x. Move false k s.spinlock x l p) (sym e) mv))

-- With at most `SYSRV_MAX_CPUS` processors, each of which calls `spinlock_Release` only while it has
-- the lock, any two of them can come to this: one clears the flag, the other takes the lock, the
-- first resets the owner, and the second panics when it releases its own lock.
pub race-IsStranded :
    (n i j : ℕ) (l : Spinlock)
    → n ≤ 8
    → i ≢ j
    → i < n
    → j < n
    → (s : System) × Reach false n (start_from l) s × IsStranded j s
unfolding init_anonymous
race-IsStranded n i j l few apart ni nj =
    let r1 = go here i ni refl enter in
    let r2 = go r1 i ni (ground arith) (win refl) in
    let r3 = go r2 i ni (ground arith) own in
    let r4 = go r3 i ni (ground arith) leave in
    let r5 = go r4 i ni (ground arith) (pass {held = true} refl) in
    let r6 = go r5 i ni (ground arith) clear in
    let r7 = go r6 j nj (ground arith) enter in
    let r8 = go r7 j nj (ground arith) (win refl) in
    let r9 = go r8 j nj (ground arith) own in
    let r10 = go r9 i ni (ground arith) disown in
    let r11 = go r10 j nj (ground arith) leave in
    let r12 = go r11 j nj (ground arith) (fail {held = true} (omega arith)) in
    (
      _,
      r12,
      record { set = refl; unowned = refl; stopped = ground arith; outside = λ k ne. ground arith },
    )

-- No processor has the lock, nor is about to clear the flag or to reset the owner.
abbrev away : Pc → Bool
away idle = true
away spinning = true
away (checking held) = not held
away panicked = true
away _ = false

record IsLost (s : System) : Type 0 where
  set : s.spinlock.lock ≡ true
  unowned : s.spinlock.cpu ≡ no_cpu
  nobody : (k : ℕ) → away (s.pc k) ≡ true

-- What a step from such a state can be: it writes nothing, and stays away.
away_step :
    {misuse : Bool} {i : ℕ} {s l : Spinlock} {q p : Pc}
    → i < 8
    → s.lock ≡ true
    → s.cpu ≡ no_cpu
    → away q ≡ true
    → Move misuse i s q l p
    → (l ≡ s) × (away p ≡ true)
away_step few set none_yet e enter = (refl, refl)
away_step few set none_yet e (spin g) = (refl, refl)
away_step few set none_yet e (win g) = cc
away_step few set none_yet e own = cc
away_step few set none_yet e leave = cc
away_step few set none_yet e (misused g) = (refl, refl)
away_step few set none_yet e (pass g) = absurd (omega arith)
away_step few set none_yet e (fail g) = (refl, refl)
away_step few set none_yet e clear = cc
away_step few set none_yet e disown = cc

Step-IsLost :
    {misuse : Bool} {n : ℕ} {s t : System} → n ≤ 8 → IsLost s → Step misuse n s t → IsLost t
Step-IsLost {s} few x (pick i {p} lt mv) =
    let (same, off) = away_step (omega arith) x.set x.unowned (x.nobody i) mv in
    record {
      set = rw same x.set;
      unowned = rw same x.unowned;
      nobody = λ k. ground (arith, x.nobody k);
    }

Reach-IsLost :
    {misuse : Bool} {n : ℕ} {s t : System} → n ≤ 8 → IsLost s → Reach misuse n s t → IsLost t
Reach-IsLost few x here = x
Reach-IsLost few x (next r st) = Step-IsLost few (Reach-IsLost few x r) st

-- From then on the lock is lost: whatever at most `SYSRV_MAX_CPUS` processors do, misuse included,
-- the flag stays set and no processor ever holds the lock again.
pub stranded_forever :
    {misuse : Bool} {n j : ℕ} {s t : System}
    → n ≤ 8
    → IsStranded j s
    → Reach misuse n s t
    → (t.spinlock.lock ≡ true) × ((k : ℕ) → holds (t.pc k) ≡ false)
stranded_forever {j} {s} {t} few x r = (lost.set, λ k. ground (arith, lost.nobody k))
  where
    lost : IsLost t
    lost =
        Reach-IsLost few
          (record {
            set = x.set;
            unowned = x.unowned;
            nobody = λ k. elim (ℕ_discrete k j) [
              | yes e ↦ rw (e, x.stopped)
              | no n ↦ rw (x.outside k n)
            ];
          })
          r
