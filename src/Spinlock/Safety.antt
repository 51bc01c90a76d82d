-- ===== src/Spinlock/Safety.antt =====
-- Mutual exclusion of the spinlock (kernel/lock/spinlock.c), and what the owner check is worth.
use sysrv.Prelude.{ℕ, ◌<◌, ◌≤◌, ◌≡◌, ◌≢◌, refl, sym, Bool, true, false, arith}
use sysrv.Spinlock.{Spinlock, init_anonymous}
use sysrv.Spinlock.Steps.{
  Pc, idle, owning, critical, checking, clearing, disowning, panicked, Move, enter, spin, win, own,
  leave, misused, pass, fail, clear, disown, update, System, Step, pick, start_from, Reach, here,
  next,
}

-- From the end of the loop of `spinlock_Acquire` to the clearing of the flag.
abbrev pub holds : Pc → Bool
holds owning = true
holds critical = true
holds (checking held) = held
holds clearing = true
holds _ = false

-- From the write of the processor's number to the write of -1.
abbrev pub named : Pc → Bool
named critical = true
named (checking held) = held
named clearing = true
named disowning = true
named _ = false

pub record Inv (n : ℕ) (s : Spinlock) (pc : ℕ → Pc) : Type 0 where
  pub free : s.lock ≡ false → (j : ℕ) → holds (pc j) ≡ false
  pub unique : (i j : ℕ) → holds (pc i) ≡ true → holds (pc j) ≡ true → i ≡ j
  pub owner : (j : ℕ) → j < n → s.cpu ≡ j → named (pc j) ≡ true

module _ {n : ℕ} {s : Spinlock} {pc : ℕ → Pc} (few : n ≤ 8) (inv : Inv n s pc) {misuse : Bool}
    (i : ℕ) (below : i < n) where
  Move-free :
      {p p' : Pc} {s' : Spinlock}
      → pc i ≡ p
      → Move misuse i s p s' p'
      → s'.lock ≡ false
      → (j : ℕ) → holds (update pc i p' j) ≡ false
  Move-free e enter h j = ground (arith, inv.free h j)
  Move-free e (spin g) h j = ground (arith, inv.free h j)
  Move-free e (win g) h j = ground (arith, inv.free g j)
  Move-free e own h j = ground (arith, inv.free h i)
  Move-free e leave h j = ground (arith, inv.free h i)
  Move-free e (misused g) h j = ground (arith, inv.free h j)
  Move-free e (pass g) h j = ground (arith, inv.owner i below (sym g), inv.free h i, inv.free h j)
  Move-free e (fail g) h j = ground (arith, inv.free h j)
  Move-free e clear h j = ground (arith, inv.unique i j)
  Move-free e disown h j = ground (arith, inv.free h j)

  Move-unique :
      {p p' : Pc} {s' : Spinlock}
      → pc i ≡ p
      → Move misuse i s p s' p'
      → (a b : ℕ) → holds (update pc i p' a) ≡ true
      → holds (update pc i p' b) ≡ true
      → a ≡ b
  Move-unique e enter a b h k = ground (arith, inv.unique a b)
  Move-unique e (spin g) a b h k = ground (arith, inv.unique a b)
  Move-unique e (win g) a b h k = ground (arith, inv.free g a, inv.free g b)
  Move-unique e own a b h k = ground (arith, inv.unique a b)
  Move-unique e leave a b h k = ground (arith, inv.unique a b)
  Move-unique e (misused g) a b h k = ground (arith, inv.unique a b)
  Move-unique e (pass g) a b h k = ground (arith, inv.unique a b, inv.owner i below (sym g))
  Move-unique e (fail g) a b h k = ground (arith, inv.unique a b)
  Move-unique e clear a b h k = ground (arith, inv.unique a b)
  Move-unique e disown a b h k = ground (arith, inv.unique a b)

  Move-owner :
      {p p' : Pc} {s' : Spinlock}
      → pc i ≡ p
      → Move misuse i s p s' p'
      → (j : ℕ) → j < n
      → s'.cpu ≡ j
      → named (update pc i p' j) ≡ true
  Move-owner e enter j l h = ground (arith, inv.owner j l)
  Move-owner e (spin g) j l h = ground (arith, inv.owner j l)
  Move-owner e (win g) j l h = ground (arith, inv.owner j l)
  Move-owner e own j l h = ground arith
  Move-owner e leave j l h = ground (arith, inv.owner j l)
  Move-owner e (misused g) j l h = ground (arith, inv.owner j l)
  Move-owner e (pass g) j l h = ground (arith, inv.owner j l)
  Move-owner e (fail g) j l h = ground (arith, inv.owner j l)
  Move-owner e clear j l h = ground (arith, inv.owner j l)
  Move-owner e disown j l h = absurd (omega arith)

  Move-Inv : {p' : Pc} {s' : Spinlock} → Move misuse i s (pc i) s' p' → Inv n s' (update pc i p')
  Move-Inv mv = record {
    free = Move-free refl mv;
    unique = Move-unique refl mv;
    owner = Move-owner refl mv;
  }

Step-Inv :
    {misuse : Bool} {n : ℕ} {s t : System}
    → n ≤ 8
    → Step misuse n s t
    → Inv n s.spinlock s.pc
    → Inv n t.spinlock t.pc
Step-Inv few (pick i lt mv) inv = Move-Inv few inv i lt mv

init-Inv : (n : ℕ) (l : Spinlock) → n ≤ 8 → Inv n (init_anonymous l) (λ _. idle)
unfolding init_anonymous
init-Inv n l few = record {
  free = λ h j. refl;
  unique = λ i j h k. cc;
  owner = λ j l h. absurd (omega arith);
}

Reach-Inv :
    {misuse : Bool} {n : ℕ} (l : Spinlock) {s : System}
    → n ≤ 8
    → Reach misuse n (start_from l) s
    → Inv n s.spinlock s.pc
Reach-Inv {n} l few here = init-Inv n l few
Reach-Inv l few (next r st) = Step-Inv few st (Reach-Inv l few r)

-- With at most `SYSRV_MAX_CPUS` processors, on a lock that was initialised with nobody inside, no two
-- processors hold the lock at once, also where processors call `spinlock_Release` on a lock that
-- they do not have.
pub mutual_exclusion :
    {misuse : Bool} {n : ℕ} {s : System} (l : Spinlock)
    → n ≤ 8
    → Reach misuse n (start_from l) s
    → (i j : ℕ) → holds (s.pc i) ≡ true
    → holds (s.pc j) ≡ true
    → i ≡ j
mutual_exclusion l few r i j h k = (Reach-Inv l few r).unique i j h k

check_fails :
    {misuse : Bool} {i : ℕ} {s s' : Spinlock} {q p : Pc}
    → i ≢ s.cpu
    → q ≡ checking false
    → Move misuse i s q s' p
    → (p ≡ panicked) × (s' ≡ s)
check_fails n e (pass g) = absurd (n g)
check_fails n e (fail g) = (refl, refl)
check_fails n e enter = cc
check_fails n e (spin g) = cc
check_fails n e (win g) = cc
check_fails n e own = cc
check_fails n e leave = cc
check_fails n e (misused g) = cc
check_fails n e clear = cc
check_fails n e disown = cc

-- A processor that calls `spinlock_Release` without the lock, among at most `SYSRV_MAX_CPUS`
-- processors on a lock that was initialised with nobody inside, panics at the owner check, and
-- leaves the lock as it is.
misused_panics :
    {misuse : Bool} {n : ℕ} {s' : Spinlock} {s : System} {p : Pc} (l : Spinlock)
    → n ≤ 8
    → Reach misuse n (start_from l) s
    → (i : ℕ) → i < n
    → s.pc i ≡ checking false
    → Move misuse i s.spinlock (s.pc i) s' p
    → (p ≡ panicked) × (s' ≡ s.spinlock)
misused_panics {s} l few r i lt e mv =
    check_fails (λ g. ground (arith, (Reach-Inv l few r).owner i lt (sym g))) e mv
