-- ===== src/Memory.antt =====
-- Byte-addressed memory: which addresses can be read and written, and what they hold. Pointers are
-- addresses, and pointer arithmetic does not leave the address space.
pub mod Checks
use sysrv.Prelude.{
  ℕ, ◌+◌, ◌≤◌, ◌<◌, ◌≡◌, ◌≢◌, ◌⊎◌, refl, List, [], ◌∷◌, Option, some, Outcome, done, expect, ◌>>=◌,
  ◌==◌, if◌then◌else◌, arith,
}

abbrev pub Memory : Type 0
Memory = ℕ → Option ℕ

abbrev pub update : Memory → ℕ → ℕ → Memory
update m p v a = if a == p then some v else m a

-- `*p` and `*p = v`
abbrev pub load : Memory → ℕ → Outcome ℕ
load m p = expect (m p)

abbrev pub store : Memory → ℕ → ℕ → Outcome Memory
store m p v = expect (m p) >>= λ _. done (update m p v)

-- The addresses from `p` up to `p + n` can be read and written.
abbrev pub Mapped : Memory → ℕ → ℕ → Type 0
Mapped m p n = (k : ℕ) → k < n → (v : ℕ) × (m (p + k) ≡ some v)

-- At `p` stand the bytes of a string, none of them NUL, and then a NUL.
abbrev pub IsString : Memory → ℕ → List ℕ → Type 0
IsString m p [] = m p ≡ some 0
IsString m p (c ∷ cs) = (m p ≡ some c) × (c ≢ 0) × (c < 256) × IsString m (p + 1) cs

-- The bytes stand at `p`.
abbrev pub BytesAt : Memory → ℕ → List ℕ → Type 0
BytesAt m p [] = Unit
BytesAt m p (b ∷ bs) = (m p ≡ some b) × BytesAt m (p + 1) bs

-- `r` is a normal return with the addresses from `lo` up to `hi` holding what `f` says, and all
-- others unchanged.
pub record Written (m : Memory) (lo hi : ℕ) (f : ℕ → Option ℕ) (r : Outcome Memory) : Type 0 where
  pub out : Memory
  pub returns : r ≡ done out
  pub inside : (a : ℕ) → lo ≤ a → a < hi → out a ≡ f a
  pub outside : (a : ℕ) → (a < lo) ⊎ (hi ≤ a) → out a ≡ m a

pub Written-nil : (m : Memory) (i : ℕ) (f : ℕ → Option ℕ) → Written m i i f (done m)
Written-nil m i f = record {
  out = m;
  returns = refl;
  inside = λ a l h. absurd (omega arith);
  outside = λ a h. refl;
}

-- A loop that writes one byte and goes on at the next address.
pub Written-next :
    {m : Memory} {i hi : ℕ} {f : ℕ → Option ℕ} {r : Outcome Memory} (v : ℕ)
    → i < hi
    → f i ≡ some v
    → Written (update m i v) (i + 1) hi f r
    → Written m i hi f r
Written-next {m} {i} {hi} {f} v l e w = record {
  out = w.out;
  returns = w.returns;
  inside = λ a p q. ground (arith, w.inside a, w.outside a);
  outside = λ a p. ground (arith, w.outside a);
}
