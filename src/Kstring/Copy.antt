-- ===== src/Kstring/Copy.antt =====
-- `memcpy`, `memset` and `strncpy` (kernel/kstdlib/string.c).
use sysrv.Prelude.{
  ℕ, zero, suc, ◌+◌, ◌-◌, ◌%◌, ◌≤◌, ◌<◌, ◌≡◌, ◌≢◌, ◌⊎◌, inl, inr, refl, ap, ◌∙◌, List, [], ◌∷◌,
  Bool, false, ◌||◌, Option, none, some, fault, get_or, length, ltb, Bool-cases, Option-cases, ◌==◌,
  if◌then◌else◌, arith,
}
use sysrv.Memory.{Memory, update, Mapped, IsString, Written, Written-nil, Written-next}
use sysrv.Kstring.{memcpy_loop, memcpy, memset_loop, memset, strncpy_loop, strncpy}

-- The blocks at `s1` and `s2`, of `n` bytes, do not overlap.
abbrev pub Apart : ℕ → ℕ → ℕ → Type 0
Apart s1 s2 n = (s1 + n ≤ s2) ⊎ (s2 + n ≤ s1)

Mapped-update : (m : Memory) (p n q v : ℕ) → Mapped m p n → Mapped (update m q v) p n
Mapped-update m p n q v h k l = elim (Bool-cases (p + k == q)) [
  | inl e ↦ (v, rw e)
  | inr e ↦ let (u, g) = h k l in (u, rw e g)
]

memset_loop-Written :
    (left i s c hi : ℕ) (m : Memory)
    → Mapped m s (i + left)
    → s + i + left ≡ hi
    → Written m (s + i) hi (λ _. some (c % 256)) (memset_loop left i s c m)
unfolding memset_loop
memset_loop-Written zero i s c hi m h e =
    let e' : s + i ≡ hi = omega arith in rw (← e') (Written-nil m (s + i) _)
memset_loop-Written (suc left) i s c hi m h e =
    let (u, g) = h i (omega arith) in
    let next : s + (i + 1) ≡ s + i + 1 = omega arith in
    let more : i + 1 + left ≡ i + suc left = omega arith in
    let rest =
      memset_loop-Written left (i + 1) s c hi (update m (s + i) (c % 256))
        (rw more (Mapped-update m s (i + suc left) (s + i) (c % 256) h)) (omega arith) in
    rw g (Written-next (c % 256) (omega arith) refl (rw next at rest))

-- `memset` of `n` bytes that can be written puts the low byte of `c` into each of them and changes
-- nothing else.
memset-Written :
    (s c n : ℕ) (m : Memory)
    → Mapped m s n
    → Written m s (s + n) (λ _. some (c % 256)) (memset s c n m)
unfolding memset
memset-Written s c n m h =
    let e : s + 0 ≡ s = omega arith in
    let e' : 0 + n ≡ n = omega arith in
    rw e at (memset_loop-Written n 0 s c (s + n) m (rw e' h) (omega arith))

memcpy_loop-Written :
    (left i s1 s2 hi : ℕ) (m : Memory) (f : ℕ → Option ℕ)
    → Mapped m s1 (i + left)
    → Mapped m s2 (i + left)
    → Apart s1 s2 (i + left)
    → s1 + i + left ≡ hi
    → ((k : ℕ) → k < i + left → f (s1 + k) ≡ m (s2 + k))
    → Written m (s1 + i) hi f (memcpy_loop left i s1 s2 m)
unfolding memcpy_loop
memcpy_loop-Written zero i s1 s2 hi m f h1 h2 a e g =
    let e' : s1 + i ≡ hi = omega arith in rw (← e') (Written-nil m (s1 + i) _)
memcpy_loop-Written (suc left) i s1 s2 hi m f h1 h2 a e g =
    let (u, w) = h1 i (omega arith) in
    let (v, r) = h2 i (omega arith) in
    let next : s1 + (i + 1) ≡ s1 + i + 1 = omega arith in
    let more : i + 1 + left ≡ i + suc left = omega arith in
    let rest =
      memcpy_loop-Written left (i + 1) s1 s2 hi (update m (s1 + i) v) f
        (rw more (Mapped-update m s1 (i + suc left) (s1 + i) v h1))
        (rw more (Mapped-update m s2 (i + suc left) (s1 + i) v h2)) (rw more a) (omega arith)
        (λ k l. ground (arith, g k)) in
    rw (r, w) (Written-next v (omega arith) (g i (omega arith) ∙ r) (rw next at rest))

-- `memcpy` of `n` bytes between mapped blocks that do not overlap makes the first block a copy of the
-- second and changes nothing else.
pub memcpy-Written :
    (s1 s2 n : ℕ) (m : Memory)
    → Mapped m s1 n
    → Mapped m s2 n
    → Apart s1 s2 n
    → Written m s1 (s1 + n) (λ a. m (s2 + (a - s1))) (memcpy s1 s2 n m)
unfolding memcpy
memcpy-Written s1 s2 n m h1 h2 a =
    let e : s1 + 0 ≡ s1 = omega arith in
    let e' : 0 + n ≡ n = omega arith in
    rw e at (
      memcpy_loop-Written n 0 s1 s2 (s1 + n) m (λ a. m (s2 + (a - s1))) (rw e' h1) (rw e' h2)
        (rw e' a) (omega arith) (λ k l. ap m (omega arith)))

string_at :
    (m : Memory) (p : ℕ) (cs : List ℕ) (k : ℕ)
    → IsString m p cs
    → k ≤ length cs
    → m (p + k) ≡ some (get_or cs k 0)
string_at m p [] k s h = ap m (omega arith) ∙ s
string_at m p (c ∷ cs) zero s h = ap m (omega arith) ∙ s.0
string_at m p (c ∷ cs) (suc k) s h = ap m (omega arith) ∙ string_at m (p + 1) cs k s.3 (omega arith)

string_nonzero :
    (m : Memory) (p : ℕ) (cs : List ℕ) (k : ℕ) → IsString m p cs → k < length cs → get_or cs k 0 ≢ 0
string_nonzero m p [] k s h = elim h [ ]
string_nonzero m p (c ∷ cs) zero s h = s.1
string_nonzero m p (c ∷ cs) (suc k) s h = string_nonzero m (p + 1) cs k s.3 (omega arith)

get_or_past : (cs : List ℕ) (k : ℕ) → length cs ≤ k → get_or cs k 0 ≡ 0
get_or_past [] k h = refl
get_or_past (c ∷ cs) zero h = elim h [ ]
get_or_past (c ∷ cs) (suc k) h = get_or_past cs k (omega arith)

module _ (s1 s2 : ℕ) (cs : List ℕ) (nonzero : (k : ℕ) → k < length cs → get_or cs k 0 ≢ 0) where
  -- The flag and the byte stored in the round at index `i`, for the byte `v` that is read.
  shorter_next :
      (i v : ℕ)
      → (i ≤ length cs → v ≡ get_or cs i 0)
      → (ltb (length cs) i || v == 0) ≡ ltb (length cs) (i + 1)
  shorter_next i v e = ground (arith, nonzero i, get_or_past cs i)

  stored_byte :
      (i v : ℕ)
      → (i ≤ length cs → v ≡ get_or cs i 0)
      → (if ltb (length cs) (i + 1) then 0 else v) ≡ get_or cs i 0
  stored_byte i v e = ground (arith, get_or_past cs i)

  strncpy_loop-Written :
      (left i hi : ℕ) (m : Memory)
      → Mapped m s1 (i + left)
      → Mapped m s2 (i + left)
      → Apart s1 s2 (i + left)
      → s1 + i + left ≡ hi
      → ((k : ℕ) → k < i + left → k ≤ length cs → m (s2 + k) ≡ some (get_or cs k 0))
      → Written m
          (s1 + i)
          hi
          (λ a. some (get_or cs (a - s1) 0))
          (strncpy_loop left i (ltb (length cs) i) s1 s2 m)
  unfolding strncpy_loop
  strncpy_loop-Written zero i hi m h1 h2 a e g =
      let e' : s1 + i ≡ hi = omega arith in rw (← e') (Written-nil m (s1 + i) _)
  strncpy_loop-Written (suc left) i hi m h1 h2 a e g =
      let (u, w) = h1 i (omega arith) in
      let (v, r) = h2 i (omega arith) in
      let v' = get_or cs i 0 in
      let same : i ≤ length cs → v ≡ v' = λ l. ground (arith, g i (omega arith) l) in
      let next : s1 + (i + 1) ≡ s1 + i + 1 = omega arith in
      let more : i + 1 + left ≡ i + suc left = omega arith in
      let here : s1 + i - s1 ≡ i = omega arith in
      let rest =
        strncpy_loop-Written left (i + 1) hi (update m (s1 + i) v')
          (rw more (Mapped-update m s1 (i + suc left) (s1 + i) v' h1))
          (rw more (Mapped-update m s2 (i + suc left) (s1 + i) v' h2)) (rw more a) (omega arith)
          (λ k l b. ground (arith, g k)) in
      rw (r, shorter_next i v same, stored_byte i v same, w)
        (Written-next v' (omega arith) (rw here) (rw next at rest))

-- `strncpy` of a string, with `n` mapped bytes behind both pointers and the blocks apart, writes the
-- first `n` characters of the string, pads with NUL bytes up to `n`, and changes nothing else. It
-- writes no NUL where the string has `n` characters or more.
pub strncpy-Written :
    (s1 s2 n : ℕ) (cs : List ℕ) (m : Memory)
    → Mapped m s1 n
    → Mapped m s2 n
    → Apart s1 s2 n
    → IsString m s2 cs
    → Written m s1 (s1 + n) (λ a. some (get_or cs (a - s1) 0)) (strncpy s1 s2 n m)
unfolding strncpy
strncpy-Written s1 s2 n cs m h1 h2 a s =
    let e : s1 + 0 ≡ s1 = omega arith in
    let e' : 0 + n ≡ n = omega arith in
    let fresh : false ≡ ltb (length cs) 0 = ground arith in
    rw fresh (
      rw e at (
        strncpy_loop-Written s1 s2 cs (λ k l. string_nonzero m s2 cs k s l) n 0 (s1 + n) m
          (rw e' h1) (rw e' h2) (rw e' a) (omega arith) (λ k _ l. string_at m s2 cs k s l)))

strncpy_loop-fault :
    (left i : ℕ) (shorter : Bool) (s1 s2 b n : ℕ) (m : Memory)
    → Apart s1 s2 n
    → i ≤ b
    → b < i + left
    → i + left ≡ n
    → m (s2 + b) ≡ none
    → strncpy_loop left i shorter s1 s2 m ≡ fault
unfolding strncpy_loop
strncpy_loop-fault zero i shorter s1 s2 b n m a l h t e = absurd (omega arith)
strncpy_loop-fault (suc left) i shorter s1 s2 b n m a l h t e = elim (Option-cases (m (s2 + i))) [
  | inl unread ↦ rw unread
  | inr (c, r) ↦ elim (Option-cases (m (s1 + i))) [
    | inl unwritten ↦ rw (r, unwritten)
    | inr (u, w) ↦
        let v : ℕ = if shorter || c == 0 then 0 else c in
        let later : i ≢ b = λ q. ground arith in
        rw (r, w)
          (strncpy_loop-fault left (i + 1) (shorter || c == 0) s1 s2 b n (update m (s1 + i) v) a
            (omega arith) (omega arith) (omega arith) (ground arith))
  ]
]

-- `strncpy` reads all `n` bytes behind its second pointer, also those past the end of the string: if
-- one of them cannot be read it faults, wherever the string ends.
strncpy_reads_all :
    (s1 s2 b n : ℕ) (m : Memory)
    → Apart s1 s2 n
    → b < n
    → m (s2 + b) ≡ none
    → strncpy s1 s2 n m ≡ fault
unfolding strncpy
strncpy_reads_all s1 s2 b n m a h e =
    strncpy_loop-fault n 0 false s1 s2 b n m a (omega arith) (omega arith) (omega arith) e
