-- ===== src/Kstring/Compare.antt =====
-- `strlen` and `strcmp` (kernel/kstdlib/string.c).
use sysrv.Prelude.{
  ℕ, zero, suc, ◌+◌, ◌-◌, ◌<◌, ◌≡◌, ◌≢◌, refl, sym, ap, ap₂, ◌∙◌, List, [], ◌∷◌, false, Outcome,
  done, length, ◌==◌, ==_iff, Bool-cases, inl, inr, arith, dec_lt, min,
}
use sysrv.Prelude.Int.{ℤ, pos, negsuc, sub_ℕ}
use sysrv.Memory.{Memory, IsString}
use sysrv.Kstring.{strlen_loop, strlen, strcmp_loop, strcmp}

strlen_loop_lem :
    (fuel count str : ℕ) (m : Memory) (cs : List ℕ)
    → IsString m (str + count) cs
    → length cs < fuel
    → strlen_loop fuel count str m ≡ done (count + length cs)
unfolding strlen_loop
strlen_loop_lem zero count str m cs s h = elim h [ ]
strlen_loop_lem (suc fuel) count str m [] s h = rw s (ap done (omega arith))
strlen_loop_lem (suc fuel) count str m (c ∷ cs) s h =
    let next : str + count + 1 ≡ str + (count + 1) = omega arith in
    let t : (c == 0) ≡ false = ground (arith, s.1) in
    rw (s.0, t)
      (strlen_loop_lem fuel (count + 1) str m cs (rw next at s.3) (omega arith)
        ∙ ap done (omega arith))

-- With more rounds than the string has characters `strlen` returns its length.
pub strlen_lem :
    (fuel str : ℕ) (m : Memory) (cs : List ℕ)
    → IsString m str cs
    → length cs < fuel
    → strlen fuel str m ≡ done (length cs)
unfolding strlen
strlen_lem fuel str m cs s h =
    let e : str ≡ str + 0 = omega arith in
    strlen_loop_lem fuel 0 str m cs (rw e at s) h ∙ ap done (omega arith)

-- The order of strings by their first difference, a prefix before what it begins.
pub data Before : List ℕ → List ℕ → Type 0 where
  shorter : {y : ℕ} {ys : List ℕ} → Before [] (y ∷ ys)
  smaller : {x y : ℕ} {xs ys : List ℕ} → x < y → Before (x ∷ xs) (y ∷ ys)
  same : {x y : ℕ} {xs ys : List ℕ} → x ≡ y → Before xs ys → Before (x ∷ xs) (y ∷ ys)

-- The sign of the result tells how the strings compare.
pub data Compared (xs ys : List ℕ) (r : Outcome ℤ) : Type 0 where
  less : (n : ℕ) → Before xs ys → r ≡ done (negsuc n) → Compared xs ys r
  equal : xs ≡ ys → r ≡ done (pos 0) → Compared xs ys r
  greater : (n : ℕ) → Before ys xs → r ≡ done (pos (suc n)) → Compared xs ys r

Compared-cons :
    {xs ys : List ℕ} {r : Outcome ℤ} (x y : ℕ)
    → x ≡ y
    → Compared xs ys r
    → Compared (x ∷ xs) (y ∷ ys) r
Compared-cons x y e (less n b q) = less n (same e b) q
Compared-cons x y e (equal t q) = equal (ap₂ ◌∷◌ e t) q
Compared-cons x y e (greater n b q) = greater n (same (sym e) b) q

sub-Compared : (x y : ℕ) (xs ys : List ℕ) → x ≢ y → Compared (x ∷ xs) (y ∷ ys) (done (sub_ℕ x y))
sub-Compared x y xs ys n = elim (dec_lt x y) [
  | yes p ↦ less (y - x - 1) (smaller p) (ground arith)
  | no p ↦ greater (x - y - 1) (smaller (omega arith)) (ground arith)
]

strcmp_loop-Compared :
    (fuel index s1 s2 : ℕ) (m : Memory) (xs ys : List ℕ)
    → IsString m (s1 + index) xs
    → IsString m (s2 + index) ys
    → min (length xs) (length ys) < fuel
    → Compared xs ys (strcmp_loop fuel index s1 s2 m)
unfolding strcmp_loop
strcmp_loop-Compared zero index s1 s2 m xs ys a b h = elim h [ ]
strcmp_loop-Compared (suc fuel) index s1 s2 m [] [] a b h = rw (a, b) (equal refl refl)
strcmp_loop-Compared (suc fuel) index s1 s2 m [] (y ∷ ys) a b h =
    rw (a, b.0) (less (y - 1) shorter (ground (arith, b.1)))
strcmp_loop-Compared (suc fuel) index s1 s2 m (x ∷ xs) [] a b h =
    rw (a.0, b) (greater (x - 1) shorter (ground (arith, a.1)))
strcmp_loop-Compared (suc fuel) index s1 s2 m (x ∷ xs) (y ∷ ys) a b h =
    let next1 : s1 + index + 1 ≡ s1 + (index + 1) = omega arith in
    let next2 : s2 + index + 1 ≡ s2 + (index + 1) = omega arith in
    let t : (x == 0) ≡ false = ground (arith, a.1) in
    elim (Bool-cases (x == y)) [
      | inl e ↦
          rw (a.0, b.0, t, e)
            (Compared-cons x y ((==_iff x y).0 e) (
              strcmp_loop-Compared fuel (index + 1) s1 s2 m xs ys (rw next1 at a.3)
                (rw next2 at b.3) (omega arith)))
      | inr n ↦ rw (a.0, b.0, t, n) (sub-Compared x y xs ys (λ e. ground arith))
    ]

-- With more rounds than the shorter string has characters `strcmp` returns 0 if the strings are
-- equal, a negative number if the first comes before the second, and a positive one if after it.
pub strcmp-Compared :
    (fuel s1 s2 : ℕ) (m : Memory) (xs ys : List ℕ)
    → IsString m s1 xs
    → IsString m s2 ys
    → min (length xs) (length ys) < fuel
    → Compared xs ys (strcmp fuel s1 s2 m)
unfolding strcmp
strcmp-Compared fuel s1 s2 m xs ys a b h =
    let e1 : s1 ≡ s1 + 0 = omega arith in
    let e2 : s2 ≡ s2 + 0 = omega arith in
    strcmp_loop-Compared fuel 0 s1 s2 m xs ys (rw e1 at a) (rw e2 at b) h
