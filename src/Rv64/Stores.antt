-- ===== src/Rv64/Stores.antt =====
-- Runs of stores to the stack, and what stands there afterwards.
use sysrv.Prelude.{
  fun_ext, bind_assoc, Bool-cases, Option-cases, inl, inr, ◌⊎◌, ℕ, zero, suc, ◌+◌, ◌*◌, ◌%◌, ◌≤◌,
  ◌<◌, ◌^◌, ◌≡◌, refl, sym, ap, ◌∙◌, Bool, true, false, ◌&&◌, List, [], ◌∷◌, ◌++◌, map, Option,
  none, some, ◌>>=◌, length, get_or, drop, ltb, ◌==◌, if◌then◌else◌, arith,
}
use sysrv.Word.{add64}
use sysrv.Memory.{Memory, update}
use sysrv.Rv64.{Instr, sd, Machine, step, run}

pub run-append : (xs ys : List Instr) (s : Machine) → run (xs ++ ys) s ≡ (run xs s >>= run ys)
unfolding run
run-append [] ys s = refl
run-append (x ∷ xs) ys s =
    ap (λ f. step x s >>= f) (fun_ext (λ t. run-append xs ys t))
    ∙ sym (bind_assoc (step x s) (run xs) (run ys))

-- Registers and the offsets from `base` where they are stored.
abbrev pub stores : ℕ → List (ℕ × ℕ) → List Instr
stores base [] = []
stores base ((r, o) ∷ ps) = sd r o base ∷ stores base ps

-- The offsets and what is stored there.
abbrev pub values : (ℕ → ℕ) → List (ℕ × ℕ) → List (ℕ × ℕ)
values x [] = []
values x ((r, o) ∷ ps) = (o, x r) ∷ values x ps

abbrev pub put_all : ℕ → List (ℕ × ℕ) → Memory → Memory
put_all p [] m = m
put_all p ((o, v) ∷ vs) m = put_all p vs (update m (p + o) v)

pub put_all-append :
    (p : ℕ) (xs ys : List (ℕ × ℕ)) (m : Memory)
    → put_all p (xs ++ ys) m ≡ put_all p ys (put_all p xs m)
put_all-append p [] ys m = refl
put_all-append p ((o, v) ∷ xs) ys m = put_all-append p xs ys (update m (p + o) v)

-- The offsets lie below `size` and at multiples of 8.
abbrev pub are_within : ℕ → List (ℕ × ℕ) → Bool
are_within size [] = true
are_within size ((r, o) ∷ ps) = ltb o size && (o % 8 == 0) && are_within size ps

-- The words from `p` up to `p + size` can be read and written.
pub record IsFrame (m : Memory) (p size : ℕ) : Type 0 where
  pub aligned : p % 8 ≡ 0
  pub fits : p + size ≤ 2 ^ 64
  pub mapped : (o : ℕ) → o < size → o % 8 ≡ 0 → (v : ℕ) × (m (p + o) ≡ some v)

pub IsFrame-update :
    (m : Memory) (p size o v : ℕ) → IsFrame m p size → IsFrame (update m (p + o) v) p size
IsFrame-update m p size o v f = record {
  aligned = f.aligned;
  fits = f.fits;
  mapped = λ k l z. elim (Bool-cases (p + k == p + o)) [
    | inl e ↦ (v, rw e refl)
    | inr e ↦ let (w, q) = f.mapped k l z in (w, rw e q)
  ];
}

pub IsFrame-put_all :
    (p size : ℕ) (vs : List (ℕ × ℕ)) (m : Memory)
    → IsFrame m p size
    → IsFrame (put_all p vs m) p size
IsFrame-put_all p size [] m f = f
IsFrame-put_all p size ((o, v) ∷ vs) m f =
    IsFrame-put_all p size vs (update m (p + o) v) (IsFrame-update m p size o v f)

pub run-stores :
    (size base p : ℕ) (ps : List (ℕ × ℕ)) (rest : List Instr) (s : Machine)
    → s.regs base ≡ p
    → are_within size ps ≡ true
    → IsFrame s.words p size
    → run (stores base ps ++ rest) s
      ≡ run rest (record s { words = put_all p (values s.regs ps) s.words })
unfolding run step
run-stores size base p [] rest s e w f = refl
run-stores size base p ((r, o) ∷ ps) rest s e w f =
    let below : o < size = ground arith in
    let at_word : o % 8 ≡ 0 = ground arith in
    let (v, q) = f.mapped o below at_word in
    let fits = f.fits in
    let a : add64 p o ≡ p + o = omega arith in
    let z : ((p + o) % 8 == 0) ≡ true = ground (arith, f.aligned) in
    rw (e, a, z, q)
      (run-stores size base p ps rest (record s { words = update s.words (p + o) (s.regs r) }) e
        (ground arith) (IsFrame-update s.words p size o (s.regs r) f))

-- What was stored last at an offset.
abbrev pub later : Option ℕ → Bool → ℕ → Option ℕ
later (some v) b w = some v
later none b w = if b then some w else none

abbrev pub find : ℕ → List (ℕ × ℕ) → Option ℕ
find k [] = none
find k ((o, v) ∷ vs) = later (find k vs) (o == k) v

-- An equation on what was stored last, taken apart.
put_all-none :
    (p k : ℕ) (vs : List (ℕ × ℕ)) (m : Memory)
    → find k vs ≡ none
    → put_all p vs m (p + k) ≡ m (p + k)
put_all-none p k [] m e = refl
put_all-none p k ((o, v) ∷ vs) m e = elim (Option-cases (find k vs)) [
  | inr (w, q) ↦ let h = rw q at e in cc
  | inl q ↦ elim (Bool-cases (o == k)) [
    | inl t ↦ let h = rw (q, t) at e in cc
    | inr t ↦
        let f : (p + k == p + o) ≡ false = ground arith in
        put_all-none p k vs (update m (p + o) v) q ∙ rw f refl
  ]
]

put_all-find :
    (p k w : ℕ) (vs : List (ℕ × ℕ)) (m : Memory)
    → find k vs ≡ some w
    → put_all p vs m (p + k) ≡ some w
put_all-find p k w [] m e = cc
put_all-find p k w ((o, v) ∷ vs) m e = elim (Option-cases (find k vs)) [
  | inr (w', q) ↦ put_all-find p k w vs (update m (p + o) v) (let h = rw q at e in cc)
  | inl q ↦ elim (Bool-cases (o == k)) [
    | inl t ↦
        let f : (p + k == p + o) ≡ true = ground arith in
        put_all-none p k vs (update m (p + o) v) q ∙ rw f (let h = rw (q, t) at e in cc)
    | inr t ↦ let h = rw (q, t) at e in cc
  ]
]

-- The words of a list stand from `p` on.
abbrev pub WordsAt : Memory → ℕ → List ℕ → Type 0
WordsAt m p [] = Unit
WordsAt m p (v ∷ vs) = (m p ≡ some v) × WordsAt m (p + 8) vs

abbrev pub find_each : ℕ → ℕ → List (ℕ × ℕ) → List (Option ℕ)
find_each zero k vs = []
find_each (suc n) k vs = find k vs ∷ find_each n (k + 8) vs

head_eq : {x y : Option ℕ} {xs ys : List (Option ℕ)} → x ∷ xs ≡ y ∷ ys → x ≡ y
head_eq e = ap (λ l. get_or l 0 none) e

tail_eq : {x y : Option ℕ} {xs ys : List (Option ℕ)} → x ∷ xs ≡ y ∷ ys → xs ≡ ys
tail_eq e = ap (λ l. drop 1 l) e

pub put_all-WordsAt :
    (p k : ℕ) (ws : List ℕ) (vs : List (ℕ × ℕ)) (m : Memory)
    → find_each (length ws) k vs ≡ map some ws
    → WordsAt (put_all p vs m) (p + k) ws
put_all-WordsAt p k [] vs m e = tt
put_all-WordsAt p k (w ∷ ws) vs m e =
    let next : p + k + 8 ≡ p + (k + 8) = omega arith in
    (put_all-find p k w vs m (head_eq e), rw next (put_all-WordsAt p (k + 8) ws vs m (tail_eq e)))

-- What is stored lies in the frame.
pub put_all-outside :
    (size p a : ℕ) (x : ℕ → ℕ) (ps : List (ℕ × ℕ)) (m : Memory)
    → are_within size ps ≡ true
    → (a < p) ⊎ (p + size ≤ a)
    → put_all p (values x ps) m a ≡ m a
put_all-outside size p a x [] m w o = refl
put_all-outside size p a x ((r, k) ∷ ps) m w o =
    let below : k < size = ground arith in
    let f : (a == p + k) ≡ false = ground arith in
    put_all-outside size p a x ps (update m (p + k) (x r)) (ground arith) o ∙ rw f refl

pub WordsAt-update :
    (ws : List ℕ) (m : Memory) (p a v : ℕ)
    → (a < p) ⊎ (p + 8 * length ws ≤ a)
    → WordsAt m p ws
    → WordsAt (update m a v) p ws
WordsAt-update [] m p a v l w = tt
WordsAt-update (x ∷ ws) m p a v l (e, w) =
    let apart : (p == a) ≡ false = ground arith in
    (rw apart e, WordsAt-update ws m (p + 8) a v (ground arith) w)
