-- ===== src/Memory/Checks.antt =====
-- Tests of what a concrete memory holds, for the examples.
use sysrv.Prelude.{
  ℕ, ◌+◌, ◌≡◌, List, [], ◌∷◌, Bool, true, false, not, ◌&&◌, Option, none, some, ltb, ◌==◌, arith,
}
use sysrv.Memory.{Memory, IsString, BytesAt}

abbrev pub holds_byte : Option ℕ → ℕ → Bool
holds_byte none c = false
holds_byte (some v) c = v == c

abbrev pub is_string : Memory → ℕ → List ℕ → Bool
is_string m p [] = holds_byte (m p) 0
is_string m p (c ∷ cs) = holds_byte (m p) c && not (c == 0) && ltb c 256 && is_string m (p + 1) cs

abbrev pub bytes_at : Memory → ℕ → List ℕ → Bool
bytes_at m p [] = true
bytes_at m p (b ∷ bs) = holds_byte (m p) b && bytes_at m (p + 1) bs

holds_byte_lem : (o : Option ℕ) (c : ℕ) → holds_byte o c ≡ true → o ≡ some c
holds_byte_lem none c h = cc
holds_byte_lem (some v) c h = ground arith

pub is_string-IsString :
    (m : Memory) (p : ℕ) (cs : List ℕ) → is_string m p cs ≡ true → IsString m p cs
is_string-IsString m p [] h = holds_byte_lem (m p) 0 h
is_string-IsString m p (c ∷ cs) h = (
  holds_byte_lem (m p) c (ground arith),
  ground arith,
  ground arith,
  is_string-IsString m (p + 1) cs (ground arith),
)

pub bytes_at-BytesAt : (m : Memory) (p : ℕ) (bs : List ℕ) → bytes_at m p bs ≡ true → BytesAt m p bs
bytes_at-BytesAt m p [] h = tt
bytes_at-BytesAt m p (b ∷ bs) h =
    (holds_byte_lem (m p) b (ground arith), bytes_at-BytesAt m (p + 1) bs (ground arith))
