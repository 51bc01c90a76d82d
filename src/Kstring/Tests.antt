-- ===== src/Kstring/Tests.antt =====
-- The string functions on a small memory (kernel/kstdlib/string.c).
use sysrv.Prelude.{
  ℕ, zero, suc, ◌+◌, ◌-◌, ◌<◌, ◌≡◌, refl, [], ◌∷◌, none, some, done, fault, get_or, get_elem?,
  if◌then◌else◌, ltb, leb, ◌&&◌, arith, inl,
}
use sysrv.Prelude.Int.{pos, negsuc}
use sysrv.Memory.{Memory, IsString, Mapped, Written}
use sysrv.Kstring.{memcpy, strlen, strlen_loop, strcmp, strcmp_loop, strncpy}
use sysrv.Kstring.Copy.{memcpy-Written, strncpy-Written}
use sysrv.Kstring.Compare.{Compared, strcmp-Compared}

-- Zero bytes up to 100, "abc" at 100, and nothing behind its NUL at 103.
abbrev ram : Memory
ram a = if ltb a 100 then some 0 else get_elem? (b'a' ∷ b'b' ∷ b'c' ∷ 0 ∷ []) (a - 100)

-- The same with "abd" at 10.
abbrev ram2 : Memory
ram2 a = if leb 10 a && ltb a 14 then get_elem? (b'a' ∷ b'b' ∷ b'd' ∷ 0 ∷ []) (a - 10) else ram a

text-IsString : IsString ram 100 (b'a' ∷ b'b' ∷ b'c' ∷ [])
text-IsString = (
  refl,
  omega arith,
  omega arith,
  (refl, omega arith, omega arith, (refl, omega arith, omega arith, refl)),
)

text2-IsString : IsString ram2 100 (b'a' ∷ b'b' ∷ b'c' ∷ [])
text2-IsString = (
  refl,
  omega arith,
  omega arith,
  (refl, omega arith, omega arith, (refl, omega arith, omega arith, refl)),
)

other-IsString : IsString ram2 10 (b'a' ∷ b'b' ∷ b'd' ∷ [])
other-IsString = (
  refl,
  omega arith,
  omega arith,
  (refl, omega arith, omega arith, (refl, omega arith, omega arith, refl)),
)

low-Mapped : (n : ℕ) → n < 100 → Mapped ram 0 n
low-Mapped n h k l = (0, ground arith)

text-Mapped : Mapped ram 100 4
text-Mapped zero l = (b'a', refl)
text-Mapped (suc zero) l = (b'b', refl)
text-Mapped (suc (suc zero)) l = (b'c', refl)
text-Mapped (suc (suc (suc zero))) l = (0, refl)
text-Mapped (suc (suc (suc (suc k)))) l = absurd (omega arith)

memcpy-Written_example : Written ram 0 (0 + 4) (λ a. ram (100 + (a - 0))) (memcpy 0 100 4 ram)
memcpy-Written_example =
    memcpy-Written 0 100 4 ram (low-Mapped 4 (omega arith)) text-Mapped (inl (omega arith))

strncpy-Written_example :
    Written ram 0
      (0 + 4)
      (λ a. some (get_or (b'a' ∷ b'b' ∷ b'c' ∷ []) (a - 0) 0))
      (strncpy 0 100 4 ram)
strncpy-Written_example =
    strncpy-Written 0 100 4 (b'a' ∷ b'b' ∷ b'c' ∷ []) ram (low-Mapped 4 (omega arith)) text-Mapped
      (inl (omega arith)) text-IsString

strcmp-Compared_example :
    Compared (b'a' ∷ b'b' ∷ b'c' ∷ []) (b'a' ∷ b'b' ∷ b'd' ∷ []) (strcmp 10 100 10 ram2)
strcmp-Compared_example =
    strcmp-Compared 10 100 10 ram2 (b'a' ∷ b'b' ∷ b'c' ∷ []) (b'a' ∷ b'b' ∷ b'd' ∷ [])
      text2-IsString other-IsString (omega arith)

runs :
    (strlen 10 100 ram ≡ done 3)
    × (strcmp 10 100 10 ram2 ≡ done (negsuc 0))
    × (strcmp 10 10 100 ram2 ≡ done (pos 1))
    × (strlen 10 103 (λ _. none) ≡ fault)
unfolding strlen strlen_loop strcmp strcmp_loop
runs = (refl, refl, refl, refl)
