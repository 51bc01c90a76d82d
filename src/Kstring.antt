-- ===== src/Kstring.antt =====
-- kernel/kstdlib/string.c over byte memory. `char` is an unsigned byte, as on RISC-V.
pub mod Copy
pub mod Compare
mod Tests
use sysrv.Prelude.{
  ℕ, zero, suc, ◌+◌, ◌%◌, Bool, true, false, ◌||◌, ◌&&◌, not, Outcome, done, out_of_fuel, ◌>>=◌,
  ◌==◌, if◌then◌else◌,
}
use sysrv.Prelude.Int.{ℤ, sub_ℕ}
use sysrv.Memory.{Memory, load, store}

-- The loop of `memcpy` at index `i`, with `left` rounds to go.
unfoldable pub memcpy_loop : ℕ → ℕ → ℕ → ℕ → Memory → Outcome Memory
memcpy_loop zero i s1 s2 m = done m
memcpy_loop (suc left) i s1 s2 m = do
  b ← load m (s2 + i)
  m' ← store m (s1 + i) b
  memcpy_loop left (i + 1) s1 s2 m'

-- `memcpy`: the memory after it; it returns `s1`.
unfoldable pub memcpy : ℕ → ℕ → ℕ → Memory → Outcome Memory
memcpy s1 s2 n m = memcpy_loop n 0 s1 s2 m

unfoldable pub memset_loop : ℕ → ℕ → ℕ → ℕ → Memory → Outcome Memory
memset_loop zero i s c m = done m
memset_loop (suc left) i s c m = do m' ← store m (s + i) (c % 256); memset_loop left (i + 1) s c m'

-- `memset`, with `c` as the bit pattern of the int.
unfoldable pub memset : ℕ → ℕ → ℕ → Memory → Outcome Memory
memset s c n m = memset_loop n 0 s c m

-- `strlen` with `fuel` rounds of its loop, at `count`.
unfoldable pub strlen_loop : ℕ → ℕ → ℕ → Memory → Outcome ℕ
strlen_loop zero count str m = out_of_fuel
strlen_loop (suc fuel) count str m = do
  c ← load m (str + count)
  if c == 0 then done count else strlen_loop fuel (count + 1) str m

unfoldable pub strlen : ℕ → ℕ → Memory → Outcome ℕ
strlen fuel str m = strlen_loop fuel 0 str m

-- `strcmp` with `fuel` rounds of its loop, at `index`.
unfoldable pub strcmp_loop : ℕ → ℕ → ℕ → ℕ → Memory → Outcome ℤ
strcmp_loop zero index s1 s2 m = out_of_fuel
strcmp_loop (suc fuel) index s1 s2 m = do
  s1_char ← load m (s1 + index)
  s2_char ← load m (s2 + index)
  if not (s1_char == 0) && s1_char == s2_char
      then strcmp_loop fuel (index + 1) s1 s2 m
      else done (sub_ℕ s1_char s2_char)

unfoldable pub strcmp : ℕ → ℕ → ℕ → Memory → Outcome ℤ
strcmp fuel s1 s2 m = strcmp_loop fuel 0 s1 s2 m

-- The loop of `strncpy` at index `i`; `s2_shorter` is true once a NUL has been read.
unfoldable pub strncpy_loop : ℕ → ℕ → Bool → ℕ → ℕ → Memory → Outcome Memory
strncpy_loop zero i s2_shorter s1 s2 m = done m
strncpy_loop (suc left) i s2_shorter s1 s2 m = do
  c ← load m (s2 + i)
  let shorter = s2_shorter || c == 0
  m' ← store m (s1 + i) (if shorter then 0 else c)
  strncpy_loop left (i + 1) shorter s1 s2 m'

-- `strncpy`: the memory after it; it returns `s1`.
unfoldable pub strncpy : ℕ → ℕ → ℕ → Memory → Outcome Memory
strncpy s1 s2 n m = strncpy_loop n 0 false s1 s2 m
