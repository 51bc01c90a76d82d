-- ===== src/Kstdio/Tests.antt =====
-- The printers and `kprintf` on small inputs (kernel/kstdlib/stdio.c).
use sysrv.Prelude.{codes, ℕ, ◌≡◌, refl, List, [], ◌∷◌, done, fault, get_elem?, length, arith}
use sysrv.Word.{u32}
use sysrv.Memory.{Memory}
use sysrv.Kstdio.{
  decimal_loop, print_number, print_hex, hex_digits, count_hex, hex_loop, kprintf, printf_loop,
  turn, conversion, parse_zero_pad_width, width_loop,
}
use sysrv.Kstdio.Text.{kprintf_trailing}
use sysrv.Kstdio.Pieces.{Piece, converted, unpadded, padded, hex, number, Prints}
use sysrv.Kstdio.Render.{kprintf-Prints}
use sysrv.Memory.Checks.{is_string-IsString}

-- "hi" at 8 and "hi%" at 16, which ends the mapped memory.
abbrev ram : Memory
ram a =
    get_elem?
      (b'%' ∷ b'0' ∷ b'4' ∷ b'x' ∷ b'%' ∷ b'd' ∷ 0 ∷ 0 ∷ b'h' ∷ b'i' ∷ 0 ∷ 0 ∷ 0 ∷ 0 ∷ 0 ∷ 0 ∷ b'h'
        ∷ b'i' ∷ b'%' ∷ 0 ∷ [])
      a

hex_and_number :
    kprintf 20 ram 0 (0x2f ∷ 12 ∷ []) ≡ done (b'0' ∷ b'0' ∷ b'2' ∷ b'F' ∷ b'2' ∷ b'1' ∷ [], 6)
unfolding kprintf printf_loop turn conversion parse_zero_pad_width width_loop print_hex hex_digits
    count_hex hex_loop print_number decimal_loop
hex_and_number = refl

abbrev hex_then_number : List Piece
hex_then_number = converted (padded (4 ∷ [])) hex ∷ converted unpadded number ∷ []

kprintf-Prints_example :
    (out : List ℕ) × Prints ram hex_then_number (0x2f ∷ 12 ∷ []) out
    × (kprintf 20 ram 0 (0x2f ∷ 12 ∷ []) ≡ done (out, u32 (length out)))
kprintf-Prints_example =
    kprintf-Prints 20 0 0 ram hex_then_number (0x2f ∷ 12 ∷ [])
      (is_string-IsString ram 0 (codes "%04x%d") refl) (omega arith, tt) tt (omega arith)

kprintf_trailing_example : kprintf 9 ram 16 [] ≡ fault
kprintf_trailing_example =
    kprintf_trailing 9 16 ram [] (b'h' ∷ b'i' ∷ [])
      (
        refl,
        omega arith,
        omega arith,
        (refl, omega arith, omega arith, (refl, omega arith, omega arith, refl)),
      )
      (omega arith, (omega arith, tt)) refl (omega arith)
