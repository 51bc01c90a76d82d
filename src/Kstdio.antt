-- ===== src/Kstdio.antt =====
-- kernel/kstdlib/stdio.c: the number printers and the format loop behind `kprintf`. What is written
-- with `srv_hal_WriteDebugChar` is the list of bytes that a function returns, in the order in which
-- they are written. An `int` is kept as its 32-bit pattern.
pub mod Numerals
pub mod Numbers
pub mod Hex
pub mod Format
pub mod Text
pub mod Pieces
pub mod Convert
pub mod Render
mod Tests
use sysrv.Prelude.{
  ℕ, zero, suc, ◌+◌, ◌-◌, ◌*◌, ◌/◌, ◌%◌, ◌^◌, Bool, true, false, ◌&&◌, List, [], ◌∷◌, ◌++◌, Outcome,
  done, fault, out_of_fuel, ◌>>=◌, get_or, ltb, leb, ◌==◌, if◌then◌else◌, bit_and,
}
use sysrv.Word.{u32, u64}
use sysrv.Memory.{Memory, load}

-- `digits`
abbrev pub digits : List ℕ
digits =
    b'0' ∷ b'1' ∷ b'2' ∷ b'3' ∷ b'4' ∷ b'5' ∷ b'6' ∷ b'7' ∷ b'8' ∷ b'9' ∷ b'A' ∷ b'B' ∷ b'C' ∷ b'D'
    ∷ b'E' ∷ b'F' ∷ []

abbrev pub digit : ℕ → ℕ
digit k = get_or digits k 0

-- The do-while loop of `printf_internal_Number` and `printf_internal_ULong`, at a number that is not
-- negative.
unfoldable pub decimal_loop : ℕ → ℕ → Outcome (List ℕ)
decimal_loop zero number = out_of_fuel
decimal_loop (suc fuel) number =
    if number / 10 == 0
    then done (digit (number % 10) ∷ [])
    else (decimal_loop fuel (number / 10) >>= λ rest. done (digit (number % 10) ∷ rest))

abbrev pub length32 : List ℕ → ℕ
length32 [] = 0
length32 (c ∷ cs) = u32 (length32 cs + 1)

-- The sign bit of an `int`.
abbrev pub is_negative : ℕ → Bool
is_negative n = leb (2 ^ 31) n

-- `printf_internal_Number`: the bytes written and the count returned, which has one for each digit.
-- The negation in the source is `number -= number`.
unfoldable pub print_number : ℕ → Outcome (List ℕ × ℕ)
print_number number = do
  let magnitude = if is_negative number then u32 (number + 2 ^ 32 - number) else number
  ds ← decimal_loop 20 magnitude
  done ((if is_negative number then b'-' ∷ ds else ds), length32 ds)

-- `printf_internal_ULong`
unfoldable pub print_ulong : ℕ → Outcome (List ℕ × ℕ)
print_ulong number = do ds ← decimal_loop 20 number; done (ds, length32 ds)

-- The first loop of the hexadecimal printers, with the lift to at least one digit.
unfoldable pub count_hex : ℕ → ℕ → ℕ
count_hex zero i = 0
count_hex (suc fuel) i = if ltb 0 i then suc (count_hex fuel (i / 2 ^ 4)) else 0

unfoldable pub hex_digits : ℕ → ℕ
hex_digits number =
    let value_digits = count_hex 16 number in if value_digits == 0 then 1 else value_digits

-- The larger of the digits of the value and the width, where the width is a positive `int`.
abbrev pub padded_width : ℕ → ℕ → ℕ
padded_width value_digits zero_pad_width =
    if ltb zero_pad_width (2 ^ 31) && ltb value_digits zero_pad_width
    then zero_pad_width
    else value_digits

-- The second loop, with `left` digits to go; the index `i` of the source is `left - 1`.
unfoldable pub hex_loop : ℕ → ℕ → ℕ → List ℕ
hex_loop zero value_digits number = []
hex_loop (suc i) value_digits number =
    (if leb value_digits i then b'0' else digit (bit_and (number / 2 ^ (i * 4)) 0xf))
    ∷ hex_loop i value_digits number

-- `printf_internal_HexPadded` and `printf_internal_HexULongPadded`, which differ in the type of the
-- number.
unfoldable pub print_hex : ℕ → ℕ → List ℕ × ℕ
print_hex number zero_pad_width =
    let value_digits = hex_digits number in
    let digits_to_print = padded_width value_digits zero_pad_width in
    (hex_loop digits_to_print value_digits number, digits_to_print)

-- The loop of `printf_internal_ParseZeroPadWidth`: the width and the index after it.
unfoldable pub width_loop : ℕ → Memory → ℕ → ℕ → ℕ → Outcome (ℕ × ℕ)
width_loop zero m format index zero_pad_width = out_of_fuel
width_loop (suc fuel) m format index zero_pad_width = do
  c ← load m (format + index)
  if leb b'0' c && leb c b'9'
      then width_loop fuel m format (index + 1) (u32 (u32 (zero_pad_width * 10) + (c - b'0')))
      else done (zero_pad_width, index)

-- `printf_internal_ParseZeroPadWidth`
unfoldable pub parse_zero_pad_width : ℕ → Memory → ℕ → ℕ → Outcome (ℕ × ℕ)
parse_zero_pad_width fuel m format index = do
  c ← load m (format + index)
  if c == b'0' then width_loop fuel m format (index + 1) 0 else done (0, index)

-- `printf_internal_String`: the bytes written; the count returned is their number.
unfoldable pub string_loop : ℕ → Memory → ℕ → ℕ → Outcome (List ℕ)
string_loop zero m string curr_index = out_of_fuel
string_loop (suc fuel) m string curr_index = do
  c ← load m (string + curr_index)
  if c == 0
      then done []
      else (string_loop fuel m string (curr_index + 1) >>= λ rest. done (c ∷ rest))

-- `__builtin_va_arg`: the next argument word. Reading past the last is a fault.
abbrev pub next_arg : List ℕ → Outcome (ℕ × List ℕ)
next_arg [] = fault
next_arg (a ∷ args) = done (a, args)

-- What one turn of the format loop comes to: the bytes written, how many are counted, the index
-- behind what it has read, and the arguments left.
pub record Turn : Type 0 where
  pub bytes : List ℕ
  pub counted : ℕ
  pub index : ℕ
  pub args : List ℕ

-- `case 'l'`, with `index` at the `l`.
unfoldable pub long_conversion : Memory → ℕ → ℕ → ℕ → List ℕ → Outcome Turn
long_conversion m format index zero_pad_width args = do
  next_format_char ← load m (format + (index + 1))
  if next_format_char == b'x'
      then (do
        (val, rest) ← next_arg args
        let (bytes, n) = print_hex (u64 val) zero_pad_width
        done (record { bytes = bytes; counted = n; index = index + 1; args = rest }))
      else if next_format_char == b'u'
      then (do
        (val, rest) ← next_arg args
        (bytes, n) ← print_ulong (u64 val)
        done (record { bytes = bytes; counted = n; index = index + 1; args = rest }))
      else done (record { bytes = []; counted = 0; index = index + 1; args = args })

-- The `switch` at `format[index]`.
unfoldable pub conversion : ℕ → Memory → ℕ → ℕ → ℕ → List ℕ → Outcome Turn
conversion fuel m format index zero_pad_width args = do
  format_char ← load m (format + index)
  if format_char == b'l'
      then long_conversion m format index zero_pad_width args
      else if format_char == b'c'
      then (do
        (val, rest) ← next_arg args
        done (record { bytes = val % 256 ∷ []; counted = 1; index = index; args = rest }))
      else if format_char == b'd'
      then (do
        (val, rest) ← next_arg args
        (bytes, n) ← print_number (u32 val)
        done (record {
          bytes = bytes;
          counted = (if is_negative (u32 val) then u32 (n + 1) else n);
          index = index;
          args = rest;
        }))
      else if format_char == b'x'
      then (do
        (val, rest) ← next_arg args
        let (bytes, n) = print_hex (u32 val) zero_pad_width
        done (record { bytes = bytes; counted = n; index = index; args = rest }))
      else if format_char == b's'
      then (do
        (s, rest) ← next_arg args
        bytes ← string_loop fuel m s 0
        done (record { bytes = bytes; counted = length32 bytes; index = index; args = rest }))
      else if format_char == b'%'
      then done (record { bytes = b'%' ∷ []; counted = 1; index = index; args = args })
      else done (record { bytes = []; counted = 0; index = index; args = args })

-- The body of the loop at a character that is not NUL.
unfoldable pub turn : ℕ → Memory → ℕ → ℕ → ℕ → List ℕ → Outcome Turn
turn fuel m format index character args =
    if character == b'%'
    then (do
      (zero_pad_width, index') ← parse_zero_pad_width fuel m format (index + 1)
      t ← conversion fuel m format index' zero_pad_width args
      done (record t { index = t.index + 1 }))
    else done (record { bytes = character ∷ []; counted = 1; index = index + 1; args = args })

-- `printf_internal` from `format[index]` on: the bytes still written, and the count returned.
unfoldable pub printf_loop : ℕ → Memory → ℕ → ℕ → ℕ → List ℕ → Outcome (List ℕ × ℕ)
printf_loop zero m format index num_written args = out_of_fuel
printf_loop (suc fuel) m format index num_written args = do
  character ← load m (format + index)
  if character == 0 then done ([], num_written) else do
    t ← turn fuel m format index character args
    (rest, total) ← printf_loop fuel m format t.index (u32 (num_written + t.counted)) t.args
    done (t.bytes ++ rest, total)

-- `kprintf`, `kvprintf`
unfoldable pub kprintf : ℕ → Memory → ℕ → List ℕ → Outcome (List ℕ × ℕ)
kprintf fuel m format args = printf_loop fuel m format 0 0 args
