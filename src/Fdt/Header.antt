-- ===== src/Fdt/Header.antt =====
-- The constants of kernel/drivers/fdt/fdt.c and the layout of the header in kernel/drivers/fdt/fdt.h.
use sysrv.Prelude.{ℕ}

abbrev pub fdt_magic : ℕ
fdt_magic = 0xD00DFEED

abbrev pub fdt_begin_node : ℕ
fdt_begin_node = 1

abbrev pub fdt_end_node : ℕ
fdt_end_node = 2

abbrev pub fdt_prop : ℕ
fdt_prop = 3

abbrev pub fdt_end : ℕ
fdt_end = 9

-- The offsets of the fields of `struct fdt_header` that the code reads.
abbrev pub totalsize_offset : ℕ
totalsize_offset = 4

abbrev pub off_dt_struct_offset : ℕ
off_dt_struct_offset = 8

abbrev pub off_dt_strings_offset : ℕ
off_dt_strings_offset = 12

abbrev pub size_dt_struct_offset : ℕ
size_dt_struct_offset = 36
