-- ===== src/Lib.antt =====
-- The sysrv kernel: a model of the C and assembly code under kernel/ and hal/, and theorems about it.
--
-- The parts, and where they stand:
--   kernel/mm/kalloc.c            Kalloc    the bump allocator behind early kernel data
--   kernel/mm/phys/kpalloc.c      Kpalloc   the bitmap of physical pages
--   kernel/lock/spinlock.c        Spinlock  the test-and-set lock with an owner
--   kernel/kstdlib/string.c       Kstring   memcpy, memset, strlen, strcmp, strncpy
--   kernel/kstdlib/stdio.c        Kstdio    the printers behind kprintf
--   hal/rv64/sv39_vm.c            Sv39      page table entries and the page table walk
--   hal/rv64/cpu.c, kernel/arch/rv64/exception.c
--                                 Cpu       saved registers, exception causes, the handler
--   kernel/arch/rv64/trap.s, hal/rv64/context.s
--                                 Trap      a trap from its first instruction to sret
--   kernel/boot/rv64/start.s      Entry     the boot page tables, the call of srv_arch_Init
--   kernel/drivers/fdt/fdt.c      Fdt       the parser of the device tree, and lookups in it
--   kernel/panic.c, kernel/arch/rv64/panic.s
--                                 Panic     what a panic writes, and its wrapper
--   hal/rv64/irq.c, hal/rv64/sbicall.c, hal/rv64/debug.c
--                                 Hal       control registers, the call of the firmware
--   kernel/arch/rv64/init.c, kernel/kmain.c
--                                 Arch      the order of the start
-- Prelude passes library names on and has the outcome of code that can panic; Word has the machine
-- words, Memory the byte memory that Kstring and Kstdio read, Rv64 the instructions of the assembly
-- files. The page allocator takes its bitmap from the eternal heap: `init_page_allocator` calls
-- `eternal_alloc`. So does the device tree for its nodes; it reads names with `strlen` and `strcmp`. A
-- panic writes with `kprintf` and reads the registers that Cpu has saved; a trap goes from Trap to Cpu and
-- on to Panic, all of which Trap/Report puts together. The start goes through the other parts: Arch/Start
-- is about it, and Entry/Boot puts the entry from the firmware before it.
--
-- How code becomes definitions:
--   * A function is a definition of the same name in snake case without its prefix (`alloc_page` for
--     srv_kpalloc_AllocPage). The static variables of a file are the fields of a record (`Kalloc`,
--     `Kpalloc`), which a function takes and returns. A loop is a definition of its own.
--   * The result is an `Outcome`: `done`, `panic` with the message of srv_KernelPanic, `fault` for an
--     access to memory that is not there, and `out_of_fuel`.
--   * uint64_t, size_t and pointers are natural numbers below 2^64, with the wrap-around of each
--     operation written out (`add64`, `sub64`, `mul64`). An int or int32_t that can be negative is kept
--     as its bit pattern, but for the result of strcmp, which is an integer. `char` is unsigned, as on
--     RISC-V.
--   * Memory gives the byte at an address, or none. The bitmap of the page allocator is a list of words;
--     an access past its end is a fault. Memory that the page allocator has just been given is a
--     parameter, since nothing clears it.
--   * The linker symbols that bound the eternal heap are one field of its state, the end of the heap.
--   * The lock is modelled twice: as functions of one processor, and in Spinlock/Steps as memory
--     accesses of up to SYSRV_MAX_CPUS = 8 processors, one at a time in any interleaving, each processor
--     in the order of its program. srv_KernelPanic does not return, so a processor in it takes no step.
--   * The headers rv64_vm.h and exception_types.h are not in the repository. What they define is a
--     parameter: the record `Layout` of the page number constants, and the record `Causes` of the
--     exception causes. The number of the executing processor is an argument, and so are the addresses
--     of string constants and the linker symbols.
--   * Page tables stand in a memory of 64-bit words; the walk returns the address of an entry, 0 for
--     NULL. As in the code, every valid entry that may be read, written or executed ends the walk, also
--     one with a reserved combination of these or a page number that is not aligned for its level.
--   * The blob of the device tree is byte memory that the parser does not change; nodes and properties
--     are records known by the address that the eternal heap gave them. What a node's memory holds
--     before is a parameter, as are the addresses of the strings "memory@80000000" and "reg".
--   * What a blob says is told apart from how it is read: Fdt/Tokens has the tokens of the structure
--     block and the bytes that encode them, Fdt/Tree trees, their tokens, and what it means that the
--     records in the heap are a tree. Kstdio/Pieces does the same for a format of kprintf: its pieces, its
--     text, and what is to be written for it; Kstdio/Numerals has the numerals, with bytes for digits that
--     do not come from the table of the source.
--   * Inline assembly is modelled by its instructions on numbered registers and on the two control
--     registers that are written. The firmware is a function of what it is given in `a7` and `a0`, and
--     it changes no register but `a0`; the registers of the operands are arguments.
--   * Assembly is a list of instructions on the registers, the control registers and a memory of 64-bit
--     words, `run` in order; `step` has one instruction. A call of C code sets `ra`, and what the compiled
--     code does to the registers and the memory is a parameter, which is asked to return and to keep to
--     the calling convention (`Conforms`); what it does to the saved registers is the model of the C
--     code. In the entry, code and data are seen through `view` once `satp` is set, a parameter that is
--     asked to translate gigapages as Sv39 does (`Translates`); that two virtual addresses can share a
--     physical word is not modelled.
--   * Bytes for srv_hal_WriteDebugChar are a list in the order of writing; variable arguments are a list
--     of words, and reading past its end is a fault.
--
-- Fuel: a loop with a counter in the source runs by that counter. The loops up to a NUL take a number
-- of rounds, and more rounds than the string has characters are enough. The loop that waits for a lock
-- has no bound in the source. For kprintf more rounds are enough than the format and the longest string
-- argument have characters together, and for the parser of the device tree more than two for each
-- token and one for each character of the longest name. A number below 2^64 has at most 20 decimal and
-- 16 hexadecimal digits, the rounds that the printers have.
--
-- Not modelled: the read of `tp` for the number of the processor and the instruction fence behind the
-- installation of the trap handler, which change no state of the model; the endless loops at the end of
-- a panic, of kmain and of the assembly, which are ends of a run here; what `sret` and `sfence.vma` do;
-- the linker script and the build scripts, which are no code of the kernel.
pub mod Prelude
pub mod Word
pub mod Memory
pub mod Rv64
pub mod Kalloc
pub mod Kpalloc
pub mod Spinlock
pub mod Kstring
pub mod Kstdio
pub mod Sv39
pub mod Cpu
pub mod Fdt
pub mod Panic
pub mod Hal
pub mod Arch
pub mod Trap
pub mod Entry
