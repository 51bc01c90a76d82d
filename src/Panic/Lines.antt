-- ===== src/Panic/Lines.antt =====
-- The nine lines of a panic (kernel/panic.c) as the formats that stand in the source.
use sysrv.Prelude.{codes, ℕ, String, List, [], ◌∷◌, ◌++◌, map}
use sysrv.Memory.{Memory, IsString}
use sysrv.Cpu.{CpuContext}
use sysrv.Kstdio.Pieces.{Piece, text, converted, unpadded, padded, number, string, long_hex}
use sysrv.Panic.{Formats}

-- Labels, each with a register of 16 hexadecimal digits behind it.
abbrev pub registers_line : List String → List Piece
registers_line [] = text 10 ∷ []
registers_line (label ∷ labels) =
    map text (codes label) ++ (converted (padded (1 ∷ 6 ∷ [])) long_hex ∷ registers_line labels)

abbrev pub panic_line : List Piece
panic_line =
    map text (codes "panic[cpu")
    ++ (converted unpadded number ∷ map text (codes "]: ")
        ++ (converted unpadded string ∷ text 10 ∷ []))

-- What is written for a context: each line with its registers.
abbrev pub dump_lines : CpuContext → List (List Piece × List ℕ)
dump_lines c =
    (
      registers_line ("ra: 0x" ∷ " sp:  0x" ∷ " gp:  0x" ∷ " tp: 0x" ∷ []),
      c.ra ∷ c.sp ∷ c.gp ∷ c.tp ∷ [],
    )
    ∷ (
      registers_line ("t0: 0x" ∷ " t1:  0x" ∷ " t2:  0x" ∷ " s0: 0x" ∷ []),
      c.t0 ∷ c.t1 ∷ c.t2 ∷ c.s0 ∷ [],
    )
    ∷ (
      registers_line ("s1: 0x" ∷ " a0:  0x" ∷ " a1:  0x" ∷ " a2: 0x" ∷ []),
      c.s1 ∷ c.a0 ∷ c.a1 ∷ c.a2 ∷ [],
    )
    ∷ (
      registers_line ("a3: 0x" ∷ " a4:  0x" ∷ " a5:  0x" ∷ " a6: 0x" ∷ []),
      c.a3 ∷ c.a4 ∷ c.a5 ∷ c.a6 ∷ [],
    )
    ∷ (
      registers_line ("a7: 0x" ∷ " s2:  0x" ∷ " s3:  0x" ∷ " s4: 0x" ∷ []),
      c.a7 ∷ c.s2 ∷ c.s3 ∷ c.s4 ∷ [],
    )
    ∷ (
      registers_line ("s5: 0x" ∷ " s6:  0x" ∷ " s7:  0x" ∷ " s8: 0x" ∷ []),
      c.s5 ∷ c.s6 ∷ c.s7 ∷ c.s8 ∷ [],
    )
    ∷ (
      registers_line ("s9: 0x" ∷ " s10: 0x" ∷ " s11: 0x" ∷ " t3: 0x" ∷ []),
      c.s9 ∷ c.s10 ∷ c.s11 ∷ c.t3 ∷ [],
    )
    ∷ (registers_line ("t4: 0x" ∷ " t5:  0x" ∷ " t6:  0x" ∷ []), c.t4 ∷ c.t5 ∷ c.t6 ∷ [])
    ∷ []

-- The string constants of the source stand in the memory.
pub record HasFormats (m : Memory) (f : Formats) : Type 0 where
  pub panic_line : IsString m f.panic_line (codes "panic[cpu%d]: %s\n")
  pub ra_line :
      IsString m f.ra_line (codes "ra: 0x%016lx sp:  0x%016lx gp:  0x%016lx tp: 0x%016lx\n")
  pub t0_line :
      IsString m f.t0_line (codes "t0: 0x%016lx t1:  0x%016lx t2:  0x%016lx s0: 0x%016lx\n")
  pub s1_line :
      IsString m f.s1_line (codes "s1: 0x%016lx a0:  0x%016lx a1:  0x%016lx a2: 0x%016lx\n")
  pub a3_line :
      IsString m f.a3_line (codes "a3: 0x%016lx a4:  0x%016lx a5:  0x%016lx a6: 0x%016lx\n")
  pub a7_line :
      IsString m f.a7_line (codes "a7: 0x%016lx s2:  0x%016lx s3:  0x%016lx s4: 0x%016lx\n")
  pub s5_line :
      IsString m f.s5_line (codes "s5: 0x%016lx s6:  0x%016lx s7:  0x%016lx s8: 0x%016lx\n")
  pub s9_line :
      IsString m f.s9_line (codes "s9: 0x%016lx s10: 0x%016lx s11: 0x%016lx t3: 0x%016lx\n")
  pub t4_line : IsString m f.t4_line (codes "t4: 0x%016lx t5:  0x%016lx t6:  0x%016lx\n")
