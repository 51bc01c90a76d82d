-- ===== src/Arch/Start.antt =====
-- The kernel comes up (kernel/arch/rv64/init.c).
use sysrv.Prelude.{
  ℕ, ◌+◌, ◌*◌, ◌≤◌, ◌<◌, ◌^◌, ◌≡◌, refl, sym, ap, subst, List, [], ◌∷◌, ◌++◌, map, done, codes,
  length, arith,
}
use sysrv.Memory.{Memory, IsString}
use sysrv.Kpalloc.{Kpalloc}
use sysrv.Kpalloc.Init.{
  entries, initial, initial-IsValid, used-initial, length-read_words, init_page_allocator-initial,
}
use sysrv.Kstdio.Pieces.{Piece, text, converted, unpadded, long_hex, Prints}
use sysrv.Kstdio.Text.{kprintf_text}
use sysrv.Kstdio.Render.{kprintf-Prints}
use sysrv.Hal.{Csrs, install_trap_handler}
use sysrv.Fdt.{Fdt, FdtNode, load32, get_memory_size}
use sysrv.Fdt.Tokens.{AreTokens}
use sysrv.Fdt.Tree.{Property, node, Trees, tokens, weight, count_trees}
use sysrv.Fdt.Grow.{taken}
use sysrv.Fdt.Frames.{FitAll, IsClear}
use sysrv.Fdt.Image.{IsBlob, init-IsRoot}
use sysrv.Fdt.Query.{HasMemory, get_memory_size_lem}
use sysrv.Arch.{BootInfo, Image, Booted, in_kmain, start_memory, arch_init}
use sysrv.Kpalloc.Spare.{alloc_pages}
use sysrv.Arch.Pages.{HasPages, AreOutside, alloc_pages-AreOutside}
use sysrv.Arch.Regions.{Lies, is_taken, mark_regions_lem}

abbrev pub greeting : List ℕ
greeting = codes "The System is being brought up...\n"

abbrev pub farewell : List ℕ
farewell = codes "Hello, World!\n"

abbrev pub detected_line : List Piece
detected_line =
    converted unpadded long_hex ∷ map text (codes " bytes of RAM detected @ 0x")
    ++ (converted unpadded long_hex ∷ map text (codes "\n"))

-- The string constants of the source.
pub record HasTexts (m : Memory) (image : Image) : Type 0 where
  pub bringing_up : IsString m image.bringing_up greeting
  pub detected : IsString m image.detected (codes "%lx bytes of RAM detected @ 0x%lx\n")
  pub hello : IsString m image.hello farewell
  pub memory_name : IsString m image.memory_name (codes "memory@80000000")
  pub reg : IsString m image.reg (codes "reg")

module _ (m : Memory) (words : ℕ → ℕ) (image : Image) (boot_info : BootInfo)
    (texts : HasTexts m image) (words_fit : (a : ℕ) → words a < 2 ^ 64) (w v : ℕ)
    (null : load32 m 0 ≡ done v) where
  start_memory_lem :
      (fuel : ℕ) (fdt : Fdt) (csrs : Csrs) (output : List ℕ)
      (lies : Lies m image boot_info boot_info.physical_memory_base (64 * entries w))
      → 64 < fuel
      → get_memory_size fuel m fdt image.memory_name image.reg ≡ done w
      → fdt.fdt_info_block ≡ boot_info.fdt_ptr
      → boot_info.physical_memory_base + w < 2 ^ 64
      → fdt.heap.kalloc_eternal_end < 2 ^ 64
      → fdt.heap.curr_kalloc_eternal_address + 8 * entries w < fdt.heap.kalloc_eternal_end
      → (b : Booted) × (line : List ℕ) × (start_memory fuel m words image boot_info fdt csrs output
          ≡ done b)
        × (b.result ≡ in_kmain)
        × (b.csrs ≡ csrs)
        × Prints m detected_line (w ∷ boot_info.physical_memory_base ∷ []) line
        × (b.output ≡ output ++ line ++ farewell)
        × HasPages b.kpalloc words boot_info.physical_memory_base
            fdt.heap.curr_kalloc_eternal_address
            (64 * entries w)
            (is_taken lies)
  unfolding start_memory
  start_memory_lem fuel fdt csrs output lies enough size_of block fits top room =
      let base = boot_info.physical_memory_base in
      let p = fdt.heap.curr_kalloc_eternal_address in
      let (line, shown, printed) =
        kprintf-Prints fuel image.detected 0 m detected_line (w ∷ base ∷ []) texts.detected
          (omega arith) tt (omega arith) in
      let hello =
        kprintf_text fuel image.hello m [] farewell texts.hello (ground arith) (omega arith) in
      let set_up = init_page_allocator-initial words fdt.heap base w (omega arith) top room in
      let s0 = initial words p base w in
      let len : length s0.page_bitmap ≡ entries w = length-read_words words (entries w) p in
      let (out, marked, valid, same_length, same_base, pages) =
        mark_regions_lem m image boot_info fdt s0 (64 * entries w) lies (omega arith)
          (initial-IsValid words p base w words_fit fits) block in
      (
        record {
          result = in_kmain;
          fdt = record fdt { heap = taken fdt.heap (8 * entries w) };
          kpalloc = out;
          csrs = csrs;
          output = output ++ line ++ farewell;
        },
        line,
        rw (size_of, printed, set_up, marked, null, hello) refl,
        refl,
        refl,
        shown,
        refl,
        record {
          valid = valid;
          based = same_base;
          covers = omega arith;
          bits = λ j h. rw (← used-initial words p base w j h) (pages j);
        },
      )

-- With the string constants of the source in the memory; a blob as for `init-IsRoot` that has a node
-- "memory@80000000" with a word `w` at byte 12 of its "reg", before which nothing is called so; room in
-- the eternal heap for the tree and for a bitmap of `w` bytes of memory; a blob and a kernel that lie in
-- the pages of that bitmap; and a word at NULL that can be read: the start comes to `kmain`. The trap
-- handler is installed, the two messages and between them the size and the base are written, the
-- allocator is valid, and in use are the pages counted for the blob and for the kernel; the bits of
-- the others are those that the memory of the bitmap held. However often a page is allocated then, it
-- is none of those counted for the blob and for the kernel.
pub arch_init_lem :
    (fuel most w v : ℕ) (m : Memory) (words : ℕ → ℕ) (found : ℕ → FdtNode) (image : Image)
    (boot_info : BootInfo) (fdt : Fdt) (kpalloc : Kpalloc) (csrs : Csrs) (ps : List Property)
    (ts : Trees)
    → HasTexts m image
    → load32 m 0 ≡ done v
    → ((a : ℕ) → words a < 2 ^ 64)
    → IsClear found
    → (blob : IsBlob m boot_info.fdt_ptr ps ts) → length ps ≤ 16
    → count_trees ts ≤ 15
    → FitAll ts
    → AreTokens most (tokens (node [] ps ts))
    → HasMemory m boot_info.fdt_ptr blob.strings (codes "memory@80000000") (codes "reg") ts w
    → (lies : Lies m image boot_info boot_info.physical_memory_base (64 * entries w))
    → boot_info.physical_memory_base + w < 2 ^ 64
    → fdt.heap.kalloc_eternal_end < 2 ^ 64
    → fdt.heap.curr_kalloc_eternal_address + weight (node [] ps ts) + 8 * entries w
      < fdt.heap.kalloc_eternal_end
    → 0 < fdt.heap.curr_kalloc_eternal_address
    → 2 * length (tokens (node [] ps ts)) + most + 64 < fuel
    → (b : Booted) × (line : List ℕ) × (arch_init fuel m words found image boot_info fdt kpalloc
          csrs
        ≡ done b)
      × (b.result ≡ in_kmain)
      × (b.csrs ≡ record csrs { stvec = image.trap_handler })
      × Prints m detected_line (w ∷ boot_info.physical_memory_base ∷ []) line
      × (b.output ≡ greeting ++ line ++ farewell)
      × HasPages b.kpalloc words boot_info.physical_memory_base
          (fdt.heap.curr_kalloc_eternal_address + weight (node [] ps ts))
          (64 * entries w)
          (is_taken lies)
      × ((count : ℕ)
          → (pages : List ℕ) × (s' : Kpalloc) × (alloc_pages count b.kpalloc ≡ done (pages, s'))
            × (length pages ≡ count)
            × AreOutside boot_info.physical_memory_base (is_taken lies) pages)
unfolding arch_init install_trap_handler
arch_init_lem fuel most w v m words found image boot_info fdt kpalloc csrs ps ts texts null
      words_fit clear blob pn cn fit short has lies fits top room pos enough =
    let p = fdt.heap.curr_kalloc_eternal_address in
    let hello =
      kprintf_text fuel image.bringing_up m [] greeting texts.bringing_up (ground arith)
        (omega arith) in
    let (s', parsed, heap, block, root) =
      init-IsRoot fuel most boot_info.fdt_ptr m found fdt ps ts clear blob pn cn fit short
        (omega arith, omega arith) pos (omega arith) in
    let size_of =
      get_memory_size_lem fuel image.memory_name image.reg p blob.strings w m s' ps ts
        (codes "memory@80000000") (codes "reg") root (rw block blob.strings_at) texts.memory_name
        texts.reg (omega arith) (omega arith) (omega arith)
        (subst (λ q. HasMemory m q blob.strings (codes "memory@80000000") (codes "reg") ts w)
          (sym block) has) in
    let at_end : s'.heap.curr_kalloc_eternal_address ≡ p + weight (node [] ps ts) =
      ap (λ a. a.curr_kalloc_eternal_address) heap in
    let same_end : s'.heap.kalloc_eternal_end ≡ fdt.heap.kalloc_eternal_end =
      ap (λ a. a.kalloc_eternal_end) heap in
    let (b, line, r, result, handler, shown, output, pages) =
      start_memory_lem m words image boot_info texts words_fit w v null fuel s'
        (record csrs { stvec = image.trap_handler }) greeting lies (omega arith) size_of block fits
        (omega arith) (omega arith) in
    let at_p =
      subst
        (λ q.
          HasPages b.kpalloc words boot_info.physical_memory_base q (64 * entries w)
            (is_taken lies))
        at_end pages in
    (
      b,
      line,
      rw (hello, parsed) r,
      result,
      handler,
      shown,
      output,
      at_p,
      alloc_pages-AreOutside b.kpalloc words boot_info.physical_memory_base
          (p + weight (node [] ps ts)) (64 * entries w) (is_taken lies) at_p,
    )
