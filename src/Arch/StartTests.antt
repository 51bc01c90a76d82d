-- ===== src/Arch/StartTests.antt =====
-- A start of the kernel that comes to its end (kernel/arch/rv64/init.c).
use sysrv.Prelude.{
  ℕ, ◌+◌, ◌*◌, ◌/◌, ◌%◌, ◌^◌, ◌≡◌, refl, List, [], ◌∷◌, ◌++◌, none, done, get_elem?, get_or, codes,
  length, replicate, arith,
}
use sysrv.Memory.{Memory}
use sysrv.Memory.Checks.{bytes_at-BytesAt, is_string-IsString}
use sysrv.Kpalloc.{Kpalloc}
use sysrv.Kstdio.Pieces.{Prints}
use sysrv.Hal.{Csrs}
use sysrv.Fdt.{Fdt, FdtNode, read32, load32}
use sysrv.Fdt.Tokens.{be32, encode}
use sysrv.Fdt.Tree.{node, Trees, nil, cons, tokens, weight}
use sysrv.Fdt.Frames.{FitAll, no_slots}
use sysrv.Fdt.Image.{IsBlob}
use sysrv.Fdt.Query.{HasMemory}
use sysrv.Arch.{BootInfo, Image, Booted, in_kmain, arch_init}
use sysrv.Arch.Regions.{Lies, is_taken}
use sysrv.Kpalloc.Spare.{alloc_pages}
use sysrv.Arch.Pages.{HasPages, AreOutside}
use sysrv.Arch.Start.{greeting, farewell, detected_line, HasTexts, arch_init_lem}

-- 512 KiB of memory.
abbrev children : Trees
children =
    cons (node (codes "memory@80000000") ((0, replicate 12 0 ++ (be32 0x80000 ++ [])) ∷ []) nil) nil

abbrev block : List ℕ
unfolding tokens
block = encode (tokens (node [] [] children))

abbrev blob_bytes : List ℕ
blob_bytes =
    be32 0xD00DFEED
    ++ be32 112
    ++ be32 40
    ++ be32 (40 + length block)
    ++ replicate 20 0
    ++ be32 (length block)
    ++ block
    ++ codes "reg"
    ++ (0 ∷ [])

-- At the multiples of 200: a word, five strings and the blob.
abbrev parts : List (List ℕ)
parts =
    replicate 4 0
    ∷ (greeting ++ (0 ∷ []))
    ∷ (codes "%lx bytes of RAM detected @ 0x%lx\n" ++ (0 ∷ []))
    ∷ (farewell ++ (0 ∷ []))
    ∷ (codes "memory@80000000" ++ (0 ∷ []))
    ∷ (codes "reg" ++ (0 ∷ []))
    ∷ blob_bytes
    ∷ []

abbrev ram : Memory
ram a = get_elem? (get_or parts (a / 200) []) (a % 200)

abbrev image : Image
image = record {
  bringing_up = 200;
  detected = 400;
  hello = 600;
  memory_name = 800;
  reg = 1000;
  trap_handler = 0xFFFFFFFF00002100;
  kernel_virtual_start = 0xFFFFFFFF00002000;
  kernel_virtual_end = 0xFFFFFFFF00005000;
}

abbrev boot_info : BootInfo
boot_info = record {
  kernel_physical_address = 0x2000;
  kernel_load_offset = 0x2000;
  fdt_ptr = 1200;
  physical_memory_base = 0;
}

abbrev fresh : ℕ → FdtNode
fresh _ = record { parent = 0; children = no_slots; properties = no_slots; name = 0 }

abbrev before : Fdt
before = record {
  fdt_info_block = 0;
  root_node = 0;
  heap = record { curr_kalloc_eternal_address = 0x4000; kalloc_eternal_end = 0x5000 };
  nodes = λ _. none;
  node_properties = λ _. none;
}

abbrev no_pages : Kpalloc
no_pages = record {
  page_bitmap = [];
  free_pages = 0;
  phys_base_address = 0;
  bitmap_entry_count = 0;
}

abbrev csrs : Csrs
csrs = record { sstatus = 0; stvec = 0 }

texts : HasTexts ram image
unfolding block tokens
texts = record {
  bringing_up = is_string-IsString ram 200 greeting refl;
  detected = is_string-IsString ram 400 (codes "%lx bytes of RAM detected @ 0x%lx\n") refl;
  hello = is_string-IsString ram 600 farewell refl;
  memory_name = is_string-IsString ram 800 (codes "memory@80000000") refl;
  reg = is_string-IsString ram 1000 (codes "reg") refl;
}

null : load32 ram 0 ≡ done 0
unfolding load32
null = refl

blob : IsBlob ram 1200 [] children
unfolding block tokens read32 load32
blob = record {
  off_dt_struct = 40;
  size_dt_struct = 68 * 2 ^ 24;
  strings = 108;
  magic = refl;
  struct_at = refl;
  strings_at = refl;
  size_at = refl;
  block = bytes_at-BytesAt ram 1240 block refl;
  inside = omega arith;
  small = omega arith;
}

children-HasMemory : HasMemory ram 1200 108 (codes "memory@80000000") (codes "reg") children 0x80000
unfolding block tokens
children-HasMemory = record {
  before = nil;
  after = nil;
  kids = nil;
  others = [];
  rest = [];
  nameoff = 0;
  head = replicate 12 0;
  tail = [];
  split = refl;
  first = tt;
  first_property = tt;
  called = is_string-IsString ram 1308 (codes "reg") refl;
  head_length = refl;
  word = omega arith;
}

lies : Lies ram image boot_info 0 128
unfolding block tokens read32 load32
lies = record {
  size = 112;
  i = 0;
  r = 1200;
  k = 2;
  q = 0;
  size_at = refl;
  size_fits = omega arith;
  blob_at = refl;
  blob_in = omega arith;
  blob_first = omega arith;
  blob_fits = omega arith;
  kernel_at = refl;
  kernel_in = omega arith;
  kernel_first = omega arith;
  kernel_fits = omega arith;
}

arch_init_lem_example :
    (b : Booted) × (line : List ℕ) × (arch_init 100 ram
        (λ _. 0)
        fresh
        image
        boot_info
        before
        no_pages
        csrs
      ≡ done b)
    × (b.result ≡ in_kmain)
    × (b.csrs ≡ record csrs { stvec = 0xFFFFFFFF00002100 })
    × Prints ram detected_line (0x80000 ∷ 0 ∷ []) line
    × (b.output ≡ greeting ++ line ++ farewell)
    × HasPages b.kpalloc (λ _. 0) 0 (0x4000 + weight (node [] [] children)) 128 (is_taken lies)
    × ((count : ℕ)
        → (pages : List ℕ) × (s' : Kpalloc) × (alloc_pages count b.kpalloc ≡ done (pages, s'))
          × (length pages ≡ count)
          × AreOutside 0 (is_taken lies) pages)
unfolding block tokens blob FitAll
arch_init_lem_example =
    arch_init_lem 100 15 0x80000 0 ram (λ _. 0) fresh image boot_info before no_pages csrs []
      children texts null (λ _. omega arith) (λ _. (refl, refl)) blob (omega arith) (omega arith)
      (ground arith) (ground arith) children-HasMemory lies (omega arith) (omega arith)
      (omega arith) (omega arith) (omega arith)
