-- ===== src/Fdt/ImageTests.antt =====
-- A small blob, from its bytes to the answer (kernel/drivers/fdt/fdt.c).
use sysrv.Prelude.{
  heads_differ, codes, ℕ, ◌+◌, ◌*◌, ◌^◌, ◌≡◌, refl, true, List, [], ◌∷◌, ◌++◌, none, done, ◌>>=◌,
  get_elem?, length, replicate, arith,
}
use sysrv.Memory.{Memory}
use sysrv.Memory.Checks.{bytes_at-BytesAt, is_string-IsString}
use sysrv.Fdt.{Fdt, FdtNode, read32, load32, parse_tree, get_memory_size, init}
use sysrv.Fdt.Tokens.{be32, encode, AreTokens, apply_tokens}
use sysrv.Fdt.Parse.{parse_tree-apply_tokens}
use sysrv.Fdt.Tree.{Property, node, Trees, nil, cons, tokens, weight}
use sysrv.Fdt.Grow.{taken}
use sysrv.Fdt.Frames.{FitAll, no_slots}
use sysrv.Fdt.Image.{IsBlob, IsRoot, init-IsRoot}
use sysrv.Fdt.Query.{HasMemory, init-get_memory_size}

-- A root with a property, and the children "cpus" and "mem", with a size of 128 MiB.
abbrev root_properties : List Property
root_properties = (4, 1 ∷ 2 ∷ []) ∷ []

abbrev children : Trees
children = cons (node (codes "cpus") [] nil) (
    cons (node (codes "mem") ((4, 7 ∷ []) ∷ (0, replicate 12 9 ++ (be32 0x8000000 ++ [])) ∷ []) nil)
      nil)

abbrev block : List ℕ
unfolding tokens
block = encode (tokens (node [] root_properties children))

-- The strings "reg" and "dt", and the two names that are asked for.
abbrev strings : List ℕ
strings = codes "reg" ++ (0 ∷ codes "dt" ++ (0 ∷ codes "mem" ++ (0 ∷ [])))

abbrev bytes : List ℕ
bytes =
    be32 0xD00DFEED
    ++ be32 0
    ++ be32 40
    ++ be32 (40 + length block)
    ++ replicate 20 0
    ++ be32 (length block)
    ++ block
    ++ strings

abbrev ram : Memory
ram a = get_elem? bytes a

abbrev fresh : ℕ → FdtNode
fresh _ = record { parent = 1; children = no_slots; properties = no_slots; name = 1 }

abbrev before : Fdt
before = record {
  fdt_info_block = 0;
  root_node = 0;
  heap = record { curr_kalloc_eternal_address = 0x1000; kalloc_eternal_end = 0x2000 };
  nodes = λ _. none;
  node_properties = λ _. none;
}

blob : IsBlob ram 0 root_properties children
unfolding block tokens read32 load32
blob = record {
  off_dt_struct = 40;
  size_dt_struct = 104 * 2 ^ 24;
  strings = 144;
  magic = refl;
  struct_at = refl;
  strings_at = refl;
  size_at = refl;
  block = bytes_at-BytesAt ram 40 block refl;
  inside = omega arith;
  small = omega arith;
}

children-FitAll : FitAll children
unfolding FitAll
children-FitAll = ground arith

children-AreTokens : AreTokens 4 (tokens (node [] root_properties children))
unfolding tokens
children-AreTokens = ground arith

parse_tree-apply_tokens_example :
    parse_tree 30 ram fresh before
    ≡ apply_tokens ram fresh 40 (tokens (node [] root_properties children)) 0 before
unfolding block tokens blob
parse_tree-apply_tokens_example =
    parse_tree-apply_tokens 30 4 40 (104 * 2 ^ 24) ram fresh before
      (tokens (node [] root_properties children)) blob.struct_at blob.size_at blob.block
      children-AreTokens (omega arith) (omega arith) (omega arith)

init-IsRoot_example :
    (s' : Fdt) × (init 30 ram fresh 0 before ≡ done (true, s'))
    × (s'.heap ≡ taken before.heap (weight (node [] root_properties children)))
    × (s'.fdt_info_block ≡ 0)
    × IsRoot ram s' 0x1000 root_properties children
unfolding tokens
init-IsRoot_example =
    init-IsRoot 30 4 0 ram fresh before root_properties children (λ _. (refl, refl)) blob
      (omega arith) (omega arith) children-FitAll children-AreTokens (omega arith, omega arith)
      (omega arith) (omega arith)

children-HasMemory : HasMemory ram 0 144 (codes "mem") (codes "reg") children 0x8000000
unfolding block tokens blob
children-HasMemory = record {
  before = cons (node (codes "cpus") [] nil) nil;
  after = nil;
  kids = nil;
  others = (4, 7 ∷ []) ∷ [];
  rest = [];
  nameoff = 0;
  head = replicate 12 9;
  tail = [];
  split = refl;
  first = (heads_differ (omega arith), tt);
  first_property =
      ((codes "dt", heads_differ (omega arith), is_string-IsString ram 148 (codes "dt") refl), tt);
  called = is_string-IsString ram 144 (codes "reg") refl;
  head_length = refl;
  word = omega arith;
}

init-get_memory_size_example :
    (init 30 ram fresh 0 before >>= λ r. get_memory_size 30 ram r.1 151 144) ≡ done 0x8000000
unfolding block tokens blob
init-get_memory_size_example =
    init-get_memory_size 30 4 0 151 144 0x8000000 ram fresh before root_properties children
      (codes "mem") (codes "reg") (λ _. (refl, refl)) blob (omega arith) (omega arith)
      children-FitAll children-AreTokens (omega arith, omega arith) (omega arith) (omega arith)
      (is_string-IsString ram 151 (codes "mem") refl)
      (is_string-IsString ram 144 (codes "reg") refl) (omega arith) (omega arith) (omega arith)
      children-HasMemory
