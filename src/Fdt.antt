-- ===== src/Fdt.antt =====
-- kernel/drivers/fdt/fdt.c: the parser of the flattened device tree and the lookups in it. The blob is
-- byte memory. A node or a property is known by the address that the eternal heap gave it; `found`
-- is what the memory of a new node holds, since nothing clears it.
mod Header
pub mod Lookup
pub mod Nodes
pub mod Full
pub mod Tokens
pub mod Decode
pub mod Parse
pub mod Tree
pub mod Grow
pub mod Run
pub mod Properties
pub mod Frames
pub mod Nesting
pub mod Build
pub mod Image
pub mod Query
mod Tests
mod ImageTests
pub use Header.*
use sysrv.Prelude.{
  ℕ, zero, suc, ◌+◌, ◌-◌, ◌*◌, ◌/◌, ◌%◌, ◌^◌, Bool, true, false, List, [], ◌∷◌, Option, none, some,
  Outcome, done, fault, out_of_fuel, ◌>>=◌, expect, set, ltb, ◌==◌, if◌then◌else◌,
}
use sysrv.Prelude.Int.{ℤ, pos, negsuc}
use sysrv.Word.{u64, u32, add64, sub64}
use sysrv.Memory.{Memory, load}
use sysrv.Kalloc.{Kalloc, eternal_alloc}
use sysrv.Kstring.{strlen, strcmp}

-- `fdt_node_property_t`; pointers are addresses, 0 for NULL.
pub record FdtProperty : Type 0 where
  pub name : ℕ
  pub value : ℕ
  pub length : ℕ

-- `fdt_node_t`, with the 16 slots of each array.
pub record FdtNode : Type 0 where
  pub parent : ℕ
  pub children : List ℕ
  pub properties : List ℕ
  pub name : ℕ

-- The static variables, the eternal heap, and what stands in it.
pub record Fdt : Type 0 where
  pub fdt_info_block : ℕ
  pub root_node : ℕ
  pub heap : Kalloc
  pub nodes : ℕ → Option FdtNode
  pub node_properties : ℕ → Option FdtProperty

abbrev pub at {ℓ} : {A : Type ℓ} → (ℕ → Option A) → ℕ → A → ℕ → Option A
at f p x q = if q == p then some x else f q

-- `fdt_AlignToNextWord`
unfoldable pub align_to_next_word : ℕ → ℕ
align_to_next_word value = add64 value (sub64 4 value % 4)

-- A `uint32_t` of the processor, which is little-endian.
unfoldable pub load32 : Memory → ℕ → Outcome ℕ
load32 m ptr = do
  b0 ← load m ptr
  b1 ← load m (ptr + 1)
  b2 ← load m (ptr + 2)
  b3 ← load m (ptr + 3)
  done (b0 + b1 * 2 ^ 8 + b2 * 2 ^ 16 + b3 * 2 ^ 24)

-- `__builtin_bswap32`
abbrev pub bswap32 : ℕ → ℕ
bswap32 w =
    w % 2 ^ 8 * 2 ^ 24
    + w / 2 ^ 8 % 2 ^ 8 * 2 ^ 16
    + w / 2 ^ 16 % 2 ^ 8 * 2 ^ 8
    + w / 2 ^ 24 % 2 ^ 8

-- `fdt_Read32`
unfoldable pub read32 : Memory → ℕ → Outcome ℕ
read32 m ptr = do word ← load32 m ptr; done (bswap32 word)

-- The first slot that holds NULL, in the loops of `fdt_InsertChild` and `fdt_InsertProperty`.
unfoldable pub free_slot : List ℕ → Option ℕ
free_slot [] = none
free_slot (p ∷ slots) = if p == 0 then some 0 else later (free_slot slots)
  where
    later : Option ℕ → Option ℕ
    later none = none
    later (some i) = some (i + 1)

abbrev insert_child_at : Fdt → ℕ → FdtNode → ℕ → Option ℕ → Bool × Fdt
insert_child_at s node n child none = (false, s)
insert_child_at s node n child (some i) =
    (true, record s { nodes = at s.nodes node (record n { children = set n.children i child }) })

-- `fdt_InsertChild`
unfoldable pub insert_child : ℕ → ℕ → Fdt → Outcome (Bool × Fdt)
insert_child node child s = do
  n ← expect (s.nodes node)
  done (insert_child_at s node n child (free_slot n.children))

-- The body of `fdt_InsertProperty` at a free slot. The sum of the two offsets is a `uint32_t`.
unfoldable pub insert_property_at :
    Memory → ℕ → FdtNode → ℕ → ℕ → ℕ → Fdt → ℕ → Outcome (Bool × Fdt)
insert_property_at m node n nameoff prop_len property_ptr s prop_index = do
  (property, heap) ← eternal_alloc s.heap 24
  string_table_offset ← read32 m (s.fdt_info_block + off_dt_strings_offset)
  done (
    true,
    record s {
      heap = heap;
      node_properties = at s.node_properties property (record {
        name = s.fdt_info_block + u32 (string_table_offset + nameoff);
        value = property_ptr;
        length = prop_len;
      });
      nodes = at s.nodes node (record n { properties = set n.properties prop_index property });
    },
  )

-- `fdt_InsertProperty` once its loop has found a slot, or none.
unfoldable pub insert_property_slot :
    Memory → ℕ → FdtNode → ℕ → ℕ → ℕ → Fdt → Option ℕ → Outcome (Bool × Fdt)
insert_property_slot m node n nameoff prop_len property_ptr s none = done (false, s)
insert_property_slot m node n nameoff prop_len property_ptr s (some prop_index) =
    insert_property_at m node n nameoff prop_len property_ptr s prop_index

-- `fdt_InsertProperty`
unfoldable pub insert_property : Memory → ℕ → ℕ → ℕ → ℕ → Fdt → Outcome (Bool × Fdt)
insert_property m node nameoff prop_len property_ptr s = do
  n ← expect (s.nodes node)
  insert_property_slot m node n nameoff prop_len property_ptr s (free_slot n.properties)

-- `FDT_BEGIN_NODE`: the offset behind the name, the new node, and the state. `found` gives what the
-- memory of the new node holds.
unfoldable pub begin_node : ℕ → Memory → (ℕ → FdtNode) → ℕ → ℕ → ℕ → Fdt → Outcome (ℕ × ℕ × Fdt)
begin_node fuel m found dt_start_ptr curr_offset curr_node s = do
  let node_name = dt_start_ptr + curr_offset
  node_name_len ← strlen fuel node_name m
  (new_node, heap) ← eternal_alloc s.heap 272
  let is_root = node_name_len == 0
  let node = record (found new_node) { name = node_name; parent = if is_root then 0 else curr_node }
  (inserted, s') ← insert_child (if is_root then new_node else curr_node) new_node (record s {
    heap = heap;
    root_node = (if is_root then new_node else s.root_node);
    nodes = at s.nodes new_node node;
  })
  done (add64 curr_offset (align_to_next_word node_name_len), new_node, s')

-- `FDT_PROP`: the offset behind the property, and the state.
unfoldable pub prop : Memory → ℕ → ℕ → ℕ → Fdt → Outcome (ℕ × Fdt)
prop m dt_start_ptr curr_offset curr_node s = do
  let prop_ptr = dt_start_ptr + curr_offset
  prop_len ← read32 m prop_ptr
  str_offset ← read32 m (prop_ptr + 4)
  (inserted, s') ← insert_property m curr_node str_offset prop_len (prop_ptr + 8) s
  done (add64 curr_offset (8 + align_to_next_word prop_len), s')

-- The loop of `fdt_ParseTree`.
unfoldable pub parse_loop : ℕ → Memory → (ℕ → FdtNode) → ℕ → ℕ → ℕ → Fdt → Outcome Fdt
parse_loop zero m found dt_start_ptr curr_offset curr_node s = out_of_fuel
parse_loop (suc fuel) m found dt_start_ptr curr_offset curr_node s = do
  size_dt_struct ← load32 m (s.fdt_info_block + size_dt_struct_offset)
  if ltb curr_offset size_dt_struct
      then (do
        token ← read32 m (dt_start_ptr + curr_offset)
        let offset = add64 curr_offset 4
        if token == fdt_begin_node
            then (do
              (offset', new_node, s') ← begin_node fuel m found dt_start_ptr offset curr_node s
              parse_loop fuel m found dt_start_ptr offset' new_node s')
            else if token == fdt_end_node
            then (do
              n ← expect (s.nodes curr_node)
              parse_loop fuel m found dt_start_ptr offset n.parent s)
            else if token == fdt_prop
            then (do
              (offset', s') ← prop m dt_start_ptr offset curr_node s
              parse_loop fuel m found dt_start_ptr offset' curr_node s')
            else elim (token == fdt_end) [
              | true ↦ done s
              | false ↦ parse_loop fuel m found dt_start_ptr offset curr_node s
            ])
      else done s

-- `fdt_ParseTree`
unfoldable pub parse_tree : ℕ → Memory → (ℕ → FdtNode) → Fdt → Outcome Fdt
parse_tree fuel m found s = do
  off_dt_struct ← read32 m (s.fdt_info_block + off_dt_struct_offset)
  parse_loop fuel m found (s.fdt_info_block + off_dt_struct) 0 0 s

-- `srv_fdt_Init`
unfoldable pub init : ℕ → Memory → (ℕ → FdtNode) → ℕ → Fdt → Outcome (Bool × Fdt)
init fuel m found fdt_ptr s = do
  magic ← read32 m fdt_ptr
  if magic == fdt_magic
      then (do
        s' ← parse_tree fuel m found (record s { fdt_info_block = fdt_ptr })
        done (true, s'))
      else done (false, s)

-- `srv_fdt_GetFDTSize`
unfoldable pub get_fdt_size : Memory → Fdt → Outcome ℕ
get_fdt_size m s = read32 m (s.fdt_info_block + totalsize_offset)

-- `strcmp(…) == 0`
abbrev pub is_equal : ℤ → Bool
is_equal (pos zero) = true
is_equal _ = false

-- The loop of `fdt_FindNodeByName` over the slots of the children.
unfoldable pub find_child : ℕ → Memory → Fdt → ℕ → List ℕ → Outcome ℕ
find_child fuel m s node_name [] = done 0
find_child fuel m s node_name (node ∷ children) = do
  n ← expect (s.nodes node)
  order ← strcmp fuel n.name node_name m
  if is_equal order then done node else find_child fuel m s node_name children

-- `fdt_FindNodeByName`
unfoldable pub find_node_by_name : ℕ → Memory → Fdt → ℕ → ℕ → Outcome ℕ
find_node_by_name fuel m s root node_name = do
  r ← expect (s.nodes root)
  find_child fuel m s node_name r.children

-- The loop of `srv_fdt_GetMemorySize` over the slots of the properties.
unfoldable pub find_size : ℕ → Memory → Fdt → ℕ → List ℕ → Outcome ℕ
find_size fuel m s reg [] = done 0
find_size fuel m s reg (p ∷ properties) = do
  property ← expect (s.node_properties p)
  order ← strcmp fuel property.name reg m
  if is_equal order then read32 m (property.value + 12) else find_size fuel m s reg properties

-- `srv_fdt_GetMemorySize`, with the addresses of its two string constants.
unfoldable pub get_memory_size : ℕ → Memory → Fdt → ℕ → ℕ → Outcome ℕ
get_memory_size fuel m s memory_name reg = do
  memory_node ← find_node_by_name fuel m s s.root_node memory_name
  if memory_node == 0
      then done 0
      else (do n ← expect (s.nodes memory_node); find_size fuel m s reg n.properties)
