-- ===== src/Fdt/Full.antt =====
-- A node whose slots are all taken (kernel/drivers/fdt/fdt.c).
use sysrv.Prelude.{
  ℕ, ◌+◌, ◌<◌, ◌≡◌, refl, ◌∙◌, false, List, [], ◌∷◌, none, some, done, length, ◌==◌, arith,
}
use sysrv.Word.{add64}
use sysrv.Memory.{Memory, IsString}
use sysrv.Fdt.{
  Fdt, FdtNode, at, align_to_next_word, free_slot, insert_child, insert_property,
  insert_property_slot, begin_node,
}
use sysrv.Fdt.Tokens.{open_node}
use sysrv.Fdt.Decode.{begin_node-open_node}
use sysrv.Fdt.Tree.{NoneZero}
use sysrv.Fdt.Grow.{HasRoom, taken, eternal_alloc_lem}

free_slot_full : (ps : List ℕ) → NoneZero ps → free_slot ps ≡ none
unfolding free_slot
free_slot_full [] n = refl
free_slot_full (p ∷ ps) (n, ns) =
    let e : (p == 0) ≡ false = ground arith in rw (e, free_slot_full ps ns) refl

-- The new node as its memory has it, but for its name and its parent.
abbrev pub lost_child : (ℕ → FdtNode) → ℕ → ℕ → Fdt → Fdt
lost_child found node_name curr s = record s {
  heap = taken s.heap 272;
  nodes =
      at s.nodes s.heap.curr_kalloc_eternal_address
        (record (found s.heap.curr_kalloc_eternal_address) { name = node_name; parent = curr });
}

open_node_full :
    (found : ℕ → FdtNode) (node_name curr : ℕ) (s : Fdt) (n : FdtNode)
    → HasRoom s.heap 272
    → curr < s.heap.curr_kalloc_eternal_address
    → s.nodes curr ≡ some n
    → NoneZero n.children
    → open_node found node_name false curr s
      ≡ done (s.heap.curr_kalloc_eternal_address, lost_child found node_name curr s)
unfolding open_node insert_child
open_node_full found node_name curr s n room below e full =
    let apart : (curr == s.heap.curr_kalloc_eternal_address) ≡ false = ground arith in
    rw (eternal_alloc_lem s.heap 272 room, apart, e, free_slot_full n.children full) refl

-- Where all slots of a node are taken and the eternal heap has room, the parser goes on without an
-- error: a child with a name is built and parsed into, with the node as its parent, but the node does
-- not change, so that the child cannot be reached from it; a property is not built at all.
pub begin_node_full :
    (fuel dt_start_ptr curr_offset curr nameoff len pointer : ℕ) (m : Memory) (found : ℕ → FdtNode)
    (s : Fdt) (n : FdtNode) (name : List ℕ)
    → IsString m (dt_start_ptr + curr_offset) name
    → 0 < length name
    → length name < fuel
    → HasRoom s.heap 272
    → curr < s.heap.curr_kalloc_eternal_address
    → s.nodes curr ≡ some n
    → NoneZero n.children
    → NoneZero n.properties
    → (begin_node fuel m found dt_start_ptr curr_offset curr s
        ≡ done (
          add64 curr_offset (align_to_next_word (length name)),
          s.heap.curr_kalloc_eternal_address,
          lost_child found (dt_start_ptr + curr_offset) curr s,
        ))
      × ((lost_child found (dt_start_ptr + curr_offset) curr s).nodes curr ≡ some n)
      × (insert_property m curr nameoff len pointer s ≡ done (false, s))
unfolding insert_property insert_property_slot
begin_node_full fuel dt off curr nameoff len pointer m found s n name named some_name more room
      below e children properties =
    let f : (length name == 0) ≡ false = ground arith in
    let apart : (curr == s.heap.curr_kalloc_eternal_address) ≡ false = ground arith in
    (
      begin_node-open_node fuel dt off curr m found s name named more
          ∙ rw (f, open_node_full found (dt + off) curr s n room below e children) refl,
      rw (apart, e) refl,
      rw (e, free_slot_full n.properties properties) refl,
    )
