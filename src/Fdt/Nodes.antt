-- ===== src/Fdt/Nodes.antt =====
-- How the parser of the device tree puts nodes together (kernel/drivers/fdt/fdt.c).
use sysrv.Prelude.{
  ℕ, ◌+◌, ◌^◌, ◌<◌, ◌≡◌, refl, ap, List, [], ◌∷◌, true, some, done, ltb, ◌==◌, arith,
}
use sysrv.Word.{u64, add64}
use sysrv.Memory.{Memory, IsString}
use sysrv.Kalloc.{eternal_alloc}
use sysrv.Kstring.Compare.{strlen_lem}
use sysrv.Fdt.{Fdt, FdtNode, at, align_to_next_word, free_slot, insert_child, begin_node}

insert_child_first :
    (node child : ℕ) (s : Fdt) (n : FdtNode) (slots : List ℕ)
    → s.nodes node ≡ some n
    → n.children ≡ 0 ∷ slots
    → insert_child node child s
      ≡ done (true, record s { nodes = at s.nodes node (record n { children = child ∷ slots }) })
unfolding insert_child free_slot
insert_child_first node child s n slots e c = rw (e, c) refl

-- The node with the empty name, in fresh memory whose first slot of children is NULL and with room
-- left in the eternal heap, becomes the root and has no parent, and it becomes its own first child;
-- the parser goes on in it, at the same offset.
begin_node_root :
    (fuel dt_start_ptr curr_offset curr_node : ℕ) (m : Memory) (found : ℕ → FdtNode) (s : Fdt)
    (slots : List ℕ)
    → IsString m (dt_start_ptr + curr_offset) []
    → 0 < fuel
    → curr_offset < 2 ^ 64
    → add64 s.heap.curr_kalloc_eternal_address 272 < s.heap.kalloc_eternal_end
    → (found s.heap.curr_kalloc_eternal_address).children ≡ 0 ∷ slots
    → (s' : Fdt) × (n : FdtNode) × (begin_node fuel m found dt_start_ptr curr_offset curr_node s
        ≡ done (curr_offset, s.heap.curr_kalloc_eternal_address, s'))
      × (s'.root_node ≡ s.heap.curr_kalloc_eternal_address)
      × (s'.nodes s'.root_node ≡ some n)
      × (n.parent ≡ 0)
      × (n.children ≡ s'.root_node ∷ slots)
unfolding begin_node align_to_next_word eternal_alloc
begin_node_root fuel dt_start_ptr curr_offset curr_node m found s slots name more o room c =
    let new = s.heap.curr_kalloc_eternal_address in
    let len = strlen_lem fuel (dt_start_ptr + curr_offset) m [] name more in
    let fits : ltb (add64 new 272) s.heap.kalloc_eternal_end ≡ true = ground arith in
    let self : (new == new) ≡ true = ground arith in
    let same : u64 (curr_offset + 0) ≡ curr_offset = omega arith in
    let node : FdtNode = record (found new) { name = dt_start_ptr + curr_offset; parent = 0 } in
    let s1 : Fdt = record s {
      heap = record s.heap { curr_kalloc_eternal_address = add64 new 272 };
      root_node = new;
      nodes = at s.nodes new node;
    } in
    let linked : FdtNode = record node { children = new ∷ slots } in
    let slot = insert_child_first new new s1 node slots (rw self refl) c in
    (
      record s1 { nodes = at s1.nodes new linked },
      linked,
      rw (len, fits, slot)
          (ap (λ k. done (k, new, record s1 { nodes = at s1.nodes new linked })) same),
      refl,
      rw self refl,
      refl,
      refl,
    )
