-- ===== src/Fdt/Grow.antt =====
-- What each token does to a tree under construction (kernel/drivers/fdt/fdt.c): the heap grows behind
-- what is there, and only the current node changes.
use sysrv.Prelude.{
  ℕ, ◌+◌, ◌≤◌, ◌<◌, ◌^◌, ◌≡◌, refl, ap, true, false, List, [], ◌∷◌, ◌++◌, some, done, length, set,
  lt→ltb, ◌==◌, arith,
}
use sysrv.Word.{u32, add64}
use sysrv.Memory.{Memory}
use sysrv.Kalloc.{Kalloc, eternal_alloc}
use sysrv.Fdt.{
  Fdt, FdtNode, FdtProperty, at, read32, free_slot, insert_child, insert_property_at,
  insert_property_slot, insert_property,
}
use sysrv.Fdt.Tokens.{open_node}
use sysrv.Fdt.Tree.{NoneZero}

free_slot_lem : (ps zs : List ℕ) → NoneZero ps → free_slot (ps ++ (0 ∷ zs)) ≡ some (length ps)
unfolding free_slot
free_slot_lem [] zs n = refl
free_slot_lem (p ∷ ps) zs (n, ns) =
    let e : (p == 0) ≡ false = ground arith in
    rw (e, free_slot_lem ps zs ns) (ap some (omega arith))

set_slot : (ps zs : List ℕ) (z v : ℕ) → set (ps ++ (z ∷ zs)) (length ps) v ≡ ps ++ (v ∷ zs)
set_slot [] zs z v = refl
set_slot (p ∷ ps) zs z v = ap (λ l. p ∷ l) (set_slot ps zs z v)

-- The heap below the end of the address space, with `size` bytes more to give.
abbrev pub HasRoom : Kalloc → ℕ → Type 0
HasRoom k size =
    (k.curr_kalloc_eternal_address + size < k.kalloc_eternal_end) × (k.kalloc_eternal_end ≤ 2 ^ 64)

abbrev pub taken : Kalloc → ℕ → Kalloc
taken k size = record k { curr_kalloc_eternal_address = k.curr_kalloc_eternal_address + size }

pub eternal_alloc_lem :
    (k : Kalloc) (size : ℕ)
    → HasRoom k size
    → eternal_alloc k size ≡ done (k.curr_kalloc_eternal_address, taken k size)
unfolding eternal_alloc
eternal_alloc_lem k size (h, l) =
    let e : add64 k.curr_kalloc_eternal_address size ≡ k.curr_kalloc_eternal_address + size =
      omega arith in
    rw (e, lt→ltb _ _ h) refl

-- Fresh memory with all slots NULL.
abbrev pub empty_node : ℕ → ℕ → List ℕ → List ℕ → FdtNode
empty_node node_name parent children properties = record {
  parent = parent;
  children = children;
  properties = properties;
  name = node_name;
}

abbrev pub with_child : Fdt → FdtNode → ℕ → FdtNode → List ℕ → Fdt
with_child s new curr n slots = record s {
  heap = taken s.heap 272;
  nodes =
      at (at s.nodes s.heap.curr_kalloc_eternal_address new) curr (record n { children = slots });
}

pub open_node_child :
    (found : ℕ → FdtNode) (node_name curr : ℕ) (s : Fdt) (n : FdtNode) (ps zs : List ℕ)
    → HasRoom s.heap 272
    → curr < s.heap.curr_kalloc_eternal_address
    → s.nodes curr ≡ some n
    → n.children ≡ ps ++ (0 ∷ zs)
    → NoneZero ps
    → open_node found node_name false curr s
      ≡ done (
        s.heap.curr_kalloc_eternal_address,
        with_child s
            (record (found s.heap.curr_kalloc_eternal_address) { name = node_name; parent = curr })
            curr
            n
            (ps ++ (s.heap.curr_kalloc_eternal_address ∷ zs)),
      )
unfolding open_node insert_child
open_node_child found node_name curr s n ps zs room below e c none_zero =
    let new = s.heap.curr_kalloc_eternal_address in
    let apart : (curr == new) ≡ false = ground arith in
    rw
      (
        eternal_alloc_lem s.heap 272 room,
        apart,
        e,
        c,
        free_slot_lem ps zs none_zero,
        set_slot ps zs 0 new,
      )
      refl

abbrev pub with_property : Memory → Fdt → ℕ → FdtNode → List ℕ → FdtProperty → Fdt
with_property m s curr n slots p = record s {
  heap = taken s.heap 24;
  node_properties = at s.node_properties s.heap.curr_kalloc_eternal_address p;
  nodes = at s.nodes curr (record n { properties = slots });
}

pub insert_property_free :
    (m : Memory) (curr nameoff len pointer strings : ℕ) (s : Fdt) (n : FdtNode) (ps zs : List ℕ)
    → HasRoom s.heap 24
    → read32 m (s.fdt_info_block + 12) ≡ done strings
    → s.nodes curr ≡ some n
    → n.properties ≡ ps ++ (0 ∷ zs)
    → NoneZero ps
    → insert_property m curr nameoff len pointer s
      ≡ done (
        true,
        with_property m s curr n (ps ++ (s.heap.curr_kalloc_eternal_address ∷ zs)) (record {
          name = s.fdt_info_block + u32 (strings + nameoff);
          value = pointer;
          length = len;
        }),
      )
unfolding insert_property insert_property_slot insert_property_at
insert_property_free m curr nameoff len pointer strings s n ps zs room str e c none_zero =
    rw
      (
        e,
        c,
        free_slot_lem ps zs none_zero,
        eternal_alloc_lem s.heap 24 room,
        str,
        set_slot ps zs 0 s.heap.curr_kalloc_eternal_address,
      )
      refl
