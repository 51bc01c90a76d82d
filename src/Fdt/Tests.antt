-- ===== src/Fdt/Tests.antt =====
-- A small device tree (kernel/drivers/fdt/fdt.c).
use sysrv.Prelude.{
  done, replicate, false, heads_differ, ℕ, ◌≡◌, refl, List, [], ◌∷◌, none, some, fault, get_elem?,
  ◌==◌, if◌then◌else◌, arith,
}
use sysrv.Word.{add64}
use sysrv.Fdt.Full.{lost_child, begin_node_full}
use sysrv.Memory.{Memory}
use sysrv.Fdt.{begin_node, insert_property, align_to_next_word, Fdt, FdtNode, get_memory_size}
use sysrv.Fdt.Lookup.{IsNamed, get_memory_size_missing}

-- The strings "a", "m" and "b" at 0, 2 and 4.
abbrev ram : Memory
ram a = get_elem? (b'a' ∷ 0 ∷ b'm' ∷ 0 ∷ b'b' ∷ 0 ∷ []) a

abbrev no_slots : List ℕ
no_slots = 0 ∷ 0 ∷ 0 ∷ 0 ∷ 0 ∷ 0 ∷ 0 ∷ 0 ∷ 0 ∷ 0 ∷ 0 ∷ 0 ∷ 0 ∷ 0 ∷ []

abbrev node_of : ℕ → List ℕ → FdtNode
node_of name children = record {
  parent = 0;
  children = children;
  properties = 0 ∷ 0 ∷ no_slots;
  name = name;
}

-- The root at 100, with the children "a" at 200 and "m" at 300.
abbrev tree : Fdt
tree = record {
  fdt_info_block = 0;
  root_node = 100;
  heap = record { curr_kalloc_eternal_address = 0x1000; kalloc_eternal_end = 0x2000 };
  nodes = λ p.
      if p == 100
      then some (node_of 1 (200 ∷ 300 ∷ no_slots))
      else if p == 200
      then some (node_of 0 (0 ∷ 0 ∷ no_slots))
      else if p == 300
      then some (node_of 2 (0 ∷ 0 ∷ no_slots))
      else none;
  node_properties = λ _. none;
}

a-IsNamed : IsNamed ram tree (b'a' ∷ []) 200
a-IsNamed = (node_of 0 (0 ∷ 0 ∷ no_slots), refl, (refl, omega arith, omega arith, refl))

m-IsNamed : IsNamed ram tree (b'm' ∷ []) 300
m-IsNamed = (node_of 2 (0 ∷ 0 ∷ no_slots), refl, (refl, omega arith, omega arith, refl))

get_memory_size_missing_example : get_memory_size 5 ram tree 4 0 ≡ fault
get_memory_size_missing_example =
    get_memory_size_missing 5 4 0 ram tree (node_of 1 (200 ∷ 300 ∷ no_slots)) (b'b' ∷ [])
      (200 ∷ 300 ∷ []) (0 ∷ 0 ∷ 0 ∷ 0 ∷ 0 ∷ 0 ∷ 0 ∷ 0 ∷ 0 ∷ 0 ∷ 0 ∷ 0 ∷ 0 ∷ [])
      (refl, omega arith, omega arith, refl) (omega arith) refl refl
      (
        (b'a' ∷ [], heads_differ (omega arith), a-IsNamed),
        ((b'm' ∷ [], heads_differ (omega arith), m-IsNamed), tt),
      )
      refl

-- A node at 0x100 with all its slots taken.
abbrev full_node : FdtNode
full_node = record {
  parent = 0;
  children = replicate 16 0x200;
  properties = replicate 16 0x300;
  name = 2;
}

abbrev full_tree : Fdt
full_tree = record tree { nodes = λ p. if p == 0x100 then some full_node else none }

begin_node_full_example :
    (begin_node 5 ram (λ _. full_node) 0 0 0x100 full_tree
      ≡ done
          (add64 0 (align_to_next_word 1), 0x1000, lost_child (λ _. full_node) 0 0x100 full_tree))
    × ((lost_child (λ _. full_node) 0 0x100 full_tree).nodes 0x100 ≡ some full_node)
    × (insert_property ram 0x100 0 4 8 full_tree ≡ done (false, full_tree))
begin_node_full_example =
    begin_node_full 5 0 0 0x100 0 4 8 ram (λ _. full_node) full_tree full_node (b'a' ∷ [])
      (refl, omega arith, omega arith, refl) (omega arith) (omega arith) (omega arith, omega arith)
      (omega arith) refl (ground arith) (ground arith)
