-- ===== src/Fdt/Frames.antt =====
-- What the parser leaves behind when it builds a tree, and how its steps add up (kernel/drivers/fdt/fdt.c).
use sysrv.Prelude.{
  ℕ, zero, suc, ◌+◌, ◌≤◌, ◌<◌, ◌≡◌, refl, ap, ◌∙◌, true, false, List, ◌∷◌, ◌++◌, replicate, some,
  Outcome, done, length, ◌==◌, arith,
}
use sysrv.Memory.{Memory}
use sysrv.Fdt.{Fdt, FdtNode}
use sysrv.Fdt.Tokens.{AreNameBytes}
use sysrv.Fdt.Tree.{
  Tree, node, Trees, nil, cons, weight, weight_all, count_trees, AllZero, IsTree, AreTrees,
}
use sysrv.Fdt.Grow.{HasRoom, taken, with_child}
use sysrv.Fdt.Run.{Grown, Agree}

-- Names that are no root's, and not more properties and children than there are slots.
unfoldable mutual
  pub Fits : Tree → Type 0
  Fits (node name ps ts) =
      AreNameBytes name × (0 < length name) × (length ps ≤ 16) × (count_trees ts ≤ 16) × FitAll ts

  pub FitAll : Trees → Type 0
  FitAll nil = Unit
  FitAll (cons t ts) = Fits t × FitAll ts

abbrev pub no_slots : List ℕ
no_slots = replicate 16 0

-- The memory of new nodes is zero in its slots.
abbrev pub IsClear : (ℕ → FdtNode) → Type 0
IsClear found = (a : ℕ) → ((found a).children ≡ no_slots) × ((found a).properties ≡ no_slots)

-- The tree becomes the child of `curr` in its first free slot.
abbrev pub AddsTree :
    Memory → Fdt → ℕ → FdtNode → List ℕ → List ℕ → Tree → Outcome (ℕ × Fdt) → Type 0
AddsTree m s curr n before zs t r =
    (s' : Fdt) × (r ≡ done (curr, s'))
    × Grown s curr (weight t) s'
    × (s'.nodes curr
        ≡ some (record n { children = before ++ (s.heap.curr_kalloc_eternal_address ∷ zs) }))
    × IsTree m s' s.heap.curr_kalloc_eternal_address (s.heap.curr_kalloc_eternal_address + weight t)
        curr s.heap.curr_kalloc_eternal_address t

-- The trees become children of `curr` in the slots from `before` on.
abbrev pub AddsTrees : Memory → Fdt → ℕ → FdtNode → List ℕ → Trees → Outcome (ℕ × Fdt) → Type 0
AddsTrees m s curr n before ts r =
    (s' : Fdt) × (qs : List ℕ) × (r ≡ done (curr, s'))
    × Grown s curr (weight_all ts) s'
    × (s'.nodes curr ≡ some (record n { children = before ++ qs }))
    × AreTrees m s' s.heap.curr_kalloc_eternal_address
        (s.heap.curr_kalloc_eternal_address + weight_all ts) curr qs ts

pub AllZero-replicate : (k : ℕ) → AllZero (replicate k 0)
AllZero-replicate zero = tt
AllZero-replicate (suc k) = (refl, AllZero-replicate k)

pub no_slots-AllZero : AllZero no_slots
no_slots-AllZero = AllZero-replicate 16

-- One growth after another at the same node.
pub Grown-trans :
    (s s1 s2 : Fdt) (curr k l : ℕ)
    → Grown s curr k s1
    → Grown s1 curr l s2
    → Grown s curr (k + l) s2
Grown-trans s s1 s2 curr k l g h =
    let up : s1.heap.curr_kalloc_eternal_address ≡ s.heap.curr_kalloc_eternal_address + k =
      ap (λ a. a.curr_kalloc_eternal_address) g.heap in
    record {
      heap =
          h.heap
          ∙ ap (λ a. taken a l) g.heap
          ∙ ap (λ a. record s.heap { curr_kalloc_eternal_address = a }) (omega arith);
      blob = h.blob ∙ g.blob;
      root = h.root ∙ g.root;
      nodes = λ a b d. h.nodes a (omega arith) d ∙ g.nodes a b d;
      properties = λ a b. h.properties a (omega arith) ∙ g.properties a b;
    }

-- What grows at the new node is what `curr` gets with its child.
pub Grown-child :
    (s s' : Fdt) (new : FdtNode) (curr : ℕ) (n : FdtNode) (slots : List ℕ) (k : ℕ)
    → curr < s.heap.curr_kalloc_eternal_address
    → Grown (with_child s new curr n slots) s.heap.curr_kalloc_eternal_address k s'
    → Grown s curr (272 + k) s' × (s'.nodes curr ≡ some (record n { children = slots }))
Grown-child s s' new curr n slots k below g =
    let self : (curr == curr) ≡ true = ground arith in
    (
      record {
        heap = g.heap ∙ ap (λ a. record s.heap { curr_kalloc_eternal_address = a }) (omega arith);
        blob = g.blob;
        root = g.root;
        nodes = λ a l d.
            let f : (a == curr) ≡ false = ground arith in
            let f' : (a == s.heap.curr_kalloc_eternal_address) ≡ false = ground arith in
            g.nodes a (omega arith) (omega arith) ∙ rw (f, f') refl;
        properties = λ a l. g.properties a (omega arith);
      },
      g.nodes curr (omega arith) (omega arith) ∙ rw self refl,
    )

-- Growth at a node below leaves what was built behind it.
pub Grown-Agree :
    (s s' : Fdt) (curr k lo hi : ℕ)
    → curr < lo
    → hi ≤ s.heap.curr_kalloc_eternal_address
    → Grown s curr k s'
    → Agree s s' lo hi
Grown-Agree s s' curr k lo hi below above g = record {
  blob = g.blob;
  nodes = λ a l h. g.nodes a (omega arith) (omega arith);
  properties = λ a l h. g.properties a (omega arith);
}

pub Grown-HasRoom :
    (s s' : Fdt) (curr k l : ℕ) → Grown s curr k s' → HasRoom s.heap (k + l) → HasRoom s'.heap l
Grown-HasRoom s s' curr k l g (h, e) =
    let up : s'.heap.curr_kalloc_eternal_address ≡ s.heap.curr_kalloc_eternal_address + k =
      ap (λ a. a.curr_kalloc_eternal_address) g.heap in
    let top : s'.heap.kalloc_eternal_end ≡ s.heap.kalloc_eternal_end =
      ap (λ a. a.kalloc_eternal_end) g.heap in
    (omega arith, omega arith)
