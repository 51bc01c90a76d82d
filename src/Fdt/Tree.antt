-- ===== src/Fdt/Tree.antt =====
-- Device trees, the tokens that stand for them, and what it means that the parser's nodes are such a
-- tree (kernel/drivers/fdt/fdt.c).
use sysrv.Prelude.{ℕ, suc, ◌+◌, ◌*◌, ◌≤◌, ◌<◌, ◌≡◌, ◌≢◌, List, [], ◌∷◌, ◌++◌, some, done, length}
use sysrv.Word.{u32}
use sysrv.Memory.{BytesAt, Memory, IsString}
use sysrv.Fdt.{Fdt, FdtNode, FdtProperty, read32}
use sysrv.Fdt.Tokens.{Token, begin, end, property}

-- The offset of a property's name in the strings block, and its value.
abbrev pub Property : Type 0
Property = ℕ × List ℕ

mutual
  pub data Tree : Type 0 where
    node : (name : List ℕ) → List Property → Trees → Tree

  pub data Trees : Type 0 where
    nil : Trees
    cons : Tree → Trees → Trees

abbrev pub property_tokens : List Property → List Token
property_tokens [] = []
property_tokens ((nameoff, value) ∷ ps) = property nameoff value ∷ property_tokens ps

abbrev pub count_trees : Trees → ℕ
count_trees nil = 0
count_trees (cons t ts) = suc (count_trees ts)

-- The tokens of a tree, and the heap that its nodes and properties take.
unfoldable mutual
  pub tokens : Tree → List Token
  tokens (node name ps ts) = begin name ∷ (property_tokens ps ++ (tokens_all ts ++ (end ∷ [])))

  pub tokens_all : Trees → List Token
  tokens_all nil = []
  tokens_all (cons t ts) = tokens t ++ tokens_all ts

  pub weight : Tree → ℕ
  weight (node name ps ts) = 272 + 24 * length ps + weight_all ts

  pub weight_all : Trees → ℕ
  weight_all nil = 0
  weight_all (cons t ts) = weight t + weight_all ts

abbrev pub AllZero : List ℕ → Type 0
AllZero [] = Unit
AllZero (z ∷ zs) = (z ≡ 0) × AllZero zs

abbrev pub NoneZero : List ℕ → Type 0
NoneZero [] = Unit
NoneZero (p ∷ ps) = (p ≢ 0) × NoneZero ps

-- `x` lies in the part of the heap from `lo` up to `hi`.
abbrev pub Between : ℕ → ℕ → ℕ → Type 0
Between lo hi x = (lo ≤ x) × (x < hi)

-- A property in the heap: its name in the strings block, its value in the blob.
pub record IsProperty (m : Memory) (s : Fdt) (nameoff : ℕ) (value : List ℕ) (q : ℕ) : Type 0 where
  pub found : FdtProperty
  pub placed : s.node_properties q ≡ some found
  pub strings : ℕ
  pub strings_at : read32 m (s.fdt_info_block + 12) ≡ done strings
  pub named : found.name ≡ s.fdt_info_block + u32 (strings + nameoff)
  pub valued : BytesAt m found.value value
  pub sized : found.length ≡ length value

module _ (m : Memory) (s : Fdt) (lo hi : ℕ) where
  -- The slots are the properties in their order, and then NULL.
  abbrev pub AreProperties : List ℕ → List Property → Type 0
  AreProperties qs [] = AllZero qs
  AreProperties [] (p ∷ ps) = ⊥
  AreProperties (q ∷ qs) ((nameoff, value) ∷ ps) =
      (q ≢ 0) × Between lo hi q × IsProperty m s nameoff value q × AreProperties qs ps

  unfoldable mutual
    -- At `p` stands a node under `parent` that is the tree.
    pub IsTree : ℕ → ℕ → Tree → Type 0
    IsTree parent p (node name ps ts) =
        (p ≢ 0)
        × Between lo hi p
        × ((n : FdtNode) × (s.nodes p ≡ some n)
            × (n.parent ≡ parent)
            × IsString m n.name name
            × AreProperties n.properties ps
            × AreTrees p n.children ts)

    -- The slots are the trees in their order, and then NULL.
    pub AreTrees : ℕ → List ℕ → Trees → Type 0
    AreTrees parent qs nil = AllZero qs
    AreTrees parent [] (cons t ts) = ⊥
    AreTrees parent (q ∷ qs) (cons t ts) = IsTree parent q t × AreTrees parent qs ts
