-- ===== src/Fdt/Lookup.antt =====
-- The lookups in the device tree (kernel/drivers/fdt/fdt.c).
use sysrv.Prelude.{
  ℕ, suc, ◌<◌, ◌≡◌, ◌≢◌, refl, ◌∙◌, List, [], ◌∷◌, ◌++◌, false, none, some, Outcome, done, fault,
  length, arith,
}
use sysrv.Prelude.Int.{ℤ, pos, negsuc}
use sysrv.Memory.{Memory, IsString}
use sysrv.Kstring.Compare.{Before, smaller, same, Compared, less, equal, greater, strcmp-Compared}
use sysrv.Fdt.{Fdt, FdtNode, is_equal, find_child, find_node_by_name, get_memory_size}

Before-irrefl : (xs : List ℕ) → Before xs xs → ⊥
Before-irrefl [] b = elim b [ ]
Before-irrefl (x ∷ xs) (smaller l) = omega arith
Before-irrefl (x ∷ xs) (same e b) = Before-irrefl xs b

pub Compared-other :
    {xs ys : List ℕ} {r : Outcome ℤ}
    → xs ≢ ys
    → Compared xs ys r
    → (z : ℤ) × (r ≡ done z) × (is_equal z ≡ false)
Compared-other n (less k b q) = (negsuc k, q, refl)
Compared-other n (equal e q) = absurd (n e)
Compared-other n (greater k b q) = (pos (suc k), q, refl)

pub Compared-same : {xs : List ℕ} {r : Outcome ℤ} → Compared xs xs r → r ≡ done (pos 0)
Compared-same {xs} (less k b q) = absurd (Before-irrefl xs b)
Compared-same (equal e q) = q
Compared-same {xs} (greater k b q) = absurd (Before-irrefl xs b)

-- At `p` stands a node whose name is the string `xs`.
abbrev pub IsNamed : Memory → Fdt → List ℕ → ℕ → Type 0
IsNamed m s xs p = (n : FdtNode) × (s.nodes p ≡ some n) × IsString m n.name xs

-- The slots are nodes with other names than `xs`.
abbrev pub AreOther : Memory → Fdt → List ℕ → List ℕ → Type 0
AreOther m s xs [] = Unit
AreOther m s xs (p ∷ ps) = ((ys : List ℕ) × (ys ≢ xs) × IsNamed m s ys p) × AreOther m s xs ps

module _ (fuel node_name : ℕ) (m : Memory) (s : Fdt) (xs : List ℕ) (name : IsString m node_name xs)
    (enough : length xs < fuel) where
  find_child_skips :
      (before after : List ℕ)
      → AreOther m s xs before
      → find_child fuel m s node_name (before ++ after) ≡ find_child fuel m s node_name after
  unfolding find_child
  find_child_skips [] after o = refl
  find_child_skips (p ∷ before) after ((ys, ne, (n, e, str)), o) =
      let (z, q, f) =
        Compared-other ne (strcmp-Compared fuel n.name node_name m ys xs str name (omega arith)) in
      rw (e, q, f) (find_child_skips before after o)

  find_child_hits :
      (p : ℕ) (after : List ℕ)
      → IsNamed m s xs p
      → find_child fuel m s node_name (p ∷ after) ≡ done p
  unfolding find_child
  find_child_hits p after (n, e, str) =
      rw (e, Compared-same (strcmp-Compared fuel n.name node_name m xs xs str name (omega arith)))
        refl

  find_child_null :
      (after : List ℕ) → s.nodes 0 ≡ none → find_child fuel m s node_name (0 ∷ after) ≡ fault
  unfolding find_child
  find_child_null after e = rw e refl

-- Where the children of a node begin with nodes of other names, the search for a name returns the
-- first child that has it, given more rounds for each comparison than the name has characters.
pub find_node_by_name_lem :
    (fuel node_name root p : ℕ) (m : Memory) (s : Fdt) (r : FdtNode) (xs before after : List ℕ)
    → IsString m node_name xs
    → length xs < fuel
    → s.nodes root ≡ some r
    → r.children ≡ before ++ p ∷ after
    → AreOther m s xs before
    → IsNamed m s xs p
    → find_node_by_name fuel m s root node_name ≡ done p
unfolding find_node_by_name
find_node_by_name_lem fuel node_name root p m s r xs before after name enough e c o h =
    rw (e, c)
      (find_child_skips fuel node_name m s xs name enough before (p ∷ after) o
        ∙ find_child_hits fuel node_name m s xs name enough p after h)

-- Where the root has children of other names only, and then an empty slot, `srv_fdt_GetMemorySize`
-- does not return 0 for the missing memory node: it reads through NULL, and faults where nothing
-- stands there.
pub get_memory_size_missing :
    (fuel memory_name reg : ℕ) (m : Memory) (s : Fdt) (r : FdtNode) (xs before after : List ℕ)
    → IsString m memory_name xs
    → length xs < fuel
    → s.nodes s.root_node ≡ some r
    → r.children ≡ before ++ 0 ∷ after
    → AreOther m s xs before
    → s.nodes 0 ≡ none
    → get_memory_size fuel m s memory_name reg ≡ fault
unfolding get_memory_size find_node_by_name
get_memory_size_missing fuel memory_name reg m s r xs before after name enough e c o h =
    let found =
      find_child_skips fuel memory_name m s xs name enough before (0 ∷ after) o
      ∙ find_child_null fuel memory_name m s xs name enough after h in
    rw (e, c, found) refl
