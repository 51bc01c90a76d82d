-- ===== src/Fdt/Query.antt =====
-- The size of the memory, from the blob to the answer (kernel/drivers/fdt/fdt.c).
use sysrv.Prelude.{
  ℕ, done-injective, subst, ◌+◌, ◌*◌, ◌≤◌, ◌<◌, ◌^◌, ◌≡◌, ◌≢◌, refl, sym, ap, ◌∙◌, false, List, [],
  ◌∷◌, ◌++◌, done, ◌>>=◌, length, ◌==◌, arith,
}
use sysrv.Word.{u32}
use sysrv.Memory.{Memory, IsString}
use sysrv.Kstring.Compare.{strcmp-Compared}
use sysrv.Fdt.{Fdt, FdtNode, read32, find_size, get_memory_size, init}
use sysrv.Fdt.Lookup.{Compared-other, Compared-same, AreOther, find_node_by_name_lem}
use sysrv.Fdt.Tokens.{be32, AreTokens}
use sysrv.Fdt.Decode.{BytesAt-append, read32-be32}
use sysrv.Fdt.Tree.{
  Property, Tree, node, Trees, nil, cons, tokens, weight, count_trees, IsProperty, AreProperties,
  IsTree, AreTrees,
}
use sysrv.Fdt.Grow.{HasRoom}
use sysrv.Fdt.Frames.{FitAll, IsClear}
use sysrv.Fdt.Image.{IsBlob, IsRoot, init-IsRoot}

-- Trees before others.
abbrev pub append_trees : Trees → Trees → Trees
append_trees nil us = us
append_trees (cons t ts) us = cons t (append_trees ts us)

-- No tree has the name.
abbrev pub AreOtherTrees : List ℕ → Trees → Type 0
AreOtherTrees xs nil = Unit
AreOtherTrees xs (cons (node ys ps ts) us) = (ys ≢ xs) × AreOtherTrees xs us

-- The name of a property, for a blob at `p`.
abbrev pub name_at : ℕ → ℕ → ℕ → ℕ
name_at p strings nameoff = p + u32 (strings + nameoff)

-- The names of the properties are other strings than `rs`.
abbrev pub AreOtherProperties : Memory → ℕ → ℕ → List ℕ → List Property → Type 0
AreOtherProperties m p strings rs [] = Unit
AreOtherProperties m p strings rs ((nameoff, value) ∷ ps) =
    ((ys : List ℕ) × (ys ≢ rs) × IsString m (name_at p strings nameoff) ys)
    × AreOtherProperties m p strings rs ps

module _ (m : Memory) (s : Fdt) (lo hi : ℕ) where
  -- The slot of a tree, behind slots of other names.
  abbrev SlotOf : List ℕ → ℕ → List ℕ → Tree → Type 0
  SlotOf xs parent qs t =
      (before : List ℕ) × (q : ℕ) × (after : List ℕ) × (qs ≡ before ++ (q ∷ after))
      × AreOther m s xs before
      × IsTree m s lo hi parent q t

  slot_of :
      (xs : List ℕ) (parent : ℕ) (qs : List ℕ) (before : Trees) (t : Tree) (after : Trees)
      → AreOtherTrees xs before
      → AreTrees m s lo hi parent qs (append_trees before (cons t after))
      → SlotOf xs parent qs t
  unfolding AreTrees IsTree
  slot_of xs parent [] nil t after o a = absurd a
  slot_of xs parent (q ∷ qs) nil t after o (a, _) = ([], q, qs, refl, tt, a)
  slot_of xs parent [] (cons u before) t after o a = absurd a
  slot_of xs parent (q ∷ qs) (cons (node ys ps ts) before) t after (ne, o)
        ((_, _, (n, e, _, named, _, _)), a) =
      let (b, p, c, same, other, tree) = slot_of xs parent qs before t after o a in
      (q ∷ b, p, c, ap (λ l. q ∷ l) same, ((ys, ne, (n, e, named)), other), tree)

-- The name that the property has is the one that the offset gives.
property_name :
    (m : Memory) (s : Fdt) (strings nameoff : ℕ) (value : List ℕ) (q : ℕ)
    (p : IsProperty m s nameoff value q)
    → read32 m (s.fdt_info_block + 12) ≡ done strings
    → p.found.name ≡ name_at s.fdt_info_block strings nameoff
property_name m s strings nameoff value q p str =
    let same : p.strings ≡ strings = done-injective (sym p.strings_at ∙ str) in
    p.named ∙ ap (λ x. name_at s.fdt_info_block x nameoff) same

module _ (fuel reg strings : ℕ) (m : Memory) (s : Fdt) (lo hi : ℕ) (rs : List ℕ)
    (named : IsString m reg rs) (enough : length rs < fuel)
    (str : read32 m (s.fdt_info_block + 12) ≡ done strings) where
  find_size_lem :
      (qs : List ℕ) (before : List Property) (nameoff w : ℕ) (head tail : List ℕ)
      (after : List Property)
      → AreProperties m s lo hi qs (before ++ ((nameoff, head ++ (be32 w ++ tail)) ∷ after))
      → AreOtherProperties m s.fdt_info_block strings rs before
      → IsString m (name_at s.fdt_info_block strings nameoff) rs
      → length head ≡ 12
      → w < 2 ^ 32
      → find_size fuel m s reg qs ≡ done w
  unfolding find_size
  find_size_lem [] [] nameoff w head tail after a o called h l = absurd a
  find_size_lem (q ∷ qs) [] nameoff w head tail after (_, _, p, _) o called h l =
      let e = property_name m s strings nameoff (head ++ (be32 w ++ tail)) q p str in
      let (_, b) = BytesAt-append m p.found.value head (be32 w ++ tail) p.valued in
      let (bw, _) = BytesAt-append m (p.found.value + length head) (be32 w) tail b in
      let r =
        Compared-same
          (strcmp-Compared fuel p.found.name reg m rs rs (rw e called) named (omega arith)) in
      rw (p.placed, r) (read32-be32 m (p.found.value + 12) w l (rw h at bw))
  find_size_lem [] (x ∷ before) nameoff w head tail after a o called h l = absurd a
  find_size_lem (q ∷ qs) ((off, value) ∷ before) nameoff w head tail after (_, _, p, a)
        ((ys, ne, other), o) called h l =
      let e = property_name m s strings off value q p str in
      let (z, r, f) =
        Compared-other ne
          (strcmp-Compared fuel p.found.name reg m ys rs (rw e other) named (omega arith)) in
      rw (p.placed, r, f) (find_size_lem qs before nameoff w head tail after a o called h l)

-- The name of the memory's node, its properties, and what stands before and after it.
pub record HasMemory (m : Memory) (p strings : ℕ) (xs rs : List ℕ) (ts : Trees) (w : ℕ)
    : Type 0 where
  pub before : Trees
  pub after : Trees
  pub kids : Trees
  pub others : List Property
  pub rest : List Property
  pub nameoff : ℕ
  pub head : List ℕ
  pub tail : List ℕ
  pub split :
      ts
      ≡ append_trees before
          (cons (node xs (others ++ ((nameoff, head ++ (be32 w ++ tail)) ∷ rest)) kids) after)
  pub first : AreOtherTrees xs before
  pub first_property : AreOtherProperties m p strings rs others
  pub called : IsString m (name_at p strings nameoff) rs
  pub head_length : length head ≡ 12
  pub word : w < 2 ^ 32

other_name : (xs : List ℕ) → 0 < length xs → [] ≢ xs
other_name xs some_name e = let same : 0 ≡ length xs = ap (λ l. length l) e in omega arith

-- Where `srv_fdt_GetMemorySize` finds the size in the built tree.
pub get_memory_size_lem :
    (fuel memory_name reg lo strings w : ℕ) (m : Memory) (s : Fdt) (ps : List Property) (ts : Trees)
    (xs rs : List ℕ)
    → IsRoot m s lo ps ts
    → read32 m (s.fdt_info_block + 12) ≡ done strings
    → IsString m memory_name xs
    → IsString m reg rs
    → 0 < length xs
    → length xs < fuel
    → length rs < fuel
    → HasMemory m s.fdt_info_block strings xs rs ts w
    → get_memory_size fuel m s memory_name reg ≡ done w
unfolding get_memory_size IsTree
get_memory_size_lem fuel memory_name reg lo strings w m s ps ts xs rs root str mem_name reg_name
      some_name more_x more_r has =
    let hi = lo + weight (node [] ps ts) in
    let a = subst (λ u. AreTrees m s lo hi lo root.cs u) has.split root.children in
    let (before, q, after, slots, other, (z, _, (n, e, _, own, props, _))) =
      slot_of m s lo hi xs lo root.cs has.before
        (node xs (has.others ++ ((has.nameoff, has.head ++ (be32 w ++ has.tail)) ∷ has.rest))
          has.kids)
        has.after has.first a in
    let f : (q == 0) ≡ false = ground (arith, z) in
    let named =
      find_node_by_name_lem fuel memory_name s.root_node q m s root.root xs (lo ∷ before) after
        mem_name more_x (ap s.nodes root.at_lo ∙ root.placed)
        (root.own_child ∙ ap (λ l. lo ∷ l) slots)
        (([], other_name xs some_name, (root.root, root.placed, root.named)), other) (n, e, own) in
    rw (named, f, e)
      (find_size_lem fuel reg strings m s lo hi rs reg_name more_r str n.properties has.others
        has.nameoff w has.head has.tail has.rest props has.first_property has.called has.head_length
        has.word)

-- Where a blob encodes a tree as `init-IsRoot` has it, under the same limits on slots, with the slots
-- of new nodes NULL, and with heap room and rounds as there, and a child of the root has the memory's name
-- (not empty), the children before it have other names, one of its properties is called as asked, its
-- properties before that one are not, and the value holds a word at its byte 12: `srv_fdt_Init` and
-- then `srv_fdt_GetMemorySize` return that word, given also more rounds than either name has
-- characters.
pub init-get_memory_size :
    (fuel most fdt_ptr memory_name reg w : ℕ) (m : Memory) (found : ℕ → FdtNode) (s : Fdt)
    (ps : List Property) (ts : Trees) (xs rs : List ℕ)
    → IsClear found
    → (blob : IsBlob m fdt_ptr ps ts) → length ps ≤ 16
    → count_trees ts ≤ 15
    → FitAll ts
    → AreTokens most (tokens (node [] ps ts))
    → HasRoom s.heap (weight (node [] ps ts))
    → 0 < s.heap.curr_kalloc_eternal_address
    → 2 * length (tokens (node [] ps ts)) + most + 1 < fuel
    → IsString m memory_name xs
    → IsString m reg rs
    → 0 < length xs
    → length xs < fuel
    → length rs < fuel
    → HasMemory m fdt_ptr blob.strings xs rs ts w
    → (init fuel m found fdt_ptr s >>= λ r. get_memory_size fuel m r.1 memory_name reg) ≡ done w
init-get_memory_size fuel most fdt_ptr memory_name reg w m found s ps ts xs rs clear blob pn cn fit
      short room pos more mem_name reg_name some_name more_x more_r has =
    let (s', r, _, i, root) =
      init-IsRoot fuel most fdt_ptr m found s ps ts clear blob pn cn fit short room pos more in
    rw r (
      get_memory_size_lem fuel memory_name reg s.heap.curr_kalloc_eternal_address blob.strings w m
        s' ps ts xs rs root (rw i blob.strings_at) mem_name reg_name some_name more_x more_r
        (subst (λ p. HasMemory m p blob.strings xs rs ts w) (sym i) has))
