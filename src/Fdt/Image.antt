-- ===== src/Fdt/Image.antt =====
-- From the blob of a device tree to the tree that `srv_fdt_Init` builds (kernel/drivers/fdt/fdt.c).
use sysrv.Prelude.{
  ℕ, ◌+◌, ◌*◌, ◌≤◌, ◌<◌, ◌^◌, ◌≡◌, refl, ap, ◌∙◌, true, List, [], ◌∷◌, ◌++◌, replicate, some, done,
  length, ◌==◌, arith,
}
use sysrv.Memory.{BytesAt, Memory, IsString}
use sysrv.Fdt.{Fdt, FdtNode, at, read32, load32, free_slot, insert_child, parse_tree, init}
use sysrv.Fdt.Tokens.{be32, begin, end, encode_token, encode, AreTokens, open_node, apply_token}
use sysrv.Fdt.Decode.{BytesAt-append}
use sysrv.Fdt.Parse.{parse_tree-apply_tokens}
use sysrv.Fdt.Tree.{
  Property, node, Trees, property_tokens, tokens, tokens_all, weight, weight_all, count_trees,
  AreProperties, AreTrees,
}
use sysrv.Fdt.Grow.{HasRoom, taken, eternal_alloc_lem}
use sysrv.Fdt.Run.{
  encode_all, encode_all-append, encode-encode_all, run, apply_tokens-run, AreProperties-Agree,
  AreTrees-Agree,
}
use sysrv.Fdt.Properties.{run-AddsProperties, Agree-refl}
use sysrv.Fdt.Frames.{
  FitAll, no_slots, no_slots-AllZero, AllZero-replicate, IsClear, Grown-trans, Grown-Agree,
  Grown-HasRoom,
}
use sysrv.Fdt.Nesting.{run_node, begin-IsString}
use sysrv.Fdt.Build.{build_trees}

-- At `p` stands a blob with the properties and the children of its root.
pub record IsBlob (m : Memory) (p : ℕ) (ps : List Property) (ts : Trees) : Type 0 where
  pub off_dt_struct : ℕ
  pub size_dt_struct : ℕ
  pub strings : ℕ
  pub magic : read32 m p ≡ done 0xD00DFEED
  pub struct_at : read32 m (p + 8) ≡ done off_dt_struct
  pub strings_at : read32 m (p + 12) ≡ done strings
  pub size_at : load32 m (p + 36) ≡ done size_dt_struct
  pub block : BytesAt m (p + off_dt_struct) (encode (tokens (node [] ps ts)))
  pub inside : length (encode (tokens (node [] ps ts))) ≤ size_dt_struct
  pub small : size_dt_struct < 2 ^ 62

-- Behind `lo` in the heap stands the tree of the root, which is also its own first child.
pub record IsRoot (m : Memory) (s : Fdt) (lo : ℕ) (ps : List Property) (ts : Trees) : Type 0 where
  pub root : FdtNode
  pub cs : List ℕ
  pub at_lo : s.root_node ≡ lo
  pub placed : s.nodes lo ≡ some root
  pub no_parent : root.parent ≡ 0
  pub named : IsString m root.name []
  pub properties : AreProperties m s lo (lo + weight (node [] ps ts)) root.properties ps
  pub own_child : root.children ≡ lo ∷ cs
  pub children : AreTrees m s lo (lo + weight (node [] ps ts)) lo cs ts

abbrev rest_slots : List ℕ
rest_slots = replicate 15 0

abbrev with_root : Fdt → FdtNode → Fdt
with_root s new = record s {
  heap = taken s.heap 272;
  root_node = s.heap.curr_kalloc_eternal_address;
  nodes =
      at (at s.nodes s.heap.curr_kalloc_eternal_address new) s.heap.curr_kalloc_eternal_address
        (record new { children = s.heap.curr_kalloc_eternal_address ∷ rest_slots });
}

open_node_root :
    (found : ℕ → FdtNode)
    → IsClear found
    → (node_name curr : ℕ) (s : Fdt) → HasRoom s.heap 272
    → open_node found node_name true curr s
      ≡ done (
        s.heap.curr_kalloc_eternal_address,
        with_root s
            (record (found s.heap.curr_kalloc_eternal_address) { name = node_name; parent = 0 }),
      )
unfolding open_node insert_child free_slot
open_node_root found clear node_name curr s room =
    let new = s.heap.curr_kalloc_eternal_address in
    let self : (new == new) ≡ true = ground arith in
    rw (eternal_alloc_lem s.heap 272 room, self, (clear new).0) refl

module _ (m : Memory) (found : ℕ → FdtNode) (clear : IsClear found) where
  begin_root :
      (p curr : ℕ) (s : Fdt)
      → HasRoom s.heap 272
      → apply_token m found p (begin []) curr s
        ≡ done (
          s.heap.curr_kalloc_eternal_address,
          with_root s
              (record (found s.heap.curr_kalloc_eternal_address) { name = p + 4; parent = 0 }),
        )
  unfolding apply_token
  begin_root p curr s room = open_node_root found clear (p + 4) curr s room

  run-IsRoot :
      (strings p : ℕ) (s : Fdt) (ps : List Property) (ts : Trees)
      → length ps ≤ 16
      → count_trees ts ≤ 15
      → FitAll ts
      → BytesAt m p (encode_all (tokens (node [] ps ts)))
      → read32 m (s.fdt_info_block + 12) ≡ done strings
      → HasRoom s.heap (weight (node [] ps ts))
      → 0 < s.heap.curr_kalloc_eternal_address
      → (s' : Fdt) × (run m found p (tokens (node [] ps ts)) 0 s ≡ done (0, s'))
        × (s'.heap ≡ taken s.heap (weight (node [] ps ts)))
        × (s'.fdt_info_block ≡ s.fdt_info_block)
        × IsRoot m s' s.heap.curr_kalloc_eternal_address ps ts
  unfolding tokens weight
  run-IsRoot strings p s ps ts pn cn fit b str room pos =
      let new = s.heap.curr_kalloc_eternal_address in
      let k = 24 * length ps in
      let w = weight_all ts in
      let rest = tokens_all ts ++ (end ∷ []) in
      let p1 = p + length (encode_token (begin [])) in
      let p2 = p1 + length (encode_all (property_tokens ps)) in
      let fresh : FdtNode = record (found new) { name = p + 4; parent = 0 } in
      let linked : FdtNode = record fresh { children = new ∷ rest_slots } in
      let s1 = with_root s fresh in
      let self : (new == new) ≡ true = ground arith in
      let (bt, b1) =
        BytesAt-append m p (encode_token (begin [])) (encode_all (property_tokens ps ++ rest)) b in
      let (bp, b2) =
        BytesAt-append m p1 (encode_all (property_tokens ps)) (encode_all rest)
          (rw (encode_all-append (property_tokens ps) rest) at b1) in
      let (bc, _) =
        BytesAt-append m p2 (encode_all (tokens_all ts)) (encode_all (end ∷ []))
          (rw (encode_all-append (tokens_all ts) (end ∷ [])) at b2) in
      let (s2, qs, r2, g2, l2, props) =
        run-AddsProperties m found strings ps p1 new s1 linked [] no_slots bp str (omega arith)
          (omega arith) (rw self refl) (clear new).1 tt no_slots-AllZero (omega arith) in
      let up : s2.heap.curr_kalloc_eternal_address ≡ new + 272 + k =
        ap (λ a. a.curr_kalloc_eternal_address) g2.heap in
      let (s3, cs, r3, g3, l3, trees) =
        build_trees m found clear strings ts p2 new s2 (record linked { properties = qs })
          (new ∷ []) rest_slots fit bc (rw g2.blob str)
          (Grown-HasRoom s1 s2 new k w g2 (omega arith, omega arith)) (omega arith) l2 refl
          (omega arith, tt) (AllZero-replicate 15) (omega arith) in
      let g = Grown-trans s1 s2 s3 new k w g2 g3 in
      let e : new + 272 + (k + w) ≡ new + (272 + k + w) = omega arith in
      (
        s3,
        run_node m found [] (property_tokens ps) (tokens_all ts) p 0 0 new s s1 s2 s3
            (record linked { properties = qs; children = new ∷ cs })
            (begin_root p 0 s (omega arith, room.1)) r2 r3 l3 refl,
        g.heap ∙ ap (λ a. record s.heap { curr_kalloc_eternal_address = a }) e,
        g.blob,
        record {
          root = record linked { properties = qs; children = new ∷ cs };
          cs = cs;
          at_lo = g.root;
          placed = l3;
          no_parent = refl;
          named = begin-IsString m found p [] tt bt;
          properties =
              AreProperties-Agree m s2 s3 (new + 272) (new + 272 + k) new (new + (272 + k + w))
                (Grown-Agree s2 s3 new w (new + 272) (new + 272 + k) (omega arith) (omega arith) g3)
                (omega arith) (omega arith) qs ps props;
          own_child = refl;
          children =
              AreTrees-Agree m s3 s3 s2.heap.curr_kalloc_eternal_address
                (s2.heap.curr_kalloc_eternal_address + w) new (new + (272 + k + w))
                (Agree-refl s3 _ _) (omega arith) (omega arith) new cs ts trees;
        },
      )

-- Where a blob stands with the words that `srv_fdt_Init` reads and a structure block that encodes a
-- tree under a root with the empty name, with at most 16 properties to a node, at most 15 children of
-- the root and 16 of another node, other names not empty and of at most `most` characters, and where
-- the slots of new nodes are NULL, the eternal heap has room for 272 bytes to a node and 24 to a
-- property, and there are more rounds than two for each token and `most`: `srv_fdt_Init` returns true
-- and has built that tree, parents, children, names, properties and values in their order, behind
-- what the heap had given before. The root is also its own first child.
pub init-IsRoot :
    (fuel most fdt_ptr : ℕ) (m : Memory) (found : ℕ → FdtNode) (s : Fdt) (ps : List Property)
    (ts : Trees)
    → IsClear found
    → IsBlob m fdt_ptr ps ts
    → length ps ≤ 16
    → count_trees ts ≤ 15
    → FitAll ts
    → AreTokens most (tokens (node [] ps ts))
    → HasRoom s.heap (weight (node [] ps ts))
    → 0 < s.heap.curr_kalloc_eternal_address
    → 2 * length (tokens (node [] ps ts)) + most + 1 < fuel
    → (s' : Fdt) × (init fuel m found fdt_ptr s ≡ done (true, s'))
      × (s'.heap ≡ taken s.heap (weight (node [] ps ts)))
      × (s'.fdt_info_block ≡ fdt_ptr)
      × IsRoot m s' s.heap.curr_kalloc_eternal_address ps ts
unfolding init
init-IsRoot fuel most fdt_ptr m found s ps ts clear blob pn cn fit short room pos more =
    let s0 : Fdt = record s { fdt_info_block = fdt_ptr } in
    let all = tokens (node [] ps ts) in
    let q = fdt_ptr + blob.off_dt_struct in
    let (b, _) =
      BytesAt-append m q (encode_all all) (be32 9) (rw (encode-encode_all all) at blob.block) in
    let (s', r, h, i, root) =
      run-IsRoot m found clear blob.strings q s0 ps ts pn cn fit b blob.strings_at room pos in
    let parsed : parse_tree fuel m found s0 ≡ done s' =
      parse_tree-apply_tokens fuel most blob.off_dt_struct blob.size_dt_struct m found s0 all
        blob.struct_at blob.size_at blob.block short blob.inside blob.small more
      ∙ apply_tokens-run m found q all 0 s0
      ∙ rw r refl in
    (s', rw (blob.magic, parsed) refl, h, i, root)
