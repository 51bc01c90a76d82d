-- ===== src/Fdt/Build.antt =====
-- The parser builds the tree that the tokens stand for (kernel/drivers/fdt/fdt.c).
use mathlib.Core.List.{append_assoc}
use sysrv.Prelude.{
  ℕ, ◌+◌, ◌*◌, ◌≤◌, ◌<◌, ◌≡◌, refl, sym, ap, ◌∙◌, true, false, List, [], ◌∷◌, ◌++◌, some, done,
  length, ◌==◌, arith,
}
use sysrv.Memory.{BytesAt, Memory}
use sysrv.Fdt.{Fdt, FdtNode, read32}
use sysrv.Fdt.Tokens.{be32, begin, end, encode_token, AreNameBytes}
use sysrv.Fdt.Decode.{BytesAt-append}
use sysrv.Fdt.Tree.{
  Property, AreProperties, Tree, node, Trees, nil, cons, property_tokens, tokens, tokens_all,
  weight, weight_all, count_trees, AllZero, NoneZero, IsTree, AreTrees,
}
use sysrv.Fdt.Frames.{
  Fits, FitAll, no_slots, IsClear, AddsTree, AddsTrees, no_slots-AllZero, Grown-trans, Grown-child,
  Grown-Agree, Grown-HasRoom,
}
use sysrv.Fdt.Nesting.{begin_child, run_nil, run_node, begin-IsString}
use sysrv.Fdt.Grow.{HasRoom, with_child}
use sysrv.Fdt.Run.{
  encode_all, encode_all-append, run, run-append, Grown, AreProperties-Agree, IsTree-Agree,
  AreTrees-Agree,
}
use sysrv.Fdt.Properties.{NoneZero-snoc, run-AddsProperties, Grown-none, Agree-refl}

module _ (m : Memory) (found : ℕ → FdtNode) (clear : IsClear found) (strings : ℕ) where
  -- A node whose properties and children are built is a tree.
  built-IsTree :
      (name : List ℕ) (ps : List Property) (ts : Trees) (p curr new : ℕ) (s2 s3 : Fdt)
      (built : FdtNode)
      → 0 < new
      → AreNameBytes name
      → BytesAt m p (encode_token (begin name))
      → s3.nodes new ≡ some built
      → built.parent ≡ curr
      → built.name ≡ p + 4
      → s2.heap.curr_kalloc_eternal_address ≡ new + 272 + 24 * length ps
      → Grown s2 new (weight_all ts) s3
      → AreProperties m s2 (new + 272) (new + 272 + 24 * length ps) built.properties ps
      → AreTrees m s3 s2.heap.curr_kalloc_eternal_address
          (s2.heap.curr_kalloc_eternal_address + weight_all ts)
          new
          built.children
          ts
      → IsTree m s3 new (new + weight (node name ps ts)) curr new (node name ps ts)
  unfolding IsTree AreTrees weight
  built-IsTree name ps ts p curr new s2 s3 built pos named b e up called at_end g props trees =
      let k = 24 * length ps in
      let w = weight_all ts in
      (
        omega arith,
        (omega arith, omega arith),
        (
          built,
          e,
          up,
          rw called (begin-IsString m found p name named b),
          AreProperties-Agree m s2 s3 (new + 272) (new + 272 + k) new (new + (272 + k + w))
              (Grown-Agree s2 s3 new w (new + 272) (new + 272 + k) (omega arith) (omega arith) g)
              (omega arith) (omega arith) built.properties ps props,
          AreTrees-Agree m s3 s3 s2.heap.curr_kalloc_eternal_address
              (s2.heap.curr_kalloc_eternal_address + w) new (new + (272 + k + w))
              (Agree-refl s3 _ _) (omega arith) (omega arith) new built.children ts trees,
        ),
      )

  mutual
    unfolding tokens tokens_all weight weight_all Fits FitAll IsTree AreTrees

    build_tree :
        (t : Tree) (p curr : ℕ) (s : Fdt) (n : FdtNode) (before zs : List ℕ)
        → Fits t
        → BytesAt m p (encode_all (tokens t))
        → read32 m (s.fdt_info_block + 12) ≡ done strings
        → HasRoom s.heap (weight t)
        → curr < s.heap.curr_kalloc_eternal_address
        → s.nodes curr ≡ some n
        → n.children ≡ before ++ (0 ∷ zs)
        → NoneZero before
        → AddsTree m s curr n before zs t (run m found p (tokens t) curr s)
    build_tree (node name ps ts) p curr s n before zs (named, len, pn, cn, fit) b str room below e1
          c nz =
        let new = s.heap.curr_kalloc_eternal_address in
        let rest = tokens_all ts ++ (end ∷ []) in
        let p1 = p + length (encode_token (begin name)) in
        let p2 = p1 + length (encode_all (property_tokens ps)) in
        let fresh : FdtNode = record (found new) { name = p + 4; parent = curr } in
        let s1 = with_child s fresh curr n (before ++ (new ∷ zs)) in
        let apart : (new == curr) ≡ false = ground arith in
        let self : (new == new) ≡ true = ground arith in
        let (bt, b1) =
          BytesAt-append m p (encode_token (begin name)) (encode_all (property_tokens ps ++ rest))
            b in
        let (bp, b2) =
          BytesAt-append m p1 (encode_all (property_tokens ps)) (encode_all rest)
            (rw (encode_all-append (property_tokens ps) rest) at b1) in
        let (bc, _) =
          BytesAt-append m p2 (encode_all (tokens_all ts)) (be32 2 ++ [])
            (rw (encode_all-append (tokens_all ts) (end ∷ [])) at b2) in
        let (s2, qs, r2, g2, l2, props) =
          run-AddsProperties m found strings ps p1 new s1 fresh [] no_slots bp str (omega arith)
            (omega arith) (rw (apart, self) refl) (clear new).1 tt (omega arith) (omega arith) in
        let (s3, cs, r3, g3, l3, trees) =
          build_trees ts p2 new s2 (record fresh { properties = qs }) [] no_slots fit bc
            (rw g2.blob str)
            (Grown-HasRoom s1 s2 new (24 * length ps) (weight_all ts) g2 (omega arith, omega arith))
            (omega (arith, ap (λ a. a.curr_kalloc_eternal_address) g2.heap)) l2 (clear new).0 tt
            no_slots-AllZero (omega arith) in
        let k = 24 * length ps in
        let w = weight_all ts in
        let (g, kept) =
          Grown-child s s3 fresh curr n (before ++ (new ∷ zs)) (k + w) below
            (Grown-trans s1 s2 s3 new k w g2 g3) in
        let e : 272 + (k + w) ≡ 272 + k + w = omega arith in
        let built : FdtNode = record fresh { properties = qs; children = cs } in
        (
          s3,
          run_node m found name (property_tokens ps) (tokens_all ts) p curr curr new s s1 s2 s3
              built
              (begin_child m found name p curr s n before zs len (omega (arith, room.0, room.1))
                below e1 c nz)
              r2 r3 l3 refl,
          rw e at g,
          kept,
          built-IsTree name ps ts p curr new s2 s3 built (omega arith) named bt l3 refl refl
              (ap (λ a. a.curr_kalloc_eternal_address) g2.heap) g3 props trees,
        )

    pub build_trees :
        (ts : Trees) (p curr : ℕ) (s : Fdt) (n : FdtNode) (before zs : List ℕ)
        → FitAll ts
        → BytesAt m p (encode_all (tokens_all ts))
        → read32 m (s.fdt_info_block + 12) ≡ done strings
        → HasRoom s.heap (weight_all ts)
        → curr < s.heap.curr_kalloc_eternal_address
        → s.nodes curr ≡ some n
        → n.children ≡ before ++ zs
        → NoneZero before
        → AllZero zs
        → count_trees ts ≤ length zs
        → AddsTrees m s curr n before ts (run m found p (tokens_all ts) curr s)
    build_trees nil p curr s n before zs fit b str room below e c nz az cn = (
      s,
      zs,
      run_nil m found p curr s,
      Grown-none s curr,
      e ∙ ap (λ l. some (record n { children = l })) c,
      az,
    )
    build_trees (cons t ts) p curr s n before [] fit b str room below e c nz az cn =
        absurd (omega arith)
    build_trees (cons t ts) p curr s n before (z ∷ zs) (ft, fit) b str room below e c nz (za, az)
          cn =
        let new = s.heap.curr_kalloc_eternal_address in
        let c0 : n.children ≡ before ++ (0 ∷ zs) = c ∙ ap (λ x. before ++ (x ∷ zs)) za in
        let p1 = p + length (encode_all (tokens t)) in
        let (bt, br) =
          BytesAt-append m p (encode_all (tokens t)) (encode_all (tokens_all ts))
            (rw (encode_all-append (tokens t) (tokens_all ts)) at b) in
        let (s1, r1, g1, l1, tree) =
          build_tree t p curr s n before zs ft bt str (omega (arith, room.0, room.1)) below e c0
            nz in
        let up : s1.heap.curr_kalloc_eternal_address ≡ new + weight t =
          ap (λ a. a.curr_kalloc_eternal_address) g1.heap in
        let (s2, qs, r2, g2, l2, trees) =
          build_trees ts p1 curr s1 (record n { children = before ++ (new ∷ zs) })
            (before ++ (new ∷ [])) zs fit br (rw g1.blob str)
            (Grown-HasRoom s s1 curr (weight t) (weight_all ts) g1 room) (omega arith) l1
            (sym (append_assoc before (new ∷ []) zs)) (NoneZero-snoc before new nz (omega arith)) az
            (omega arith) in
        (
          s2,
          new ∷ qs,
          run-append m found p (tokens t) (tokens_all ts) curr s ∙ rw r1 r2,
          Grown-trans s s1 s2 curr (weight t) (weight_all ts) g1 g2,
          l2 ∙ ap (λ l. some (record n { children = l })) (append_assoc before (new ∷ []) qs),
          (
            IsTree-Agree m s1 s2 new (new + weight t) new (new + (weight t + weight_all ts))
                (Grown-Agree s1 s2 curr (weight_all ts) new (new + weight t) below (omega arith) g2)
                (omega arith) (omega arith) curr new t tree,
            AreTrees-Agree m s2 s2 s1.heap.curr_kalloc_eternal_address
                (s1.heap.curr_kalloc_eternal_address + weight_all ts) new
                (new + (weight t + weight_all ts)) (Agree-refl s2 _ _) (omega arith) (omega arith)
                curr qs ts trees,
          ),
        )
