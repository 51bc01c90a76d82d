-- ===== src/Fdt/Nesting.antt =====
-- The tokens around a node: its begin, its parts in turn, and its end (kernel/drivers/fdt/fdt.c).
use sysrv.Prelude.{
  ℕ, suc, ◌+◌, ◌-◌, ◌%◌, ◌<◌, ◌≡◌, refl, ◌∙◌, false, List, [], ◌∷◌, ◌++◌, some, done, length, ◌==◌,
  arith,
}
use sysrv.Memory.{BytesAt, Memory, IsString}
use sysrv.Fdt.{Fdt, FdtNode}
use sysrv.Fdt.Tokens.{
  Token, be32, name_padding, begin, end, encode_token, AreNameBytes, apply_token,
}
use sysrv.Fdt.Decode.{BytesAt-append, name-IsString}
use sysrv.Fdt.Tree.{NoneZero}
use sysrv.Fdt.Grow.{HasRoom, with_child, open_node_child}
use sysrv.Fdt.Run.{encode_all, run, run-append}

module _ (m : Memory) (found : ℕ → FdtNode) where
  pub begin_child :
      (name : List ℕ) (p curr : ℕ) (s : Fdt) (n : FdtNode) (before zs : List ℕ)
      → 0 < length name
      → HasRoom s.heap 272
      → curr < s.heap.curr_kalloc_eternal_address
      → s.nodes curr ≡ some n
      → n.children ≡ before ++ (0 ∷ zs)
      → NoneZero before
      → apply_token m found p (begin name) curr s
        ≡ done (
          s.heap.curr_kalloc_eternal_address,
          with_child s
              (record (found s.heap.curr_kalloc_eternal_address) { name = p + 4; parent = curr })
              curr
              n
              (before ++ (s.heap.curr_kalloc_eternal_address ∷ zs)),
        )
  unfolding apply_token
  begin_child name p curr s n before zs some_name room below e c nz =
      let f : (length name == 0) ≡ false = ground arith in
      rw f (open_node_child found (p + 4) curr s n before zs room below e c nz)

  end_child :
      (p curr up : ℕ) (s : Fdt) (n : FdtNode)
      → s.nodes curr ≡ some n
      → n.parent ≡ up
      → run m found p (end ∷ []) curr s ≡ done (up, s)
  unfolding run apply_token
  end_child p curr up s n e u = rw (e, u) refl

  pub run_nil : (p curr : ℕ) (s : Fdt) → run m found p [] curr s ≡ done (curr, s)
  unfolding run
  run_nil p curr s = refl

  run_begin :
      (name : List ℕ) (ts : List Token) (p curr new : ℕ) (s s1 : Fdt)
      → apply_token m found p (begin name) curr s ≡ done (new, s1)
      → run m found p (begin name ∷ ts) curr s
        ≡ run m found (p + length (encode_token (begin name))) ts new s1
  unfolding run
  run_begin name ts p curr new s s1 r = rw r refl

  -- A node is run in four parts.
  pub run_node :
      (name : List ℕ) (xs ys : List Token) (p curr up new : ℕ) (s s1 s2 s3 : Fdt) (n : FdtNode)
      → apply_token m found p (begin name) curr s ≡ done (new, s1)
      → run m found (p + length (encode_token (begin name))) xs new s1 ≡ done (new, s2)
      → run m found (p + length (encode_token (begin name)) + length (encode_all xs)) ys new s2
        ≡ done (new, s3)
      → s3.nodes new ≡ some n
      → n.parent ≡ up
      → run m found p (begin name ∷ (xs ++ (ys ++ (end ∷ [])))) curr s ≡ done (up, s3)
  run_node name xs ys p curr up new s s1 s2 s3 n r1 r2 r3 e u =
      let p1 = p + length (encode_token (begin name)) in
      let p2 = p1 + length (encode_all xs) in
      run_begin name (xs ++ (ys ++ (end ∷ []))) p curr new s s1 r1
      ∙ run-append m found p1 xs (ys ++ (end ∷ [])) new s1
      ∙ rw r2 (
          run-append m found p2 ys (end ∷ []) new s2
          ∙ rw r3 (end_child (p2 + length (encode_all ys)) new up s3 n e u))

  pub begin-IsString :
      (p : ℕ) (name : List ℕ)
      → AreNameBytes name
      → BytesAt m p (encode_token (begin name))
      → IsString m (p + 4) name
  begin-IsString p name a b =
      let e : 4 - length name % 4 ≡ suc (3 - length name % 4) = omega arith in
      let (_, at_name) = BytesAt-append m p (be32 1) (name ++ name_padding (length name)) b in
      name-IsString m (p + 4) (3 - length name % 4) name a (rw e at at_name)
