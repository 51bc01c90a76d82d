-- ===== src/Fdt/Run.antt =====
-- Runs of tokens in parts, and what a run leaves alone (kernel/drivers/fdt/fdt.c).
use mathlib.Core.List.{append_assoc}
use sysrv.Prelude.{
  ℕ, ◌+◌, ◌≤◌, ◌<◌, ◌≡◌, ◌≢◌, refl, sym, ap, fun_ext, ◌∙◌, List, [], ◌∷◌, ◌++◌, Outcome, done,
  ◌>>=◌, length, length-append, bind_assoc, arith,
}
use sysrv.Memory.{Memory}
use sysrv.Fdt.{Fdt, FdtNode}
use sysrv.Fdt.Tokens.{Token, be32, encode_token, encode, apply_token, apply_tokens}
use sysrv.Fdt.Tree.{Property, Tree, node, Trees, nil, cons, AreProperties, IsTree, AreTrees}
use sysrv.Fdt.Grow.{taken}

-- The bytes of tokens that do not end the block.
abbrev pub encode_all : List Token → List ℕ
encode_all [] = []
encode_all (t ∷ ts) = encode_token t ++ encode_all ts

pub encode_all-append :
    (xs ys : List Token) → encode_all (xs ++ ys) ≡ encode_all xs ++ encode_all ys
encode_all-append [] ys = refl
encode_all-append (x ∷ xs) ys =
    ap (λ l. encode_token x ++ l) (encode_all-append xs ys)
    ∙ sym (append_assoc (encode_token x) (encode_all xs) (encode_all ys))

pub encode-encode_all : (ts : List Token) → encode ts ≡ encode_all ts ++ be32 9
encode-encode_all [] = refl
encode-encode_all (t ∷ ts) =
    ap (λ l. encode_token t ++ l) (encode-encode_all ts)
    ∙ sym (append_assoc (encode_token t) (encode_all ts) (be32 9))

module _ (m : Memory) (found : ℕ → FdtNode) where
  -- A run that need not be the last: the current node and the tree after it.
  unfoldable pub run : ℕ → List Token → ℕ → Fdt → Outcome (ℕ × Fdt)
  run p [] curr s = done (curr, s)
  run p (t ∷ ts) curr s =
      apply_token m found p t curr s >>= λ r. run (p + length (encode_token t)) ts r.0 r.1

  pub run-append :
      (p : ℕ) (xs ys : List Token) (curr : ℕ) (s : Fdt)
      → run p (xs ++ ys) curr s
        ≡ (run p xs curr s >>= λ r. run (p + length (encode_all xs)) ys r.0 r.1)
  unfolding run
  run-append p [] ys curr s = ap (λ q. run q ys curr s) (omega arith)
  run-append p (x ∷ xs) ys curr s =
      let e : p + length (encode_token x) + length (encode_all xs)
          ≡ p + length (encode_token x ++ encode_all xs) =
        omega (arith, length-append (encode_token x) (encode_all xs)) in
      ap (λ f. apply_token m found p x curr s >>= f)
        (fun_ext (λ r.
          run-append (p + length (encode_token x)) xs ys r.0 r.1
          ∙ ap (λ q. run (p + length (encode_token x)) xs r.0 r.1 >>= λ r'. run q ys r'.0 r'.1) e))
      ∙ sym (bind_assoc (apply_token m found p x curr s) _ _)

  pub apply_tokens-run :
      (p : ℕ) (ts : List Token) (curr : ℕ) (s : Fdt)
      → apply_tokens m found p ts curr s ≡ (run p ts curr s >>= λ r. done r.1)
  unfolding run apply_tokens
  apply_tokens-run p [] curr s = refl
  apply_tokens-run p (t ∷ ts) curr s =
      ap (λ f. apply_token m found p t curr s >>= f)
        (fun_ext (λ r. apply_tokens-run (p + length (encode_token t)) ts r.0 r.1))
      ∙ sym (bind_assoc (apply_token m found p t curr s) _ _)

-- From `s` to `s'` the heap has given `size` bytes, and of what was there only the node `curr` may
-- have changed.
pub record Grown (s : Fdt) (curr size : ℕ) (s' : Fdt) : Type 0 where
  pub heap : s'.heap ≡ taken s.heap size
  pub blob : s'.fdt_info_block ≡ s.fdt_info_block
  pub root : s'.root_node ≡ s.root_node
  pub nodes : (a : ℕ) → a < s.heap.curr_kalloc_eternal_address → a ≢ curr → s'.nodes a ≡ s.nodes a
  pub properties :
      (a : ℕ) → a < s.heap.curr_kalloc_eternal_address → s'.node_properties a ≡ s.node_properties a

-- What stands from `lo` up to `hi` is the same.
pub record Agree (s s' : Fdt) (lo hi : ℕ) : Type 0 where
  pub blob : s'.fdt_info_block ≡ s.fdt_info_block
  pub nodes : (a : ℕ) → lo ≤ a → a < hi → s'.nodes a ≡ s.nodes a
  pub properties : (a : ℕ) → lo ≤ a → a < hi → s'.node_properties a ≡ s.node_properties a

module _ (m : Memory) (s s' : Fdt) (lo hi lo' hi' : ℕ) (same : Agree s s' lo hi) (below : lo' ≤ lo)
    (above : hi ≤ hi') where
  pub AreProperties-Agree :
      (qs : List ℕ) (ps : List Property)
      → AreProperties m s lo hi qs ps
      → AreProperties m s' lo' hi' qs ps
  AreProperties-Agree qs [] a = a
  AreProperties-Agree [] (p ∷ ps) a = a
  AreProperties-Agree (q ∷ qs) ((nameoff, value) ∷ ps) (n, (l, h), p, a) = (
    n,
    (omega arith, omega arith),
    record {
      found = p.found;
      placed = same.properties q l h ∙ p.placed;
      strings = p.strings;
      strings_at = rw same.blob p.strings_at;
      named = rw same.blob p.named;
      valued = p.valued;
      sized = p.sized;
    },
    AreProperties-Agree qs ps a,
  )

  mutual
    unfolding IsTree AreTrees

    pub IsTree-Agree :
        (parent p : ℕ) (t : Tree) → IsTree m s lo hi parent p t → IsTree m s' lo' hi' parent p t
    IsTree-Agree parent p (node name ps ts) (z, (l, h), (n, e, up, named, props, trees)) = (
      z,
      (omega arith, omega arith),
      (
        n,
        same.nodes p l h ∙ e,
        up,
        named,
        AreProperties-Agree n.properties ps props,
        AreTrees-Agree p n.children ts trees,
      ),
    )

    pub AreTrees-Agree :
        (parent : ℕ) (qs : List ℕ) (ts : Trees)
        → AreTrees m s lo hi parent qs ts
        → AreTrees m s' lo' hi' parent qs ts
    AreTrees-Agree parent qs nil a = a
    AreTrees-Agree parent [] (cons t ts) a = a
    AreTrees-Agree parent (q ∷ qs) (cons t ts) (a, b) =
        (IsTree-Agree parent q t a, AreTrees-Agree parent qs ts b)
