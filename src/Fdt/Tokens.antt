-- ===== src/Fdt/Tokens.antt =====
-- The structure block of a device tree blob as a list of tokens, the bytes that encode it, and what
-- the tokens do to the tree (kernel/drivers/fdt/fdt.c).
use sysrv.Prelude.{
  ℕ, ◌+◌, ◌-◌, ◌/◌, ◌%◌, ◌≤◌, ◌<◌, ◌^◌, ◌≢◌, Bool, List, [], ◌∷◌, ◌++◌, Outcome, done, ◌>>=◌,
  expect, length, replicate, ◌==◌, if◌then◌else◌,
}
use sysrv.Memory.{Memory}
use sysrv.Kalloc.{eternal_alloc}
use sysrv.Fdt.{Fdt, FdtNode, at, insert_child, insert_property}

-- A token with what follows it in the block.
pub data Token : Type 0 where
  begin : (name : List ℕ) → Token
  end : Token
  property : (nameoff : ℕ) → (value : List ℕ) → Token
  nop : Token

-- Big-endian words.
abbrev pub be32 : ℕ → List ℕ
be32 w = w / 2 ^ 24 % 256 ∷ w / 2 ^ 16 % 256 ∷ w / 2 ^ 8 % 256 ∷ w % 256 ∷ []

-- Bytes up to the next multiple of four: with a name at least one, its NUL.
abbrev pub name_padding : ℕ → List ℕ
name_padding n = replicate (4 - n % 4) 0

abbrev pub padding : ℕ → List ℕ
padding n = replicate ((4 - n % 4) % 4) 0

abbrev pub encode_token : Token → List ℕ
encode_token (begin name) = be32 1 ++ (name ++ name_padding (length name))
encode_token end = be32 2
encode_token (property nameoff value) =
    be32 3 ++ (be32 (length value) ++ (be32 nameoff ++ (value ++ padding (length value))))
encode_token nop = be32 4

-- The block ends with `FDT_END`.
abbrev pub encode : List Token → List ℕ
encode [] = be32 9
encode (t ∷ ts) = encode_token t ++ encode ts

abbrev pub AreNameBytes : List ℕ → Type 0
AreNameBytes [] = Unit
AreNameBytes (c ∷ cs) = (c ≢ 0) × (c < 256) × AreNameBytes cs

-- Names have no NUL and at most `most` characters, and numbers fit their fields.
abbrev pub AreTokens : ℕ → List Token → Type 0
AreTokens most [] = Unit
AreTokens most (begin name ∷ ts) = AreNameBytes name × (length name ≤ most) × AreTokens most ts
AreTokens most (property nameoff value ∷ ts) =
    (nameoff < 2 ^ 32) × (length value < 2 ^ 32) × AreTokens most ts
AreTokens most (end ∷ ts) = AreTokens most ts
AreTokens most (nop ∷ ts) = AreTokens most ts

-- A new node with its name at `node_name`, under `curr_node` or as the root.
unfoldable pub open_node : (ℕ → FdtNode) → ℕ → Bool → ℕ → Fdt → Outcome (ℕ × Fdt)
open_node found node_name is_root curr_node s = do
  (new_node, heap) ← eternal_alloc s.heap 272
  let node = record (found new_node) { name = node_name; parent = if is_root then 0 else curr_node }
  (inserted, s') ← insert_child (if is_root then new_node else curr_node) new_node (record s {
    heap = heap;
    root_node = (if is_root then new_node else s.root_node);
    nodes = at s.nodes new_node node;
  })
  done (new_node, s')

-- What the token that stands at `p` does: the current node and the tree after it.
unfoldable pub apply_token : Memory → (ℕ → FdtNode) → ℕ → Token → ℕ → Fdt → Outcome (ℕ × Fdt)
apply_token m found p (begin name) curr_node s =
    open_node found (p + 4) (length name == 0) curr_node s
apply_token m found p end curr_node s = do n ← expect (s.nodes curr_node); done (n.parent, s)
apply_token m found p (property nameoff value) curr_node s = do
  (inserted, s') ← insert_property m curr_node nameoff (length value) (p + 12) s
  done (curr_node, s')
apply_token m found p nop curr_node s = done (curr_node, s)

-- The tokens that stand from `p` on, one after the other.
unfoldable pub apply_tokens : Memory → (ℕ → FdtNode) → ℕ → List Token → ℕ → Fdt → Outcome Fdt
apply_tokens m found p [] curr_node s = done s
apply_tokens m found p (t ∷ ts) curr_node s = do
  (next_node, s') ← apply_token m found p t curr_node s
  apply_tokens m found (p + length (encode_token t)) ts next_node s'
