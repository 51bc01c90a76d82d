-- ===== src/Fdt/Parse.antt =====
-- The loop of the device tree parser on a whole structure block (kernel/drivers/fdt/fdt.c).
use sysrv.Prelude.{
  ℕ, zero, suc, ◌+◌, ◌-◌, ◌*◌, ◌%◌, ◌≤◌, ◌<◌, ◌^◌, ◌≡◌, refl, sym, ap, ◌∙◌, List, [], ◌∷◌, ◌++◌,
  done, ◌>>=◌, expect, length, length-append, Holds-any, bind_cong, bind_assoc, inr, ◌==◌, arith,
}
use sysrv.Word.{add64}
use sysrv.Memory.{BytesAt, Memory}
use sysrv.Fdt.{
  Fdt, FdtNode, align_to_next_word, load32, read32, insert_property, parse_loop, parse_tree,
}
use sysrv.Fdt.Tokens.{
  Token, begin, end, property, nop, be32, name_padding, padding, encode_token, encode, AreTokens,
  open_node, apply_token, apply_tokens,
}
use sysrv.Fdt.Decode.{
  BytesAt-append, read32-be32, name-IsString, align_lem, insert_property-Keeps, open_node-Keeps,
  begin_node-open_node, prop-insert_property, length-begin, length-property, round_begin, round_end,
  round_prop, round_stop, round_skip, behind_name,
}

length-encode : (ts : List Token) → 4 ≤ length (encode ts)
length-encode [] = omega arith
length-encode (t ∷ ts) = omega (arith, length-append (encode_token t) (encode ts), length-encode ts)

module _ (m : Memory) (found : ℕ → FdtNode) (dt size most : ℕ) (small : size < 2 ^ 62) where
  -- The claim for the tokens that stand at `off`.
  abbrev Parses : List Token → Type 0
  Parses ts =
      (fuel off curr : ℕ) (s : Fdt)
      → BytesAt m (dt + off) (encode ts)
      → load32 m (s.fdt_info_block + 36) ≡ done size
      → off + length (encode ts) ≤ size
      → 2 * length ts + most + 1 < fuel
      → parse_loop fuel m found dt off curr s ≡ apply_tokens m found (dt + off) ts curr s

  Parses-stop : Parses []
  unfolding apply_tokens
  Parses-stop zero off curr s b sized inside more = absurd (omega arith)
  Parses-stop (suc fuel) off curr s b sized inside more =
      round_stop m found dt size fuel off curr s sized (omega arith) small
        (read32-be32 m (dt + off) 9 (omega arith) b)

  Parses-nop : (ts : List Token) → Parses ts → Parses (nop ∷ ts)
  unfolding apply_tokens apply_token
  Parses-nop ts ih zero off curr s b sized inside more = absurd (omega arith)
  Parses-nop ts ih (suc fuel) off curr s b sized inside more =
      let (w, rest) = BytesAt-append m (dt + off) (be32 4) (encode ts) b in
      let here : dt + off + 4 ≡ dt + (off + 4) = omega arith in
      round_skip m found dt size fuel off curr s sized (omega arith) small 4 (inr refl)
        (read32-be32 m (dt + off) 4 (omega arith) w)
      ∙ ih fuel (off + 4) curr s (rw here at rest) sized (omega arith) (omega arith)
      ∙ ap (λ p. apply_tokens m found p ts curr s) (sym here)

  Parses-end : (ts : List Token) → Parses ts → Parses (end ∷ ts)
  unfolding apply_tokens apply_token
  Parses-end ts ih zero off curr s b sized inside more = absurd (omega arith)
  Parses-end ts ih (suc fuel) off curr s b sized inside more =
      let (w, rest) = BytesAt-append m (dt + off) (be32 2) (encode ts) b in
      let here : dt + off + 4 ≡ dt + (off + 4) = omega arith in
      round_end m found dt size fuel off curr s sized (omega arith) small
        (read32-be32 m (dt + off) 2 (omega arith) w)
      ∙ bind_cong (λ _. Unit {0}) (expect (s.nodes curr)) _ _ (Holds-any _)
          (λ n _.
            ih fuel (off + 4) n.parent s (rw here at rest) sized (omega arith) (omega arith)
            ∙ ap (λ p. apply_tokens m found p ts n.parent s) (sym here))
      ∙ sym (bind_assoc (expect (s.nodes curr)) _ _)

  Parses-property :
      (nameoff : ℕ) (value : List ℕ) (ts : List Token)
      → nameoff < 2 ^ 32
      → length value < 2 ^ 32
      → Parses ts
      → Parses (property nameoff value ∷ ts)
  unfolding apply_tokens apply_token
  Parses-property nameoff value ts ln lv ih zero off curr s b sized inside more =
      absurd (omega arith)
  Parses-property nameoff value ts ln lv ih (suc fuel) off curr s b sized inside more =
      let n = length value in
      let size_of = length-property nameoff value in
      let whole = length-append (encode_token (property nameoff value)) (encode ts) in
      let (t, rest) =
        BytesAt-append m (dt + off) (encode_token (property nameoff value)) (encode ts) b in
      let (w, t1) =
        BytesAt-append m (dt + off) (be32 3) (be32 n ++ (be32 nameoff ++ (value ++ padding n))) t in
      let (wl, t2) =
        BytesAt-append m (dt + off + 4) (be32 n) (be32 nameoff ++ (value ++ padding n)) t1 in
      let (wn, _) = BytesAt-append m (dt + off + 4 + 4) (be32 nameoff) (value ++ padding n) t2 in
      let here : dt + off + 4 ≡ dt + (off + 4) = omega arith in
      let value_at : dt + (off + 4) + 8 ≡ dt + off + 12 = omega arith in
      let after : dt + off + length (encode_token (property nameoff value))
          ≡ dt + (off + length (encode_token (property nameoff value))) =
        omega arith in
      let next : add64 (off + 4) (8 + align_to_next_word n)
          ≡ off + length (encode_token (property nameoff value)) =
        omega (arith, size_of, whole, align_lem n (omega arith)) in
      round_prop m found dt size fuel off curr s sized (omega arith) small
        (read32-be32 m (dt + off) 3 (omega arith) w)
      ∙ ap (λ r. r >>= λ (o, s'). parse_loop fuel m found dt o curr s')
          (prop-insert_property m dt (off + 4) curr nameoff n s
              (rw here at (read32-be32 m (dt + off + 4) n lv wl))
              (rw here at (read32-be32 m (dt + off + 4 + 4) nameoff ln wn))
            ∙ ap
                (λ q. insert_property m curr nameoff n q s >>= λ r.
                  done (add64 (off + 4) (8 + align_to_next_word n), r.1))
                value_at)
      ∙ bind_assoc (insert_property m curr nameoff n (dt + off + 12) s) _ _
      ∙ bind_cong _ (insert_property m curr nameoff n (dt + off + 12) s) _ _
          (insert_property-Keeps m curr nameoff n (dt + off + 12) s)
          (λ r q.
            ap (λ o. parse_loop fuel m found dt o curr r.1) next
            ∙ ih fuel _ curr r.1 (rw after at rest) (rw q sized) (omega (arith, whole))
                (omega arith)
            ∙ ap (λ p. apply_tokens m found p ts curr r.1) (sym after))
      ∙ sym (bind_assoc (insert_property m curr nameoff n (dt + off + 12) s) _ _)

  Parses-begin :
      (name : List ℕ) (ts : List Token)
      → AreTokens most (begin name ∷ [])
      → Parses ts
      → Parses (begin name ∷ ts)
  unfolding apply_tokens apply_token
  Parses-begin name ts a ih zero off curr s b sized inside more = absurd (omega arith)
  Parses-begin name ts a ih (suc zero) off curr s b sized inside more = absurd (omega arith)
  Parses-begin name ts (bytes, l, _) ih (suc (suc fuel)) off curr s b sized inside more =
      let n = length name in
      let size_of = length-begin name in
      let whole = length-append (encode_token (begin name)) (encode ts) in
      let (t, rest) = BytesAt-append m (dt + off) (encode_token (begin name)) (encode ts) b in
      let (w, t1) = BytesAt-append m (dt + off) (be32 1) (name ++ name_padding n) t in
      let here : dt + off + 4 ≡ dt + (off + 4) = omega arith in
      let t2 = rw here at t1 in
      let pad : 4 - n % 4 ≡ suc (3 - n % 4) = omega arith in
      let named = name-IsString m (dt + off + 4) (3 - n % 4) name bytes (rw pad at t1) in
      let after : dt + off + length (encode_token (begin name))
          ≡ dt + (off + 4 + (n + (4 - n % 4))) =
        omega (arith, size_of) in
      round_begin m found dt size (suc fuel) off curr s sized (omega arith) small
        (read32-be32 m (dt + off) 1 (omega arith) w)
      ∙ ap (λ r. r >>= λ (o, x, s'). parse_loop (suc fuel) m found dt o x s')
          (begin_node-open_node (suc fuel) dt (off + 4) curr m found s name (rw here at named)
              (omega arith)
            ∙ ap
                (λ q. open_node found q (n == 0) curr s >>= λ r.
                  done (add64 (off + 4) (align_to_next_word n), r.0, r.1))
                (sym here))
      ∙ bind_assoc (open_node found (dt + off + 4) (n == 0) curr s) _ _
      ∙ bind_cong _ (open_node found (dt + off + 4) (n == 0) curr s) _ _
          (open_node-Keeps found (dt + off + 4) (n == 0) curr s)
          (λ r q.
            let sized' : load32 m (r.1.fdt_info_block + 36) ≡ done size = rw q sized in
            let (k, lo, hi, e) =
              behind_name m found dt size small fuel (off + 4) r.0 r.1 name sized' t2
                (omega (arith, size_of, whole, length-encode ts)) in
            e
            ∙ ih k _ r.0 r.1 (rw after at rest) sized' (omega (arith, size_of, whole)) (omega arith)
            ∙ ap (λ p. apply_tokens m found p ts r.0 r.1) (sym after))

  tokens-Parses : (ts : List Token) → AreTokens most ts → Parses ts
  tokens-Parses [] a = Parses-stop
  tokens-Parses (nop ∷ ts) a = Parses-nop ts (tokens-Parses ts a)
  tokens-Parses (end ∷ ts) a = Parses-end ts (tokens-Parses ts a)
  tokens-Parses (property nameoff value ∷ ts) (o, n, a) =
      Parses-property nameoff value ts o n (tokens-Parses ts a)
  tokens-Parses (begin name ∷ ts) (bytes, l, a) =
      Parses-begin name ts (bytes, l, tt) (tokens-Parses ts a)

-- Where the blob has a structure block that encodes a list of tokens, with names of at most `most`
-- characters, the size that is read unswapped is not smaller than the block and below 2^62, and there
-- are more rounds than two for each token and `most`, the parser ends and does to the tree what the
-- tokens do, one after the other, each at its place.
pub parse_tree-apply_tokens :
    (fuel most off_dt_struct size : ℕ) (m : Memory) (found : ℕ → FdtNode) (s : Fdt)
    (ts : List Token)
    → read32 m (s.fdt_info_block + 8) ≡ done off_dt_struct
    → load32 m (s.fdt_info_block + 36) ≡ done size
    → BytesAt m (s.fdt_info_block + off_dt_struct) (encode ts)
    → AreTokens most ts
    → length (encode ts) ≤ size
    → size < 2 ^ 62
    → 2 * length ts + most + 1 < fuel
    → parse_tree fuel m found s ≡ apply_tokens m found (s.fdt_info_block + off_dt_struct) ts 0 s
unfolding parse_tree
parse_tree-apply_tokens fuel most off size m found s ts e sized b a inside small more =
    let start : s.fdt_info_block + off ≡ s.fdt_info_block + off + 0 = omega arith in
    rw e (
      tokens-Parses m found (s.fdt_info_block + off) size most small ts a fuel 0 0 s (rw start at b)
        sized (omega arith) more
      ∙ ap (λ p. apply_tokens m found p ts 0 s) (sym start))
