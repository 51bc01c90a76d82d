-- ===== src/Fdt/Decode.antt =====
-- The parser of the device tree on encoded tokens (kernel/drivers/fdt/fdt.c).
use sysrv.Prelude.{
  ℕ, suc, ◌+◌, ◌-◌, ◌%◌, ◌≤◌, ◌<◌, ◌^◌, ◌≡◌, refl, sym, ap, ◌∙◌, Bool, List, [], ◌∷◌, ◌++◌, Option,
  none, some, ◌⊎◌, inl, inr, Outcome, done, ◌>>=◌, expect, length, length-append, length-replicate,
  replicate, lt→ltb, ◌==◌, Holds, Holds-bind, Holds-any, Bool-cases, ==_iff, bind_cong, bind_assoc,
  arith,
}
use sysrv.Word.{add64}
use sysrv.Memory.{BytesAt, Memory, IsString}
use sysrv.Kalloc.{eternal_alloc}
use sysrv.Kstring.Compare.{strlen_lem}
use sysrv.Fdt.{
  Fdt, FdtNode, align_to_next_word, load32, read32, free_slot, insert_child_at, insert_child,
  insert_property_at, insert_property_slot, insert_property, begin_node, prop, parse_loop,
}
use sysrv.Fdt.Tokens.{
  begin, property, be32, name_padding, padding, encode_token, AreNameBytes, open_node,
}

pub BytesAt-append :
    (m : Memory) (p : ℕ) (xs ys : List ℕ)
    → BytesAt m p (xs ++ ys)
    → BytesAt m p xs × BytesAt m (p + length xs) ys
BytesAt-append m p [] ys b = let e : p ≡ p + 0 = omega arith in (tt, rw e at b)
BytesAt-append m p (x ∷ xs) ys (b, bs) =
    let e : p + 1 + length xs ≡ p + suc (length xs) = omega arith in
    let (l, r) = BytesAt-append m (p + 1) xs ys bs in ((b, l), rw e at r)

pub read32-be32 : (m : Memory) (p w : ℕ) → w < 2 ^ 32 → BytesAt m p (be32 w) → read32 m p ≡ done w
unfolding read32 load32
read32-be32 m p w h (b0, (b1, (b2, (b3, _)))) =
    let e2 : p + 1 + 1 ≡ p + 2 = omega arith in
    let e3 : p + 1 + 1 + 1 ≡ p + 3 = omega arith in
    rw (b0, b1, (rw e2 at b2), (rw e3 at b3)) (ap done (omega arith))

-- A name and the NUL behind it.
pub name-IsString :
    (m : Memory) (p k : ℕ) (name : List ℕ)
    → AreNameBytes name
    → BytesAt m p (name ++ replicate (suc k) 0)
    → IsString m p name
name-IsString m p k [] a b = b.0
name-IsString m p k (c ∷ cs) (n, l, a) (b, bs) = (b, n, l, name-IsString m (p + 1) k cs a bs)

pub align_lem : (n : ℕ) → n < 2 ^ 62 → align_to_next_word n ≡ n + (4 - n % 4) % 4
unfolding align_to_next_word
align_lem n h = omega arith

-- The parser never moves the blob.
abbrev pub Keeps : Fdt → {A : Type 0} → Outcome (A × Fdt) → Type 0
Keeps s r = Holds (λ p. p.1.fdt_info_block ≡ s.fdt_info_block) r

insert_child_at-Keeps :
    (s : Fdt) (node : ℕ) (n : FdtNode) (child : ℕ) (o : Option ℕ)
    → (insert_child_at s node n child o).1.fdt_info_block ≡ s.fdt_info_block
insert_child_at-Keeps s node n child none = refl
insert_child_at-Keeps s node n child (some i) = refl

insert_child-Keeps : (node child : ℕ) (s : Fdt) → Keeps s (insert_child node child s)
unfolding insert_child
insert_child-Keeps node child s =
    Holds-bind (λ _. Unit {0}) _ (expect (s.nodes node)) _ (Holds-any _)
      (λ n _. insert_child_at-Keeps s node n child (free_slot n.children))

insert_property_slot-Keeps :
    (m : Memory) (node : ℕ) (n : FdtNode) (nameoff prop_len property_ptr : ℕ) (s : Fdt)
    (o : Option ℕ)
    → Keeps s (insert_property_slot m node n nameoff prop_len property_ptr s o)
unfolding insert_property_slot insert_property_at
insert_property_slot-Keeps m node n nameoff prop_len property_ptr s none = refl
insert_property_slot-Keeps m node n nameoff prop_len property_ptr s (some i) =
    Holds-bind (λ _. Unit {0}) _ (eternal_alloc s.heap 24) _ (Holds-any _)
      (λ (p, heap) _. Holds-bind (λ _. Unit {0}) _ (read32 m _) _ (Holds-any _) (λ _ _. refl))

pub insert_property-Keeps :
    (m : Memory) (node nameoff prop_len property_ptr : ℕ) (s : Fdt)
    → Keeps s (insert_property m node nameoff prop_len property_ptr s)
unfolding insert_property
insert_property-Keeps m node nameoff prop_len property_ptr s =
    Holds-bind (λ _. Unit {0}) _ (expect (s.nodes node)) _ (Holds-any _)
      (λ n _.
        insert_property_slot-Keeps m node n nameoff prop_len property_ptr s
          (free_slot n.properties))

pub open_node-Keeps :
    (found : ℕ → FdtNode) (node_name : ℕ) (is_root : Bool) (curr_node : ℕ) (s : Fdt)
    → Keeps s (open_node found node_name is_root curr_node s)
unfolding open_node
open_node-Keeps found node_name is_root curr_node s =
    Holds-bind (λ _. Unit {0}) _ (eternal_alloc s.heap 272) _ (Holds-any _)
      (λ (new, heap) _.
        Holds-bind _ _ (insert_child _ new _) _ (insert_child-Keeps _ new _) (λ _ e. e))

pub begin_node-open_node :
    (fuel dt_start_ptr curr_offset curr_node : ℕ) (m : Memory) (found : ℕ → FdtNode) (s : Fdt)
    (name : List ℕ)
    → IsString m (dt_start_ptr + curr_offset) name
    → length name < fuel
    → begin_node fuel m found dt_start_ptr curr_offset curr_node s ≡ (
        open_node found (dt_start_ptr + curr_offset) (length name == 0) curr_node s >>= λ p.
        done (add64 curr_offset (align_to_next_word (length name)), p.0, p.1))
unfolding begin_node open_node
begin_node-open_node fuel dt off curr m found s name str h =
    rw (strlen_lem fuel (dt + off) m name str h) (
      bind_cong (λ _. Unit {0}) (eternal_alloc s.heap 272) _ _ (Holds-any _)
        (λ a _. sym (bind_assoc (insert_child _ a.0 _) _ _))
      ∙ sym (bind_assoc (eternal_alloc s.heap 272) _ _))

-- One round of the loop, at a word within the block.
module _ (m : Memory) (found : ℕ → FdtNode) (dt size fuel off curr : ℕ) (s : Fdt)
    (sized : load32 m (s.fdt_info_block + 36) ≡ done size) (inside : off < size)
    (small : size < 2 ^ 62) where
  pub round_begin :
      read32 m (dt + off) ≡ done 1
      → parse_loop (suc fuel) m found dt off curr s ≡ (
          begin_node fuel m found dt (off + 4) curr s >>= λ (o, n, s').
          parse_loop fuel m found dt o n s')
  unfolding parse_loop
  round_begin e =
      let n : add64 off 4 ≡ off + 4 = omega arith in rw (sized, (lt→ltb off size inside), e, n) refl

  pub round_end :
      read32 m (dt + off) ≡ done 2
      → parse_loop (suc fuel) m found dt off curr s
        ≡ (expect (s.nodes curr) >>= λ n. parse_loop fuel m found dt (off + 4) n.parent s)
  unfolding parse_loop
  round_end e =
      let n : add64 off 4 ≡ off + 4 = omega arith in rw (sized, (lt→ltb off size inside), e, n) refl

  pub round_prop :
      read32 m (dt + off) ≡ done 3
      → parse_loop (suc fuel) m found dt off curr s
        ≡ (prop m dt (off + 4) curr s >>= λ (o, s'). parse_loop fuel m found dt o curr s')
  unfolding parse_loop
  round_prop e =
      let n : add64 off 4 ≡ off + 4 = omega arith in rw (sized, (lt→ltb off size inside), e, n) refl

  pub round_stop :
      read32 m (dt + off) ≡ done 9 → parse_loop (suc fuel) m found dt off curr s ≡ done s
  unfolding parse_loop
  round_stop e = rw (sized, (lt→ltb off size inside), e) refl

  -- `FDT_NOP`, and the zero word that may end a name.
  pub round_skip :
      (w : ℕ)
      → (w ≡ 0) ⊎ (w ≡ 4)
      → read32 m (dt + off) ≡ done w
      → parse_loop (suc fuel) m found dt off curr s ≡ parse_loop fuel m found dt (off + 4) curr s
  unfolding parse_loop
  round_skip w (inl z) e =
      let n : add64 off 4 ≡ off + 4 = omega arith in
      rw (sized, (lt→ltb off size inside), e, z, n) refl
  round_skip w (inr z) e =
      let n : add64 off 4 ≡ off + 4 = omega arith in
      rw (sized, (lt→ltb off size inside), e, z, n) refl

pub prop-insert_property :
    (m : Memory) (dt off curr nameoff len : ℕ) (s : Fdt)
    → read32 m (dt + off) ≡ done len
    → read32 m (dt + off + 4) ≡ done nameoff
    → prop m dt off curr s ≡ (
        insert_property m curr nameoff len (dt + off + 8) s >>= λ p.
        done (add64 off (8 + align_to_next_word len), p.1))
unfolding prop
prop-insert_property m dt off curr nameoff len s e f = rw (e, f) refl

pub length-begin :
    (name : List ℕ) → length (encode_token (begin name)) ≡ 4 + (length name + (4 - length name % 4))
length-begin name = omega (
  arith,
  length-append name (name_padding (length name)),
  length-replicate {A = ℕ} (4 - length name % 4) 0,
)

pub length-property :
    (nameoff : ℕ) (value : List ℕ)
    → length (encode_token (property nameoff value))
      ≡ 12 + (length value + (4 - length value % 4) % 4)
length-property nameoff value = omega (
  arith,
  length-append value (padding (length value)),
  length-replicate {A = ℕ} ((4 - length value % 4) % 4) 0,
)

-- The loop behind a name: with a name of a multiple of four characters the word with its NUL is
-- skipped in a round of its own.
module _ (m : Memory) (found : ℕ → FdtNode) (dt size : ℕ) (small : size < 2 ^ 62) where
  pub behind_name :
      (fuel off curr : ℕ) (s : Fdt) (name : List ℕ)
      → load32 m (s.fdt_info_block + 36) ≡ done size
      → BytesAt m (dt + off) (name ++ name_padding (length name))
      → off + (length name + (4 - length name % 4)) < size
      → (k : ℕ) × (fuel ≤ k)
        × (k ≤ suc fuel)
        × (parse_loop (suc fuel) m found dt (add64 off (align_to_next_word (length name))) curr s
            ≡ parse_loop k m found dt (off + (length name + (4 - length name % 4))) curr s)
  behind_name fuel off curr s name sized b inside = elim (Bool-cases (length name % 4 == 0)) [
    | inr n ↦
        let e : add64 off (align_to_next_word (length name))
            ≡ off + (length name + (4 - length name % 4)) =
          ground (arith, align_lem (length name) (omega arith)) in
        (suc fuel, omega arith, omega arith, ap (λ o. parse_loop (suc fuel) m found dt o curr s) e)
    | inl z ↦
        let z' : length name % 4 ≡ 0 = (==_iff _ _).0 z in
        let e : add64 off (align_to_next_word (length name)) ≡ off + length name =
          omega (arith, align_lem (length name) (omega arith)) in
        let four : 4 - length name % 4 ≡ 4 = omega arith in
        let pad = (BytesAt-append m (dt + off) name (name_padding (length name)) b).1 in
        let w = read32-be32 m (dt + off + length name) 0 (omega arith) (rw four at pad) in
        let here : dt + off + length name ≡ dt + (off + length name) = omega arith in
        let there : off + length name + 4 ≡ off + (length name + (4 - length name % 4)) =
          omega arith in
        (
          fuel,
          omega arith,
          omega arith,
          ap (λ o. parse_loop (suc fuel) m found dt o curr s) e
              ∙ round_skip m found dt size fuel (off + length name) curr s sized (omega arith) small
                  0 (inl refl) (rw here at w)
              ∙ ap (λ o. parse_loop fuel m found dt o curr s) there,
        )
  ]
