-- ===== src/Fdt/Properties.antt =====
-- The properties of a node under construction (kernel/drivers/fdt/fdt.c).
use mathlib.Core.List.{append_assoc}
use sysrv.Prelude.{
  ℕ, suc, ◌+◌, ◌*◌, ◌≤◌, ◌<◌, ◌≡◌, ◌≢◌, refl, sym, ap, ◌∙◌, true, false, List, [], ◌∷◌, ◌++◌, some,
  Outcome, done, length, ◌==◌, arith,
}
use sysrv.Word.{u32}
use sysrv.Memory.{BytesAt, Memory}
use sysrv.Fdt.{Fdt, FdtNode, FdtProperty, read32}
use sysrv.Fdt.Tokens.{be32, padding, property, encode_token, apply_token}
use sysrv.Fdt.Decode.{BytesAt-append}
use sysrv.Fdt.Tree.{Property, property_tokens, AllZero, NoneZero, AreProperties}
use sysrv.Fdt.Grow.{HasRoom, with_property, insert_property_free}
use sysrv.Fdt.Run.{encode_all, run, Grown, Agree, AreProperties-Agree}

pub NoneZero-snoc : (ps : List ℕ) (q : ℕ) → NoneZero ps → q ≢ 0 → NoneZero (ps ++ (q ∷ []))
NoneZero-snoc [] q n z = (z, tt)
NoneZero-snoc (p ∷ ps) q (h, n) z = (h, NoneZero-snoc ps q n z)

-- The bytes of a property's value.
value_bytes :
    (m : Memory) (p nameoff : ℕ) (value : List ℕ)
    → BytesAt m p (encode_token (property nameoff value))
    → BytesAt m (p + 12) value
value_bytes m p nameoff value b =
    let n = length value in
    let (_, t1) =
      BytesAt-append m p (be32 3) (be32 n ++ (be32 nameoff ++ (value ++ padding n))) b in
    let (_, t2) = BytesAt-append m (p + 4) (be32 n) (be32 nameoff ++ (value ++ padding n)) t1 in
    let (_, t3) = BytesAt-append m (p + 4 + 4) (be32 nameoff) (value ++ padding n) t2 in
    let e : p + 4 + 4 + 4 ≡ p + 12 = omega arith in
    rw e at (BytesAt-append m (p + 4 + 4 + 4) value (padding n) t3).0

-- The properties in the slots from `before` on.
abbrev pub AddsProperties :
    Memory → Fdt → ℕ → FdtNode → List ℕ → List Property → Outcome (ℕ × Fdt) → Type 0
AddsProperties m s curr n before ps r =
    (s' : Fdt) × (qs : List ℕ) × (r ≡ done (curr, s'))
    × Grown s curr (24 * length ps) s'
    × (s'.nodes curr ≡ some (record n { properties = before ++ qs }))
    × AreProperties m s' s.heap.curr_kalloc_eternal_address
        (s.heap.curr_kalloc_eternal_address + 24 * length ps) qs ps

pub Grown-none : (s : Fdt) (curr : ℕ) → Grown s curr 0 s
Grown-none s curr = record {
  heap = ap (λ a. record s.heap { curr_kalloc_eternal_address = a }) (omega arith);
  blob = refl;
  root = refl;
  nodes = λ a l n. refl;
  properties = λ a l. refl;
}

Grown-property :
    (m : Memory) (s s' : Fdt) (curr : ℕ) (slots : List ℕ) (n : FdtNode) (placed : FdtProperty)
    (k : ℕ)
    → Grown (with_property m s curr n slots placed) curr (24 * k) s'
    → Grown s curr (24 * suc k) s'
Grown-property m s s' curr slots n placed k g = record {
  heap = g.heap ∙ ap (λ a. record s.heap { curr_kalloc_eternal_address = a }) (omega arith);
  blob = g.blob;
  root = g.root;
  nodes =
      λ a l d. let f : (a == curr) ≡ false = ground arith in g.nodes a (omega arith) d ∙ rw f refl;
  properties = λ a l.
      let f : (a == s.heap.curr_kalloc_eternal_address) ≡ false = ground arith in
      g.properties a (omega arith) ∙ rw f refl;
}

pub Agree-refl : (s : Fdt) (lo hi : ℕ) → Agree s s lo hi
Agree-refl s lo hi = record { blob = refl; nodes = λ a l h. refl; properties = λ a l h. refl }

module _ (m : Memory) (found : ℕ → FdtNode) (strings : ℕ) where
  pub run-AddsProperties :
      (ps : List Property) (p curr : ℕ) (s : Fdt) (n : FdtNode) (before zs : List ℕ)
      → BytesAt m p (encode_all (property_tokens ps))
      → read32 m (s.fdt_info_block + 12) ≡ done strings
      → HasRoom s.heap (24 * length ps)
      → 0 < s.heap.curr_kalloc_eternal_address
      → s.nodes curr ≡ some n
      → n.properties ≡ before ++ zs
      → NoneZero before
      → AllZero zs
      → length ps ≤ length zs
      → AddsProperties m s curr n before ps (run m found p (property_tokens ps) curr s)
  unfolding run
  run-AddsProperties [] p curr s n before zs b str room pos e c nz az fit =
      (s, zs, refl, Grown-none s curr, e ∙ ap (λ l. some (record n { properties = l })) c, az)
  run-AddsProperties (q ∷ ps) p curr s n before [] b str room pos e c nz az fit =
      absurd (omega arith)
  run-AddsProperties ((nameoff, value) ∷ ps) p curr s n before (z ∷ zs) b str room pos e c nz
        (za, az) fit =
      let q = s.heap.curr_kalloc_eternal_address in
      let t = property nameoff value in
      let (bt, rest) = BytesAt-append m p (encode_token t) (encode_all (property_tokens ps)) b in
      let c0 : n.properties ≡ before ++ (0 ∷ zs) = c ∙ ap (λ x. before ++ (x ∷ zs)) za in
      let placed : FdtProperty = record {
        name = s.fdt_info_block + u32 (strings + nameoff);
        value = p + 12;
        length = length value;
      } in
      let s1 = with_property m s curr n (before ++ (q ∷ zs)) placed in
      let n1 : FdtNode = record n { properties = before ++ (q ∷ zs) } in
      let self : (curr == curr) ≡ true = ground arith in
      let here : (q == q) ≡ true = ground arith in
      let step : apply_token m found p t curr s ≡ done (curr, s1) =
        unfold apply_token in
        rw
          (insert_property_free m curr nameoff (length value) (p + 12) strings s n before zs
            (omega arith) str e c0 nz)
          refl in
      let (s', qs, r, g, last, are) =
        run-AddsProperties ps (p + length (encode_token t)) curr s1 n1 (before ++ (q ∷ [])) zs rest
          str (omega arith) (omega arith) (rw self refl) (sym (append_assoc before (q ∷ []) zs))
          (NoneZero-snoc before q nz (omega arith)) az (omega arith) in
      (
        s',
        q ∷ qs,
        rw step r,
        Grown-property m s s' curr (before ++ (q ∷ zs)) n placed (length ps) g,
        last ∙ ap (λ l. some (record n { properties = l })) (append_assoc before (q ∷ []) qs),
        (
          omega arith,
          (omega arith, omega arith),
          record {
            found = placed;
            placed = g.properties q (omega arith) ∙ rw here refl;
            strings = strings;
            strings_at = rw g.blob str;
            named = rw g.blob refl;
            valued = value_bytes m p nameoff value bt;
            sized = refl;
          },
          AreProperties-Agree m s' s' (q + 24) (q + 24 + 24 * length ps) q
              (q + 24 * suc (length ps)) (Agree-refl s' _ _) (omega arith) (omega arith) qs ps are,
        ),
      )
