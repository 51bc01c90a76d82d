-- ===== src/Kalloc/Bounds.antt =====
-- Where the blocks of `srv_kalloc_EternalAlloc` lie (kernel/mm/kalloc.c).
use sysrv.Prelude.{
  ℕ, ◌+◌, ◌≤◌, ◌<◌, ◌^◌, ◌≡◌, refl, List, [], ◌∷◌, Outcome, done, panic, fault, out_of_fuel, ◌>>=◌,
  arith, Bool-cases, inl, inr, ltb, ltb→lt, ◌⊎◌,
}
use sysrv.Word.{add64}
use sysrv.Kalloc.{Kalloc, eternal_alloc}

-- A block that was handed out: its address and its size.
pub record Block : Type 0 where
  pub address : ℕ
  pub size : ℕ

-- One call after the other, for a list of sizes; the blocks in the order of the calls.
unfoldable pub alloc_all : Kalloc → List ℕ → Outcome (List Block × Kalloc)
alloc_all k [] = done ([], k)
alloc_all k (size ∷ sizes) = do
  (p, k') ← eternal_alloc k size
  (blocks, k'') ← alloc_all k' sizes
  done (record { address = p; size = size } ∷ blocks, k'')

-- Each block lies in [lo, hi).
abbrev pub AllWithin : ℕ → ℕ → List Block → Type 0
AllWithin lo hi [] = Unit
AllWithin lo hi (b ∷ bs) = (lo ≤ b.address) × (b.address + b.size ≤ hi) × AllWithin lo hi bs

-- No two blocks share a byte: each ends before all later ones begin.
abbrev pub AllApart : ℕ → List Block → Type 0
AllApart hi [] = Unit
AllApart hi (b ∷ bs) = AllWithin (b.address + b.size) hi bs × AllApart hi bs

-- The sizes asked for cannot push the pointer past the end of the address space.
abbrev pub total : List ℕ → ℕ
total [] = 0
total (x ∷ xs) = x + total xs

widen : (lo lo' hi : ℕ) (bs : List Block) → lo ≤ lo' → AllWithin lo' hi bs → AllWithin lo hi bs
widen lo lo' hi [] h w = tt
widen lo lo' hi (b ∷ bs) h w = (omega arith, w.1, widen lo lo' hi bs h w.2)

-- What a run of calls may come to: blocks in order from the old pointer to the new, which lies
-- below the end, or a panic.
abbrev pub Laid : Kalloc → Outcome (List Block × Kalloc) → Type 0
Laid k (done (bs, k')) =
    AllWithin k.curr_kalloc_eternal_address k'.curr_kalloc_eternal_address bs
    × AllApart k'.curr_kalloc_eternal_address bs
    × (k.curr_kalloc_eternal_address ≤ k'.curr_kalloc_eternal_address)
    × ((k'.curr_kalloc_eternal_address < k.kalloc_eternal_end)
        ⊎ (k'.curr_kalloc_eternal_address ≡ k.curr_kalloc_eternal_address))
Laid k (panic cause) = cause ≡ "Eternal Heap Exhausted!"
Laid k fault = ⊥
Laid k out_of_fuel = ⊥

-- One more block in front, from the pointer `c` on.
Laid-cons :
    (k : Kalloc) (size : ℕ)
    → k.curr_kalloc_eternal_address + size < k.kalloc_eternal_end
    → (r : Outcome (List Block × Kalloc))
    → Laid (record k { curr_kalloc_eternal_address = k.curr_kalloc_eternal_address + size }) r
    → Laid k (do
      (bs, k'') ← r
      done (record { address = k.curr_kalloc_eternal_address; size = size } ∷ bs, k''))
Laid-cons k size h (done (bs, k'')) l = (
  (omega arith, omega arith, widen _ _ _ bs (omega arith) l.0),
  (l.0, l.1),
  omega arith,
  inl (omega arith),
)
Laid-cons k size h (panic cause) l = l
Laid-cons k size h fault l = l
Laid-cons k size h out_of_fuel l = l

-- The blocks that a run of calls of `srv_kalloc_EternalAlloc` returns do not overlap, lie between
-- the pointer before and after the run, and end below `__kalloc_eternal_end`; or the run panics
-- with the cause of an exhausted heap. The sizes must not sum to past the address space.
pub alloc_all-Laid :
    (k : Kalloc) (sizes : List ℕ)
    → k.curr_kalloc_eternal_address + total sizes < 2 ^ 64
    → Laid k (alloc_all k sizes)
unfolding alloc_all eternal_alloc
alloc_all-Laid k [] h = (tt, tt, omega arith, inr refl)
alloc_all-Laid k (size ∷ sizes) h =
    let sum : add64 k.curr_kalloc_eternal_address size ≡ k.curr_kalloc_eternal_address + size =
      omega arith in
    let next : Kalloc = record k {
      curr_kalloc_eternal_address = k.curr_kalloc_eternal_address + size;
    } in
    elim (Bool-cases (ltb (k.curr_kalloc_eternal_address + size) k.kalloc_eternal_end)) [
      | inl room ↦
          rw (sum, room)
            (Laid-cons k size (ltb→lt _ _ room) _ (alloc_all-Laid next sizes (omega arith)))
      | inr full ↦ rw (sum, full) refl
    ]

-- There is no check for wrap-around: a size that pushes the sum past 2^64, to an address below the
-- end, is granted, and the pointer moves back below the block that was just handed out.
pub eternal_alloc_wraps :
    (k : Kalloc) (size : ℕ)
    → k.curr_kalloc_eternal_address < 2 ^ 64
    → size < 2 ^ 64
    → 2 ^ 64 ≤ k.curr_kalloc_eternal_address + size
    → k.curr_kalloc_eternal_address + size < 2 ^ 64 + k.kalloc_eternal_end
    → (k' : Kalloc) × (eternal_alloc k size ≡ done (k.curr_kalloc_eternal_address, k'))
      × (k'.curr_kalloc_eternal_address < k.curr_kalloc_eternal_address)
unfolding eternal_alloc
eternal_alloc_wraps k size a b c d = (
  record k { curr_kalloc_eternal_address = add64 k.curr_kalloc_eternal_address size },
  ground arith,
  omega arith,
)
