-- ===== src/Malloc/Realloc.antt =====
-- src/malloc.c: realloc moves what a block holds into a new one.
use Prim.Native.Nat.{min}
use libdeepc.Base.{
  ℕ, zero, suc, ◌+◌, ◌-◌, ◌^◌, ◌≤◌, ◌<◌, ◌≡◌, refl, ◌∙◌, subst, ◌≢◌, ◌⊎◌, inl, inr, false, some,
  List, [], ◌∷◌, arith, ◌==◌, Bool-cases, get_elem?, ok,
}
use libdeepc.Memory.{Mem, Addr, null, IsMapped}
use libdeepc.Memory.Block.{blit, within, blit-get, blit-outside}
use libdeepc.Str.Block.{memcpy}
use libdeepc.Str.Block.Copy.{memcpy-blit}
use libdeepc.Malloc.{load_size, malloc, realloc}
use libdeepc.Malloc.Heap.{IsBreak, size_bytes, load_size-Holds, Block, IsBlock, IsHeap}
use libdeepc.Malloc.Blocks.{Holds-same, IsHeap-same, Given, malloc-Given}

nth-IsBlock :
    (bs : List Block) (i : ℕ) (b : Block) (top : Addr) (m : Mem)
    → get_elem? bs i ≡ some b
    → IsHeap top m bs
    → IsBlock top m b
nth-IsBlock [] i b top m e h = cc
nth-IsBlock (c ∷ bs) zero b top m e h =
    let same : c ≡ b = cc in subst (λ x. IsBlock top m x) same h.0
nth-IsBlock (c ∷ bs) (suc i) b top m e h = nth-IsBlock bs i b top m e h.2

module _ (m : Mem) (d s n : ℕ) where
  blit-IsMapped : (k : ℕ) → IsMapped m d k → IsMapped m s n → IsMapped (blit m d s n) d k
  unfolding blit
  blit-IsMapped k md ms i lt = elim (Bool-cases (within (d + i) d n)) [
    | inl q ↦ let e : d + i - d + s ≡ s + i = omega arith in rw (q, e) (ms i (ground (arith, q)))
    | inr q ↦ rw q (md i lt)
  ]

module _ {K : Type 0} (brk : Addr → K → Mem → Addr × (K × Mem)) where
  null_run :
      (ptr new_size : ℕ) (k k' : K) (m m' : Mem)
      → malloc brk new_size k m ≡ ok (null, (k', m'))
      → realloc brk ptr new_size k m ≡ ok (null, (k', m'))
  unfolding realloc
  null_run ptr new_size k k' m m' e = rw e refl

  copy_run :
      (ptr new_size ret old : ℕ) (k k' : K) (m m' m'' : Mem)
      → malloc brk new_size k m ≡ ok (ret, (k', m'))
      → ret ≢ null
      → ptr ≢ null
      → load_size 8 m' (ptr - 8) ≡ ok old
      → memcpy m' ret ptr (min old new_size) ≡ ok m''
      → realloc brk ptr new_size k m ≡ ok (ret, (k', m''))
  unfolding realloc
  copy_run ptr new_size ret old k k' m m' m'' e real some_ptr size copied =
      let q : (ret == null) ≡ false = ground arith in
      let p : (ptr == null) ≡ false = ground arith in rw (e, q, p, size, copied) refl

-- The first bytes of the old block stand in the new one.
abbrev pub Moved : Mem → Addr → ℕ → Addr → Mem → Type 0
Moved m ptr n ret m' = (i : ℕ) → i < n → m' (ret + i) ≡ m (ptr + i)

module _ (bs : List Block) (m m1 : Mem) (top top' ptr old ret new_size : ℕ) where
  abbrev count : ℕ
  count = min old new_size

  abbrev copied : Mem
  copied = blit m1 ret ptr count

  copied-IsHeap :
      top ≤ ret
      → ((a : Addr) → a < top → m1 a ≡ m a)
      → IsHeap top m bs
      → IsHeap top' m1 ((ret, new_size) ∷ bs)
      → IsMapped m1 ptr count
      → IsHeap top' copied ((ret, new_size) ∷ bs)
  copied-IsHeap above agree heap ((real, fits, small, size, mapped), apart, _) ms =
      let below : (a : Addr) → a < ret → copied a ≡ m1 a =
        λ a lt. blit-outside m1 ret ptr count a (inl lt) in
      (
        (
          real,
          fits,
          small,
          Holds-same (size_bytes 8 new_size) m1 copied (ret - 8) ret (omega arith) below size,
          blit-IsMapped m1 ret ptr count new_size mapped ms,
        ),
        apart,
        IsHeap-same bs m copied top top' (omega arith) (λ a lt. below a (omega arith) ∙ agree a lt)
            heap,
      )

module _ {K : Type 0} {brk : Addr → K → Mem → Addr × (K × Mem)} {at : K → Addr} where
  -- On a kernel that keeps its promises on the break, and below the end of the address space, realloc of
  -- a block that was given never faults. It gives NULL, and every block stays as it was, or a new block
  -- of the size asked for, apart from every other one, and the new block starts with the bytes of the
  -- old one, up to the smaller of the two sizes. No byte below the old break or above the new
  -- one changes.
  pub realloc-Moved :
      (law : IsBreak brk at) (ptr old new_size i : ℕ) (k : K) (m : Mem) (bs : List Block)
      → at k + new_size + 8 < 2 ^ 64
      → IsHeap (at k) m bs
      → get_elem? bs i ≡ some (ptr, old)
      → (ret : Addr) × (k' : K) × (m' : Mem) × (realloc brk ptr new_size k m ≡ ok (ret, (k', m')))
        × Given at k m bs new_size ret k' m'
        × ((ret ≡ null) ⊎ Moved m ptr (min old new_size) ret m')
  realloc-Moved law ptr old new_size i k m bs small heap given =
      let (ret, k', m1, run, (keep, short, alt)) = malloc-Given law new_size k m bs small heap in
      elim alt [
        | inl (z, h) ↦
            let run0 : malloc brk new_size k m ≡ ok (null, (k', m1)) = rw z at run in
            (
              null,
              k',
              m1,
              null_run brk ptr new_size k k' m m1 run0,
              (keep, short, inl (refl, h)),
              inl refl,
            )
        | inr (real, above, h) ↦
            let fits = (nth-IsBlock bs i (ptr, old) (at k) m given heap).1 in
            let (head, _, old_small, size, mapped) =
              nth-IsBlock ((ret, new_size) ∷ bs) (suc i) (ptr, old) (at k') m1 given h in
            let n = min old new_size in
            let at_ptr : IsMapped m1 ptr n = λ j lt. mapped j (omega arith) in
            let at_ret : IsMapped m1 ret n = λ j lt. h.0.4 j (omega arith) in
            let load = load_size-Holds 8 m1 (ptr - 8) old old_small size in
            let copy = memcpy-blit m1 ret ptr n at_ptr at_ret (inr (omega arith)) in
            let m2 = blit m1 ret ptr n in
            let new_fits = h.0.1 in
            let kept : (a : Addr) → (a < at k) ⊎ (at k' ≤ a) → m2 a ≡ m a = λ a out.
              blit-outside m1 ret ptr n a (ground (arith, out, above, new_fits)) ∙ keep a out in
            (
              ret,
              k',
              m2,
              copy_run brk ptr new_size ret old k k' m m1 m2 run real (omega arith) load copy,
              (
                kept,
                short,
                inr (
                  real,
                  above,
                  copied-IsHeap bs m m1 (at k) (at k') ptr old ret new_size above
                      (λ a lt. keep a (inl lt)) heap h at_ptr,
                ),
              ),
              inr (λ j lt. blit-get m1 ret ptr n j lt ∙ keep (ptr + j) (inl (omega arith))),
            )
      ]
