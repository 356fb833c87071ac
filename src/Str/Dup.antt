-- ===== src/Str/Dup.antt =====
-- src/string.c: strdup, over malloc and the break of the kernel.
use libdeepc.Base.{
  ℕ, ◌+◌, ◌%◌, ◌^◌, ◌≤◌, ◌<◌, ◌≡◌, refl, ◌∙◌, ◌≢◌, ◌⊎◌, inl, inr, false, List, arith, ◌==◌,
  if◌then◌else◌, length, Res, ok, ◌>>=◌,
}
use libdeepc.Memory.{Mem, Addr, null, IsMapped}
use libdeepc.Memory.Block.{blit, blit-get, blit-outside}
use libdeepc.Memory.Text.{CString, CString-same, CString-move, CString-get}
use libdeepc.Str.Block.{memcpy}
use libdeepc.Str.Block.Copy.{memcpy-blit}
use libdeepc.Str.Scan.{strlen}
use libdeepc.Str.Scan.Find.{strlen-length}
use libdeepc.Malloc.{malloc}
use libdeepc.Malloc.Heap.{IsBreak, Block, IsHeap}
use libdeepc.Malloc.Blocks.{malloc-Given}

unfoldable pub strdup :
    {K : Type 0} → (Addr → K → Mem → Addr × (K × Mem)) → ℕ → Addr → K → Mem → Res (Addr × (K × Mem))
strdup brk fuel str k m = do
  n ← strlen fuel m str
  let len = (n + 1) % 2 ^ 64
  (new_str, (k', m')) ← malloc brk len k m
  let copy = (do m'' ← memcpy m' new_str str len; ok (new_str, (k', m'')))
  if new_str == null then ok (null, (k', m')) else copy

module _ {K : Type 0} (brk : Addr → K → Mem → Addr × (K × Mem)) (fuel str : ℕ) (k k' : K)
    (m m' : Mem) (n : ℕ) (len : strlen fuel m str ≡ ok n) (small : n + 1 < 2 ^ 64) where
  null_run :
      malloc brk (n + 1) k m ≡ ok (null, (k', m')) → strdup brk fuel str k m ≡ ok (null, (k', m'))
  unfolding strdup
  null_run e = let q : (n + 1) % 2 ^ 64 ≡ n + 1 = omega arith in rw (len, q, e) refl

  copy_run :
      (ret : Addr) (m'' : Mem)
      → malloc brk (n + 1) k m ≡ ok (ret, (k', m'))
      → ret ≢ null
      → memcpy m' ret str (n + 1) ≡ ok m''
      → strdup brk fuel str k m ≡ ok (ret, (k', m''))
  unfolding strdup
  copy_run ret m'' e real copied =
      let q : (n + 1) % 2 ^ 64 ≡ n + 1 = omega arith in
      let r : (ret == null) ≡ false = ground (arith, real) in rw (len, q, e, r, copied) refl

module _ {K : Type 0} {brk : Addr → K → Mem → Addr × (K × Mem)} {at : K → Addr} where
  -- On a kernel that keeps its promises on the break, and below the end of the address space, strdup of
  -- a string that stands below the break, or above what the break can rise to, gives NULL, or the
  -- address of a new copy of the string, behind the old break. The bytes below the old break stay.
  pub strdup-CString :
      (law : IsBreak brk at) (fuel : ℕ) (str : Addr) (s : List ℕ) (k : K) (m : Mem)
      (bs : List Block)
      → at k + length s + 9 < 2 ^ 64
      → IsHeap (at k) m bs
      → CString m str s
      → (str + length s < at k) ⊎ (at k + length s + 9 ≤ str)
      → length s < fuel
      → (ret : Addr) × (k' : K) × (m' : Mem) × (strdup brk fuel str k m ≡ ok (ret, (k', m')))
        × ((ret ≡ null) ⊎ ((at k ≤ ret) × CString m' ret s))
        × ((a : Addr) → a < at k → m' a ≡ m a)
  strdup-CString law fuel str s k m bs small heap hs out lt =
      let n = length s in
      let len = strlen-length fuel m str s hs lt in
      let (ret, k', m1, run, (keep, short, alt)) =
        malloc-Given law (n + 1) k m bs (omega arith) heap in
      elim alt [
        | inl (z, h) ↦
            let run0 : malloc brk (n + 1) k m ≡ ok (null, (k', m1)) = rw z at run in
            (
              null,
              k',
              m1,
              null_run brk fuel str k k' m m1 n len (omega arith) run0,
              inl refl,
              λ a b. keep a (inl b),
            )
        | inr (real, above, h) ↦
            let hs1 : CString m1 str s =
              CString-same m m1 str s (λ i le. keep (str + i) (ground (arith, out, short))) hs in
            let at_str : IsMapped m1 str (n + 1) =
              λ i l. CString-get m1 str s i hs1 (omega arith) in
            let at_ret : IsMapped m1 ret (n + 1) = h.0.4 in
            let fits = h.0.1 in
            let safe : (ret ≤ str) ⊎ (str + (n + 1) ≤ ret) =
              ground (arith, out, short, fits, above) in
            let copy = memcpy-blit m1 ret str (n + 1) at_str at_ret safe in
            let m2 = blit m1 ret str (n + 1) in
            (
              ret,
              k',
              m2,
              copy_run brk fuel str k k' m m1 n len (omega arith) ret m2 run real copy,
              inr (
                above,
                CString-move m1 m2 str ret s (λ i le. blit-get m1 ret str (n + 1) i (omega arith))
                    hs1,
              ),
              λ a b. blit-outside m1 ret str (n + 1) a (inl (omega arith)) ∙ keep a (inl b),
            )
      ]
