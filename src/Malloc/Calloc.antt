-- ===== src/Malloc/Calloc.antt =====
-- src/malloc.c: what stands in a block of calloc, which clears nothing itself.
use libdeepc.Base.{
  ℕ, ◌+◌, ◌*◌, ◌%◌, ◌^◌, ◌≤◌, ◌<◌, ◌≡◌, refl, ◌∙◌, ◌⊎◌, inl, inr, false, some, arith, ◌==◌, ok,
}
use libdeepc.Memory.{Mem, Addr, null}
use libdeepc.Memory.Bytes.{put_bytes, put_bytes-outside}
use libdeepc.Str.Block.{memset, memset_loop}
use libdeepc.Malloc.{calloc}
use libdeepc.Malloc.Heap.{IsBreak, size_bytes}
use libdeepc.Malloc.Blocks.{refused_run, given_run}

-- The kernel gives memory that is 0.
pub record GivesZeros {K : Type 0} (brk : Addr → K → Mem → Addr × (K × Mem)) (at : K → Addr)
    : Type 0 where
  pub zeros :
      (n : Addr) (k : K) (m : Mem) (a : Addr)
      → at (brk n k m).1.0 ≡ n
      → at k ≤ a
      → a < n
      → (brk n k m).1.1 a ≡ some 0

module _ {K : Type 0} {brk : Addr → K → Mem → Addr × (K × Mem)} {at : K → Addr}
    (law : IsBreak brk at) (clear : GivesZeros brk at) where
  -- On a kernel that keeps its promises on the break and gives memory that is 0, and below the end of
  -- the address space, calloc of some bytes never faults, and gives NULL or a block of that many zeros.
  pub calloc-zeros :
      (num size n : ℕ) (k : K) (m : Mem)
      → num * size ≡ n
      → 0 < n
      → at k + n + 8 < 2 ^ 64
      → (ret : Addr) × (k' : K) × (m' : Mem) × (calloc brk num size k m ≡ ok (ret, (k', m')))
        × ((ret ≡ null) ⊎ ((a : Addr) → ret ≤ a → a < ret + n → m' a ≡ some 0))
  unfolding calloc memset memset_loop
  calloc-zeros num size n k m e some_n small =
      let r : Addr × (K × Mem) = brk (at k + (n + 8)) k m in
      let fits : n % 2 ^ 64 ≡ n = omega arith in
      elim (law.grows (at k + (n + 8)) k m (omega arith)) [
        | inr refused ↦ (
          null,
          r.1.0,
          r.1.1,
          rw (e, fits, refused_run law n k m small some_n refused) refl,
          inl refl,
        )
        | inl given ↦
            let m' = put_bytes r.1.1 (at k) (size_bytes 8 n) in
            let real : (at k + 8 == null) ≡ false = ground arith in
            let run = given_run law n k m small some_n given (λ i lt.
              law.maps (at k + (n + 8)) k m (at k + i) given (omega arith) (omega arith)) in
            (
              at k + 8,
              r.1.0,
              m',
              rw (e, fits, run, real) refl,
              inr (λ a le lt.
                  put_bytes-outside (size_bytes 8 n) r.1.1 (at k) a (inr (omega arith))
                  ∙ clear.zeros (at k + (n + 8)) k m a given (omega arith) (omega arith)),
            )
      ]
