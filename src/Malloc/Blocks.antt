-- ===== src/Malloc/Blocks.antt =====
-- src/malloc.c: malloc gives a block apart from every other one.
use libdeepc.Base.{
  ℕ, ◌+◌, ◌-◌, ◌%◌, ◌^◌, ◌≤◌, ◌<◌, ◌≡◌, refl, sym, ◌∙◌, ◌≢◌, ◌⊎◌, inl, inr, true, false, List, [],
  ◌∷◌, arith, dec_lt, ◌==◌, ==_refl, length, All, ok,
}
use libdeepc.Memory.{Mem, Addr, null, IsMapped}
use libdeepc.Memory.Text.{Holds}
use libdeepc.Memory.Bytes.{put_bytes, put_bytes-outside, put_bytes-Holds, put_bytes-IsMapped}
use libdeepc.Malloc.{minus_one, sbrk, malloc}
use libdeepc.Malloc.Heap.{IsBreak, size_bytes, store_size-put_bytes, Block, Apart, IsHeap}

pub Holds-same :
    (bs : List ℕ) (m m' : Mem) (p top : Addr)
    → p + length bs ≤ top
    → ((a : Addr) → a < top → m' a ≡ m a)
    → Holds m p bs
    → Holds m' p bs
Holds-same [] m m' p top lt agree h = tt
Holds-same (b ∷ bs) m m' p top lt agree (e, h) =
    (agree p (omega arith) ∙ e, Holds-same bs m m' (p + 1) top (omega arith) agree h)

-- The blocks stay when the break rises and the memory below it stays.
pub IsHeap-same :
    (bs : List Block) (m m' : Mem) (top top' : Addr)
    → top ≤ top'
    → ((a : Addr) → a < top → m' a ≡ m a)
    → IsHeap top m bs
    → IsHeap top' m' bs
IsHeap-same [] m m' top top' le agree h = tt
IsHeap-same ((p, n) ∷ bs) m m' top top' le agree ((real, fits, small, size, mapped), apart, h) = (
  (
    real,
    omega arith,
    small,
    Holds-same (size_bytes 8 n) m m' (p - 8) top (omega arith) agree size,
    λ i lt e. mapped i lt (sym (agree (p + i) (omega arith)) ∙ e),
  ),
  apart,
  IsHeap-same bs m m' top top' le agree h,
)

-- A block above the break is apart from all.
above-Apart :
    (bs : List Block) (m : Mem) (top n : Addr) → IsHeap top m bs → All (Apart (top + 8, n)) bs
above-Apart [] m top n h = tt
above-Apart ((p, k) ∷ bs) m top n (b, _, h) =
    let fits = b.1 in (inr (omega arith), above-Apart bs m top n h)

-- What a call leaves: a heap with one block more, or NULL and the heap as it was. The bytes below the
-- old break and above the new one stay, and the break rises by no more than the size and 8.
abbrev pub Given : {K : Type 0} → (K → Addr) → K → Mem → List Block → ℕ → Addr → K → Mem → Type 0
Given at k m bs size ret k' m' =
    ((a : Addr) → (a < at k) ⊎ (at k' ≤ a) → m' a ≡ m a)
    × (at k' ≤ at k + size + 8)
    × (((ret ≡ null) × IsHeap (at k') m' bs)
        ⊎ ((ret ≢ null) × (at k ≤ ret) × IsHeap (at k') m' ((ret, size) ∷ bs)))

module _ {K : Type 0} {brk : Addr → K → Mem → Addr × (K × Mem)} {at : K → Addr} where
  module _ (law : IsBreak brk at) (k : K) (m : Mem) (n : ℕ) (small : at k + n < 2 ^ 64)
      (some_n : 0 < n) where
    abbrev moved : Addr × (K × Mem)
    moved = brk (at k + n) k m

    sbrk_given : at moved.1.0 ≡ at k + n → sbrk brk n k m ≡ (at k, moved.1)
    unfolding sbrk
    sbrk_given e =
        let asked = law.asks k m in
        let next : (at k + n) % 2 ^ 64 ≡ at k + n = omega arith in
        let there = law.gives (at k + n) k m ∙ e in
        let nonzero : (n == 0) ≡ false = ground arith in
        let same = ==_refl (at k + n) in rw (asked, next, nonzero, there, same) refl

    sbrk_refused : at moved.1.0 ≡ at k → sbrk brk n k m ≡ (minus_one, moved.1)
    unfolding sbrk
    sbrk_refused e =
        let asked = law.asks k m in
        let next : (at k + n) % 2 ^ 64 ≡ at k + n = omega arith in
        let there = law.gives (at k + n) k m ∙ e in
        let nonzero : (n == 0) ≡ false = ground arith in
        let other : (at k + n == at k) ≡ false = ground arith in
        rw (asked, next, nonzero, there, other) refl

  module _ (law : IsBreak brk at) (size : ℕ) (k : K) (m : Mem)
      (small : at k + size + 8 < 2 ^ 64) where
    abbrev grown : Addr × (K × Mem)
    grown = brk (at k + (size + 8)) k m

    zero_run : size ≡ 0 → malloc brk size k m ≡ ok (null, (k, m))
    unfolding malloc
    zero_run e = let q : (size == 0) ≡ true = ground arith in rw q refl

    pub refused_run : 0 < size → at grown.1.0 ≡ at k → malloc brk size k m ≡ ok (null, grown.1)
    unfolding malloc
    refused_run lt e =
        let q : (size == 0) ≡ false = ground arith in
        let fits : (size + 8) % 2 ^ 64 ≡ size + 8 = omega arith in
        let run = sbrk_refused law k m (size + 8) (omega arith) (omega arith) e in
        rw (q, fits, run) refl

    pub given_run :
        0 < size
        → at grown.1.0 ≡ at k + (size + 8)
        → IsMapped grown.1.1 (at k) 8
        → malloc brk size k m
          ≡ ok (at k + 8, (grown.1.0, put_bytes grown.1.1 (at k) (size_bytes 8 size)))
    unfolding malloc
    given_run lt e mapped =
        let q : (size == 0) ≡ false = ground arith in
        let fits : (size + 8) % 2 ^ 64 ≡ size + 8 = omega arith in
        let run = sbrk_given law k m (size + 8) (omega arith) (omega arith) e in
        let real : (at k == minus_one) ≡ false = ground arith in
        let stored = store_size-put_bytes 8 grown.1.1 (at k) size mapped in
        rw (q, fits, run, real, stored) refl

    -- The block that is given, in the memory with its size stored.
    grown-Given :
        (bs : List Block)
        → IsHeap (at k) m bs
        → at grown.1.0 ≡ at k + (size + 8)
        → Given at k m bs size (at k + 8) grown.1.0 (put_bytes grown.1.1 (at k) (size_bytes 8 size))
    grown-Given bs heap e =
        let head = size_bytes 8 size in
        let m1 = grown.1.1 in
        let agree : (a : Addr)
            → (a < at k) ⊎ (at grown.1.0 ≤ a)
            → put_bytes m1 (at k) head a ≡ m a =
          λ a lt.
            put_bytes-outside head m1 (at k) a (ground (arith, lt, e))
            ∙ law.keeps (at k + (size + 8)) k m a (omega arith) lt in
        let mapped : IsMapped (put_bytes m1 (at k) head) (at k + 8) size =
          put_bytes-IsMapped head m1 (at k) (at k + 8) size (λ i lt.
            law.maps (at k + (size + 8)) k m (at k + 8 + i) e (omega arith) (omega arith)) in
        let start : at k + 8 - 8 ≡ at k = omega arith in
        let sized : Holds (put_bytes m1 (at k) head) (at k + 8 - 8) head =
          rw start (put_bytes-Holds head m1 (at k)) in
        (
          agree,
          omega arith,
          inr (
            λ z. omega arith,
            omega arith,
            (
              (omega arith, omega arith, omega arith, sized, mapped),
              above-Apart bs m (at k) size heap,
              IsHeap-same bs m (put_bytes m1 (at k) head) (at k) (at grown.1.0) (omega arith)
                  (λ a b. agree a (inl b)) heap,
            ),
          ),
        )

  -- On a kernel that keeps its promises on the break, and below the end of the address space, malloc
  -- never faults. It gives NULL, and every block stays as it was, or it gives a block of the size asked
  -- for: it is mapped, its size stands in front of it, and it is apart from every block given before,
  -- each of which stays as it was. The break rises by
  -- no more than the size and 8, and no byte below the old break or above the new one changes.
  pub malloc-Given :
      (law : IsBreak brk at) (size : ℕ) (k : K) (m : Mem) (bs : List Block)
      → at k + size + 8 < 2 ^ 64
      → IsHeap (at k) m bs
      → (ret : Addr) × (k' : K) × (m' : Mem) × (malloc brk size k m ≡ ok (ret, (k', m')))
        × Given at k m bs size ret k' m'
  malloc-Given law size k m bs small heap = elim (dec_lt 0 size) [
    | no z ↦ (
      null,
      k,
      m,
      zero_run law size k m small (omega arith),
      (λ a lt. refl, omega arith, inl (refl, heap)),
    )
    | yes lt ↦
        let r : Addr × (K × Mem) = brk (at k + (size + 8)) k m in
        let keep : (a : Addr) → (a < at k) ⊎ (at r.1.0 ≤ a) → r.1.1 a ≡ m a =
          λ a b. law.keeps (at k + (size + 8)) k m a (omega arith) b in
        elim (law.grows (at k + (size + 8)) k m (omega arith)) [
          | inl e ↦ (
            at k + 8,
            r.1.0,
            put_bytes r.1.1 (at k) (size_bytes 8 size),
            given_run law size k m small lt e
                (λ i l. law.maps (at k + (size + 8)) k m (at k + i) e (omega arith) (omega arith)),
            grown-Given law size k m small bs heap e,
          )
          | inr e ↦ (
            null,
            r.1.0,
            r.1.1,
            refused_run law size k m small lt e,
            (
              keep,
              omega arith,
              inl (
                refl,
                IsHeap-same bs m r.1.1 (at k) (at r.1.0) (omega arith) (λ a b. keep a (inl b)) heap,
              ),
            ),
          )
        ]
  ]
