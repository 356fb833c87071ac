-- ===== src/Tests/Heap.antt =====
-- src/malloc.c: a kernel whose break is 100 and may rise to 1000, and a block of two bytes at 20.
use libdeepc.Base.{
  ℕ, ◌≤◌, ◌<◌, ◌≡◌, refl, ◌⊎◌, inl, ◌&&◌, none, some, [], ◌∷◌, arith, ltb, leb, ◌==◌, if◌then◌else◌,
  ok,
}
use libdeepc.Memory.{Mem, Addr, null, write, store}
use libdeepc.Memory.Text.{CString}
use libdeepc.Str.Dup.{strdup, strdup-CString}
use libdeepc.Malloc.{malloc, realloc, sbrk, store_size}
use libdeepc.Malloc.Heap.{IsBreak, IsHeap}
use libdeepc.Malloc.Blocks.{Given, malloc-Given}
use libdeepc.Malloc.Realloc.{Moved, realloc-Moved}

abbrev zeroed : Addr → Addr → Mem → Mem
zeroed from top m a = if leb from a && ltb a top then some 0 else m a

abbrev raise_to : Addr → ℕ → Mem → Addr × (ℕ × Mem)
raise_to n k m = if ltb k n && leb n 1000 then (n, (n, zeroed k n m)) else (k, (k, m))

abbrev same_break : ℕ → Addr
same_break k = k

raise_to-IsBreak : IsBreak raise_to same_break
raise_to-IsBreak = record {
  asks = λ k m. ground arith;
  gives = λ n k m. ground arith;
  grows = λ n k m lt. ground (arith, lt);
  keeps = λ n k m a lt below. ground (arith, lt, below);
  maps = λ n k m a e above below. ground (arith, e, above, below);
}

abbrev blank : Mem
blank a = if ltb a 100 then some 0 else none

-- The block at 20, with its size 2 in front.
abbrev held : Mem
held a = if a == 12 then some 2 else blank a

held-IsHeap : IsHeap 100 held ((20, 2) ∷ [])
held-IsHeap = (
  (
    omega arith,
    omega arith,
    omega arith,
    (refl, (refl, (refl, (refl, (refl, (refl, (refl, (refl, tt)))))))),
    λ i lt e. ground (arith, lt, e),
  ),
  tt,
  tt,
)

malloc_run : (m : Mem) × (malloc raise_to 5 100 held ≡ ok (108, (113, m)))
unfolding malloc sbrk store_size store write
malloc_run = (_, refl)

malloc-Given_example :
    (ret : Addr) × (k' : ℕ) × (m' : Mem) × (malloc raise_to 5 100 held ≡ ok (ret, (k', m')))
    × Given same_break 100 held ((20, 2) ∷ []) 5 ret k' m'
malloc-Given_example =
    malloc-Given raise_to-IsBreak 5 100 held ((20, 2) ∷ []) (omega arith) held-IsHeap

realloc-Moved_example :
    (ret : Addr) × (k' : ℕ) × (m' : Mem) × (realloc raise_to 20 7 100 held ≡ ok (ret, (k', m')))
    × Given same_break 100 held ((20, 2) ∷ []) 7 ret k' m'
    × ((ret ≡ null) ⊎ Moved held 20 2 ret m')
realloc-Moved_example =
    realloc-Moved raise_to-IsBreak 20 2 7 0 100 held ((20, 2) ∷ []) (omega arith) held-IsHeap refl

-- "hi" stands at 30.
abbrev greeting : Mem
greeting a = if a == 30 then some b'h' else if a == 31 then some b'i' else blank a

strdup-CString_example :
    (ret : Addr) × (k' : ℕ) × (m' : Mem) × (strdup raise_to 5 30 100 greeting ≡ ok (ret, (k', m')))
    × ((ret ≡ null) ⊎ ((100 ≤ ret) × CString m' ret (b'h' ∷ b'i' ∷ [])))
    × ((a : Addr) → a < 100 → m' a ≡ greeting a)
strdup-CString_example =
    strdup-CString raise_to-IsBreak 5 30 (b'h' ∷ b'i' ∷ []) 100 greeting [] (omega arith) tt
      (refl, (λ e. omega arith), (refl, (λ e. omega arith), refl)) (inl (omega arith)) (omega arith)
