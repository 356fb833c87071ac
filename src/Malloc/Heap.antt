-- ===== src/Malloc/Heap.antt =====
-- src/malloc.c: the blocks that were given out, what the kernel promises of the break, and the size in
-- front of a block.
use libdeepc.Base.{
  ℕ, zero, suc, ◌+◌, ◌-◌, ◌*◌, ◌/◌, ◌%◌, ◌^◌, ◌≤◌, ◌<◌, ◌≡◌, refl, ◌≢◌, ◌⊎◌, none, List, [], ◌∷◌,
  arith, All, ok,
}
use libdeepc.Memory.{Mem, Addr, write, IsMapped}
use libdeepc.Memory.Text.{Holds}
use libdeepc.Memory.Bytes.{put_bytes}
use libdeepc.Memory.Block.{load-ok, store-ok, IsMapped-head, IsMapped-suc, write-IsMapped}
use libdeepc.Malloc.{store_size, load_size}

-- What brk does, where `at` is the break: 0 asks for it, and a higher one is given, with the memory up
-- to it, or refused. The memory below the
-- old break and above the new one stays.
pub record IsBreak {K : Type 0} (brk : Addr → K → Mem → Addr × (K × Mem)) (at : K → Addr)
    : Type 0 where
  pub asks : (k : K) (m : Mem) → brk 0 k m ≡ (at k, (k, m))
  pub gives : (n : Addr) (k : K) (m : Mem) → (brk n k m).0 ≡ at (brk n k m).1.0
  pub grows :
      (n : Addr) (k : K) (m : Mem)
      → at k < n
      → (at (brk n k m).1.0 ≡ n) ⊎ (at (brk n k m).1.0 ≡ at k)
  pub keeps :
      (n : Addr) (k : K) (m : Mem) (a : Addr)
      → at k < n
      → (a < at k) ⊎ (at (brk n k m).1.0 ≤ a)
      → (brk n k m).1.1 a ≡ m a
  pub maps :
      (n : Addr) (k : K) (m : Mem) (a : Addr)
      → at (brk n k m).1.0 ≡ n
      → at k ≤ a
      → a < n
      → (brk n k m).1.1 a ≢ none

abbrev pub size_bytes : ℕ → ℕ → List ℕ
size_bytes zero n = []
size_bytes (suc k) n = (n % 256) ∷ size_bytes k (n / 256)

abbrev pub size_bound : ℕ → ℕ
size_bound zero = 1
size_bound (suc k) = 256 * size_bound k

pub store_size-put_bytes :
    (k : ℕ) (m : Mem) (p n : ℕ)
    → IsMapped m p k
    → store_size k m p n ≡ ok (put_bytes m p (size_bytes k n))
unfolding store_size put_bytes
store_size-put_bytes zero m p n h = refl
store_size-put_bytes (suc k) m p n h =
    let (b, e) = IsMapped-head m p k h in
    rw (store-ok m p e (n % 256)) (
      store_size-put_bytes k (write m p (n % 256)) (p + 1) (n / 256)
        (write-IsMapped m p (n % 256) (p + 1) k (IsMapped-suc m p k h)))

pub load_size-Holds :
    (k : ℕ) (m : Mem) (p n : ℕ)
    → n < size_bound k
    → Holds m p (size_bytes k n)
    → load_size k m p ≡ ok n
unfolding load_size
load_size-Holds zero m p n lt h = let e : n ≡ 0 = omega arith in rw e refl
load_size-Holds (suc k) m p n lt (e, h) =
    let rest = load_size-Holds k m (p + 1) (n / 256) (omega arith) h in
    let q : n % 256 + 256 * (n / 256) ≡ n = omega arith in rw (load-ok m p e, rest, q) refl

-- An address and a size.
abbrev pub Block : Type 0
Block = Addr × ℕ

-- A block with its size in front, below the break.
abbrev pub IsBlock : Addr → Mem → Block → Type 0
IsBlock top m (p, n) =
    (8 ≤ p) × (p + n ≤ top) × (n < 2 ^ 64) × Holds m (p - 8) (size_bytes 8 n) × IsMapped m p n

-- The blocks, with the sizes in front of them, do not overlap.
abbrev pub Apart : Block → Block → Type 0
Apart (p, n) (q, k) = (p + n + 8 ≤ q) ⊎ (q + k + 8 ≤ p)

abbrev pub IsHeap : Addr → Mem → List Block → Type 0
IsHeap top m [] = Unit
IsHeap top m (b ∷ bs) = IsBlock top m b × All (Apart b) bs × IsHeap top m bs
