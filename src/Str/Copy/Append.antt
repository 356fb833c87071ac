-- ===== src/Str/Copy/Append.antt =====
-- src/string.c: strcat and strncat concatenate, and what strcpy, strncpy and strdup leave is a
-- string.
use Prim.Native.Nat.{min}
use libdeepc.Base.{
  ℕ, suc, ◌+◌, ◌-◌, ◌^◌, ◌<◌, ◌≡◌, refl, false, some, List, ◌++◌, arith, length, take, ok,
}
use libdeepc.Memory.{Mem, Addr, write, IsMapped}
use libdeepc.Memory.Block.{blit-get, blit, store-ok, within, IsMapped-get}
use libdeepc.Memory.Text.{CString, CString-move, CString-take, CString-append}
use libdeepc.Str.Scan.Find.{strlen-length}
use libdeepc.Str.Copy.{strcat, strncat}
use libdeepc.Str.Copy.Result.{
  Apart, strcat-blit, copy_at_most-blit, blit-IsMapped, CString-IsMapped,
}

-- `k` differs from `m` at most in the `n` bytes from `d`.
abbrev pub SameOutside : Mem → Mem → Addr → ℕ → Type 0
SameOutside m k d n = (a : Addr) → within a d n ≡ false → k a ≡ m a

blit-SameOutside : (m : Mem) (d s n : ℕ) → SameOutside m (blit m d s n) d n
unfolding blit
blit-SameOutside m d s n a e = rw e refl

-- strcat of two strings, the second of less than 2 ^ 31 bytes, with mapped room behind the first
-- that is apart from the second, ends without a fault with the concatenation of the two at `dest`,
-- and changes nothing but the room for the second string and its NUL.
pub strcat-append :
    (fuel : ℕ) (m : Mem) (dest src : Addr) (s t : List ℕ)
    → CString m dest s
    → CString m src t
    → IsMapped m (dest + length s) (suc (length t))
    → Apart (dest + length s) (suc (length t)) src (suc (length t))
    → length s < fuel
    → length t < fuel
    → length t < 2 ^ 31
    → (k : Mem) × (strcat fuel m dest src ≡ ok k)
      × CString k dest (s ++ t)
      × SameOutside m k (dest + length s) (suc (length t))
strcat-append fuel m dest src s t hs ht r apart ls lt room =
    let d = dest + length s in
    let n = suc (length t) in
    (
      blit m d src n,
      strcat-blit fuel m dest src s t hs ht r apart ls lt room,
      CString-append m (blit m d src n) dest s t
          (λ i h. blit-SameOutside m d src n (dest + i) (ground arith)) hs
          (CString-move m (blit m d src n) src d t (λ i h. blit-get m d src n i (omega arith)) ht),
      blit-SameOutside m d src n,
    )

-- A copied block with a NUL behind it.
module _ (m : Mem) (d src k : ℕ) where
  nul_end-get : (i : ℕ) → i < k → write (blit m d src k) (d + k) 0 (d + i) ≡ m (src + i)
  unfolding write
  nul_end-get i lt = ground (arith, blit-get m d src k i lt)

  nul_end-stop : (i : ℕ) → i ≡ k → write (blit m d src k) (d + k) 0 (d + i) ≡ some 0
  unfolding write
  nul_end-stop i e = rw e (ground arith)

  nul_end-SameOutside : SameOutside m (write (blit m d src k) (d + k) 0) d (suc k)
  unfolding write blit
  nul_end-SameOutside a e = ground arith

-- strncat of two strings, with mapped room for at most `n` bytes of the second, of which less than
-- 2 ^ 31 are copied, and a NUL behind the first that is apart from the second, ends without a fault
-- with the first string and those bytes at `dest`, and changes nothing but that room.
pub strncat-append :
    (fuel : ℕ) (m : Mem) (dest src n k : ℕ) (s t : List ℕ)
    → CString m dest s
    → CString m src t
    → k ≡ min n (length t)
    → IsMapped m (dest + length s) (suc n)
    → Apart (dest + length s) n src (suc (length t))
    → length s < fuel
    → k < 2 ^ 31
    → (m' : Mem) × (strncat fuel m dest src n ≡ ok m')
      × CString m' dest (s ++ take n t)
      × SameOutside m m' (dest + length s) (suc k)
unfolding strncat
strncat-append fuel m dest src n k s t hs ht ek r apart ls room =
    let d = dest + length s in
    let c = blit m d src k in
    let copied =
      copy_at_most-blit d src m 0 d src n k k (n - length t) t (omega arith) (omega arith) ek
        (omega arith) refl ht (λ i h. r i (omega arith)) apart room in
    let mapped =
      blit-IsMapped m d src k d (suc n) (CString-IsMapped m src t k ht (omega arith)) r in
    let (b, g) = IsMapped-get c d (suc n) k mapped (omega arith) in
    (
      write c (d + k) 0,
      rw (strlen-length fuel m dest s hs ls, copied) (store-ok c (d + k) g 0),
      CString-append m (write c (d + k) 0) dest s (take n t)
          (λ i h. nul_end-SameOutside m d src k (dest + i) (ground arith)) hs
          (CString-take m (write c (d + k) 0) src d n t
            (λ i h h'. nul_end-get m d src k i (omega arith))
            (λ i e. nul_end-stop m d src k i (omega arith)) ht),
      nul_end-SameOutside m d src k,
    )
