-- ===== src/Str/Copy/Result.antt =====
-- src/string.c: what strcpy, strncpy, strcat and strncat leave in memory.
use Prim.Native.Nat.{min}
use libdeepc.Base.{
  ℕ, zero, suc, ◌+◌, ◌-◌, ◌^◌, ◌≤◌, ◌<◌, ◌≡◌, refl, ap, ◌∙◌, subst, ◌≢◌, ◌⊎◌, inl, inr, none, List,
  [], ◌∷◌, arith, Bool-cases, length, ok,
}
use libdeepc.Memory.{Mem, Addr, write, IsMapped}
use libdeepc.Memory.Block.{
  blit, fill, load-ok, store-ok, write-IsMapped, within, blit-suc, blit-zero, fill-zero, fill-suc,
  IsMapped-head, IsMapped-suc,
}
use libdeepc.Memory.Text.{CString, CString-write, CString-first, CString-get}
use libdeepc.Str.Scan.Find.{strlen-length}
use libdeepc.Str.Copy.{next_int, strcpy_loop, strcpy, copy_at_most, pad_nul, strncpy, strcat}

-- No byte of the `n` from `d` is one of the `k` from `s`.
abbrev pub Apart : Addr → ℕ → Addr → ℕ → Type 0
Apart d n s k = (d + n ≤ s) ⊎ (s + k ≤ d)

-- What a copy of bytes that are there leaves mapped.
pub blit-IsMapped :
    (m : Mem) (dest src k d n : ℕ)
    → IsMapped m src k
    → IsMapped m d n
    → IsMapped (blit m dest src k) d n
unfolding blit
blit-IsMapped m dest src k d n rs r i lt = elim (Bool-cases (within (d + i) dest k)) [
  | inl e ↦
      let q : src + (d + i - dest) ≡ d + i - dest + src = omega arith in
      rw e (subst (λ a. m a ≢ none) q (rs (d + i - dest) (ground arith)))
  | inr e ↦ rw e (r i lt)
]

pub CString-IsMapped :
    (m : Mem) (p : Addr) (s : List ℕ) (k : ℕ) → CString m p s → k ≤ suc (length s) → IsMapped m p k
CString-IsMapped m p s k h le i lt = CString-get m p s i h (omega arith)

IsMapped-from : (m : Mem) (p k n l : ℕ) → k + l ≤ n → IsMapped m p n → IsMapped m (p + k) l
IsMapped-from m p k n l le r i lt =
    let q : p + (k + i) ≡ p + k + i = omega arith in
    subst (λ a. m a ≢ none) q (r (k + i) (omega arith))

-- The increment of an index that has room.
next_int-room : (i : ℕ) → i + 1 < 2 ^ 31 → next_int i ≡ ok (i + 1)
unfolding next_int
next_int-room i lt = ground arith

module _ (dest src : Addr) where
  strcpy_loop-blit :
      (fuel : ℕ) (m : Mem) (i d q : ℕ) (s : List ℕ)
      → src + i ≡ q
      → dest + i ≡ d
      → CString m q s
      → IsMapped m d (suc (length s))
      → Apart d (suc (length s)) q (suc (length s))
      → length s < fuel
      → i + length s < 2 ^ 31
      → strcpy_loop fuel m dest src i ≡ ok (blit m d q (suc (length s)))
  unfolding strcpy_loop
  strcpy_loop-blit zero m i d q s e f h r apart lt room = absurd (omega arith)
  strcpy_loop-blit (suc fuel) m i d q [] e f h r apart lt room =
      let (b, g) = IsMapped-head m d 0 r in
      rw (e, f, load-ok m q h)
        (store-ok m d g 0
          ∙ ap ok (blit-zero (write m d 0) (d + 1) (q + 1) ∙ blit-suc m d q 0 h (omega arith)))
  strcpy_loop-blit (suc fuel) m i d q (c ∷ s) e f h r apart lt room =
      let n = suc (length s) in
      let (b, g) = IsMapped-head m d n r in
      let rec =
        strcpy_loop-blit fuel (write m d c) (i + 1) (d + 1) (q + 1) s (omega arith) (omega arith)
          (CString-write m d c (q + 1) s (omega arith) h.2)
          (write-IsMapped m d c (d + 1) n (IsMapped-suc m d n r)) (omega arith) (omega arith)
          (omega arith) in
      rw (e, f, load-ok m q h.0, store-ok m d g c, next_int-room i (omega arith))
        (ground (arith, h.1, rec, blit-suc m d q n h.0))

  pub copy_at_most-blit :
      (m : Mem) (i d q n k j l : ℕ) (s : List ℕ)
      → src + i ≡ q
      → dest + i ≡ d
      → k ≡ min n (length s)
      → j ≡ i + k
      → l ≡ n - length s
      → CString m q s
      → IsMapped m d n
      → Apart d n q (suc (length s))
      → j < 2 ^ 31
      → copy_at_most m dest src i n ≡ ok (blit m d q k, j, l)
  unfolding copy_at_most
  copy_at_most-blit m i d q zero k j l s e f ek ej el h r apart room =
      let (b, g) = CString-first m q s h in
      let z : k ≡ 0 = omega arith in
      let w : j ≡ i = omega arith in
      let v : l ≡ 0 = omega arith in
      rw (e, load-ok m q g, z, w, v) (ap (λ (t : Mem). ok (t, i, 0)) (blit-zero m d q))
  copy_at_most-blit m i d q (suc n) k j l [] e f ek ej el h r apart room =
      let z : k ≡ 0 = omega arith in
      let w : j ≡ i = omega arith in
      let v : l ≡ suc n = omega arith in
      rw (e, load-ok m q h, z, w, v) (ap (λ (t : Mem). ok (t, i, suc n)) (blit-zero m d q))
  copy_at_most-blit m i d q (suc n) zero j l (c ∷ s) e f ek ej el h r apart room =
      absurd (omega arith)
  copy_at_most-blit m i d q (suc n) (suc k) j l (c ∷ s) e f ek ej el h r apart room =
      let (b, g) = IsMapped-head m d n r in
      let rec =
        copy_at_most-blit (write m d c) (i + 1) (d + 1) (q + 1) n k j l s (omega arith)
          (omega arith) (omega arith) (omega arith) (omega arith)
          (CString-write m d c (q + 1) s (omega arith) h.2)
          (write-IsMapped m d c (d + 1) n (IsMapped-suc m d n r)) (omega arith) (omega arith) in
      rw (e, f, load-ok m q h.0, store-ok m d g c, next_int-room i (omega arith))
        (ground (arith, h.1, rec, blit-suc m d q k h.0))

  pad_nul-fill :
      (m : Mem) (i d n : ℕ)
      → dest + i ≡ d
      → IsMapped m d n
      → i + n < 2 ^ 31
      → pad_nul m dest i n ≡ ok (fill m d 0 n)
  unfolding pad_nul
  pad_nul-fill m i d zero f r room = ap ok (fill-zero m d 0)
  pad_nul-fill m i d (suc n) f r room =
      let (b, g) = IsMapped-head m d n r in
      rw (f, store-ok m d g 0, next_int-room i (omega arith))
        (pad_nul-fill (write m d 0) (i + 1) (d + 1) n (omega arith)
            (write-IsMapped m d 0 (d + 1) n (IsMapped-suc m d n r)) (omega arith)
          ∙ ap ok (fill-suc m d 0 n))

-- strcpy of a string of less than 2 ^ 31 bytes into a mapped block apart from it never faults, and
-- leaves the memory in which the block holds the bytes of the string with its NUL and all else is
-- unchanged.
pub strcpy-blit :
    (fuel : ℕ) (m : Mem) (dest src : Addr) (s : List ℕ)
    → CString m src s
    → IsMapped m dest (suc (length s))
    → Apart dest (suc (length s)) src (suc (length s))
    → length s < fuel
    → length s < 2 ^ 31
    → strcpy fuel m dest src ≡ ok (blit m dest src (suc (length s)))
unfolding strcpy
strcpy-blit fuel m dest src s h r apart lt room =
    strcpy_loop-blit dest src fuel m 0 dest src s (omega arith) (omega arith) h r apart lt
      (omega arith)

-- strncpy of a string into a mapped block of `n` bytes, less than 2 ^ 31, apart from it never
-- faults: the block then holds at most `n` bytes of the string and is padded with NULs to its end.
pub strncpy-blit :
    (m : Mem) (dest src n k : ℕ) (s : List ℕ)
    → CString m src s
    → IsMapped m dest n
    → Apart dest n src (suc (length s))
    → k ≡ min n (length s)
    → n < 2 ^ 31
    → strncpy m dest src n ≡ ok (fill (blit m dest src k) (dest + k) 0 (n - length s))
unfolding strncpy
strncpy-blit m dest src n k s h r apart ek room =
    rw
      (copy_at_most-blit dest src m 0 dest src n k k (n - length s) s (omega arith) (omega arith) ek
        (omega arith) refl h r apart (omega arith))
      (pad_nul-fill dest src (blit m dest src k) k (dest + k) (n - length s) refl
        (blit-IsMapped m dest src k (dest + k) (n - length s)
          (CString-IsMapped m src s k h (omega arith))
          (IsMapped-from m dest k n (n - length s) (omega arith) r))
        (omega arith))

-- strcat of two strings, the second of less than 2 ^ 31 bytes, with mapped room for the second and
-- its NUL behind the first and apart from the second, never faults: it writes the second string
-- over the NUL of the first.
pub strcat-blit :
    (fuel : ℕ) (m : Mem) (dest src : Addr) (s t : List ℕ)
    → CString m dest s
    → CString m src t
    → IsMapped m (dest + length s) (suc (length t))
    → Apart (dest + length s) (suc (length t)) src (suc (length t))
    → length s < fuel
    → length t < fuel
    → length t < 2 ^ 31
    → strcat fuel m dest src ≡ ok (blit m (dest + length s) src (suc (length t)))
unfolding strcat
strcat-blit fuel m dest src s t hs ht r apart ls lt room =
    rw (strlen-length fuel m dest s hs ls)
      (strcpy-blit fuel m (dest + length s) src t ht r apart lt room)
