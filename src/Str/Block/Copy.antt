-- ===== src/Str/Block/Copy.antt =====
-- src/string.c: memcpy, memmove and memset against the simultaneous copy and the fill of a block.
use libdeepc.Base.{
  ℕ, zero, suc, ◌+◌, ◌-◌, ◌<◌, ◌≡◌, ap, ◌∙◌, fun_ext, inl, inr, some, arith, dec_lt, ℕ_discrete, ℤ,
  ok,
}
use libdeepc.Memory.{Mem, write, IsMapped}
use libdeepc.Memory.Block.{
  ForwardSafe, blit-zero, blit-suc, fill-zero, fill-suc, blit, fill, load-ok, store-ok,
  write-IsMapped, IsMapped-suc, IsMapped-head, IsMapped-get, IsMapped-less,
}
use libdeepc.Str.Block.{memcpy, copy_down, memmove, memset_loop, memset, to_uchar}

copy_down-step :
    (m : Mem) (d s n : ℕ) {c : ℕ}
    → m (s + n) ≡ some c
    → s < d
    → blit (write m (d + n) c) d s n ≡ blit m d s (suc n)
unfolding blit write
copy_down-step m d s n e h = fun_ext λ a. elim (ℕ_discrete a (d + n)) [
  | yes q ↦ let r : d + n - d + s ≡ s + n = omega arith in rw (q, r, e) (ground arith)
  | no q ↦ ground arith
]

pub memcpy-blit :
    (m : Mem) (d s n : ℕ)
    → IsMapped m s n
    → IsMapped m d n
    → ForwardSafe d s n
    → memcpy m d s n ≡ ok (blit m d s n)
unfolding memcpy
memcpy-blit m d s zero rs rd safe = ap ok (blit-zero m d s)
memcpy-blit m d s (suc n) rs rd safe =
    let (c, e) = IsMapped-head m s n rs in
    let (b, f) = IsMapped-head m d n rd in
    rw (load-ok m s e, store-ok m d f c)
      (memcpy-blit (write m d c) (d + 1) (s + 1) n
          (write-IsMapped m d c (s + 1) n (IsMapped-suc m s n rs))
          (write-IsMapped m d c (d + 1) n (IsMapped-suc m d n rd)) (omega arith)
        ∙ ap ok (blit-suc m d s n e safe))

copy_down-blit :
    (m : Mem) (d s n : ℕ)
    → IsMapped m s n
    → IsMapped m d n
    → s < d
    → copy_down m d s n ≡ ok (blit m d s n)
unfolding copy_down
copy_down-blit m d s zero rs rd h = ap ok (blit-zero m d s)
copy_down-blit m d s (suc n) rs rd h =
    let (c, e) = IsMapped-get m s (suc n) n rs (omega arith) in
    let (b, f) = IsMapped-get m d (suc n) n rd (omega arith) in
    rw (load-ok m (s + n) e, store-ok m (d + n) f c)
      (copy_down-blit (write m (d + n) c) d s n
          (write-IsMapped m (d + n) c s n (IsMapped-less m s n rs))
          (write-IsMapped m (d + n) c d n (IsMapped-less m d n rd)) h
        ∙ ap ok (copy_down-step m d s n e h))

-- memmove on mapped blocks, however they overlap, never faults and leaves exactly what reading the
-- whole source first and writing it to the destination afterwards leaves.
pub memmove-blit :
    (m : Mem) (d s n : ℕ) → IsMapped m s n → IsMapped m d n → memmove m d s n ≡ ok (blit m d s n)
unfolding memmove
memmove-blit m d s n rs rd = elim (dec_lt s d) [
  | yes h ↦ elim (dec_lt (s + n) d) [
    | yes k ↦ ground (arith, memcpy-blit m d s n rs rd (inr (omega arith)))
    | no k ↦ ground (arith, copy_down-blit m d s n rs rd h)
  ]
  | no h ↦ ground (arith, memcpy-blit m d s n rs rd (inl (omega arith)))
]

memset_loop-fill : (m : Mem) (d c n : ℕ) → IsMapped m d n → memset_loop m d c n ≡ ok (fill m d c n)
unfolding memset_loop
memset_loop-fill m d c zero h = ap ok (fill-zero m d c)
memset_loop-fill m d c (suc n) h =
    let (b, e) = IsMapped-head m d n h in
    rw (store-ok m d e c) (
      memset_loop-fill (write m d c) (d + 1) c n
        (write-IsMapped m d c (d + 1) n (IsMapped-suc m d n h))
      ∙ ap ok (fill-suc m d c n))

-- memset on a mapped block never faults and sets each of its bytes to the argument as an unsigned
-- char, and no other byte.
pub memset-fill :
    (m : Mem) (d n : ℕ) (ch : ℤ) → IsMapped m d n → memset m d ch n ≡ ok (fill m d (to_uchar ch) n)
unfolding memset
memset-fill m d n ch h = memset_loop-fill m d (to_uchar ch) n h
