-- ===== src/Malloc.antt =====
-- src/malloc.c, and sbrk of src/unistd.c. The break of the kernel is an argument: a call on a state of
-- the kernel and the memory, which changes with the break. The mutex of malloc makes each call one step.
pub mod Heap
pub mod Blocks
pub mod Calloc
pub mod Realloc
use Prim.Native.Nat.{min}
use libdeepc.Base.{
  ℕ, zero, suc, ◌+◌, ◌-◌, ◌*◌, ◌/◌, ◌%◌, ◌^◌, ◌≤◌, ◌<◌, ◌≡◌, refl, sym, ap, ◌∙◌, fun_ext, subst,
  ◌≢◌, ◌↔◌, ◌⊎◌, inl, inr, Bool, true, false, not, ◌&&◌, ◌||◌, Option, none, some, List, [], ◌∷◌,
  ◌++◌, map, arith, dec_lt, dec_le, ℕ_discrete, ltb, leb, ◌==◌, if◌then◌else◌, ltb→lt, lt→ltb,
  ==_iff, ==_refl, Bool-cases, Option-cases, length, get_elem?, set, replicate, take, drop, All,
  length-append, length-set, length-replicate, get_elem?-set_self, get_elem?-set_ne, get_elem?-lt,
  ℤ, pos, negsuc, pos_part, neg_part, sub_ℕ, minus, ◌+ℤ◌, ◌-ℤ◌, ◌*ℤ◌, ◌≤ℤ◌, leb_ℤ, ltb_ℤ, eqb_ℤ,
  Res, ok, fault, out_of_fuel, ◌>>=◌, on_option, lt_wf,
}
use libdeepc.Memory.{Mem, Addr, null, load, store}
use libdeepc.Str.Block.{memcpy, memset}

-- A size_t in memory, from its lowest byte on: malloc_metadata has one.
unfoldable pub store_size : ℕ → Mem → Addr → ℕ → Res Mem
store_size zero m p n = ok m
store_size (suc k) m p n = do m' ← store m p (n % 256); store_size k m' (p + 1) (n / 256)

unfoldable pub load_size : ℕ → Mem → Addr → Res ℕ
load_size zero m p = ok 0
load_size (suc k) m p = do b ← load m p; rest ← load_size k m (p + 1); ok (b + 256 * rest)

-- (void *)-1
abbrev pub minus_one : Addr
minus_one = 2 ^ 64 - 1

module _ {K : Type 0} (brk : Addr → K → Mem → Addr × (K × Mem)) where
  -- sbrk, with the increment as a uint64_t.
  unfoldable pub sbrk : ℕ → K → Mem → Addr × (K × Mem)
  sbrk increment k m =
      let (cur_break, (k1, m1)) = brk 0 k m in
      let next_break = (cur_break + increment) % 2 ^ 64 in
      let (actual, (k2, m2)) = brk next_break k1 m1 in
      if increment == 0
      then (cur_break, (k1, m1))
      else if next_break == actual
      then (cur_break, (k2, m2))
      else (minus_one, (k2, m2))

  unfoldable pub malloc : ℕ → K → Mem → Res (Addr × (K × Mem))
  malloc size k m =
      let (ret, (k', m')) = sbrk ((size + 8) % 2 ^ 64) k m in
      let give = (do m'' ← store_size 8 m' ret size; ok (ret + 8, (k', m''))) in
      if size == 0
      then ok (null, (k, m))
      else if ret == minus_one
      then ok (null, (k', m'))
      else give

  -- `free` does nothing.
  unfoldable pub realloc : Addr → ℕ → K → Mem → Res (Addr × (K × Mem))
  realloc ptr new_size k m = do
    (new_ptr, (k', m')) ← malloc new_size k m
    let copy = (do
      old_size ← load_size 8 m' (ptr - 8)
      m'' ← memcpy m' new_ptr ptr (min old_size new_size)
      ok (new_ptr, (k', m'')))
    if new_ptr == null
        then ok (null, (k', m'))
        else if ptr == null
        then ok (new_ptr, (k', m'))
        else copy

  -- The call is `memset(ret, size, 0)`: the byte is the size, and the count is 0.
  unfoldable pub calloc : ℕ → ℕ → K → Mem → Res (Addr × (K × Mem))
  calloc num size k m = do
    (ret, (k', m')) ← malloc (num * size % 2 ^ 64) k m
    let clear = (do m'' ← memset m' ret (pos size) 0; ok (ret, (k', m'')))
    if ret == null then ok (ret, (k', m')) else clear
