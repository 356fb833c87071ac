-- ===== src/Str/Copy.antt =====
-- src/string.c: strcpy, strncpy, strcat and strncat. The index `i` of the source is an `int` of 32
-- bits, and an increment of it that overflows is a fault.
pub mod Result
pub mod Append
use libdeepc.Base.{
  ℕ, zero, suc, ◌+◌, ◌-◌, ◌*◌, ◌/◌, ◌%◌, ◌^◌, ◌≤◌, ◌<◌, ◌≡◌, refl, sym, ap, ◌∙◌, fun_ext, subst,
  ◌≢◌, ◌↔◌, ◌⊎◌, inl, inr, Bool, true, false, not, ◌&&◌, ◌||◌, Option, none, some, List, [], ◌∷◌,
  ◌++◌, map, arith, dec_lt, dec_le, ℕ_discrete, ltb, leb, ◌==◌, if◌then◌else◌, ltb→lt, lt→ltb,
  ==_iff, ==_refl, Bool-cases, Option-cases, length, get_elem?, set, replicate, take, drop, All,
  length-append, length-set, length-replicate, get_elem?-set_self, get_elem?-set_ne, get_elem?-lt,
  ℤ, pos, negsuc, pos_part, neg_part, sub_ℕ, minus, ◌+ℤ◌, ◌-ℤ◌, ◌*ℤ◌, ◌≤ℤ◌, leb_ℤ, ltb_ℤ, eqb_ℤ,
  Res, ok, fault, out_of_fuel, ◌>>=◌, on_option, lt_wf,
}
use libdeepc.Memory.{Mem, Addr, load, store}
use libdeepc.Str.Scan.{strlen}

-- `++i` on an `int` that is not negative.
unfoldable pub next_int : ℕ → Res ℕ
next_int i = if ltb i (2 ^ 31 - 1) then ok (i + 1) else fault

unfoldable pub strcpy_loop : ℕ → Mem → Addr → Addr → ℕ → Res Mem
strcpy_loop zero m dest src i = out_of_fuel
strcpy_loop (suc fuel) m dest src i = do
  c ← load m (src + i)
  let rest = do m' ← store m (dest + i) c; j ← next_int i; strcpy_loop fuel m' dest src j
  if c == 0 then store m (dest + i) 0 else rest

unfoldable pub strcpy : ℕ → Mem → Addr → Addr → Res Mem
unfolding strcpy_loop
strcpy fuel m dest src = strcpy_loop fuel m dest src 0

-- The loop `src[i] != '\0' && count > 0`, which strncpy and strncat share: the memory, the index
-- and the count where it stops. It reads `src[i]` before it looks at the count.
unfoldable pub copy_at_most : Mem → Addr → Addr → ℕ → ℕ → Res (Mem × ℕ × ℕ)
copy_at_most m dest src i zero = do c ← load m (src + i); ok (m, i, 0)
copy_at_most m dest src i (suc count) = do
  c ← load m (src + i)
  let rest = do m' ← store m (dest + i) c; j ← next_int i; copy_at_most m' dest src j count
  if c == 0 then ok (m, i, suc count) else rest

-- The loop that pads with NUL.
unfoldable pub pad_nul : Mem → Addr → ℕ → ℕ → Res Mem
pad_nul m dest i zero = ok m
pad_nul m dest i (suc count) = do m' ← store m (dest + i) 0; j ← next_int i; pad_nul m' dest j count

unfoldable pub strncpy : Mem → Addr → Addr → ℕ → Res Mem
unfolding copy_at_most pad_nul
strncpy m dest src count = do
  (m', i, left) ← copy_at_most m dest src 0 count
  pad_nul m' dest i left

unfoldable pub strcat : ℕ → Mem → Addr → Addr → Res Mem
unfolding strlen strcpy
strcat fuel m dest src = do orig_len ← strlen fuel m dest; strcpy fuel m (dest + orig_len) src

unfoldable pub strncat : ℕ → Mem → Addr → Addr → ℕ → Res Mem
unfolding strlen copy_at_most
strncat fuel m dest src count = do
  orig_len ← strlen fuel m dest
  (m', i, left) ← copy_at_most m (dest + orig_len) src 0 count
  store m' (dest + orig_len + i) 0
