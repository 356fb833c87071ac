-- ===== src/Str/Block.antt =====
-- src/string.c: memchr, memcmp, memset, memcpy and memmove. Each loop recurs on the bytes left.
pub mod Copy
use libdeepc.Base.{
  ℕ, zero, suc, ◌+◌, ◌-◌, ◌*◌, ◌/◌, ◌%◌, ◌^◌, ◌≤◌, ◌<◌, ◌≡◌, refl, sym, ap, ◌∙◌, fun_ext, subst,
  ◌≢◌, ◌↔◌, ◌⊎◌, inl, inr, Bool, true, false, not, ◌&&◌, ◌||◌, Option, none, some, List, [], ◌∷◌,
  ◌++◌, map, arith, dec_lt, dec_le, ℕ_discrete, ltb, leb, ◌==◌, if◌then◌else◌, ltb→lt, lt→ltb,
  ==_iff, ==_refl, Bool-cases, Option-cases, length, get_elem?, set, replicate, take, drop, All,
  length-append, length-set, length-replicate, get_elem?-set_self, get_elem?-set_ne, get_elem?-lt,
  ℤ, pos, negsuc, pos_part, neg_part, sub_ℕ, minus, ◌+ℤ◌, ◌-ℤ◌, ◌*ℤ◌, ◌≤ℤ◌, leb_ℤ, ltb_ℤ, eqb_ℤ,
  Res, ok, fault, out_of_fuel, ◌>>=◌, lt_wf,
}
use libdeepc.Memory.{Mem, Addr, load, store}

-- (unsigned char)ch
abbrev pub to_uchar : ℤ → ℕ
to_uchar (pos n) = n % 256
to_uchar (negsuc n) = 255 - n % 256

-- The value of a byte read as a `char`, which is signed or not as the platform has it.
abbrev pub char_value : Bool → ℕ → ℤ
char_value true b = if ltb b 128 then pos b else negsuc (255 - b)
char_value false b = pos b

-- The comparison `l < r ? -1 : 1` of two chars.
abbrev pub char_sign : Bool → ℕ → ℕ → ℤ
char_sign signed l r = if ltb_ℤ (char_value signed l) (char_value signed r) then negsuc 0 else pos 1

unfoldable pub memchr_loop : Mem → ℕ → Addr → ℕ → Res (Option Addr)
memchr_loop m needle haystack zero = ok none
memchr_loop m needle haystack (suc left) = do
  c ← load m haystack
  let rest = memchr_loop m needle (haystack + 1) left
  if c == needle then ok (some haystack) else rest

unfoldable pub memchr : Mem → Addr → ℤ → ℕ → Res (Option Addr)
unfolding memchr_loop
memchr m ptr ch count = memchr_loop m (to_uchar ch) ptr count

unfoldable pub memcmp : Bool → Mem → Addr → Addr → ℕ → Res ℤ
memcmp signed m l r zero = ok (pos 0)
memcmp signed m l r (suc left) = do
  a ← load m l
  b ← load m r
  let rest = memcmp signed m (l + 1) (r + 1) left
  if a == b then rest else ok (char_sign signed a b)

unfoldable pub memset_loop : Mem → Addr → ℕ → ℕ → Res Mem
memset_loop m d c zero = ok m
memset_loop m d c (suc left) = do m' ← store m d c; memset_loop m' (d + 1) c left

unfoldable pub memset : Mem → Addr → ℤ → ℕ → Res Mem
unfolding memset_loop
memset m dest ch count = memset_loop m dest (to_uchar ch) count

unfoldable pub memcpy : Mem → Addr → Addr → ℕ → Res Mem
memcpy m d s zero = ok m
memcpy m d s (suc left) = do c ← load m s; m' ← store m d c; memcpy m' (d + 1) (s + 1) left

-- The loop from the end: `left` bytes of `start` are still to be written.
unfoldable pub copy_down : Mem → Addr → Addr → ℕ → Res Mem
copy_down m start s zero = ok m
copy_down m start s (suc left) = do
  c ← load m (s + left)
  m' ← store m (start + left) c
  copy_down m' start s left

unfoldable pub memmove : Mem → Addr → Addr → ℕ → Res Mem
unfolding memcpy copy_down
memmove m dest src count =
    if leb (dest + count) src || ltb (src + count) dest
    then memcpy m dest src count
    else if ltb src dest
    then copy_down m dest src count
    else memcpy m dest src count
