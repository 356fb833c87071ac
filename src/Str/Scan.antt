-- ===== src/Str/Scan.antt =====
-- src/string.c: strlen, strchr, strrchr, strspn, strcspn and strpbrk. An endless loop runs on fuel,
-- and needs one round for each byte that it reads.
pub mod Find
pub mod Span
use libdeepc.Base.{
  ℕ, zero, suc, ◌+◌, ◌-◌, ◌*◌, ◌/◌, ◌%◌, ◌^◌, ◌≤◌, ◌<◌, ◌≡◌, refl, sym, ap, ◌∙◌, fun_ext, subst,
  ◌≢◌, ◌↔◌, ◌⊎◌, inl, inr, Bool, true, false, not, ◌&&◌, ◌||◌, Option, none, some, List, [], ◌∷◌,
  ◌++◌, map, arith, dec_lt, dec_le, ℕ_discrete, ltb, leb, ◌==◌, if◌then◌else◌, ltb→lt, lt→ltb,
  ==_iff, ==_refl, Bool-cases, Option-cases, length, get_elem?, set, replicate, take, drop, All,
  length-append, length-set, length-replicate, get_elem?-set_self, get_elem?-set_ne, get_elem?-lt,
  ℤ, pos, negsuc, pos_part, neg_part, sub_ℕ, minus, ◌+ℤ◌, ◌-ℤ◌, ◌*ℤ◌, ◌≤ℤ◌, leb_ℤ, ltb_ℤ, eqb_ℤ,
  Res, ok, fault, out_of_fuel, ◌>>=◌, lt_wf,
}
use libdeepc.Memory.{Mem, Addr, load}
use libdeepc.Str.Block.{to_uchar}

unfoldable pub strlen_loop : ℕ → Mem → Addr → ℕ → Res ℕ
strlen_loop zero m str len = out_of_fuel
strlen_loop (suc fuel) m str len = do
  c ← load m (str + len)
  let rest = strlen_loop fuel m str (len + 1)
  if c == 0 then ok len else rest

unfoldable pub strlen : ℕ → Mem → Addr → Res ℕ
unfolding strlen_loop
strlen fuel m str = strlen_loop fuel m str 0

unfoldable pub strchr_loop : ℕ → Mem → Addr → ℕ → Res (Option Addr)
strchr_loop zero m str c = out_of_fuel
strchr_loop (suc fuel) m str c = do
  d ← load m str
  let rest = strchr_loop fuel m (str + 1) c
  if d == c then ok (some str) else if d == 0 then ok none else rest

unfoldable pub strchr : ℕ → Mem → Addr → ℤ → Res (Option Addr)
unfolding strchr_loop
strchr fuel m str ch = strchr_loop fuel m str (to_uchar ch)

unfoldable pub strrchr_loop : ℕ → Mem → Addr → ℕ → Option Addr → Res (Option Addr)
strrchr_loop zero m str c ret = out_of_fuel
strrchr_loop (suc fuel) m str c ret = do
  d ← load m str
  let ret' = if d == c then some str else ret
  let rest = strrchr_loop fuel m (str + 1) c ret'
  if d == 0 then ok ret' else rest

unfoldable pub strrchr : ℕ → Mem → Addr → ℤ → Res (Option Addr)
unfolding strrchr_loop
strrchr fuel m str ch = strrchr_loop fuel m str (to_uchar ch) none

-- The inner loop of strspn: true if it ends by `break`, false if the function returns.
unfoldable pub strspn_inner : ℕ → Mem → Addr → ℕ → Res Bool
strspn_inner zero m sr c = out_of_fuel
strspn_inner (suc fuel) m sr c = do
  s ← load m sr
  let rest = strspn_inner fuel m (sr + 1) c
  if s == c then ok true else if s == 0 then ok false else rest

unfoldable pub strspn_loop : ℕ → ℕ → Mem → Addr → Addr → Addr → Res ℕ
unfolding strspn_inner
strspn_loop zero inner m dest src d = out_of_fuel
strspn_loop (suc fuel) inner m dest src d = do
  c ← load m d
  let next = do
    found ← strspn_inner inner m src c
    let rest = strspn_loop fuel inner m dest src (d + 1)
    if found then rest else ok (d - dest)
  if c == 0 then ok (d - dest) else next

unfoldable pub strspn : ℕ → Mem → Addr → Addr → Res ℕ
unfolding strspn_loop
strspn fuel m dest src = strspn_loop fuel fuel m dest src dest

-- The inner loop of strcspn: true if it ends by `break`, false if the function returns.
unfoldable pub strcspn_inner : ℕ → Mem → Addr → ℕ → Res Bool
strcspn_inner zero m sr c = out_of_fuel
strcspn_inner (suc fuel) m sr c = do
  s ← load m sr
  let rest = strcspn_inner fuel m (sr + 1) c
  if s == 0 then ok true else if s == c then ok false else rest

unfoldable pub strcspn_loop : ℕ → ℕ → Mem → Addr → Addr → Addr → Res ℕ
unfolding strcspn_inner
strcspn_loop zero inner m dest src d = out_of_fuel
strcspn_loop (suc fuel) inner m dest src d = do
  c ← load m d
  let next = do
    pass ← strcspn_inner inner m src c
    let rest = strcspn_loop fuel inner m dest src (d + 1)
    if pass then rest else ok (d - dest)
  if c == 0 then ok (d - dest) else next

unfoldable pub strcspn : ℕ → Mem → Addr → Addr → Res ℕ
unfolding strcspn_loop
strcspn fuel m dest src = strcspn_loop fuel fuel m dest src dest

unfoldable pub strpbrk : ℕ → Mem → Addr → Addr → Res (Option Addr)
unfolding strcspn
strpbrk fuel m dest breakset = do
  len ← strcspn fuel m dest breakset
  c ← load m (dest + len)
  if c == 0 then ok none else ok (some (dest + len))
