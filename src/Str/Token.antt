-- ===== src/Str/Token.antt =====
-- src/string.c: strtok_r, whose saved state is an address. strtok is the same on a state of its own.
pub mod Split
use libdeepc.Base.{
  ℕ, zero, suc, ◌+◌, ◌-◌, ◌*◌, ◌/◌, ◌%◌, ◌^◌, ◌≤◌, ◌<◌, ◌≡◌, refl, sym, ap, ◌∙◌, fun_ext, subst,
  ◌≢◌, ◌↔◌, ◌⊎◌, inl, inr, Bool, true, false, not, ◌&&◌, ◌||◌, Option, none, some, List, [], ◌∷◌,
  ◌++◌, map, arith, dec_lt, dec_le, ℕ_discrete, ltb, leb, ◌==◌, if◌then◌else◌, ltb→lt, lt→ltb,
  ==_iff, ==_refl, Bool-cases, Option-cases, length, get_elem?, set, replicate, take, drop, All,
  length-append, length-set, length-replicate, get_elem?-set_self, get_elem?-set_ne, get_elem?-lt,
  ℤ, pos, negsuc, pos_part, neg_part, sub_ℕ, minus, ◌+ℤ◌, ◌-ℤ◌, ◌*ℤ◌, ◌≤ℤ◌, leb_ℤ, ltb_ℤ, eqb_ℤ,
  Res, ok, fault, out_of_fuel, ◌>>=◌, on_option, lt_wf,
}
use libdeepc.Memory.{Mem, Addr, null, load, store}
use libdeepc.Str.Scan.{strspn, strcspn}

-- The token, the memory and the new state.
unfoldable pub strtok_r : ℕ → Mem → (str delim state : Addr) → Res (Addr × (Mem × Addr))
strtok_r fuel m str delim state = do
  let from = if str == null then state else str
  skip ← strspn fuel m from delim
  let t = from + skip
  c ← load m t
  let token = (do
    len ← strcspn fuel m t delim
    let t_end = t + len
    d ← load m t_end
    let cut = (do m' ← store m t_end 0; ok (t, (m', t_end + 1)))
    if d == 0 then ok (t, (m, t_end)) else cut)
  if c == 0 then ok (null, (m, null)) else token
