-- ===== src/Str/Substring.antt =====
-- src/string.c: strstr. Its calls of strchr have a byte that is a char already.
pub mod First
use libdeepc.Base.{
  ℕ, zero, suc, ◌+◌, ◌-◌, ◌*◌, ◌/◌, ◌%◌, ◌^◌, ◌≤◌, ◌<◌, ◌≡◌, refl, sym, ap, ◌∙◌, fun_ext, subst,
  ◌≢◌, ◌↔◌, ◌⊎◌, inl, inr, Bool, true, false, not, ◌&&◌, ◌||◌, Option, none, some, List, [], ◌∷◌,
  ◌++◌, map, arith, dec_lt, dec_le, ℕ_discrete, ltb, leb, ◌==◌, if◌then◌else◌, ltb→lt, lt→ltb,
  ==_iff, ==_refl, Bool-cases, Option-cases, length, get_elem?, set, replicate, take, drop, All,
  length-append, length-set, length-replicate, get_elem?-set_self, get_elem?-set_ne, get_elem?-lt,
  ℤ, pos, negsuc, pos_part, neg_part, sub_ℕ, minus, ◌+ℤ◌, ◌-ℤ◌, ◌*ℤ◌, ◌≤ℤ◌, leb_ℤ, ltb_ℤ, eqb_ℤ,
  Res, ok, fault, out_of_fuel, ◌>>=◌, on_option, lt_wf,
}
use libdeepc.Memory.{Mem, Addr, load}
use libdeepc.Str.Block.{memcmp}
use libdeepc.Str.Scan.{strlen, strchr_loop}

-- The loop over the candidates. `str_end` is `str + str_size`, and strchr runs on `inner`.
unfoldable pub strstr_loop :
    ℕ → ℕ → Bool → Mem → (str_end substr substr_size c : ℕ) → Option Addr → Res (Option Addr)
strstr_loop fuel inner signed m str_end substr substr_size c none = ok none
strstr_loop zero inner signed m str_end substr substr_size c (some s) = out_of_fuel
strstr_loop (suc fuel) inner signed m str_end substr substr_size c (some s) =
    let step = (do
      r ← memcmp signed m (s + 1) (substr + 1) (substr_size - 1)
      let next = (do
        s' ← strchr_loop inner m (s + 1) c
        strstr_loop fuel inner signed m str_end substr substr_size c s')
      if eqb_ℤ r (pos 0) then ok (some s) else next) in
    if leb (s + substr_size) str_end then step else ok none

unfoldable pub strstr : ℕ → Bool → Mem → (str substr : Addr) → Res (Option Addr)
strstr fuel signed m str substr = do
  substr_size ← strlen fuel m substr
  let search = (do
    str_size ← strlen fuel m str
    c ← load m substr
    s ← strchr_loop fuel m str c
    strstr_loop fuel fuel signed m (str + str_size) substr substr_size c s)
  if substr_size == 0 then ok (some str) else search
