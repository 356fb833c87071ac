-- ===== src/Str/Compare.antt =====
-- src/string.c: strcmp and strncmp. The endless loop of strcmp runs on fuel.
pub mod Sign
use libdeepc.Base.{
  ℕ, zero, suc, ◌+◌, ◌-◌, ◌*◌, ◌/◌, ◌%◌, ◌^◌, ◌≤◌, ◌<◌, ◌≡◌, refl, sym, ap, ◌∙◌, fun_ext, subst,
  ◌≢◌, ◌↔◌, ◌⊎◌, inl, inr, Bool, true, false, not, ◌&&◌, ◌||◌, Option, none, some, List, [], ◌∷◌,
  ◌++◌, map, arith, dec_lt, dec_le, ℕ_discrete, ltb, leb, ◌==◌, if◌then◌else◌, ltb→lt, lt→ltb,
  ==_iff, ==_refl, Bool-cases, Option-cases, length, get_elem?, set, replicate, take, drop, All,
  length-append, length-set, length-replicate, get_elem?-set_self, get_elem?-set_ne, get_elem?-lt,
  ℤ, pos, negsuc, pos_part, neg_part, sub_ℕ, minus, ◌+ℤ◌, ◌-ℤ◌, ◌*ℤ◌, ◌≤ℤ◌, leb_ℤ, ltb_ℤ, eqb_ℤ,
  Res, ok, fault, out_of_fuel, ◌>>=◌, lt_wf,
}
use libdeepc.Memory.{Mem, Addr, load}
use libdeepc.Str.Block.{char_sign}

unfoldable pub strcmp : ℕ → Bool → Mem → Addr → Addr → Res ℤ
strcmp zero signed m lhs rhs = out_of_fuel
strcmp (suc fuel) signed m lhs rhs = do
  l ← load m lhs
  r ← load m rhs
  let rest = strcmp fuel signed m (lhs + 1) (rhs + 1)
  if not (l == r) then ok (char_sign signed l r) else if l == 0 then ok (pos 0) else rest

unfoldable pub strncmp : Bool → Mem → Addr → Addr → ℕ → Res ℤ
strncmp signed m lhs rhs zero = ok (pos 0)
strncmp signed m lhs rhs (suc left) = do
  l ← load m lhs
  r ← load m rhs
  let rest = strncmp signed m (lhs + 1) (rhs + 1) left
  if not (l == r) then ok (char_sign signed l r) else if l == 0 then ok (pos 0) else rest
