-- ===== src/Search/Linear.antt =====
-- src/search.c: lfind and lsearch. The comparison is the caller's and reads the memory.
pub mod Found
use libdeepc.Base.{
  ℕ, zero, suc, ◌+◌, ◌-◌, ◌*◌, ◌/◌, ◌%◌, ◌^◌, ◌≤◌, ◌<◌, ◌≡◌, refl, sym, ap, ◌∙◌, fun_ext, subst,
  ◌≢◌, ◌↔◌, ◌⊎◌, inl, inr, Bool, true, false, not, ◌&&◌, ◌||◌, Option, none, some, List, [], ◌∷◌,
  ◌++◌, map, arith, dec_lt, dec_le, ℕ_discrete, ltb, leb, ◌==◌, if◌then◌else◌, ltb→lt, lt→ltb,
  ==_iff, ==_refl, Bool-cases, Option-cases, length, get_elem?, set, replicate, take, drop, All,
  length-append, length-set, length-replicate, get_elem?-set_self, get_elem?-set_ne, get_elem?-lt,
  ℤ, pos, negsuc, pos_part, neg_part, sub_ℕ, minus, ◌+ℤ◌, ◌-ℤ◌, ◌*ℤ◌, ◌≤ℤ◌, leb_ℤ, ltb_ℤ, eqb_ℤ,
  Res, ok, fault, out_of_fuel, ◌>>=◌, on_option, lt_wf,
}
use libdeepc.Memory.{Mem, Addr}
use libdeepc.Str.Block.{memcpy}

-- __compar, on the memory that it reads.
abbrev pub Compar : Type 0
Compar = Mem → Addr → Addr → ℤ

-- The loop of lfind with `left` elements to go, the next one at `it`.
unfoldable pub lfind : Compar → Mem → Addr → Addr → ℕ → ℕ → Option Addr
lfind compar m key it zero width = none
lfind compar m key it (suc left) width =
    if eqb_ℤ (compar m key it) (pos 0) then some it else lfind compar m key (it + width) left width

abbrev pub lsearch_append : Mem → Addr → Addr → ℕ → ℕ → Res (Mem × ℕ × Addr)
lsearch_append m key base nel width = do
  m' ← memcpy m (base + nel * width) key width
  ok (m', nel + 1, base + nel * width)

-- The memory, `*nelp` and the result.
unfoldable pub lsearch : Compar → Mem → Addr → Addr → ℕ → ℕ → Res (Mem × ℕ × Addr)
lsearch compar m key base nel width =
    on_option (lfind compar m key base nel width) (lsearch_append m key base nel width)
      (λ needle. ok (m, nel, needle))
