-- ===== src/Memory.antt =====
-- Byte-addressed memory, as the functions of src/string.c read and write it. An address that is not
-- mapped holds `none`, and a read or a write there is a fault.
pub mod Block
pub mod Bytes
pub mod Text
use libdeepc.Base.{
  ℕ, zero, suc, ◌+◌, ◌-◌, ◌*◌, ◌/◌, ◌%◌, ◌^◌, ◌≤◌, ◌<◌, ◌≡◌, refl, sym, ap, ◌∙◌, fun_ext, subst,
  ◌≢◌, ◌↔◌, ◌⊎◌, inl, inr, Bool, true, false, not, ◌&&◌, ◌||◌, Option, none, some, List, [], ◌∷◌,
  ◌++◌, map, arith, dec_lt, dec_le, ℕ_discrete, ltb, leb, ◌==◌, if◌then◌else◌, ltb→lt, lt→ltb,
  ==_iff, ==_refl, Bool-cases, Option-cases, length, get_elem?, set, replicate, take, drop, All,
  length-append, length-set, length-replicate, get_elem?-set_self, get_elem?-set_ne, get_elem?-lt,
  ℤ, pos, negsuc, pos_part, neg_part, sub_ℕ, minus, ◌+ℤ◌, ◌-ℤ◌, ◌*ℤ◌, ◌≤ℤ◌, leb_ℤ, ltb_ℤ, eqb_ℤ,
  Res, ok, fault, out_of_fuel, ◌>>=◌, lt_wf,
}

abbrev pub Addr : Type 0
Addr = ℕ

-- The null pointer: no object stands there.
abbrev pub null : Addr
null = 0

abbrev pub Mem : Type 0
Mem = Addr → Option ℕ

-- m[p] = b, whatever was there.
unfoldable pub write : Mem → Addr → ℕ → Mem
write m p b a = if a == p then some b else m a

abbrev pub of_cell : Option ℕ → Res ℕ
of_cell none = fault
of_cell (some b) = ok b

-- `*p` as an unsigned byte.
unfoldable pub load : Mem → Addr → Res ℕ
load m p = of_cell (m p)

abbrev store_cell : Mem → Addr → ℕ → Option ℕ → Res Mem
store_cell m p b none = fault
store_cell m p b (some _) = ok (write m p b)

-- `*p = b`.
unfoldable pub store : Mem → Addr → ℕ → Res Mem
store m p b = store_cell m p b (m p)

-- The `n` bytes at `p` may be read and written.
abbrev pub IsMapped : Mem → Addr → ℕ → Type 0
IsMapped m p n = (i : ℕ) → i < n → m (p + i) ≢ none
