-- ===== src/Ctype.antt =====
-- src/ctype.c. An `int` is a ℤ, and the `int` that a test returns is a Bool.
pub mod Classes
use libdeepc.Base.{
  ℕ, zero, suc, ◌+◌, ◌-◌, ◌*◌, ◌/◌, ◌%◌, ◌^◌, ◌≤◌, ◌<◌, ◌≡◌, refl, sym, ap, ◌∙◌, fun_ext, subst,
  ◌≢◌, ◌↔◌, ◌⊎◌, inl, inr, Bool, true, false, not, ◌&&◌, ◌||◌, Option, none, some, List, [], ◌∷◌,
  ◌++◌, map, arith, dec_lt, dec_le, ℕ_discrete, ltb, leb, ◌==◌, if◌then◌else◌, ltb→lt, lt→ltb,
  ==_iff, ==_refl, Bool-cases, Option-cases, length, get_elem?, set, replicate, take, drop, All,
  length-append, length-set, length-replicate, get_elem?-set_self, get_elem?-set_ne, get_elem?-lt,
  ℤ, pos, negsuc, pos_part, neg_part, sub_ℕ, minus, ◌+ℤ◌, ◌-ℤ◌, ◌*ℤ◌, ◌≤ℤ◌, leb_ℤ, ltb_ℤ, eqb_ℤ,
  Res, ok, fault, out_of_fuel, ◌>>=◌, lt_wf,
}

-- BETWEEN(a, b)
abbrev between : ℕ → ℕ → ℤ → Bool
between a b ch = leb_ℤ (pos a) ch && leb_ℤ ch (pos b)

unfoldable pub iscntrl : ℤ → Bool
iscntrl ch = between 0 31 ch || eqb_ℤ ch (pos 127)

unfoldable pub isprint : ℤ → Bool
isprint ch = between 32 126 ch

unfoldable pub isspace : ℤ → Bool
isspace ch = between 9 13 ch || eqb_ℤ ch (pos 32)

unfoldable pub isblank : ℤ → Bool
isblank ch = eqb_ℤ ch (pos 9) || eqb_ℤ ch (pos 32)

unfoldable pub isgraph : ℤ → Bool
isgraph ch = between 33 126 ch

unfoldable pub ispunct : ℤ → Bool
ispunct ch = between 33 47 ch || between 58 64 ch || between 91 96 ch || between 123 126 ch

unfoldable pub islower : ℤ → Bool
islower ch = between b'a' b'z' ch

unfoldable pub isupper : ℤ → Bool
isupper ch = between b'A' b'Z' ch

unfoldable pub isalpha : ℤ → Bool
unfolding islower isupper
isalpha ch = islower ch || isupper ch

unfoldable pub isdigit : ℤ → Bool
isdigit ch = between b'0' b'9' ch

unfoldable pub isxdigit : ℤ → Bool
unfolding isdigit
isxdigit ch = isdigit ch || between b'a' b'f' ch || between b'A' b'F' ch

unfoldable pub isalnum : ℤ → Bool
unfolding isalpha isdigit
isalnum ch = isalpha ch || isdigit ch

unfoldable pub tolower : ℤ → ℤ
unfolding isupper ◌+ℤ◌
tolower ch = if isupper ch then ch +ℤ pos (b'a' - b'A') else ch

unfoldable pub toupper : ℤ → ℤ
unfolding islower ◌+ℤ◌
toupper ch = if islower ch then ch +ℤ negsuc (b'a' - b'A' - 1) else ch

unfoldable pub isascii : ℤ → Bool
isascii ch = between 0 127 ch

-- `ch & 0x7f` on a two's complement `int`: the residue modulo 128.
unfoldable pub toascii : ℤ → ℤ
toascii (pos n) = pos (n % 128)
toascii (negsuc n) = pos (127 - n % 128)
