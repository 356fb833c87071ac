-- ===== src/Printf/Field.antt =====
-- src/printf.c: the field of an integer as the C standard describes it, without the code's arithmetic
-- on lengths: the digits, the zeros, the sign or the mark of the base, and the justification.
pub mod Numeral
pub mod Pieces
use libdeepc.Base.{
  ℕ, zero, suc, ◌+◌, ◌-◌, ◌*◌, ◌/◌, ◌%◌, ◌^◌, ◌≤◌, ◌<◌, ◌≡◌, refl, sym, ap, ◌∙◌, fun_ext, subst,
  ◌≢◌, ◌↔◌, ◌⊎◌, inl, inr, Bool, true, false, not, ◌&&◌, ◌||◌, Option, none, some, List, [], ◌∷◌,
  ◌++◌, map, arith, dec_lt, dec_le, ℕ_discrete, ltb, leb, ◌==◌, if◌then◌else◌, ltb→lt, lt→ltb,
  ==_iff, ==_refl, Bool-cases, Option-cases, length, get_elem?, set, replicate, take, drop, All,
  length-append, length-set, length-replicate, get_elem?-set_self, get_elem?-set_ne, get_elem?-lt,
  ℤ, pos, negsuc, pos_part, neg_part, sub_ℕ, minus, ◌+ℤ◌, ◌-ℤ◌, ◌*ℤ◌, ◌≤ℤ◌, leb_ℤ, ltb_ℤ, eqb_ℤ,
  Res, ok, fault, out_of_fuel, ◌>>=◌, on_option, lt_wf,
}
use libdeepc.Printf.{IntConv, conv_d, conv_o, conv_u, conv_x, conv_upper_x, VprintSpec}

-- The digits of a number, the highest first, and none for 0; the number is fuel enough.
unfoldable pub numeral : ℕ → (base ten : ℕ) → ℕ → List ℕ
numeral zero base ten n = []
numeral (suc fuel) base ten n =
    let high = numeral fuel base ten (n / base) in
    let d = n % base in
    let low = if ltb d 10 then b'0' + d else ten + (d - 10) in
    if n == 0 then [] else high ++ low ∷ []

-- The absolute value, as the bytes of the digits in the base of the conversion, where `a` or `A` is
-- the digit of ten.
abbrev pub digits_of : IntConv → ℤ → List ℕ
digits_of conv_d (pos n) = numeral (suc n) 10 b'a' n
digits_of conv_d (negsuc n) = numeral (suc (suc n)) 10 b'a' (suc n)
digits_of conv_o v = numeral (suc (pos_part v)) 8 b'a' (pos_part v)
digits_of conv_u v = numeral (suc (pos_part v)) 10 b'a' (pos_part v)
digits_of conv_x v = numeral (suc (pos_part v)) 16 b'a' (pos_part v)
digits_of conv_upper_x v = numeral (suc (pos_part v)) 16 b'A' (pos_part v)

-- `0x` or `0X` in front of a number that is not 0, with the flag `#`.
abbrev base_mark : VprintSpec → ℕ → ℕ → List ℕ
base_mark s letter zero = []
base_mark s letter (suc n) = if s.flag_number then b'0' ∷ letter ∷ [] else []

-- The sign, or the mark of the base.
abbrev pub mark_of : VprintSpec → IntConv → ℤ → List ℕ
mark_of s conv_d (negsuc n) = b'-' ∷ []
mark_of s conv_d (pos n) = if s.flag_plus then b'+' ∷ [] else if s.flag_space then b' ' ∷ [] else []
mark_of s conv_o v = []
mark_of s conv_u v = []
mark_of s conv_x v = base_mark s b'x' (pos_part v)
mark_of s conv_upper_x v = base_mark s b'X' (pos_part v)

-- Digits with zeros in front, up to a least number of them.
abbrev pub at_least : ℕ → List ℕ → List ℕ
at_least n ds = replicate (n - length ds) b'0' ++ ds

-- The precision, which is 1 where there is none, and the width, which is 0 where there is none.
abbrev pub least_digits : VprintSpec → ℕ
least_digits s = if s.precision_set then s.precision else 1

abbrev pub least_width : VprintSpec → ℕ
least_width s = if s.width_set then s.width else 0

-- The digits with the zeros of the precision. With the flag `#`, an octal number gets a 0 in front
-- where the precision puts none there.
abbrev pub precise : VprintSpec → IntConv → List ℕ → List ℕ
precise s conv_o ds =
    if s.flag_number && leb (least_digits s) (length ds)
    then b'0' ∷ ds
    else at_least (least_digits s) ds
precise s conv_d ds = at_least (least_digits s) ds
precise s conv_u ds = at_least (least_digits s) ds
precise s conv_x ds = at_least (least_digits s) ds
precise s conv_upper_x ds = at_least (least_digits s) ds

-- The flag `0`, which a precision and the flag `-` turn off, fills the width behind a mark with zeros.
abbrev pub zero_filled : VprintSpec → List ℕ → List ℕ → List ℕ
zero_filled s mark ds =
    if s.flag_zero && not s.precision_set && not s.flag_minus
    then at_least (least_width s - length mark) ds
    else ds

-- Spaces fill the width, on the right with the flag `-` and else on the left.
abbrev pub justified : VprintSpec → List ℕ → List ℕ
justified s text =
    let spaces = replicate (least_width s - length text) b' ' in
    if s.flag_minus then text ++ spaces else spaces ++ text

-- The field that an integer becomes.
unfoldable pub format_int : VprintSpec → ℤ → List ℕ
unfolding numeral
format_int s v =
    let mark = mark_of s s.conv v in
    justified s (mark ++ zero_filled s mark (precise s s.conv (digits_of s.conv v)))
