-- ===== src/Printf/Spec.antt =====
-- src/printf.c: vprintf_parse_spec, one function for each of its stages. A stage has the character `c`
-- that stands at `p`, as the code has with `*format` behind it. The variable arguments are a list of
-- values, each of the type that is asked for.
pub mod Decimal
pub mod Render
pub mod Parsed
pub mod Whole
use libdeepc.Base.{
  ℕ, zero, suc, ◌+◌, ◌-◌, ◌*◌, ◌/◌, ◌%◌, ◌^◌, ◌≤◌, ◌<◌, ◌≡◌, refl, sym, ap, ◌∙◌, fun_ext, subst,
  ◌≢◌, ◌↔◌, ◌⊎◌, inl, inr, Bool, true, false, not, ◌&&◌, ◌||◌, Option, none, some, List, [], ◌∷◌,
  ◌++◌, map, arith, dec_lt, dec_le, ℕ_discrete, ltb, leb, ◌==◌, if◌then◌else◌, ltb→lt, lt→ltb,
  ==_iff, ==_refl, Bool-cases, Option-cases, length, get_elem?, set, replicate, take, drop, All,
  length-append, length-set, length-replicate, get_elem?-set_self, get_elem?-set_ne, get_elem?-lt,
  ℤ, pos, negsuc, pos_part, neg_part, sub_ℕ, minus, ◌+ℤ◌, ◌-ℤ◌, ◌*ℤ◌, ◌≤ℤ◌, leb_ℤ, ltb_ℤ, eqb_ℤ,
  Res, ok, fault, out_of_fuel, ◌>>=◌, on_option, lt_wf,
}
use libdeepc.Memory.{Mem, Addr, load}
use libdeepc.Atoi.{Errno, einval, erange, strtol}
use libdeepc.Printf.{IntConv, conv_d, conv_o, conv_u, conv_x, conv_upper_x, VprintSpec, abs}

-- VPRINTF_LENGTH
pub data Length : Type 0 where
  length_none length_hh length_h length_l length_ll length_j length_z length_t length_upper_l :
      Length

-- VPRINTF_CONV
pub data Conv : Type 0 where
  conv_int : IntConv → Conv
  conv_c conv_s conv_p conv_n conv_percent : Conv

-- An argument: a number of an integer type, or a pointer.
pub data Arg : Type 0 where
  number : ℤ → Arg
  pointer : Addr → Arg

-- va_arg at an integer type and at a pointer type.
abbrev pub va_number : List Arg → Res (ℤ × List Arg)
va_number (number v ∷ args) = ok (v, args)
va_number _ = fault

abbrev pub va_pointer : List Arg → Res (Addr × List Arg)
va_pointer (pointer p ∷ args) = ok (p, args)
va_pointer _ = fault

-- How vprintf_parse_spec ends: the specification, the length modifier, the conversion, the rest of the
-- format and of the arguments; or rc is ERR, with errno. Where the specification is complete, its own
-- `conv` is that of the conversion if that is one of integers, and else unused.
pub data Parse : Type 0 where
  parsed : VprintSpec → Length → Conv → Addr → List Arg → Parse
  failed : Errno → Parse

-- `vprint_spec spec = {0};`
abbrev pub empty_spec : VprintSpec
empty_spec = record {
  flag_minus = false;
  flag_plus = false;
  flag_space = false;
  flag_zero = false;
  flag_number = false;
  width_set = false;
  width = 0;
  precision_set = false;
  precision = 0;
  conv = conv_d;
}

unfoldable pub int_max : ℕ
int_max = 2 ^ 31 - 1

unfoldable pub long_max : ℕ
long_max = 2 ^ 63 - 1

unfoldable pub long_min : ℤ
long_min = minus (2 ^ 63)

-- The flags of stage 0; `none` is the default.
unfoldable pub parse_flag : ℕ → VprintSpec → Option VprintSpec
parse_flag c s =
    if c == b'-'
    then some (record s { flag_minus = true })
    else if c == b'+'
    then some (record s { flag_plus = true })
    else if c == b' '
    then some (record s { flag_space = true })
    else if c == b'0'
    then some (record s { flag_zero = true })
    else if c == b'#'
    then some (record s { flag_number = true })
    else none

-- The letter of the conversion.
unfoldable pub conv_of : ℕ → Option Conv
conv_of c =
    if c == b'd' || c == b'i'
    then some (conv_int conv_d)
    else if c == b'o'
    then some (conv_int conv_o)
    else if c == b'u'
    then some (conv_int conv_u)
    else if c == b'x'
    then some (conv_int conv_x)
    else if c == b'X'
    then some (conv_int conv_upper_x)
    else if c == b'c'
    then some conv_c
    else if c == b's'
    then some conv_s
    else if c == b'p'
    then some conv_p
    else if c == b'n'
    then some conv_n
    else if c == b'%'
    then some conv_percent
    else none

abbrev pub with_conv : VprintSpec → Conv → VprintSpec
with_conv s (conv_int k) = record s { conv = k }
with_conv s _ = s

-- Stage 4.
unfoldable pub parse_conv : VprintSpec → Length → List Arg → ℕ → Addr → Parse
parse_conv s len args c p =
    on_option (conv_of c) (failed einval) (λ k. parsed (with_conv s k) len k (p + 1) args)

-- The start of a round of the loop, at `*format`.
unfoldable pub next_char : Mem → Addr → (ℕ → Addr → Res Parse) → Res Parse
next_char m p stage = do c ← load m p; if c == 0 then ok (failed einval) else stage c p

-- Stage 3. The modifiers other than h and hh are stored in `conv`, which stage 4 overwrites.
unfoldable pub parse_length : Mem → VprintSpec → List Arg → ℕ → Addr → Res Parse
parse_length m s args c p =
    let conv_at =
      λ (len : Length) (q : Addr). next_char m q (λ c q. ok (parse_conv s len args c q)) in
    let after_h = (do
      n ← load m (p + 1)
      if n == b'h' then conv_at length_hh (p + 2) else conv_at length_h (p + 1)) in
    let after_l = (do
      n ← load m (p + 1)
      if n == b'l' then conv_at length_none (p + 2) else conv_at length_none (p + 1)) in
    if c == b'h'
    then after_h
    else if c == b'l'
    then after_l
    else if c == b'j' || c == b'z' || c == b't' || c == b'L'
    then conv_at length_none (p + 1)
    else ok (parse_conv s length_none args c p)

-- The result of strtol as a width or a precision, and the next stage at the end of the digits.
unfoldable pub parse_number : ℕ → Bool → Mem → Addr → (ℕ → Addr → Res Parse) → Res Parse
parse_number fuel signed m p next = do
  r ← strtol fuel signed long_max long_min m p (pos 10)
  on_option r.str_end fault
      (λ q. if ltb_ℤ (pos int_max) r.value then ok (failed erange) else next (pos_part r.value) q)

-- Stage 2.
unfoldable pub parse_precision : ℕ → Bool → Mem → VprintSpec → List Arg → ℕ → Addr → Res Parse
parse_precision fuel signed m s args c p =
    let at_length =
      λ (s : VprintSpec) (args : List Arg) (q : Addr). next_char m q (parse_length m s args) in
    let star = (do
      (v, args') ← va_number args
      at_length (record s { precision_set = not (ltb_ℤ v (pos 0)); precision = pos_part v }) args'
          (p + 2)) in
    let digits =
      parse_number fuel signed m (p + 1)
        (λ n q. at_length (record s { precision_set = true; precision = n }) args q) in
    let period = (do
      next ← load m (p + 1)
      if next == b'*'
          then star
          else if leb b'0' next && leb next b'9'
          then digits
          else at_length (record s { precision_set = true; precision = 0 }) args (p + 1)) in
    if c == b'.' then period else parse_length m s args c p

-- Stage 1.
unfoldable pub parse_width : ℕ → Bool → Mem → VprintSpec → List Arg → ℕ → Addr → Res Parse
parse_width fuel signed m s args c p =
    let at_precision = λ (s : VprintSpec) (args : List Arg) (q : Addr).
      next_char m q (parse_precision fuel signed m s args) in
    let star = (do
      (v, args') ← va_number args
      at_precision
          (record s {
            flag_minus = s.flag_minus || ltb_ℤ v (pos 0);
            width_set = true;
            width = abs v;
          })
          args' (p + 1)) in
    let digits =
      parse_number fuel signed m p
        (λ n q. at_precision (record s { width_set = true; width = n }) args q) in
    if c == b'*'
    then star
    else if leb b'1' c && leb c b'9'
    then digits
    else parse_precision fuel signed m s args c p

-- Stage 0, and the whole. The fuel is for the flags and for the digits of a number.
unfoldable pub vprintf_parse_spec : ℕ → Bool → Mem → VprintSpec → List Arg → Addr → Res Parse
vprintf_parse_spec zero signed m s args p = out_of_fuel
vprintf_parse_spec (suc fuel) signed m s args p = next_char m p (λ c p.
    on_option (parse_flag c s) (parse_width fuel signed m s args c p)
      (λ s'. vprintf_parse_spec fuel signed m s' args (p + 1)))
