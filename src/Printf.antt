-- ===== src/Printf.antt =====
-- src/printf.c: the padding and the output of integers, through a writer. A writer is a function on
-- the state of the output, as `write_fn` is, and what it is handed is a list of bytes. The parser makes
-- the width and the precision of a specification non-negative, so they are numbers here.
pub mod Digits
pub mod Field
pub mod Integer
pub mod Buffer
pub mod Spec
pub mod Convert
pub mod Shared
pub mod Vsnprintf
pub mod ReadBack
pub mod Vfprintf
use Prim.Native.Nat.{min, max}
use libdeepc.Base.{
  ℕ, zero, suc, ◌+◌, ◌-◌, ◌*◌, ◌/◌, ◌%◌, ◌^◌, ◌≤◌, ◌<◌, ◌≡◌, refl, sym, ap, ◌∙◌, fun_ext, subst,
  ◌≢◌, ◌↔◌, ◌⊎◌, inl, inr, Bool, true, false, not, ◌&&◌, ◌||◌, Option, none, some, List, [], ◌∷◌,
  ◌++◌, map, arith, dec_lt, dec_le, ℕ_discrete, ltb, leb, ◌==◌, if◌then◌else◌, ltb→lt, lt→ltb,
  ==_iff, ==_refl, Bool-cases, Option-cases, length, get_elem?, set, replicate, take, drop, All,
  length-append, length-set, length-replicate, get_elem?-set_self, get_elem?-set_ne, get_elem?-lt,
  ℤ, pos, negsuc, pos_part, neg_part, sub_ℕ, minus, ◌+ℤ◌, ◌-ℤ◌, ◌*ℤ◌, ◌≤ℤ◌, leb_ℤ, ltb_ℤ, eqb_ℤ,
  Res, ok, fault, out_of_fuel, ◌>>=◌, on_option, lt_wf,
}
use libdeepc.Atoi.{quot, rem}

-- VPRINTF_CONV, the conversions of integers.
pub data IntConv : Type 0 where
  conv_d conv_o conv_u conv_x conv_upper_x : IntConv

-- vprint_spec, but for the length modifier.
pub record VprintSpec : Type 0 where
  pub flag_minus : Bool
  pub flag_plus : Bool
  pub flag_space : Bool
  pub flag_zero : Bool
  pub flag_number : Bool
  pub width_set : Bool
  pub width : ℕ
  pub precision_set : Bool
  pub precision : ℕ
  pub conv : IntConv

-- LOG_T on an uintmax_t and on an intmax_t, which is divided towards zero.
unfoldable pub log_uintmax : ℕ → ℕ → ℕ → ℕ
log_uintmax zero base n = 0
log_uintmax (suc fuel) base n =
    let rest = log_uintmax fuel base (n / base) in if n == 0 then 0 else suc rest

unfoldable pub log10_intmax : ℕ → ℤ → ℕ
log10_intmax zero n = 0
log10_intmax (suc fuel) n =
    let rest = log10_intmax fuel (quot n 10) in if eqb_ℤ n (pos 0) then 0 else suc rest

-- T_LOOP on an uintmax_t and on an intmax_t: the digits, the last one first, in front of the buffer.
unfoldable pub t_loop : ℕ → ℕ → (ℕ → ℕ) → ℕ → List ℕ → List ℕ
t_loop zero base n_fn n buf = buf
t_loop (suc fuel) base n_fn n buf =
    let rest = t_loop fuel base n_fn (n / base) (n_fn (n % base) ∷ buf) in
    if n == 0 then buf else rest

abbrev pub abs : ℤ → ℕ
abs n = pos_part n + neg_part n

unfoldable pub t_loop_signed : ℕ → ℤ → List ℕ → List ℕ
t_loop_signed zero n buf = buf
t_loop_signed (suc fuel) n buf =
    let rest = t_loop_signed fuel (quot n 10) ((abs (rem n 10) + b'0') ∷ buf) in
    if eqb_ℤ n (pos 0) then buf else rest

abbrev pub digit_lower : ℕ → ℕ
digit_lower n = if ltb n 10 then n + b'0' else n + b'a' - 10

abbrev pub digit_upper : ℕ → ℕ
digit_upper n = if ltb n 10 then n + b'0' else n + b'A' - 10

-- The bytes that write_number writes. One round for each digit, so the number is fuel enough.
unfoldable pub number_bytes : IntConv → ℤ → List ℕ
number_bytes conv_d val = t_loop_signed (suc (abs val)) val []
number_bytes conv_o val = t_loop (suc (pos_part val)) 8 (λ n. n + b'0') (pos_part val) []
number_bytes conv_u val = t_loop (suc (pos_part val)) 10 (λ n. n + b'0') (pos_part val) []
number_bytes conv_x val = t_loop (suc (pos_part val)) 16 digit_lower (pos_part val) []
number_bytes conv_upper_x val = t_loop (suc (pos_part val)) 16 digit_upper (pos_part val) []

-- num_precision
unfoldable pub num_precision : IntConv → ℤ → ℕ
num_precision conv_d val = log10_intmax (suc (abs val)) val
num_precision conv_o val = log_uintmax (suc (pos_part val)) 8 (pos_part val)
num_precision conv_u val = log_uintmax (suc (pos_part val)) 10 (pos_part val)
num_precision conv_x val = log_uintmax (suc (pos_part val)) 16 (pos_part val)
num_precision conv_upper_x val = log_uintmax (suc (pos_part val)) 16 (pos_part val)

-- prefix
unfoldable pub prefix : VprintSpec → ℤ → ℕ → List ℕ
prefix s val num = elim s.conv [
  | conv_d ↦
      if ltb_ℤ val (pos 0)
      then b'-' ∷ []
      else if s.flag_plus
      then b'+' ∷ []
      else if s.flag_space
      then b' ' ∷ []
      else []
  | conv_x ↦ if s.flag_number && not (num == 0) then b'0' ∷ b'x' ∷ [] else []
  | conv_upper_x ↦ if s.flag_number && not (num == 0) then b'0' ∷ b'X' ∷ [] else []
  | _ ↦ []
]

abbrev pub is_octal : IntConv → Bool
is_octal conv_o = true
is_octal _ = false

-- min_precision, raised for the leading 0 of `%#o`.
unfoldable pub min_precision : VprintSpec → ℕ → ℕ
min_precision s num =
    let least = if s.precision_set then s.precision else 1 in
    if is_octal s.conv && s.flag_number && leb least num then num + 1 else least

abbrev pub min_width : VprintSpec → ℕ
min_width s = if s.width_set then s.width else 0

-- precision: the digits with their leading zeros.
unfoldable pub full_precision : VprintSpec → ℕ → ℕ → ℕ
full_precision s num prefix_len =
    let precision = max num (min_precision s num) in
    if s.flag_zero && not s.precision_set && not s.flag_minus && ltb precision (min_width s)
    then min_width s - prefix_len
    else precision

-- space_padding_len
unfoldable pub space_padding_len : VprintSpec → ℕ → ℕ → ℕ
space_padding_len s precision prefix_len =
    let total_size = precision + prefix_len in
    if leb (min_width s) total_size then 0 else min_width s - total_size

-- A writer: the state of the output, whether `rc` is still OK, and `write_fn`.
pub record Writer : Type 1 where
  pub State : Type 0
  pub is_ok : State → Bool
  pub write_fn : State → List ℕ → Res State

module _ (w : Writer) where
  open w use {State, is_ok, write_fn}

  -- The loop of vprintf_padding, in chunks of 64; the length is fuel enough.
  unfoldable pub padding_loop : ℕ → State → ℕ → ℕ → Res State
  padding_loop zero info p len = ok info
  padding_loop (suc fuel) info p len =
      let l = if leb 64 len then 64 else len in
      let round = (do
        info' ← write_fn info (replicate l p)
        let rest = padding_loop fuel info' p (len - l)
        if is_ok info' then rest else ok info') in
      if len == 0 then ok info else round

  unfoldable pub vprintf_padding : State → ℕ → ℕ → Res State
  vprintf_padding info p len = padding_loop (suc len) info p len

  -- `if (info->rc != OK) return;`
  abbrev pub if_ok : State → (State → Res State) → Res State
  if_ok info rest = if is_ok info then rest info else ok info

  -- vprintf_output_int, from its end to its start.
  unfoldable pub output_end : VprintSpec → ℕ → State → Res State
  output_end s spaces info = if s.flag_minus then vprintf_padding info b' ' spaces else ok info

  unfoldable pub output_number : VprintSpec → ℤ → ℕ → State → Res State
  output_number s val spaces info = do
    info' ← write_fn info (number_bytes s.conv val)
    if_ok info' (output_end s spaces)

  unfoldable pub output_zeros : VprintSpec → ℤ → ℕ → ℕ → State → Res State
  output_zeros s val zeros spaces info = do
    info' ← vprintf_padding info b'0' zeros
    if_ok info' (output_number s val spaces)

  unfoldable pub output_prefix : VprintSpec → ℤ → List ℕ → ℕ → ℕ → State → Res State
  output_prefix s val pre zeros spaces info =
      let wrote = (do info' ← write_fn info pre; if_ok info' (output_zeros s val zeros spaces)) in
      if length pre == 0 then output_zeros s val zeros spaces info else wrote

  unfoldable pub output_start : VprintSpec → ℤ → List ℕ → ℕ → ℕ → State → Res State
  output_start s val pre zeros spaces info =
      let padded = (do
        info' ← vprintf_padding info b' ' spaces
        if_ok info' (output_prefix s val pre zeros spaces)) in
      if s.flag_minus then output_prefix s val pre zeros spaces info else padded

  unfoldable pub vprintf_output_int : State → VprintSpec → ℤ → Res State
  vprintf_output_int info s val =
      let num = num_precision s.conv val in
      let pre = prefix s val num in
      let precision = full_precision s num (length pre) in
      output_start s val pre (precision - num) (space_padding_len s precision (length pre)) info
