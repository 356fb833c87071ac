-- ===== src/Printf/Spec/Render.antt =====
-- src/printf.c: the text of a conversion specification, and what vprintf_parse_spec makes of it.
use libdeepc.Base.{
  ℕ, suc, ◌+◌, ◌≤◌, ◌<◌, ◌≡◌, refl, Bool, true, false, ◌&&◌, Option, none, some, List, [], ◌∷◌,
  ◌++◌, arith, leb, ◌==◌, length, Res, ok,
}
use libdeepc.Memory.{Mem, Addr}
use libdeepc.Memory.Block.{load-ok}
use libdeepc.Memory.Text.{CString}
use libdeepc.Atoi.{to_base_n}
use libdeepc.Printf.{conv_d, conv_o, conv_u, conv_x, conv_upper_x, VprintSpec}
use libdeepc.Printf.Spec.{
  Conv, conv_int, conv_c, conv_s, conv_p, conv_n, conv_percent, Arg, Parse, parsed, length_none,
  empty_spec, int_max, conv_of, with_conv, parse_conv, next_char, parse_length,
}
use libdeepc.Printf.Spec.Decimal.{decimal, EndsNumber, char_value-low}

pub data Flag : Type 0 where
  minus_flag plus_flag space_flag zero_flag number_flag : Flag

-- A specification with its flags in any order and number, and without a length modifier.
pub record SpecText : Type 0 where
  pub flags : List Flag
  pub width : Option ℕ
  pub precision : Option ℕ
  pub conv : Conv

abbrev pub flag_byte : Flag → ℕ
flag_byte minus_flag = b'-'
flag_byte plus_flag = b'+'
flag_byte space_flag = b' '
flag_byte zero_flag = b'0'
flag_byte number_flag = b'#'

abbrev pub letter : Conv → ℕ
letter (conv_int conv_d) = b'd'
letter (conv_int conv_o) = b'o'
letter (conv_int conv_u) = b'u'
letter (conv_int conv_x) = b'x'
letter (conv_int conv_upper_x) = b'X'
letter conv_c = b'c'
letter conv_s = b's'
letter conv_p = b'p'
letter conv_n = b'n'
letter conv_percent = b'%'

abbrev pub precision_text : Option ℕ → List ℕ
precision_text none = []
precision_text (some n) = b'.' ∷ decimal n

abbrev pub width_text : Option ℕ → List ℕ
width_text none = []
width_text (some n) = decimal n

abbrev pub flags_text : List Flag → List ℕ
flags_text [] = []
flags_text (f ∷ fs) = flag_byte f ∷ flags_text fs

-- The text behind the `%`.
unfoldable pub spec_text : SpecText → List ℕ
spec_text t =
    flags_text t.flags ++ (width_text t.width ++ (precision_text t.precision ++ letter t.conv ∷ []))

abbrev pub with_flag : VprintSpec → Flag → VprintSpec
with_flag s minus_flag = record s { flag_minus = true }
with_flag s plus_flag = record s { flag_plus = true }
with_flag s space_flag = record s { flag_space = true }
with_flag s zero_flag = record s { flag_zero = true }
with_flag s number_flag = record s { flag_number = true }

abbrev pub with_flags : VprintSpec → List Flag → VprintSpec
with_flags s [] = s
with_flags s (f ∷ fs) = with_flags (with_flag s f) fs

abbrev pub with_width : VprintSpec → Option ℕ → VprintSpec
with_width s none = s
with_width s (some n) = record s { width_set = true; width = n }

abbrev pub with_precision : VprintSpec → Option ℕ → VprintSpec
with_precision s none = s
with_precision s (some n) = record s { precision_set = true; precision = n }

-- What the text says.
unfoldable pub spec_of : SpecText → VprintSpec
spec_of t =
    with_conv (with_precision (with_width (with_flags empty_spec t.flags) t.width) t.precision)
      t.conv

-- A width is not 0, and the numbers are ints.
abbrev pub IsWidth : Option ℕ → Type 0
IsWidth none = Unit
IsWidth (some n) = (0 < n) × (n ≤ int_max)

abbrev pub IsPrecision : Option ℕ → Type 0
IsPrecision none = Unit
IsPrecision (some n) = n ≤ int_max

pub CString-drop :
    (m : Mem) (xs ys : List ℕ) (p : Addr) → CString m p (xs ++ ys) → CString m (p + length xs) ys
CString-drop m [] ys p h = let q : p + 0 ≡ p = omega arith in rw q h
CString-drop m (x ∷ xs) ys p h =
    let q : p + suc (length xs) ≡ p + 1 + length xs = omega arith in
    rw q (CString-drop m xs ys (p + 1) h.2)

pub next_char-at :
    (m : Mem) (p c : ℕ) (bs : List ℕ) (stage : ℕ → Addr → Res Parse)
    → CString m p (c ∷ bs)
    → next_char m p stage ≡ stage c p
unfolding next_char
next_char-at m p c bs stage h =
    let nz : (c == 0) ≡ false = ground (arith, h.1) in rw (load-ok m p h.0, nz) refl

pub letter-EndsNumber : (signed : Bool) (k : Conv) → EndsNumber signed (letter k)
unfolding to_base_n
letter-EndsNumber signed (conv_int conv_d) = rw (char_value-low signed b'd' (omega arith)) refl
letter-EndsNumber signed (conv_int conv_o) = rw (char_value-low signed b'o' (omega arith)) refl
letter-EndsNumber signed (conv_int conv_u) = rw (char_value-low signed b'u' (omega arith)) refl
letter-EndsNumber signed (conv_int conv_x) = rw (char_value-low signed b'x' (omega arith)) refl
letter-EndsNumber signed (conv_int conv_upper_x) =
    rw (char_value-low signed b'X' (omega arith)) refl
letter-EndsNumber signed conv_c = rw (char_value-low signed b'c' (omega arith)) refl
letter-EndsNumber signed conv_s = rw (char_value-low signed b's' (omega arith)) refl
letter-EndsNumber signed conv_p = rw (char_value-low signed b'p' (omega arith)) refl
letter-EndsNumber signed conv_n = rw (char_value-low signed b'n' (omega arith)) refl
letter-EndsNumber signed conv_percent = rw (char_value-low signed b'%' (omega arith)) refl

-- Stages 3 and 4 at the letter.
pub parse_length-letter :
    (m : Mem) (s : VprintSpec) (args : List Arg) (k : Conv) (p : Addr)
    → parse_length m s args (letter k) p ≡ ok (parsed (with_conv s k) length_none k (p + 1) args)
unfolding parse_length parse_conv conv_of
parse_length-letter m s args (conv_int conv_d) p = refl
parse_length-letter m s args (conv_int conv_o) p = refl
parse_length-letter m s args (conv_int conv_u) p = refl
parse_length-letter m s args (conv_int conv_x) p = refl
parse_length-letter m s args (conv_int conv_upper_x) p = refl
parse_length-letter m s args conv_c p = refl
parse_length-letter m s args conv_s p = refl
parse_length-letter m s args conv_p p = refl
parse_length-letter m s args conv_n p = refl
parse_length-letter m s args conv_percent p = refl

-- What no stage but 3 and 4 takes.
pub letter-others :
    (k : Conv)
    → ((letter k == b'.') ≡ false)
      × ((letter k == b'*') ≡ false)
      × ((leb b'0' (letter k) && leb (letter k) b'9') ≡ false)
letter-others (conv_int conv_d) = (refl, refl, refl)
letter-others (conv_int conv_o) = (refl, refl, refl)
letter-others (conv_int conv_u) = (refl, refl, refl)
letter-others (conv_int conv_x) = (refl, refl, refl)
letter-others (conv_int conv_upper_x) = (refl, refl, refl)
letter-others conv_c = (refl, refl, refl)
letter-others conv_s = (refl, refl, refl)
letter-others conv_p = (refl, refl, refl)
letter-others conv_n = (refl, refl, refl)
letter-others conv_percent = (refl, refl, refl)
