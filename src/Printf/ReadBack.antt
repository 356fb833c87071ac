-- ===== src/Printf/ReadBack.antt =====
-- src/printf.c, src/atoi.c: a number that vsnprintf writes with %d is the number that atoi reads.
use Prim.Native.Nat.{max}
use mathlib.Core.List.{append-nil}
use libdeepc.Base.{
  ℕ, suc, ◌+◌, ◌-◌, ◌^◌, ◌≤◌, ◌<◌, ◌≡◌, refl, sym, ap, ◌∙◌, subst, ◌≢◌, Bool, true, false, none,
  some, List, [], ◌∷◌, ◌++◌, arith, dec_lt, leb, length, replicate, ℤ, pos, negsuc, minus, ltb_ℤ,
  ok,
}
use libdeepc.Memory.{Mem, Addr, IsMapped}
use libdeepc.Memory.Text.{Holds}
use libdeepc.Memory.Bytes.{put_bytes, put_bytes-Holds, take_all}
use libdeepc.Str.Block.{char_value}
use libdeepc.Ctype.{isspace}
use libdeepc.Atoi.{StrtoRet, negative, positive, to_base_n, atoi}
use libdeepc.Atoi.Run.{DigitRun, SpaceRun, value_from}
use libdeepc.Atoi.Whole.{SignAt, minus_sign, no_sign, signed_value, atoi_lem}
use libdeepc.Printf.{
  conv_d, VprintSpec, abs, number_bytes, num_precision, prefix, full_precision, space_padding_len,
  min_precision,
}
use libdeepc.Printf.Digits.{ReadAs, number_bytes-ReadAs}
use libdeepc.Printf.Field.{format_int}
use libdeepc.Printf.Field.Pieces.{pieces_int, pieces_int-format_int}
use libdeepc.Printf.Spec.{conv_int, number, empty_spec, with_conv}
use libdeepc.Printf.Spec.Decimal.{ReadAs-length}
use libdeepc.Printf.Spec.Render.{SpecText, spec_text, spec_of}
use libdeepc.Printf.Convert.{narrow}
use libdeepc.Printf.Convert.Converts.{signed_int}
use libdeepc.Printf.Shared.Pieces.{Piece, conversion_of, Within}
use libdeepc.Printf.Vsnprintf.{vsnprintf, outside, vsnprintf-run}

-- %d
abbrev pub plain : SpecText
plain = record { flags = []; width = none; precision = none; conv = conv_int conv_d }

-- What %d writes.
abbrev pub plain_text : ℤ → List ℕ
plain_text v = format_int (with_conv empty_spec (conv_int conv_d)) v

-- The digits of %d: one 0 for the number 0.
abbrev digits : ℤ → List ℕ
digits v =
    replicate (max (num_precision conv_d v) 1 - num_precision conv_d v) b'0'
    ++ number_bytes conv_d v

abbrev sign_text : ℤ → List ℕ
sign_text (pos n) = []
sign_text (negsuc n) = b'-' ∷ []

abbrev plain_spec : VprintSpec
plain_spec = with_conv empty_spec (conv_int conv_d)

no_padding : (precision len : ℕ) → space_padding_len plain_spec precision len ≡ 0
unfolding space_padding_len
no_padding precision len = let e : leb 0 (precision + len) ≡ true = ground arith in rw e refl

plain_precision : (num len : ℕ) → full_precision plain_spec num len ≡ max num 1
unfolding full_precision min_precision
plain_precision num len = refl

plain_prefix : (v : ℤ) (num : ℕ) → prefix plain_spec v num ≡ sign_text v
unfolding prefix
plain_prefix (pos n) num = let e : ltb_ℤ (pos n) (pos 0) ≡ false = ground arith in rw e refl
plain_prefix (negsuc n) num = let e : ltb_ℤ (negsuc n) (pos 0) ≡ true = ground arith in rw e refl

plain_pieces-digits : (v : ℤ) → pieces_int plain_spec v ≡ sign_text v ++ digits v
unfolding pieces_int
plain_pieces-digits v =
    let num = num_precision conv_d v in
    let pre = plain_prefix v num in
    rw
      (
        pre,
        plain_precision num (length (sign_text v)),
        no_padding (max num 1) (length (sign_text v)),
        append-nil (number_bytes conv_d v),
      )
      refl

plain_text-digits : (v : ℤ) → plain_text v ≡ sign_text v ++ digits v
plain_text-digits v = sym (pieces_int-format_int plain_spec v) ∙ plain_pieces-digits v

zero_digit : (signed : Bool) → to_base_n 10 (char_value signed b'0') ≡ some 0
unfolding to_base_n
zero_digit true = refl
zero_digit false = refl

digits-ReadAs :
    (signed : Bool) (v : ℤ)
    → (ds : List ℕ) × ReadAs signed 10 (digits v) ds
      × (value_from 10 0 ds ≡ abs v)
      × (length (digits v) ≡ max (num_precision conv_d v) 1)
unfolding value_from
digits-ReadAs signed v =
    let (ds, r, val, size) = number_bytes-ReadAs signed conv_d v in
    let num = num_precision conv_d v in
    elim (dec_lt 0 num) [
      | yes h ↦
          let e : max num 1 - num ≡ 0 = omega arith in (ds, rw e r, val, rw e (omega (arith, size)))
      | no h ↦
          let e : max num 1 - num ≡ 1 = omega arith in
          (0 ∷ ds, rw e (zero_digit signed, r), val, rw e (omega (arith, size)))
    ]

-- A digit is neither white space nor a sign.
digit_char :
    (signed : Bool) (c d : ℕ)
    → to_base_n 10 (char_value signed c) ≡ some d
    → (isspace (char_value signed c) ≡ false) × (c ≢ b'-') × (c ≢ b'+')
unfolding to_base_n isspace
digit_char true c d h = ground (arith, h)
digit_char false c d h = ground (arith, h)

Holds-DigitRun :
    (signed : Bool) (m : Mem) (bs ds : List ℕ) (p : ℕ)
    → ReadAs signed 10 bs ds
    → Holds m p (bs ++ 0 ∷ [])
    → DigitRun signed m 10 p ds
unfolding to_base_n
Holds-DigitRun true m [] [] p r h = (0, h.0, refl)
Holds-DigitRun false m [] [] p r h = (0, h.0, refl)
Holds-DigitRun signed m [] (d ∷ ds) p r h = absurd r
Holds-DigitRun signed m (b ∷ bs) [] p r h = absurd r
Holds-DigitRun signed m (b ∷ bs) (d ∷ ds) p r h =
    ((b, h.0, r.0), Holds-DigitRun signed m bs ds (p + 1) r.1 h.1)

minus_no_space : (signed : Bool) → isspace (char_value signed b'-') ≡ false
unfolding isspace
minus_no_space true = refl
minus_no_space false = refl

-- What the sign of the text means to atoi.
abbrev sign_of : ℤ → StrtoRet
sign_of (pos n) = positive
sign_of (negsuc n) = negative

first_digit :
    (signed : Bool) (m : Mem) (bs ds : List ℕ) (p : Addr)
    → ReadAs signed 10 bs ds
    → 0 < length bs
    → Holds m p (bs ++ 0 ∷ [])
    → (c : ℕ) × (d : ℕ) × (m p ≡ some c) × (to_base_n 10 (char_value signed c) ≡ some d)
first_digit signed m [] ds p r l h = absurd (omega arith)
first_digit signed m (b ∷ bs) [] p r l h = absurd r
first_digit signed m (b ∷ bs) (d ∷ ds) p r l h = (b, d, h.0, r.0)

-- What atoi finds at the text of a number.
abbrev IsNumberAt : Bool → Mem → Addr → ℤ → Type 0
IsNumberAt signed m p v =
    (q : Addr) × (ds : List ℕ) × SpaceRun signed m p 0
    × SignAt m (p + 0) (sign_of v) q
    × DigitRun signed m 10 q ds
    × (value_from 10 0 ds ≡ abs v)
    × (length ds ≤ length (plain_text v))

plain_text-IsNumberAt :
    (signed : Bool) (m : Mem) (p : Addr) (v : ℤ)
    → Holds m p (plain_text v ++ 0 ∷ [])
    → IsNumberAt signed m p v
unfolding isspace
plain_text-IsNumberAt signed m p (pos n) h =
    let (ds, r, val, size) = digits-ReadAs signed (pos n) in
    let e = plain_text-digits (pos n) in
    let text : Holds m p (digits (pos n) ++ 0 ∷ []) =
      subst (λ (l : List ℕ). Holds m p (l ++ 0 ∷ [])) e h in
    let (c, d, there, digit) =
      first_digit signed m (digits (pos n)) ds p r (omega (arith, size)) text in
    let (no_space, no_minus, no_plus) = digit_char signed c d digit in
    let q : p + 0 ≡ p = omega arith in
    (
      p,
      ds,
      (c, there, no_space),
      no_sign c (rw q there) no_minus no_plus refl (sym q),
      Holds-DigitRun signed m (digits (pos n)) ds p r text,
      val,
      omega (arith, ReadAs-length signed (digits (pos n)) ds r, ap (λ (l : List ℕ). length l) e),
    )
plain_text-IsNumberAt signed m p (negsuc n) h =
    let (ds, r, val, size) = digits-ReadAs signed (negsuc n) in
    let e = plain_text-digits (negsuc n) in
    let text : Holds m p (b'-' ∷ (digits (negsuc n) ++ 0 ∷ [])) =
      subst (λ (l : List ℕ). Holds m p (l ++ 0 ∷ [])) e h in
    let q : p + 0 ≡ p = omega arith in
    (
      p + 1,
      ds,
      (b'-', text.0, minus_no_space signed),
      minus_sign (rw q text.0) refl (ap (λ (a : ℕ). a + 1) (sym q)),
      Holds-DigitRun signed m (digits (negsuc n)) ds (p + 1) r text.1,
      val,
      omega (arith, ReadAs-length signed (digits (negsuc n)) ds r, ap (λ (l : List ℕ). length l) e),
    )

-- A number in the range of the type that atoi reads.
abbrev pub InRange : (max a : ℕ) → ℤ → Type 0
InRange max a (pos n) = n ≤ max
InRange max a (negsuc n) = suc n ≤ a

signed_value-in :
    (max a : ℕ) (v : ℤ)
    → InRange max a v
    → signed_value (sign_of v) max a (abs v) (pos 0) (pos 0) ≡ v
signed_value-in max a (pos n) h =
    let e : n + 0 ≡ n = omega arith in let t : leb n max ≡ true = ground arith in rw (e, t) refl
signed_value-in max a (negsuc n) h =
    let e : 0 + suc n ≡ suc n = omega arith in
    let t : leb (suc n) a ≡ true = ground arith in rw (e, t) refl

plain_run :
    (fuel : ℕ) (signed : Bool) (m : Mem) (buffer n format : ℕ) (v : ℤ)
    → IsMapped m buffer (suc n)
    → Within m (outside buffer (suc n)) format (b'%' ∷ b'd' ∷ [])
    → length (plain_text v) ≤ n
    → 2 < fuel
    → vsnprintf fuel signed m buffer (suc n) format (number v ∷ [])
      ≡ ok (
        narrow (2 ^ 31) (pos (length (plain_text v))),
        put_bytes m buffer (plain_text v ++ 0 ∷ []),
      )
unfolding spec_text spec_of
plain_run fuel signed m buffer n format v mapped there fits lt =
    let ps : List Piece = conversion_of plain (number v ∷ []) (plain_text v) ∷ [] in
    let run =
      vsnprintf-run m buffer n mapped 0 signed fuel format ps there ((tt, tt, signed_int v), tt)
        (omega arith) in
    let e = append-nil (plain_text v) in
    let all = take_all n (plain_text v) fits in rw (e, all) at run

-- A number in the range of a type, written by vsnprintf with %d into a buffer that it fits in, is the
-- number that atoi reads there. The format stands outside the buffer, and the fuel exceeds the bytes
-- of the format and of the number.
pub atoi-vsnprintf :
    (fuel fuel' max a : ℕ) (signed : Bool) (m : Mem) (buffer n format : ℕ) (v : ℤ)
    → IsMapped m buffer (suc n)
    → Within m (outside buffer (suc n)) format (b'%' ∷ b'd' ∷ [])
    → length (plain_text v) ≤ n
    → InRange max a v
    → max < 2 ^ 64
    → 2 < fuel
    → length (plain_text v) < fuel'
    → (ret : ℤ) × (m' : Mem) × (vsnprintf fuel signed m buffer (suc n) format (number v ∷ [])
        ≡ ok (ret, m'))
      × (atoi fuel' signed max (minus a) m' buffer ≡ ok v)
atoi-vsnprintf fuel fuel' max a signed m buffer n format v mapped there fits range word lt lt' =
    let k = put_bytes m buffer (plain_text v ++ 0 ∷ []) in
    let (q, ds, space, sign, run, val, size) =
      plain_text-IsNumberAt signed k buffer v (put_bytes-Holds (plain_text v ++ 0 ∷ []) m buffer) in
    (
      narrow (2 ^ 31) (pos (length (plain_text v))),
      k,
      plain_run fuel signed m buffer n format v mapped there fits lt,
      atoi_lem signed k fuel' max a buffer 0 q (sign_of v) ds space sign run word (omega arith)
            (omega arith)
          ∙ ap ok (rw val (signed_value-in max a v range)),
    )
