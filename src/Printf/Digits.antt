-- ===== src/Printf/Digits.antt =====
-- src/printf.c: the digits that write_number writes read back as the number.
use libdeepc.Base.{
  ℕ, zero, suc, ◌+◌, ◌*◌, ◌/◌, ◌%◌, ◌<◌, ◌≡◌, refl, ◌∙◌, inl, inr, Bool, some, List, [], ◌∷◌, arith,
  ◌==◌, Bool-cases, length, ℤ, pos, negsuc, pos_part, minus, eqb_ℤ,
}
use native.Mathlib.Nat.{div-add-mod, mod-lt, mul-le-mul_right}
use libdeepc.Ctype.{isdigit}
use libdeepc.Str.Block.{char_value}
use libdeepc.Atoi.{to_base_n, quot, rem}
use libdeepc.Atoi.Run.{value_from}
use libdeepc.Printf.{
  log_uintmax, log10_intmax, t_loop, t_loop_signed, abs, digit_lower, digit_upper, IntConv, conv_d,
  conv_o, conv_u, conv_x, conv_upper_x, number_bytes, num_precision,
}

pub div-lt : (n base : ℕ) → 0 < n → 1 < base → n / base < n
div-lt n base pn pb =
    omega (arith, div-add-mod n base, mul-le-mul_right {m = 2} {n = base} (n / base) pb)

-- Read as characters, the bytes are digits in the base, of the values `ds`.
abbrev pub ReadAs : Bool → ℕ → List ℕ → List ℕ → Type 0
ReadAs signed base [] [] = Unit
ReadAs signed base [] (d ∷ ds) = ⊥
ReadAs signed base (b ∷ bs) [] = ⊥
ReadAs signed base (b ∷ bs) (d ∷ ds) =
    (to_base_n base (char_value signed b) ≡ some d) × ReadAs signed base bs ds

-- A function that writes each digit of the base as a character.
abbrev pub WritesDigits : Bool → ℕ → (ℕ → ℕ) → Type 0
WritesDigits signed base f = (d : ℕ) → d < base → to_base_n base (char_value signed (f d)) ≡ some d

decimal_digits : (signed : Bool) → WritesDigits signed 10 (λ n. n + b'0')
unfolding to_base_n
decimal_digits signed d h = ground arith

octal_digits : (signed : Bool) → WritesDigits signed 8 (λ n. n + b'0')
unfolding to_base_n
octal_digits signed d h = ground arith

lower_digits : (signed : Bool) → WritesDigits signed 16 digit_lower
unfolding to_base_n isdigit
lower_digits signed d h = ground arith

upper_digits : (signed : Bool) → WritesDigits signed 16 digit_upper
unfolding to_base_n isdigit
upper_digits signed d h = ground arith

module _ (signed : Bool) (base : ℕ) (f : ℕ → ℕ) (big : 1 < base)
    (writes : WritesDigits signed base f) where
  t_loop-ReadAs :
      (fuel n : ℕ) (buf ds : List ℕ)
      → n < fuel
      → ReadAs signed base buf ds
      → (ds' : List ℕ) × ReadAs signed base (t_loop fuel base f n buf) ds'
        × (value_from base 0 ds' ≡ value_from base n ds)
        × (length (t_loop fuel base f n buf) ≡ log_uintmax fuel base n + length buf)
  unfolding t_loop log_uintmax value_from
  t_loop-ReadAs zero n buf ds lt h = absurd (omega arith)
  t_loop-ReadAs (suc fuel) n buf ds lt h = elim (Bool-cases (n == 0)) [
    | inl z ↦ let e : n ≡ 0 = ground arith in (ds, rw z h, rw e refl, rw z (omega arith))
    | inr nz ↦
        let smaller = div-lt n base (ground arith) big in
        let (ds', r, v, l) =
          t_loop-ReadAs fuel (n / base) (f (n % base) ∷ buf) ((n % base) ∷ ds) (omega arith)
            (writes (n % base) (mod-lt n (omega arith)), h) in
        let q : n / base * base + n % base ≡ n = grind (arith, div-add-mod n base) in
        (ds', rw nz r, v ∙ rw q refl, rw nz (omega (arith, l)))
  ]

-- The loops on a signed number do what those on its absolute value do.
abs-minus : (n : ℕ) → abs (minus n) ≡ n
abs-minus zero = refl
abs-minus (suc n) = omega arith

quot-abs : (n : ℤ) → abs (quot n 10) ≡ abs n / 10
quot-abs (pos n) = omega arith
quot-abs (negsuc n) = abs-minus (suc n / 10) ∙ omega arith

rem-abs : (n : ℤ) → abs (rem n 10) ≡ abs n % 10
rem-abs (pos n) = omega arith
rem-abs (negsuc n) = abs-minus (suc n % 10) ∙ omega arith

eqb-zero : (n : ℤ) → eqb_ℤ n (pos 0) ≡ (abs n == 0)
eqb-zero (pos n) = ground arith
eqb-zero (negsuc n) = ground arith

number_run :
    (signed : Bool) (base : ℕ) (f : ℕ → ℕ)
    → 1 < base
    → WritesDigits signed base f
    → (n : ℕ)
    → (ds : List ℕ) × ReadAs signed base (t_loop (suc n) base f n []) ds
      × (value_from base 0 ds ≡ n)
      × (length (t_loop (suc n) base f n []) ≡ log_uintmax (suc n) base n)
unfolding value_from
number_run signed base f big writes n =
    let (ds, r, v, l) = t_loop-ReadAs signed base f big writes (suc n) n [] [] (omega arith) tt in
    (ds, r, v, omega (arith, l))

pub t_loop_signed-abs :
    (fuel : ℕ) (n : ℤ) (buf : List ℕ)
    → t_loop_signed fuel n buf ≡ t_loop fuel 10 (λ d. d + b'0') (abs n) buf
unfolding t_loop_signed t_loop
t_loop_signed-abs zero n buf = refl
t_loop_signed-abs (suc fuel) n buf =
    rw
      (
        eqb-zero n,
        rem-abs n,
        t_loop_signed-abs fuel (quot n 10) ((abs n % 10 + b'0') ∷ buf),
        quot-abs n,
      )
      refl

log10_intmax-abs : (fuel : ℕ) (n : ℤ) → log10_intmax fuel n ≡ log_uintmax fuel 10 (abs n)
unfolding log10_intmax log_uintmax
log10_intmax-abs zero n = refl
log10_intmax-abs (suc fuel) n = rw (eqb-zero n, log10_intmax-abs fuel (quot n 10), quot-abs n) refl

-- The base of a conversion.
abbrev pub base_of : IntConv → ℕ
base_of conv_d = 10
base_of conv_o = 8
base_of conv_u = 10
base_of conv_x = 16
base_of conv_upper_x = 16

-- The magnitude that a conversion prints: the argument of the unsigned ones is not negative.
abbrev pub magnitude : IntConv → ℤ → ℕ
magnitude conv_d val = abs val
magnitude conv_o val = pos_part val
magnitude conv_u val = pos_part val
magnitude conv_x val = pos_part val
magnitude conv_upper_x val = pos_part val

-- The bytes that write_number writes for a conversion read as digits in its base, stand for the
-- magnitude of the number, and are as many as the precision that vprintf_output_int computes.
pub number_bytes-ReadAs :
    (signed : Bool) (c : IntConv) (val : ℤ)
    → (ds : List ℕ) × ReadAs signed (base_of c) (number_bytes c val) ds
      × (value_from (base_of c) 0 ds ≡ magnitude c val)
      × (length (number_bytes c val) ≡ num_precision c val)
unfolding number_bytes num_precision
number_bytes-ReadAs signed conv_d val =
    rw (t_loop_signed-abs (suc (abs val)) val [], log10_intmax-abs (suc (abs val)) val)
      (number_run signed 10 (λ n. n + b'0') (omega arith) (decimal_digits signed) (abs val))
number_bytes-ReadAs signed conv_o val =
    number_run signed 8 (λ n. n + b'0') (omega arith) (octal_digits signed) (pos_part val)
number_bytes-ReadAs signed conv_u val =
    number_run signed 10 (λ n. n + b'0') (omega arith) (decimal_digits signed) (pos_part val)
number_bytes-ReadAs signed conv_x val =
    number_run signed 16 digit_lower (omega arith) (lower_digits signed) (pos_part val)
number_bytes-ReadAs signed conv_upper_x val =
    number_run signed 16 digit_upper (omega arith) (upper_digits signed) (pos_part val)
