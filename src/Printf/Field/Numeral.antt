-- ===== src/Printf/Field/Numeral.antt =====
-- src/printf.c: the digits and the prefix that the code computes are those of the field.
use mathlib.Core.List.{append_assoc, append-nil}
use native.Mathlib.Nat.{mod-lt}
use libdeepc.Base.{
  ℕ, zero, suc, ◌+◌, ◌-◌, ◌/◌, ◌%◌, ◌≤◌, ◌<◌, ◌≡◌, refl, sym, ◌∙◌, inl, inr, true, false, List, [],
  ◌∷◌, ◌++◌, arith, ltb, ◌==◌, if◌then◌else◌, Bool-cases, length, ℤ, pos, negsuc, pos_part,
}
use libdeepc.Printf.{
  IntConv, conv_d, conv_o, conv_u, conv_x, conv_upper_x, VprintSpec, t_loop, abs, digit_lower,
  digit_upper, number_bytes, num_precision, prefix, log_uintmax,
}
use libdeepc.Printf.Digits.{t_loop_signed-abs, number_bytes-ReadAs}
use libdeepc.Printf.Field.{numeral, digits_of, mark_of}

-- The loop from the last digit to the first writes the numeral.
t_loop-numeral :
    (base ten : ℕ) (f : ℕ → ℕ)
    → 0 < base
    → ((d : ℕ) → d < base → f d ≡ (if ltb d 10 then b'0' + d else ten + (d - 10)))
    → (fuel n : ℕ) (buf : List ℕ) → t_loop fuel base f n buf ≡ numeral fuel base ten n ++ buf
unfolding t_loop numeral
t_loop-numeral base ten f some_base agree zero n buf = refl
t_loop-numeral base ten f some_base agree (suc fuel) n buf = elim (Bool-cases (n == 0)) [
  | inl z ↦ rw z refl
  | inr nz ↦
      let q = agree (n % base) (mod-lt n some_base) in
      rw (nz, t_loop-numeral base ten f some_base agree fuel (n / base) (f (n % base) ∷ buf), q)
        (sym (append_assoc (numeral fuel base ten (n / base)) _ buf))
]

pub number_bytes-digits_of : (c : IntConv) (v : ℤ) → number_bytes c v ≡ digits_of c v
unfolding number_bytes
number_bytes-digits_of conv_d (pos n) =
    let e : abs (pos n) ≡ n = omega arith in
    t_loop_signed-abs (suc (abs (pos n))) (pos n) []
    ∙ rw e (
        t_loop-numeral 10 b'a' (λ d. d + b'0') (omega arith) (λ d lt. ground arith) (suc n) n []
        ∙ append-nil _)
number_bytes-digits_of conv_d (negsuc n) =
    let e : abs (negsuc n) ≡ suc n = omega arith in
    t_loop_signed-abs (suc (abs (negsuc n))) (negsuc n) []
    ∙ rw e (
        t_loop-numeral 10 b'a' (λ d. d + b'0') (omega arith) (λ d lt. ground arith) (suc (suc n))
          (suc n) []
        ∙ append-nil _)
number_bytes-digits_of conv_o v =
    t_loop-numeral 8 b'a' (λ n. n + b'0') (omega arith) (λ d lt. ground arith) (suc (pos_part v))
      (pos_part v) []
    ∙ append-nil _
number_bytes-digits_of conv_u v =
    t_loop-numeral 10 b'a' (λ n. n + b'0') (omega arith) (λ d lt. ground arith) (suc (pos_part v))
      (pos_part v) []
    ∙ append-nil _
number_bytes-digits_of conv_x v =
    t_loop-numeral 16 b'a' digit_lower (omega arith) (λ d lt. ground arith) (suc (pos_part v))
      (pos_part v) []
    ∙ append-nil _
number_bytes-digits_of conv_upper_x v =
    t_loop-numeral 16 b'A' digit_upper (omega arith) (λ d lt. ground arith) (suc (pos_part v))
      (pos_part v) []
    ∙ append-nil _

pub length-digits_of : (c : IntConv) (v : ℤ) → length (digits_of c v) ≡ num_precision c v
length-digits_of c v =
    let (ds, r, val, size) = number_bytes-ReadAs true c v in rw (← number_bytes-digits_of c v) size

no_digit : (base : ℕ) → log_uintmax 1 base 0 ≡ 0
unfolding log_uintmax
no_digit base = refl

-- A number that is not 0 has a digit.
some_digit : (fuel base n : ℕ) → (log_uintmax (suc fuel) base (suc n) == 0) ≡ false
unfolding log_uintmax
some_digit fuel base n = ground arith

pub prefix-mark_of :
    (s : VprintSpec) (c : IntConv) (v : ℤ)
    → s.conv ≡ c
    → prefix s v (num_precision c v) ≡ mark_of s c v
unfolding prefix num_precision
prefix-mark_of s conv_d (pos n) e = rw e (ground arith)
prefix-mark_of s conv_d (negsuc n) e = rw e (ground arith)
prefix-mark_of s conv_o v e = rw e refl
prefix-mark_of s conv_u v e = rw e refl
prefix-mark_of s conv_x (pos zero) e = rw (e, no_digit 16) (ground arith)
prefix-mark_of s conv_x (pos (suc n)) e = rw (e, some_digit (suc n) 16 n) (ground arith)
prefix-mark_of s conv_x (negsuc n) e = rw (e, no_digit 16) (ground arith)
prefix-mark_of s conv_upper_x (pos zero) e = rw (e, no_digit 16) (ground arith)
prefix-mark_of s conv_upper_x (pos (suc n)) e = rw (e, some_digit (suc n) 16 n) (ground arith)
prefix-mark_of s conv_upper_x (negsuc n) e = rw (e, no_digit 16) (ground arith)

-- A number without digits has no mark of the base, and an octal one has none at all.
pub mark_of-short :
    (s : VprintSpec) (c : IntConv) (v : ℤ) → num_precision c v ≡ 0 → length (mark_of s c v) ≤ 1
unfolding num_precision
mark_of-short s conv_d (pos n) e = ground arith
mark_of-short s conv_d (negsuc n) e = omega arith
mark_of-short s conv_o v e = omega arith
mark_of-short s conv_u v e = omega arith
mark_of-short s conv_x (pos zero) e = omega arith
mark_of-short s conv_x (pos (suc n)) e = let q = some_digit (suc n) 16 n in ground (arith, q, e)
mark_of-short s conv_x (negsuc n) e = omega arith
mark_of-short s conv_upper_x (pos zero) e = omega arith
mark_of-short s conv_upper_x (pos (suc n)) e =
    let q = some_digit (suc n) 16 n in ground (arith, q, e)
mark_of-short s conv_upper_x (negsuc n) e = omega arith
