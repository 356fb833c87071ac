-- ===== src/Printf/Spec/Parsed.antt =====
-- src/printf.c: vprintf_parse_spec reads back the text of a specification.
use libdeepc.Base.{
  ℕ, zero, suc, ◌+◌, ◌≤◌, ◌<◌, ◌≡◌, refl, ap, ◌∙◌, subst, Bool, true, false, ◌&&◌, Option, none,
  some, List, [], ◌∷◌, ◌++◌, arith, leb, ◌==◌, length, Res, ok,
}
use libdeepc.Memory.{Mem, Addr}
use libdeepc.Memory.Block.{load-ok}
use libdeepc.Memory.Text.{CString}
use libdeepc.Atoi.{to_base_n}
use libdeepc.Printf.{VprintSpec, conv_d, conv_o, conv_u, conv_x, conv_upper_x, number_bytes, t_loop}
use libdeepc.Printf.Spec.{
  Conv, conv_int, conv_c, conv_s, conv_p, conv_n, conv_percent, Arg, Parse, parsed, length_none,
  int_max, parse_flag, with_conv, next_char, parse_length, parse_precision,
}
use libdeepc.Printf.Spec.Decimal.{
  decimal, decimal-start, EndsNumber, char_value-low, parse_number-decimal,
}
use libdeepc.Printf.Spec.Render.{
  letter, precision_text, with_precision, IsPrecision, CString-drop, next_char-at,
  letter-EndsNumber, parse_length-letter, letter-others,
}

period-EndsNumber : (signed : Bool) → EndsNumber signed b'.'
unfolding to_base_n
period-EndsNumber signed = rw (char_value-low signed b'.' (omega arith)) refl

decimal_zero : decimal 0 ≡ []
unfolding number_bytes t_loop
decimal_zero = refl

letter-parse_flag : (k : Conv) (s : VprintSpec) → parse_flag (letter k) s ≡ none
unfolding parse_flag
letter-parse_flag (conv_int conv_d) s = refl
letter-parse_flag (conv_int conv_o) s = refl
letter-parse_flag (conv_int conv_u) s = refl
letter-parse_flag (conv_int conv_x) s = refl
letter-parse_flag (conv_int conv_upper_x) s = refl
letter-parse_flag conv_c s = refl
letter-parse_flag conv_s s = refl
letter-parse_flag conv_p s = refl
letter-parse_flag conv_n s = refl
letter-parse_flag conv_percent s = refl

module _ (signed : Bool) (m : Mem) (args : List Arg) (k : Conv) (rest : List ℕ) where
  -- A run of the parser that ends with the specification, behind the letter.
  abbrev pub Ends : Res Parse → VprintSpec → Addr → Type 0
  Ends run s p = run ≡ ok (parsed (with_conv s k) length_none k p args)

  length-letter :
      (s : VprintSpec) (p : Addr)
      → CString m p (letter k ∷ rest)
      → Ends (next_char m p (parse_length m s args)) s (p + 1)
  length-letter s p h =
      next_char-at m p (letter k) rest (parse_length m s args) h ∙ parse_length-letter m s args k p

  -- Stage 2 at a period with digits.
  precision_digits :
      (fuel : ℕ) (s : VprintSpec) (n : ℕ) (p : Addr)
      → CString m p (b'.' ∷ (decimal n ++ letter k ∷ rest))
      → 0 < n
      → n ≤ int_max
      → length (decimal n) < fuel
      → Ends
          (parse_precision fuel signed m s args b'.' p)
          (with_precision s (some n))
          (p + 1 + length (decimal n) + 1)
  unfolding parse_precision
  precision_digits fuel s n p h pn le lt =
      let (d, tail, first, pd, small) = decimal-start n pn in
      let text = rw first at h.2 in
      let no_star : (d + b'0' == b'*') ≡ false = ground arith in
      let digit : (leb b'0' (d + b'0') && leb (d + b'0') b'9') ≡ true = ground arith in
      let behind = CString-drop m (decimal n) (letter k ∷ rest) (p + 1) h.2 in
      rw (load-ok m (p + 1) text.0, no_star, digit)
        (parse_number-decimal fuel signed m (p + 1) n (letter k) rest
            (λ n q. next_char m q (parse_length m (with_precision s (some n)) args)) h.2 pn le
            (letter-EndsNumber signed k) lt
          ∙ length-letter (with_precision s (some n)) (p + 1 + length (decimal n)) behind)

  -- Stage 2 at a period alone.
  precision_zero :
      (fuel : ℕ) (s : VprintSpec) (p : Addr)
      → CString m p (b'.' ∷ letter k ∷ rest)
      → Ends (parse_precision fuel signed m s args b'.' p) (with_precision s (some 0)) (p + 1 + 1)
  unfolding parse_precision
  precision_zero fuel s p h =
      let (no_period, no_star, no_digit) = letter-others k in
      rw (load-ok m (p + 1) h.2.0, no_star, no_digit)
        (length-letter (with_precision s (some 0)) (p + 1) h.2)

  precision_none :
      (fuel : ℕ) (s : VprintSpec) (p : Addr)
      → Ends (parse_precision fuel signed m s args (letter k) p) s (p + 1)
  unfolding parse_precision
  precision_none fuel s p =
      let (no_period, no_star, no_digit) = letter-others k in
      rw no_period (parse_length-letter m s args k p)

  -- From the precision on.
  abbrev pub from_precision : Option ℕ → List ℕ
  from_precision o = precision_text o ++ letter k ∷ rest

  pub precision-Ends :
      (fuel : ℕ) (s : VprintSpec) (o : Option ℕ) (p : Addr)
      → CString m p (from_precision o)
      → IsPrecision o
      → length (precision_text o) < fuel
      → Ends
          (next_char m p (parse_precision fuel signed m s args))
          (with_precision s o)
          (p + length (precision_text o) + 1)
  precision-Ends fuel s none p h v lt =
      let q : p + 0 + 1 ≡ p + 1 = omega arith in
      next_char-at m p (letter k) rest (parse_precision fuel signed m s args) h
      ∙ (rw q (precision_none fuel s p))
  precision-Ends fuel s (some zero) p h v lt =
      let q : p + suc (length (decimal 0)) + 1 ≡ p + 1 + 1 =
        omega (arith, ap (λ (l : List ℕ). length l) decimal_zero) in
      let text : CString m p (b'.' ∷ letter k ∷ rest) =
        subst (λ (l : List ℕ). CString m p (b'.' ∷ (l ++ letter k ∷ rest))) decimal_zero h in
      next_char-at m p b'.' (letter k ∷ rest) (parse_precision fuel signed m s args) text
      ∙ (rw q (precision_zero fuel s p text))
  precision-Ends fuel s (some (suc n)) p h v lt =
      let q : p + suc (length (decimal (suc n))) + 1 ≡ p + 1 + length (decimal (suc n)) + 1 =
        omega arith in
      next_char-at m p b'.' (decimal (suc n) ++ letter k ∷ rest)
        (parse_precision fuel signed m s args) h
      ∙ (rw q (precision_digits fuel s (suc n) p h (omega arith) v (omega arith)))

  -- How a text starts that no stage before the precision takes.
  abbrev pub IsLater : ℕ → Type 0
  IsLater c =
      ((c == b'*') ≡ false)
      × ((leb b'1' c && leb c b'9') ≡ false)
      × ((s : VprintSpec) → parse_flag c s ≡ none)
      × EndsNumber signed c

  letter-IsLater : IsLater (letter k)
  letter-IsLater =
      let (period, star, digit) = letter-others k in
      (star, ground (arith, digit), letter-parse_flag k, letter-EndsNumber signed k)

  pub from_precision-start :
      (o : Option ℕ) → (c : ℕ) × (tail : List ℕ) × (from_precision o ≡ c ∷ tail) × IsLater c
  unfolding parse_flag
  from_precision-start none = (letter k, rest, refl, letter-IsLater)
  from_precision-start (some n) =
      (b'.', decimal n ++ letter k ∷ rest, refl, (refl, refl, λ s. refl, period-EndsNumber signed))
