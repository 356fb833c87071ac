-- ===== src/Printf/Field/Pieces.antt =====
-- src/printf.c: what vprintf_output_int hands on, piece by piece, makes the field of the integer.
use Prim.Native.Nat.{max}
use mathlib.Core.List.{append_assoc, append-nil}
use libdeepc.Base.{
  ℕ, zero, suc, ◌+◌, ◌-◌, ◌≤◌, ◌≡◌, refl, sym, ap, ◌⊎◌, inl, inr, Bool, true, false, not, ◌&&◌,
  List, [], ◌∷◌, ◌++◌, arith, leb, if◌then◌else◌, Bool-cases, length, replicate, length-append,
  length-replicate, ℤ,
}
use libdeepc.Printf.{
  IntConv, conv_d, conv_o, conv_u, conv_x, conv_upper_x, VprintSpec, number_bytes, num_precision,
  prefix, min_precision, full_precision, space_padding_len,
}
use libdeepc.Printf.Field.{
  digits_of, mark_of, least_digits, least_width, precise, zero_filled, format_int,
}
use libdeepc.Printf.Field.Numeral.{
  number_bytes-digits_of, length-digits_of, prefix-mark_of, mark_of-short,
}

-- The field, put together from the lengths that the code computes.
unfoldable pub pieces_int : VprintSpec → ℤ → List ℕ
pieces_int s val =
    let num = num_precision s.conv val in
    let pre = prefix s val num in
    let precision = full_precision s num (length pre) in
    let spaces = replicate (space_padding_len s precision (length pre)) b' ' in
    (if s.flag_minus then [] else spaces)
    ++ (pre
        ++ (replicate (precision - num) b'0'
            ++ (number_bytes s.conv val ++ (if s.flag_minus then spaces else []))))

-- The zeros of the precision, and the digits with them.
precise-zeros :
    (s : VprintSpec) (c : IntConv) (ds : List ℕ)
    → s.conv ≡ c
    → precise s c ds
      ≡ replicate (max (length ds) (min_precision s (length ds)) - length ds) b'0' ++ ds
unfolding min_precision
precise-zeros s conv_d ds e =
    let q : max (length ds) (least_digits s) - length ds ≡ least_digits s - length ds =
      omega arith in
    rw (e, q) refl
precise-zeros s conv_o ds e =
    elim (Bool-cases (s.flag_number && leb (least_digits s) (length ds))) [
      | inl c ↦
          let q : max (length ds) (length ds + 1) - length ds ≡ 1 = omega arith in rw (e, c, q) refl
      | inr c ↦
          let q : max (length ds) (least_digits s) - length ds ≡ least_digits s - length ds =
            omega arith in
          rw (e, c, q) refl
    ]
precise-zeros s conv_u ds e =
    let q : max (length ds) (least_digits s) - length ds ≡ least_digits s - length ds =
      omega arith in
    rw (e, q) refl
precise-zeros s conv_x ds e =
    let q : max (length ds) (least_digits s) - length ds ≡ least_digits s - length ds =
      omega arith in
    rw (e, q) refl
precise-zeros s conv_upper_x ds e =
    let q : max (length ds) (least_digits s) - length ds ≡ least_digits s - length ds =
      omega arith in
    rw (e, q) refl

module _ (s : VprintSpec) (num lp : ℕ) where
  abbrev zeros_wanted : ℕ
  zeros_wanted =
      let p = max num (min_precision s num) in
      if s.flag_zero && not s.precision_set && not s.flag_minus
      then (least_width s - lp - p) + (p - num)
      else p - num

  zeros_lem :
      (s.precision_set ≡ false → (min_precision s num ≤ 1) ⊎ (lp ≡ 0))
      → (num ≡ 0 → lp ≤ 1)
      → full_precision s num lp - num ≡ zeros_wanted
  unfolding full_precision
  zeros_lem a b = elim (Bool-cases s.precision_set) [
    | inl c ↦ ground (arith, c)
    | inr c ↦ elim (a c) [ inl d ↦ ground (arith, c, d, b) | inr d ↦ ground (arith, c, d) ]
  ]

  spaces_lem :
      space_padding_len s (full_precision s num lp) lp
      ≡ least_width s - (lp + ((full_precision s num lp - num) + num))
  unfolding full_precision min_precision space_padding_len
  spaces_lem = ground arith

pub replicate-add : (a b p : ℕ) → replicate a p ++ replicate b p ≡ replicate (a + b) p
replicate-add zero b p = let e : 0 + b ≡ b = omega arith in rw e refl
replicate-add (suc a) b p =
    let e : suc a + b ≡ suc (a + b) = omega arith in rw e (ap (λ t. p ∷ t) (replicate-add a b p))

zero_filled-zeros :
    (s : VprintSpec) (c : IntConv) (mark ds : List ℕ)
    → s.conv ≡ c
    → zero_filled s mark (precise s c ds)
      ≡ replicate (zeros_wanted s (length ds) (length mark)) b'0' ++ ds
zero_filled-zeros s c mark ds e =
    let p = max (length ds) (min_precision s (length ds)) in
    let zs = replicate (p - length ds) b'0' in
    let size : length (zs ++ ds) ≡ p =
      omega (arith, length-append zs ds, length-replicate {A = ℕ} (p - length ds) b'0') in
    elim (Bool-cases (s.flag_zero && not s.precision_set && not s.flag_minus)) [
      | inl b ↦
          rw (precise-zeros s c ds e, b, size)
            (rw (← replicate-add (least_width s - length mark - p) (p - length ds) b'0')
              (sym (append_assoc (replicate (least_width s - length mark - p) b'0') zs ds)))
      | inr b ↦ rw (b, precise-zeros s c ds e) refl
    ]

least_or_unmarked :
    (s : VprintSpec) (c : IntConv) (v : ℤ) (num : ℕ)
    → s.conv ≡ c
    → s.precision_set ≡ false
    → (min_precision s num ≤ 1) ⊎ (length (mark_of s c v) ≡ 0)
unfolding min_precision
least_or_unmarked s conv_d v num e unset = inl (rw (e, unset) (omega arith))
least_or_unmarked s conv_o v num e unset = inr refl
least_or_unmarked s conv_u v num e unset = inr refl
least_or_unmarked s conv_x v num e unset = inl (rw (e, unset) (omega arith))
least_or_unmarked s conv_upper_x v num e unset = inl (rw (e, unset) (omega arith))

-- The spaces in front or behind.
layout :
    (left : Bool) (spaces mark zeros ds : List ℕ)
    → (if left then [] else spaces) ++ (mark ++ (zeros ++ (ds ++ (if left then spaces else []))))
      ≡ (if left then (mark ++ (zeros ++ ds)) ++ spaces else spaces ++ (mark ++ (zeros ++ ds)))
layout true spaces mark zeros ds = simp append_assoc refl
layout false spaces mark zeros ds = rw (append-nil ds) refl

-- The pieces that the code hands on, of the lengths that it computes, are the field.
pub pieces_int-format_int : (s : VprintSpec) (v : ℤ) → pieces_int s v ≡ format_int s v
unfolding pieces_int format_int
pieces_int-format_int s v =
    let c = s.conv in
    let mark = mark_of s c v in
    let ds = digits_of c v in
    let lp = length mark in
    let num = length ds in
    let size = length-digits_of c v in
    let filled = zero_filled-zeros s c mark ds refl in
    let zeros =
      zeros_lem s num lp (λ unset. least_or_unmarked s c v num refl unset)
        (λ z. mark_of-short s c v (omega (arith, size, z))) in
    let zs = replicate (full_precision s num lp - num) b'0' in
    let spaces : least_width s - length (mark ++ (zs ++ ds))
        ≡ space_padding_len s (full_precision s num lp) lp =
      omega (
        arith,
        spaces_lem s num lp,
        length-append mark (zs ++ ds),
        length-append zs ds,
        length-replicate {A = ℕ} (full_precision s num lp - num) b'0',
      ) in
    rw (prefix-mark_of s c v refl, ← size, number_bytes-digits_of c v, filled, ← zeros, spaces)
      (layout s.flag_minus (replicate (space_padding_len s (full_precision s num lp) lp) b' ') mark
        zs ds)
