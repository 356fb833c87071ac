-- ===== src/Printf/Spec/Whole.antt =====
-- src/printf.c: vprintf_parse_spec on a whole specification.
use mathlib.Core.List.{append_assoc}
use libdeepc.Base.{
  ℕ, zero, suc, ◌+◌, ◌≤◌, ◌<◌, ◌≡◌, refl, sym, ap, ◌∙◌, subst, Bool, true, false, ◌&&◌, Option,
  none, some, List, [], ◌∷◌, ◌++◌, arith, leb, ◌==◌, length, length-append, ok, on_option,
}
use libdeepc.Memory.{Mem, Addr}
use libdeepc.Memory.Text.{CString}
use libdeepc.Printf.{VprintSpec}
use libdeepc.Printf.Spec.{
  Conv, Arg, parsed, length_none, empty_spec, int_max, parse_flag, next_char, parse_precision,
  parse_width, vprintf_parse_spec,
}
use libdeepc.Printf.Spec.Decimal.{decimal, decimal-start, parse_number-decimal}
use libdeepc.Printf.Spec.Render.{
  Flag, minus_flag, plus_flag, space_flag, zero_flag, number_flag, SpecText, flag_byte, letter,
  precision_text, width_text, flags_text, spec_text, with_flag, with_flags, with_width,
  with_precision, spec_of, IsWidth, IsPrecision, CString-drop, next_char-at,
}
use libdeepc.Printf.Spec.Parsed.{Ends, from_precision, precision-Ends, from_precision-start}

parse_flag-byte : (s : VprintSpec) (f : Flag) → parse_flag (flag_byte f) s ≡ some (with_flag s f)
unfolding parse_flag
parse_flag-byte s minus_flag = refl
parse_flag-byte s plus_flag = refl
parse_flag-byte s space_flag = refl
parse_flag-byte s zero_flag = refl
parse_flag-byte s number_flag = refl

digit-parse_flag : (d : ℕ) → 0 < d → d < 10 → (s : VprintSpec) → parse_flag (d + b'0') s ≡ none
unfolding parse_flag
digit-parse_flag d h k s = ground arith

module _ (signed : Bool) (m : Mem) (args : List Arg) (k : Conv) (rest : List ℕ) (o : Option ℕ)
    (valid : IsPrecision o) where
  -- From the width on.
  abbrev from_width : Option ℕ → List ℕ
  from_width w = width_text w ++ from_precision signed m args k rest o

  -- Where the specification ends.
  abbrev behind : Option ℕ → Addr → Addr
  behind w p = p + length (width_text w) + length (precision_text o) + 1

  width_digits :
      (fuel : ℕ) (s : VprintSpec) (n : ℕ) (p : Addr)
      → CString m p (from_width (some n))
      → 0 < n
      → n ≤ int_max
      → length (decimal n) < fuel
      → length (precision_text o) < fuel
      → Ends signed m args k rest
          (next_char m p (parse_width fuel signed m s args))
          (with_precision (with_width s (some n)) o)
          (behind (some n) p)
  unfolding parse_width
  width_digits fuel s n p h pn le lw lp =
      let (d, digits, first, pd, small) = decimal-start n pn in
      let (c, tail, e, later) = from_precision-start signed m args k rest o in
      let here = rw first at h in
      let no_star : (d + b'0' == b'*') ≡ false = ground arith in
      let digit : (leb b'1' (d + b'0') && leb (d + b'0') b'9') ≡ true = ground arith in
      let text = rw e at h in
      let next = CString-drop m (decimal n) (from_precision signed m args k rest o) p h in
      next_char-at m p (d + b'0') (digits ++ from_precision signed m args k rest o)
        (parse_width fuel signed m s args) here
      ∙ (rw (no_star, digit)
          (parse_number-decimal fuel signed m p n c tail
              (λ n q. next_char m q (parse_precision fuel signed m (with_width s (some n)) args))
              text pn le later.3 lw
            ∙ precision-Ends signed m args k rest fuel (with_width s (some n)) o
                (p + length (decimal n)) next valid lp))

  width-Ends :
      (fuel : ℕ) (s : VprintSpec) (w : Option ℕ) (p : Addr)
      → CString m p (from_width w)
      → IsWidth w
      → length (width_text w) < fuel
      → length (precision_text o) < fuel
      → Ends signed m args k rest
          (next_char m p (parse_width fuel signed m s args))
          (with_precision (with_width s w) o)
          (behind w p)
  unfolding parse_width
  width-Ends fuel s none p h v lw lp =
      let (c, tail, e, later) = from_precision-start signed m args k rest o in
      let text = rw e at h in
      let q : p + 0 + length (precision_text o) + 1 ≡ p + length (precision_text o) + 1 =
        omega arith in
      next_char-at m p c tail (parse_width fuel signed m s args) text
      ∙ (rw (later.0, later.1, q)
          (sym (next_char-at m p c tail (parse_precision fuel signed m s args) text)
            ∙ precision-Ends signed m args k rest fuel s o p h valid lp))
  width-Ends fuel s (some n) p h v lw lp = width_digits fuel s n p h v.0 v.1 lw lp

  from_width-start :
      (w : Option ℕ)
      → IsWidth w
      → (c : ℕ) × (tail : List ℕ) × (from_width w ≡ c ∷ tail)
        × ((s : VprintSpec) → parse_flag c s ≡ none)
  from_width-start none v =
      let (c, tail, e, later) = from_precision-start signed m args k rest o in (c, tail, e, later.2)
  from_width-start (some n) v =
      let (d, digits, first, pd, small) = decimal-start n v.0 in
      (
        d + b'0',
        digits ++ from_precision signed m args k rest o,
        ap (λ (l : List ℕ). l ++ from_precision signed m args k rest o) first,
        digit-parse_flag d pd small,
      )

  flags-Ends :
      (fuel : ℕ) (s : VprintSpec) (w : Option ℕ) (fs : List Flag) (p : Addr)
      → CString m p (flags_text fs ++ from_width w)
      → IsWidth w
      → length fs + length (width_text w) + length (precision_text o) + 1 < fuel
      → Ends signed m args k rest
          (vprintf_parse_spec fuel signed m s args p)
          (with_precision (with_width (with_flags s fs) w) o)
          (behind w (p + length fs))
  unfolding vprintf_parse_spec
  flags-Ends zero s w fs p h v lt = absurd (omega arith)
  flags-Ends (suc fuel) s w [] p h v lt =
      let (c, tail, e, no_flag) = from_width-start w v in
      let text = rw e at h in
      let q : p + 0 ≡ p = omega arith in
      next_char-at m p c tail
        (λ c p.
          on_option (parse_flag c s) (parse_width fuel signed m s args c p)
            (λ s'. vprintf_parse_spec fuel signed m s' args (p + 1)))
        text
      ∙ (rw (no_flag s, q)
          (sym (next_char-at m p c tail (parse_width fuel signed m s args) text)
            ∙ width-Ends fuel s w p h v (omega arith) (omega arith)))
  flags-Ends (suc fuel) s w (f ∷ fs) p h v lt =
      let q : p + suc (length fs) ≡ p + 1 + length fs = omega arith in
      next_char-at m p (flag_byte f) (flags_text fs ++ from_width w)
        (λ c p.
          on_option (parse_flag c s) (parse_width fuel signed m s args c p)
            (λ s'. vprintf_parse_spec fuel signed m s' args (p + 1)))
        h
      ∙ (rw (parse_flag-byte s f, q)
          (flags-Ends fuel (with_flag s f) w fs (p + 1) h.2 v (omega arith)))

spec_text-rest :
    (t : SpecText) (rest : List ℕ)
    → spec_text t ++ rest
      ≡ flags_text t.flags
        ++ (width_text t.width ++ (precision_text t.precision ++ letter t.conv ∷ rest))
unfolding spec_text
spec_text-rest t rest = simp append_assoc refl

length-flags_text : (fs : List Flag) → length (flags_text fs) ≡ length fs
length-flags_text [] = refl
length-flags_text (f ∷ fs) = ap suc (length-flags_text fs)

pub length-spec_text :
    (t : SpecText)
    → length (spec_text t)
      ≡ length t.flags + length (width_text t.width) + length (precision_text t.precision) + 1
unfolding spec_text
length-spec_text t =
    let w = width_text t.width in
    let o = precision_text t.precision in
    let l : List ℕ = letter t.conv ∷ [] in
    omega (
      arith,
      length-append (flags_text t.flags) (w ++ (o ++ l)),
      length-append w (o ++ l),
      length-append o l,
      length-flags_text t.flags,
    )

-- vprintf_parse_spec on the text of a specification without a length modifier (any flags in any order,
-- a width that is not 0, a precision with or without digits, and the letter of a conversion, the
-- numbers at most INT_MAX), with more fuel than the text has bytes, reads exactly what the text says,
-- takes no argument and ends behind the letter.
pub vprintf_parse_spec-reads :
    (fuel : ℕ) (signed : Bool) (m : Mem) (args : List Arg) (t : SpecText) (rest : List ℕ) (p : Addr)
    → CString m p (spec_text t ++ rest)
    → IsWidth t.width
    → IsPrecision t.precision
    → length (spec_text t) < fuel
    → vprintf_parse_spec fuel signed m empty_spec args p
      ≡ ok (parsed (spec_of t) length_none t.conv (p + length (spec_text t)) args)
unfolding spec_of
vprintf_parse_spec-reads fuel signed m args t rest p h vw vp lt =
    let size = length-spec_text t in
    let q : behind signed m args t.conv rest t.precision vp t.width (p + length t.flags)
        ≡ p + length (spec_text t) =
      omega (arith, size) in
    subst
      (λ (e : ℕ).
        vprintf_parse_spec fuel signed m empty_spec args p
        ≡ ok (parsed (spec_of t) length_none t.conv e args))
      q
      (flags-Ends signed m args t.conv rest t.precision vp fuel empty_spec t.width t.flags p
        (rw (← spec_text-rest t rest) h) vw (omega (arith, size)))
