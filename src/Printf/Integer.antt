-- ===== src/Printf/Integer.antt =====
-- src/printf.c: what vprintf_output_int hands to a writer, whatever the writer does with it.
use mathlib.Core.List.{append_assoc, append-nil}
use libdeepc.Base.{
  ℕ, zero, suc, ◌+◌, ◌-◌, ◌≤◌, ◌<◌, ◌≡◌, refl, ap, ◌∙◌, subst, inl, inr, Bool, true, false, List,
  [], ◌∷◌, ◌++◌, arith, leb, ◌==◌, if◌then◌else◌, Bool-cases, length, replicate, ℤ, Res, ok, ◌>>=◌,
}
use libdeepc.Printf.{
  VprintSpec, number_bytes, num_precision, prefix, full_precision, space_padding_len, Writer,
  padding_loop, vprintf_padding, output_end, output_number, output_zeros, output_prefix,
  output_start, vprintf_output_int,
}
use libdeepc.Printf.Field.{format_int}
use libdeepc.Printf.Field.Pieces.{pieces_int, replicate-add, pieces_int-format_int}

-- A writer that does not fail, and a view of its state as the bytes written so far.
pub record Appends (w : Writer) (Out : w.State → List ℕ → Type 0) : Type 0 where
  pub write :
      (i : w.State) (out bs : List ℕ)
      → w.is_ok i ≡ true
      → Out i out
      → (i' : w.State) × (w.write_fn i bs ≡ ok i') × (w.is_ok i' ≡ true) × Out i' (out ++ bs)

choose-append :
    (b : Bool) (xs ys : List ℕ) → (if b then ys else xs ++ ys) ≡ (if b then [] else xs) ++ ys
choose-append true xs ys = refl
choose-append false xs ys = refl

module _ (w : Writer) (Out : w.State → List ℕ → Type 0) (law : Appends w Out) where
  -- A run ends well and appends `bs`.
  abbrev pub Writes : Res w.State → List ℕ → List ℕ → Type 0
  Writes run out bs = (i' : w.State) × (run ≡ ok i') × (w.is_ok i' ≡ true) × Out i' (out ++ bs)

  -- A step that appends, and what follows it.
  Writes-then :
      (run : Res w.State) (next : w.State → Res w.State) (out xs bs : List ℕ)
      → Writes run out xs
      → ((i : w.State) → w.is_ok i ≡ true → Out i (out ++ xs) → Writes (next i) (out ++ xs) bs)
      → Writes (run >>= λ i. if w.is_ok i then next i else ok i) out (xs ++ bs)
  Writes-then run next out xs bs (i, e, g, o) cont =
      let (k, f, gk, ok_k) = cont i g o in (k, rw (e, g) f, gk, rw (← append_assoc out xs bs) ok_k)

  pub Writes-nil :
      (i : w.State) (out : List ℕ) → w.is_ok i ≡ true → Out i out → Writes (ok i) out []
  Writes-nil i out g o = (i, refl, g, rw (append-nil out) o)

  -- A chunk of the padding and the rest of it.
  chunk-Writes :
      (len l p : ℕ) (run : Res w.State) (out : List ℕ)
      → l + (len - l) ≡ len
      → Writes run out (replicate l p ++ replicate (len - l) p)
      → Writes run out (replicate len p)
  chunk-Writes len l p run out whole h =
      subst (λ bs. Writes run out bs) (replicate-add l (len - l) p ∙ ap (λ n. replicate n p) whole)
        h

  -- A choice of runs appends the same choice of bytes.
  pub choose-Writes :
      (b : Bool) (run₁ run₂ : Res w.State) (out xs ys : List ℕ)
      → Writes run₁ out xs
      → Writes run₂ out ys
      → Writes (if b then run₁ else run₂) out (if b then xs else ys)
  choose-Writes true run₁ run₂ out xs ys h₁ h₂ = h₁
  choose-Writes false run₁ run₂ out xs ys h₁ h₂ = h₂

  pub padding-Writes :
      (fuel len p : ℕ) (i : w.State) (out : List ℕ)
      → len < fuel
      → w.is_ok i ≡ true
      → Out i out
      → Writes (padding_loop w fuel i p len) out (replicate len p)
  unfolding padding_loop
  padding-Writes zero len p i out lt g o = absurd (omega arith)
  padding-Writes (suc fuel) len p i out lt g o = elim (Bool-cases (len == 0)) [
    | inl z ↦ let e : len ≡ 0 = ground arith in rw (z, e) (Writes-nil i out g o)
    | inr nz ↦
        let l = if leb 64 len then 64 else len in
        let small : 0 < l = ground arith in
        let fits : l ≤ len = ground arith in
        let whole : l + (len - l) ≡ len = omega arith in
        rw nz (
          chunk-Writes len l p
            (w.write_fn i (replicate l p) >>= λ k.
              if w.is_ok k then padding_loop w fuel k p (len - l) else ok k)
            out whole
            (Writes-then (w.write_fn i (replicate l p)) (λ k. padding_loop w fuel k p (len - l)) out
              (replicate l p) (replicate (len - l) p) (law.write i out (replicate l p) g o)
              (λ k gk ok_k.
                padding-Writes fuel (len - l) p k (out ++ replicate l p) (omega arith) gk ok_k)))
  ]

  module _ (s : VprintSpec) (val : ℤ) where
    tail_padding : ℕ → List ℕ
    tail_padding spaces = if s.flag_minus then replicate spaces b' ' else []

    end-Writes :
        (spaces : ℕ) (i : w.State) (out : List ℕ)
        → w.is_ok i ≡ true
        → Out i out
        → Writes (output_end w s spaces i) out (tail_padding spaces)
    unfolding output_end tail_padding vprintf_padding
    end-Writes spaces i out g o =
        choose-Writes s.flag_minus (padding_loop w (suc spaces) i b' ' spaces) (ok i) out
          (replicate spaces b' ') []
          (padding-Writes (suc spaces) spaces b' ' i out (omega arith) g o) (Writes-nil i out g o)

    number-Writes :
        (spaces : ℕ) (i : w.State) (out : List ℕ)
        → w.is_ok i ≡ true
        → Out i out
        → Writes
            (output_number w s val spaces i)
            out
            (number_bytes s.conv val ++ tail_padding spaces)
    unfolding output_number
    number-Writes spaces i out g o =
        Writes-then (w.write_fn i (number_bytes s.conv val)) (output_end w s spaces) out
          (number_bytes s.conv val) (tail_padding spaces)
          (law.write i out (number_bytes s.conv val) g o)
          (λ k gk ok_k. end-Writes spaces k (out ++ number_bytes s.conv val) gk ok_k)

    zeros-Writes :
        (zeros spaces : ℕ) (i : w.State) (out : List ℕ)
        → w.is_ok i ≡ true
        → Out i out
        → Writes
            (output_zeros w s val zeros spaces i)
            out
            (replicate zeros b'0' ++ (number_bytes s.conv val ++ tail_padding spaces))
    unfolding output_zeros vprintf_padding
    zeros-Writes zeros spaces i out g o =
        Writes-then (padding_loop w (suc zeros) i b'0' zeros) (output_number w s val spaces) out
          (replicate zeros b'0') (number_bytes s.conv val ++ tail_padding spaces)
          (padding-Writes (suc zeros) zeros b'0' i out (omega arith) g o)
          (λ k gk ok_k. number-Writes spaces k (out ++ replicate zeros b'0') gk ok_k)

    prefix-Writes :
        (pre : List ℕ) (zeros spaces : ℕ) (i : w.State) (out : List ℕ)
        → w.is_ok i ≡ true
        → Out i out
        → Writes
            (output_prefix w s val pre zeros spaces i)
            out
            (pre ++ (replicate zeros b'0' ++ (number_bytes s.conv val ++ tail_padding spaces)))
    unfolding output_prefix
    prefix-Writes [] zeros spaces i out g o = zeros-Writes zeros spaces i out g o
    prefix-Writes (b ∷ pre) zeros spaces i out g o =
        let e : (suc (length pre) == 0) ≡ false = ground arith in
        rw e (
          Writes-then (w.write_fn i (b ∷ pre)) (output_zeros w s val zeros spaces) out (b ∷ pre)
            (replicate zeros b'0' ++ (number_bytes s.conv val ++ tail_padding spaces))
            (law.write i out (b ∷ pre) g o)
            (λ k gk ok_k. zeros-Writes zeros spaces k (out ++ b ∷ pre) gk ok_k))

  -- The run hands on the pieces.
  vprintf_output_int-pieces :
      (i : w.State) (out : List ℕ) (s : VprintSpec) (val : ℤ)
      → w.is_ok i ≡ true
      → Out i out
      → (i' : w.State) × (vprintf_output_int w i s val ≡ ok i')
        × (w.is_ok i' ≡ true)
        × Out i' (out ++ pieces_int s val)
  unfolding vprintf_output_int output_start pieces_int tail_padding vprintf_padding
  vprintf_output_int-pieces i out s val g o =
      let num = num_precision s.conv val in
      let pre = prefix s val num in
      let precision = full_precision s num (length pre) in
      let spaces = space_padding_len s precision (length pre) in
      let zeros = precision - num in
      let rest =
        pre ++ (replicate zeros b'0' ++ (number_bytes s.conv val ++ tail_padding s val spaces)) in
      let then_prefix : w.State → Res w.State =
        λ k. if w.is_ok k then output_prefix w s val pre zeros spaces k else ok k in
      let padded = padding_loop w (suc spaces) i b' ' spaces >>= then_prefix in
      subst
        (λ bs.
          Writes (if s.flag_minus then output_prefix w s val pre zeros spaces i else padded) out bs)
        (choose-append s.flag_minus (replicate spaces b' ') rest)
        (choose-Writes s.flag_minus (output_prefix w s val pre zeros spaces i) padded out rest
          (replicate spaces b' ' ++ rest) (prefix-Writes s val pre zeros spaces i out g o)
          (Writes-then (padding_loop w (suc spaces) i b' ' spaces)
            (output_prefix w s val pre zeros spaces) out (replicate spaces b' ') rest
            (padding-Writes (suc spaces) spaces b' ' i out (omega arith) g o)
            (λ k gk ok_k.
              prefix-Writes s val pre zeros spaces k (out ++ replicate spaces b' ') gk ok_k)))

  -- Through a writer that appends and does not fail, vprintf_output_int ends without an error and
  -- appends exactly the field of the integer: spaces, sign or base prefix, zeros, digits, spaces.
  pub vprintf_output_int-format :
      (i : w.State) (out : List ℕ) (s : VprintSpec) (val : ℤ)
      → w.is_ok i ≡ true
      → Out i out
      → (i' : w.State) × (vprintf_output_int w i s val ≡ ok i')
        × (w.is_ok i' ≡ true)
        × Out i' (out ++ format_int s val)
  vprintf_output_int-format i out s val g o =
      subst (λ bs. Writes (vprintf_output_int w i s val) out bs) (pieces_int-format_int s val)
        (vprintf_output_int-pieces i out s val g o)
