-- ===== src/Printf/Convert/Converts.antt =====
-- src/printf.c: what vprintf_write_spec makes of the arguments of a conversion.
use libdeepc.Base.{
  ℕ, ◌≤◌, ◌<◌, ◌≡◌, refl, ◌≢◌, true, false, List, [], ◌∷◌, ◌++◌, arith, ◌==◌, length, ℤ, pos, ok,
}
use libdeepc.Memory.{Addr, null}
use libdeepc.Memory.Text.{CString}
use libdeepc.Str.Block.{to_uchar}
use libdeepc.Printf.{
  IntConv, conv_d, conv_o, conv_u, conv_x, conv_upper_x, VprintSpec, Writer, vprintf_output_int,
}
use libdeepc.Printf.Integer.{Appends, vprintf_output_int-format}
use libdeepc.Printf.Field.{format_int}
use libdeepc.Printf.Spec.{
  length_none, Conv, conv_int, conv_c, conv_s, conv_p, conv_percent, Arg, number, pointer,
}
use libdeepc.Printf.Convert.{
  Output, conv_signed, conv_unsigned, conv_text, vprintf_conv_s, vprintf_conv_p, vprintf_conv_int,
  vprintf_write_spec, null_text, nil_text, pointer_spec,
}
use libdeepc.Printf.Convert.Fields.{
  field, text_field, vprintf_conv_c-field, vprintf_conv_s-field, conv_text-field,
}

conv_int-run :
    (w : Writer) (o : Output w) (i : w.State) (s : VprintSpec) (k : IntConv) (n : ℕ)
    → vprintf_conv_int w o i s length_none k (pos n) ≡ vprintf_output_int w i s (pos n)
unfolding vprintf_conv_int conv_signed conv_unsigned
conv_int-run w o i s conv_d n = refl
conv_int-run w o i s conv_o n = refl
conv_int-run w o i s conv_u n = refl
conv_int-run w o i s conv_x n = refl
conv_int-run w o i s conv_upper_x n = refl

null_run :
    (w : Writer) (o : Output w) (i : w.State) (s : VprintSpec) (fuel : ℕ)
    → vprintf_conv_s w o fuel i s null ≡ conv_text w o i s null_text
unfolding vprintf_conv_s
null_run w o i s fuel = refl

-- What a conversion of a specification `s` makes of its arguments: the bytes. A string has no more
-- bytes than `bound`.
pub data Converts (IsText : Addr → List ℕ → Type 0) (bound : ℕ) (s : VprintSpec)
    : Conv → List Arg → List ℕ → Type 0 where
  signed_int : (v : ℤ) → Converts IsText bound s (conv_int conv_d) (number v ∷ []) (format_int s v)
  unsigned_int :
      (k : IntConv) (n : ℕ)
      → Converts IsText bound s (conv_int k) (number (pos n) ∷ []) (format_int s (pos n))
  char_of : (v : ℤ) → Converts IsText bound s conv_c (number v ∷ []) (field s (to_uchar v ∷ []))
  text_at :
      (p : Addr) (text : List ℕ)
      → p ≢ null
      → IsText p text
      → length text ≤ bound
      → Converts IsText bound s conv_s (pointer p ∷ []) (text_field s text)
  no_text : Converts IsText bound s conv_s (pointer null ∷ []) (text_field s null_text)
  pointer_to :
      (p : Addr)
      → p ≢ null
      → Converts IsText bound s conv_p (pointer p ∷ []) (format_int (pointer_spec s) (pos p))
  no_pointer : Converts IsText bound s conv_p (pointer null ∷ []) (text_field s nil_text)
  percent_sign : Converts IsText bound s conv_percent [] (b'%' ∷ [])

module _ (w : Writer) (o : Output w) (Out : w.State → List ℕ → Type 0) (law : Appends w Out)
    (IsText : Addr → List ℕ → Type 0) (bound : ℕ) (i : w.State) (out : List ℕ)
    (g : w.is_ok i ≡ true) (view : Out i out)
    (reads : (p : Addr) (text : List ℕ) → IsText p text → CString (o.memory i) p text) (fuel : ℕ)
    (enough : bound < fuel) where
  -- vprintf_write_spec takes the arguments of the conversion and writes its bytes.
  pub vprintf_write_spec-Converts :
      (s : VprintSpec) (k : Conv) (args more : List Arg) (bytes : List ℕ)
      → Converts IsText bound s k args bytes
      → (i' : w.State) × (vprintf_write_spec w o fuel i s length_none k (args ++ more)
          ≡ ok (i', more))
        × (w.is_ok i' ≡ true)
        × Out i' (out ++ bytes)
  unfolding vprintf_write_spec vprintf_conv_int vprintf_conv_p conv_signed conv_unsigned conv_text
      text_field
  vprintf_write_spec-Converts s k args more bytes (signed_int v) =
      let (i', run, g', v') = vprintf_output_int-format w Out law i out s v g view in
      (i', rw run refl, g', v')
  vprintf_write_spec-Converts s k args more bytes (unsigned_int c n) =
      let (i', run, g', v') = vprintf_output_int-format w Out law i out s (pos n) g view in
      (i', rw (conv_int-run w o i s c n, run) refl, g', v')
  vprintf_write_spec-Converts s k args more bytes (char_of v) =
      let (i', run, g', v') = vprintf_conv_c-field w o Out law i out g view s (to_uchar v) in
      (i', rw run refl, g', v')
  vprintf_write_spec-Converts s k args more bytes (text_at p text real h le) =
      let (i', run, g', v') =
        vprintf_conv_s-field w o Out law i out g view s fuel p text real (reads p text h)
          (omega arith) in
      (i', rw run refl, g', v')
  vprintf_write_spec-Converts s k args more bytes no_text =
      let (i', run, g', v') = conv_text-field w o Out law i out g view s null_text in
      (i', rw (null_run w o i s fuel, run) refl, g', v')
  vprintf_write_spec-Converts s k args more bytes (pointer_to p real) =
      let there : (p == null) ≡ false = ground arith in
      let (i', run, g', v') =
        vprintf_output_int-format w Out law i out (pointer_spec s) (pos p) g view in
      (i', rw (there, run) refl, g', v')
  vprintf_write_spec-Converts s k args more bytes no_pointer =
      let (i', run, g', v') = conv_text-field w o Out law i out g view s nil_text in
      (i', rw run refl, g', v')
  vprintf_write_spec-Converts s k args more bytes percent_sign =
      let (i', run, g', v') = law.write i out (b'%' ∷ []) g view in (i', rw run refl, g', v')
