-- ===== src/Printf/Convert/Fields.antt =====
-- src/printf.c: what the conversions hand to a writer that appends.
use mathlib.Core.List.{append_assoc, append-nil}
use libdeepc.Base.{
  ℕ, suc, ◌+◌, ◌-◌, ◌<◌, ◌≡◌, refl, ◌≢◌, true, false, ◌&&◌, List, [], ◌∷◌, ◌++◌, arith, ltb, ◌==◌,
  if◌then◌else◌, length, replicate, take, Res, ok, ◌>>=◌,
}
use libdeepc.Memory.{Mem, Addr, null}
use libdeepc.Memory.Block.{load-ok}
use libdeepc.Memory.Text.{CString}
use libdeepc.Str.Scan.Find.{strlen-length}
use libdeepc.Printf.{VprintSpec, Writer, padding_loop, vprintf_padding}
use libdeepc.Printf.Integer.{Appends, Writes, Writes-nil, choose-Writes, padding-Writes}
use libdeepc.Printf.Convert.{
  Output, read_bytes, pad_write, vprintf_conv_c, conv_text, vprintf_conv_s,
}

-- Bytes in a field of the width of the specification.
unfoldable pub field : VprintSpec → List ℕ → List ℕ
field s bs =
    let spaces = replicate (s.width - length bs) b' ' in
    let padded =
      (if s.flag_minus then [] else spaces) ++ (bs ++ (if s.flag_minus then spaces else [])) in
    if s.width_set && ltb (length bs) s.width then padded else bs

-- A text, cut at the precision.
unfoldable pub text_field : VprintSpec → List ℕ → List ℕ
text_field s text = field s (
    take (if s.precision_set && ltb s.precision (length text) then s.precision else length text)
      text)

pub read_bytes-prefix :
    (m : Mem) (p : Addr) (s rest : List ℕ)
    → CString m p (s ++ rest)
    → read_bytes m p (length s) ≡ ok s
unfolding read_bytes
read_bytes-prefix m p [] rest h = refl
read_bytes-prefix m p (c ∷ s) rest h =
    rw (load-ok m p h.0, read_bytes-prefix m (p + 1) s rest h.2) refl

pub read_bytes-text :
    (m : Mem) (p : Addr) (s : List ℕ) → CString m p s → read_bytes m p (length s) ≡ ok s
read_bytes-text m p s h = read_bytes-prefix m p s [] (rw (append-nil s) h)

module _ (w : Writer) (o : Output w) (Out : w.State → List ℕ → Type 0) (law : Appends w Out) where
  Writes-bind :
      (run : Res w.State) (next : w.State → Res w.State) (out xs bs : List ℕ)
      → Writes w Out law run out xs
      → ((i : w.State)
          → w.is_ok i ≡ true
          → Out i (out ++ xs)
          → Writes w Out law (next i) (out ++ xs) bs)
      → Writes w Out law (run >>= next) out (xs ++ bs)
  Writes-bind run next out xs bs (i, e, g, o) cont =
      let (k, f, gk, ok_k) = cont i g o in (k, rw e f, gk, rw (← append_assoc out xs bs) ok_k)

  module _ (i : w.State) (out : List ℕ) (g : w.is_ok i ≡ true) (view : Out i out)
      (s : VprintSpec) where
    pub pad_write-field : (bs : List ℕ) → Writes w Out law (pad_write w o i s bs) out (field s bs)
    unfolding pad_write field vprintf_padding
    pad_write-field bs =
        let pad = s.width - length bs in
        let spaces : List ℕ = replicate pad b' ' in
        let spaced : w.State → Res w.State = λ k. padding_loop w (suc pad) k b' ' pad in
        let padding : (k : w.State) (out : List ℕ)
            → w.is_ok k ≡ true
            → Out k out
            → Writes w Out law (spaced k) out spaces =
          λ k out g v. padding-Writes w Out law (suc pad) pad b' ' k out (omega arith) g v in
        let trail : w.State → Res w.State = λ k. if s.flag_minus then spaced k else ok k in
        let lead : List ℕ = if s.flag_minus then [] else spaces in
        let end : List ℕ = if s.flag_minus then spaces else [] in
        let first = if s.flag_minus then ok i else spaced i in
        let padded =
          Writes-bind first (λ k. w.write_fn k bs >>= trail) out lead (bs ++ end)
            (choose-Writes w Out law s.flag_minus (ok i) (spaced i) out [] spaces
              (Writes-nil w Out law i out g view) (padding i out g view))
            (λ k gk vk.
              Writes-bind (w.write_fn k bs) trail (out ++ lead) bs end
                (law.write k (out ++ lead) bs gk vk)
                (λ j gj vj.
                  choose-Writes w Out law s.flag_minus (spaced j) (ok j) ((out ++ lead) ++ bs)
                    spaces [] (padding j ((out ++ lead) ++ bs) gj vj)
                    (Writes-nil w Out law j ((out ++ lead) ++ bs) gj vj))) in
        choose-Writes w Out law (s.width_set && ltb (length bs) s.width)
          (first >>= λ k. w.write_fn k bs >>= trail) (w.write_fn i bs) out (lead ++ (bs ++ end)) bs
          padded (law.write i out bs g view)

    pub vprintf_conv_c-field :
        (c : ℕ) → Writes w Out law (vprintf_conv_c w o i s c) out (field s (c ∷ []))
    unfolding vprintf_conv_c
    vprintf_conv_c-field c = pad_write-field (c ∷ [])

    pub conv_text-field :
        (text : List ℕ) → Writes w Out law (conv_text w o i s text) out (text_field s text)
    unfolding conv_text text_field
    conv_text-field text = pad_write-field (
        take (if s.precision_set && ltb s.precision (length text) then s.precision else length text)
          text)

    pub vprintf_conv_s-field :
        (fuel : ℕ) (p : Addr) (text : List ℕ)
        → p ≢ null
        → CString (o.memory i) p text
        → length text < fuel
        → Writes w Out law (vprintf_conv_s w o fuel i s p) out (text_field s text)
    unfolding vprintf_conv_s
    vprintf_conv_s-field fuel p text real h lt =
        let there : (p == null) ≡ false = ground arith in
        let (k, run, fine, view') = conv_text-field text in
        (
          k,
          rw
              (
                there,
                strlen-length fuel (o.memory i) p text h lt,
                read_bytes-text (o.memory i) p text h,
              )
              run,
          fine,
          view',
        )
