-- ===== src/Tests/Formats.antt =====
-- src/printf.c: whole formats. The buffer is at 1, and the text "%-5.3d|%s" stands at 21, with "ok" at 31.
use libdeepc.Base.{
  ℕ, ◌+◌, ◌^◌, ◌≤◌, ◌<◌, ◌≡◌, refl, sym, ap, subst, Bool, true, none, some, List, [], ◌∷◌, ◌++◌,
  arith, length, replicate, take, ℤ, pos, negsuc, minus, ok,
}
use libdeepc.Memory.{Mem, Addr}
use libdeepc.Memory.Bytes.{put_bytes}
use libdeepc.Atoi.{atoi}
use libdeepc.Printf.{conv_d, number_bytes, t_loop}
use libdeepc.Printf.Field.{format_int}
use libdeepc.Printf.Spec.{
  conv_int, conv_s, number, pointer, parsed, length_none, empty_spec, int_max, vprintf_parse_spec,
}
use libdeepc.Printf.Spec.Render.{minus_flag, SpecText, spec_text, spec_of}
use libdeepc.Printf.Spec.Whole.{vprintf_parse_spec-reads}
use libdeepc.Printf.Convert.Fields.{field, text_field}
use libdeepc.Printf.Convert.Converts.{signed_int, text_at}
use libdeepc.Printf.Shared.Pieces.{
  Piece, literal, conversion_of, format_text, format_bytes, Within, ArePieces,
}
use libdeepc.Printf.Vsnprintf.{vsnprintf, outside, vsnprintf-format}
use libdeepc.Printf.ReadBack.{plain_text, atoi-vsnprintf}
use libdeepc.Printf.Vfprintf.{FdInfo, vfprintf, TakesAll, vfprintf-format}
use libdeepc.Tests.Image.{image}

-- %-5.3d and %s
abbrev padded : SpecText
padded = record {
  flags = minus_flag ∷ [];
  width = some 5;
  precision = some 3;
  conv = conv_int conv_d;
}

abbrev string : SpecText
string = record { flags = []; width = none; precision = none; conv = conv_s }

abbrev text : List ℕ
text = b'%' ∷ b'-' ∷ b'5' ∷ b'.' ∷ b'3' ∷ b'd' ∷ b'|' ∷ b'%' ∷ b's' ∷ []

abbrev okay : List ℕ
okay = b'o' ∷ b'k' ∷ []

abbrev page : Mem
page = image (replicate 20 0 ++ (text ++ 0 ∷ okay))

abbrev free_page : Addr → Bool
free_page = outside 1 11

text_there : Within page free_page 21 text
text_there = (
  (
    refl,
    omega arith,
    (
      refl,
      omega arith,
      (
        refl,
        omega arith,
        (
          refl,
          omega arith,
          (
            refl,
            omega arith,
            (
              refl,
              omega arith,
              (refl, omega arith, (refl, omega arith, (refl, omega arith, refl))),
            ),
          ),
        ),
      ),
    ),
  ),
  λ j le. ground arith,
)

okay_there : Within page free_page 31 okay
okay_there = ((refl, omega arith, (refl, omega arith, refl)), λ j le. ground arith)

abbrev pieces : List Piece
pieces =
    conversion_of padded (number (negsuc 41) ∷ []) (format_int (spec_of padded) (negsuc 41))
    ∷ literal b'|'
    ∷ conversion_of string (pointer 31 ∷ []) (text_field (spec_of string) okay)
    ∷ []

pieces-text : format_text pieces ≡ text
unfolding spec_text number_bytes t_loop
pieces-text = refl

pieces-ArePieces :
    (region : Addr → Bool) → Within page region 31 okay → ArePieces page region 2 pieces
unfolding int_max
pieces-ArePieces region h = (
  ((omega arith, omega arith), omega arith, signed_int (negsuc 41)),
  ((omega arith, omega arith), ((tt, tt, text_at 31 okay (ground arith) h (omega arith)), tt)),
)

pieces_there :
    (region : Addr → Bool) → Within page region 21 text → Within page region 21 (format_text pieces)
pieces_there region h = subst (λ (l : List ℕ). Within page region 21 l) (sym pieces-text) h

pieces_short : length (format_text pieces) + 2 < 20
pieces_short = subst (λ (l : List ℕ). length l + 2 < 20) (sym pieces-text) (omega arith)

pieces_brief : length (format_bytes pieces) < 2 ^ 31
unfolding format_int text_field field spec_of
pieces_brief = omega arith

vprintf_parse_spec-reads_example :
    vprintf_parse_spec 9 true page empty_spec [] 22
    ≡ ok (parsed (spec_of padded) length_none (conv_int conv_d) (22 + length (spec_text padded)) [])
unfolding spec_text number_bytes t_loop int_max
vprintf_parse_spec-reads_example =
    vprintf_parse_spec-reads 9 true page [] padded (b'|' ∷ b'%' ∷ b's' ∷ []) 22 text_there.0.2
      (omega arith, omega arith) (omega arith) (omega arith)

vsnprintf-format_example :
    vsnprintf 20 true page 1 11 21 (number (negsuc 41) ∷ pointer 31 ∷ [])
    ≡ ok (
      pos (length (format_bytes pieces)),
      put_bytes page 1 (take 10 (format_bytes pieces) ++ 0 ∷ []),
    )
vsnprintf-format_example =
    vsnprintf-format page 1 10 (λ i lt. ground arith) 2 true 20 21 pieces
      (pieces_there free_page text_there) (pieces-ArePieces free_page okay_there) pieces_short
      pieces_brief

-- "%d" at 21, in front of a free page.
abbrev short_page : Mem
short_page = image (replicate 20 0 ++ b'%' ∷ b'd' ∷ [])

short_text : length (plain_text (negsuc 41)) ≤ 10
unfolding format_int
short_text = omega arith

shorter_text : length (plain_text (negsuc 41)) < 12
shorter_text = omega (arith, short_text)

atoi-vsnprintf_example :
    (ret : ℤ) × (m' : Mem) × (vsnprintf 3 true short_page 1 11 21 (number (negsuc 41) ∷ [])
      ≡ ok (ret, m'))
    × (atoi 12 true 2147483647 (minus 2147483648) m' 1 ≡ ok (negsuc 41))
atoi-vsnprintf_example =
    atoi-vsnprintf 3 12 2147483647 2147483648 true short_page 1 10 21 (negsuc 41)
      (λ i lt. ground arith) ((refl, omega arith, (refl, omega arith, refl)), λ j le. ground arith)
      short_text (omega arith) (omega arith) (omega arith) shorter_text

abbrev keeps : List ℕ → ℤ → List ℕ → ℤ × List ℕ
keeps k fd bs = (pos (length bs), k ++ bs)

abbrev Kept : List ℕ → List ℕ → Type 0
Kept k out = k ≡ out

keeps-TakesAll : TakesAll keeps (pos 1) Kept
keeps-TakesAll = record { takes = λ k out bs e. (k ++ bs, refl, ap (λ (l : List ℕ). l ++ bs) e) }

everywhere : (p : Addr) (s : List ℕ) → Within page free_page p s → Within page (λ a. true) p s
everywhere p s h = (h.0, λ j le. refl)

vfprintf-format_example :
    (i : FdInfo (List ℕ)) × (vfprintf keeps
        (pos 1)
        20
        true
        []
        page
        21
        (number (negsuc 41) ∷ pointer 31 ∷ [])
      ≡ ok (pos (length (format_bytes pieces)), i))
    × Kept i.kernel (format_bytes pieces)
vfprintf-format_example =
    vfprintf-format keeps (pos 1) Kept keeps-TakesAll page 2 true 20 [] 21 pieces refl
      (pieces_there (λ a. true) (everywhere 21 text text_there))
      (pieces-ArePieces (λ a. true) (everywhere 31 okay okay_there)) pieces_short pieces_brief
