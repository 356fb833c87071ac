-- ===== src/Printf/Spec/Decimal.antt =====
-- src/printf.c: a width or a precision in decimal, as vprintf_parse_spec reads it with strtol.
use libdeepc.Base.{
  ℕ, zero, suc, ◌+◌, ◌/◌, ◌%◌, ◌^◌, ◌≤◌, ◌<◌, ◌≡◌, refl, sym, ap, ◌∙◌, Bool, true, false, none,
  some, List, [], ◌∷◌, ◌++◌, arith, dec_lt, ltb, leb, ◌==◌, length, pos, ltb_ℤ, Res, ok,
}
use libdeepc.Memory.{Mem, Addr}
use libdeepc.Memory.Block.{load-ok}
use libdeepc.Memory.Text.{CString}
use libdeepc.Str.Block.{char_value}
use libdeepc.Ctype.{isspace}
use libdeepc.Atoi.{unchanged, positive, strto_start, strtol, to_base_n}
use libdeepc.Atoi.Run.{DigitRun}
use libdeepc.Atoi.Whole.{no_sign, atoi_start-run, strtol-clamp}
use libdeepc.Printf.{conv_u, t_loop, number_bytes}
use libdeepc.Printf.Digits.{ReadAs, number_bytes-ReadAs}
use libdeepc.Printf.Spec.{Parse, int_max, long_max, long_min, parse_number}

-- The decimal digits of a number, none for 0.
abbrev pub decimal : ℕ → List ℕ
decimal n = number_bytes conv_u (pos n)

-- Digits in front of a text.
abbrev pub StartsWithDigit : List ℕ → List ℕ → Type 0
StartsWithDigit bs buf = (d : ℕ) × (rest : List ℕ) × (bs ≡ (d + b'0') ∷ rest) × (0 < d) × (d < 10)

t_loop-start :
    (fuel n : ℕ) (buf : List ℕ)
    → 0 < n
    → n < fuel
    → StartsWithDigit (t_loop fuel 10 (λ d. d + b'0') n buf) buf
unfolding t_loop
t_loop-start zero n buf pn lt = absurd (omega arith)
t_loop-start (suc fuel) n buf pn lt =
    let nz : (n == 0) ≡ false = ground arith in
    elim (dec_lt 0 (n / 10)) [
      | yes h ↦
          let (d, rest, e, a, b) =
            t_loop-start fuel (n / 10) ((n % 10 + b'0') ∷ buf) h (omega arith) in
          (d, rest, rw nz e, a, b)
      | no h ↦ (
        n % 10,
        buf,
        rw nz (last fuel (n / 10) ((n % 10 + b'0') ∷ buf) (omega arith) (omega arith)),
        omega arith,
        omega arith,
      )
    ]
  where
    last :
        (fuel n : ℕ) (buf : List ℕ) → n ≡ 0 → 0 < fuel → t_loop fuel 10 (λ d. d + b'0') n buf ≡ buf
    last zero n buf e h = absurd (omega arith)
    last (suc fuel) n buf e h = let z : (n == 0) ≡ true = ground arith in rw z refl

pub decimal-start : (n : ℕ) → 0 < n → StartsWithDigit (decimal n) []
unfolding number_bytes
decimal-start n h = t_loop-start (suc n) n [] h (omega arith)

-- A character that ends a number.
abbrev pub EndsNumber : Bool → ℕ → Type 0
EndsNumber signed c = to_base_n 10 (char_value signed c) ≡ none

ReadAs-DigitRun :
    (signed : Bool) (m : Mem) (bs ds : List ℕ) (p c : ℕ) (rest : List ℕ)
    → ReadAs signed 10 bs ds
    → CString m p (bs ++ c ∷ rest)
    → EndsNumber signed c
    → DigitRun signed m 10 p ds
ReadAs-DigitRun signed m [] [] p c rest r h e = (c, h.0, e)
ReadAs-DigitRun signed m [] (d ∷ ds) p c rest r h e = absurd r
ReadAs-DigitRun signed m (b ∷ bs) [] p c rest r h e = absurd r
ReadAs-DigitRun signed m (b ∷ bs) (d ∷ ds) p c rest r h e =
    ((b, h.0, r.0), ReadAs-DigitRun signed m bs ds (p + 1) c rest r.1 h.2 e)

pub ReadAs-length :
    (signed : Bool) (bs ds : List ℕ) → ReadAs signed 10 bs ds → length bs ≡ length ds
ReadAs-length signed [] [] r = refl
ReadAs-length signed [] (d ∷ ds) r = absurd r
ReadAs-length signed (b ∷ bs) [] r = absurd r
ReadAs-length signed (b ∷ bs) (d ∷ ds) r = ap suc (ReadAs-length signed bs ds r.1)

pub char_value-low : (signed : Bool) (c : ℕ) → c < 128 → char_value signed c ≡ pos c
char_value-low true c h = let e : ltb c 128 ≡ true = ground arith in rw e refl
char_value-low false c h = refl

not_space : (d : ℕ) → 0 < d → d < 10 → isspace (pos (d + b'0')) ≡ false
unfolding isspace
not_space d h k = ground arith

-- A digit but 0 starts a number without a sign and in base 10.
strto_start-digit :
    (fuel : ℕ) (signed : Bool) (m : Mem) (p d : ℕ)
    → m p ≡ some (d + b'0')
    → 0 < d
    → d < 10
    → 0 < fuel
    → strto_start fuel signed m p (pos 10) ≡ ok (positive, p, 10)
unfolding strto_start
strto_start-digit fuel signed m p d e pd lt pf =
    let q : p + 0 ≡ p = omega arith in
    let small : char_value signed (d + b'0') ≡ pos (d + b'0') =
      char_value-low signed (d + b'0') (omega arith) in
    let start =
      atoi_start-run signed m fuel p 0 p positive (d + b'0', e, rw small (not_space d pd lt))
        (no_sign (d + b'0') (rw q e) (ground arith) (ground arith) refl (sym q)) pf in
    let nz : (d + b'0' == b'0') ≡ false = ground arith in rw (start, load-ok m p e, nz) refl

int_max-lt : int_max < long_max
unfolding int_max long_max
int_max-lt = omega arith

long_max-lt : long_max < 2 ^ 64
unfolding long_max
long_max-lt = omega arith

strtol-decimal :
    (fuel : ℕ) (signed : Bool) (m : Mem) (p n c : ℕ) (rest : List ℕ)
    → CString m p (decimal n ++ c ∷ rest)
    → 0 < n
    → n ≤ int_max
    → EndsNumber signed c
    → length (decimal n) < fuel
    → strtol fuel signed long_max long_min m p (pos 10)
      ≡ ok (record { value = pos n; str_end = some (p + length (decimal n)); errno = unchanged })
unfolding long_min
strtol-decimal fuel signed m p n c rest h pn le e lt =
    let (ds, r, v, l) = number_bytes-ReadAs signed conv_u (pos n) in
    let (d, tail, first, pd, small) = decimal-start n pn in
    let text = rw first at h in
    let st = strto_start-digit fuel signed m p d text.0 pd small (omega arith) in
    let run = ReadAs-DigitRun signed m (decimal n) ds p c rest r h e in
    let count : length (decimal n) ≡ length ds = ReadAs-length signed (decimal n) ds r in
    let fits : leb n long_max ≡ true = ground (arith, int_max-lt) in
    let within : ltb long_max n ≡ false = ground (arith, int_max-lt) in
    let clamp =
      strtol-clamp signed m fuel long_max (2 ^ 63) p p 10 (pos 10) positive ds st (λ q. cc)
        (omega arith) run long_max-lt (omega (arith, count)) in
    clamp ∙ (rw (v, fits, within, count) refl)

-- parse_number on a number in range reads it and goes on behind it.
pub parse_number-decimal :
    (fuel : ℕ) (signed : Bool) (m : Mem) (p n c : ℕ) (rest : List ℕ) (next : ℕ → Addr → Res Parse)
    → CString m p (decimal n ++ c ∷ rest)
    → 0 < n
    → n ≤ int_max
    → EndsNumber signed c
    → length (decimal n) < fuel
    → parse_number fuel signed m p next ≡ next n (p + length (decimal n))
unfolding parse_number
parse_number-decimal fuel signed m p n c rest next h pn le e lt =
    let small : ltb int_max n ≡ false = ground arith in
    let test : ltb_ℤ (pos int_max) (pos n) ≡ false = ground arith in
    rw (strtol-decimal fuel signed m p n c rest h pn le e lt, test) refl
