-- ===== src/Atoi/Whole.antt =====
-- src/atoi.c: atoi, strtol and strtoul on whole numbers in memory.
use libdeepc.Base.{
  ℕ, ◌+◌, ◌-◌, ◌%◌, ◌^◌, ◌<◌, ◌≡◌, refl, ◌≢◌, Bool, false, some, List, arith, ltb, leb,
  if◌then◌else◌, length, ℤ, pos, minus, ok,
}
use libdeepc.Memory.{Mem, Addr}
use libdeepc.Memory.Block.{load-ok}
use libdeepc.Atoi.{
  StrtoRet, negative, error, positive, atoi_start, strto_start, atoi, strtol, strtoul, unchanged,
  erange,
}
use libdeepc.Atoi.Run.{DigitRun, SpaceRun, skip_space-run, value_from}
use libdeepc.Atoi.Pos.{read_pos_int-run}
use libdeepc.Atoi.Neg.{read_neg_int-run}

-- At `p` stands a sign or none, it means `ret`, and the digits are to start at `q`.
pub data SignAt (m : Mem) (p : Addr) (ret : StrtoRet) (q : Addr) : Type 0 where
  minus_sign : m p ≡ some b'-' → ret ≡ negative → q ≡ p + 1 → SignAt m p ret q
  plus_sign : m p ≡ some b'+' → ret ≡ positive → q ≡ p + 1 → SignAt m p ret q
  no_sign : (c : ℕ) → m p ≡ some c → c ≢ b'-' → c ≢ b'+' → ret ≡ positive → q ≡ p → SignAt m p ret q

-- The number after an optional sign: what is returned where it is in range, and `other` elsewhere.
abbrev pub signed_value : StrtoRet → (max a : ℕ) → ℕ → ℤ → ℤ → ℤ
signed_value negative max a v above below = if leb v a then minus v else below
signed_value error max a v above below = pos 0
signed_value positive max a v above below = if leb v max then pos v else above

-- Whether the number is out of range.
abbrev pub out_of_range : StrtoRet → (max a : ℕ) → ℕ → Bool
out_of_range negative max a v = ltb a v
out_of_range error max a v = false
out_of_range positive max a v = ltb max v

SignAt-ne-error : (m : Mem) (p q : Addr) → SignAt m p error q → ⊥
SignAt-ne-error m p q (minus_sign e r u) = cc
SignAt-ne-error m p q (plus_sign e r u) = cc
SignAt-ne-error m p q (no_sign c e x y r u) = cc

module _ (signed : Bool) (m : Mem) where
  pub atoi_start-run :
      (fuel p n q : ℕ) (ret : StrtoRet)
      → SpaceRun signed m p n
      → SignAt m (p + n) ret q
      → n < fuel
      → atoi_start fuel signed m p ≡ ok (ret, q)
  unfolding atoi_start
  atoi_start-run fuel p n q ret sp (minus_sign e r u) lt =
      rw (skip_space-run signed m fuel p n sp lt, load-ok m (p + n) e) (ground arith)
  atoi_start-run fuel p n q ret sp (plus_sign e r u) lt =
      rw (skip_space-run signed m fuel p n sp lt, load-ok m (p + n) e) (ground arith)
  atoi_start-run fuel p n q ret sp (no_sign c e x y r u) lt =
      rw (skip_space-run signed m fuel p n sp lt, load-ok m (p + n) e) (ground arith)

  -- atoi, at the limits `max` and `-a` of the result, on white space, an optional sign and decimal
  -- digits gives the number with its sign if that is in range, and 0 if it is not. The fuel is to
  -- exceed the white space and the digits.
  pub atoi_lem :
      (fuel max a p n q : ℕ) (ret : StrtoRet) (ds : List ℕ)
      → SpaceRun signed m p n
      → SignAt m (p + n) ret q
      → DigitRun signed m 10 q ds
      → max < 2 ^ 64
      → n < fuel
      → length ds < fuel
      → atoi fuel signed max (minus a) m p
        ≡ ok (signed_value ret max a (value_from 10 0 ds) (pos 0) (pos 0))
  unfolding atoi
  atoi_lem fuel max a p n q negative ds sp sg dr word ln ld =
      rw
        (
          atoi_start-run fuel p n q negative sp sg ln,
          read_neg_int-run signed m a 10 fuel q ds (omega arith) dr ld,
        )
        (ground arith)
  atoi_lem fuel max a p n q error ds sp sg dr word ln ld = absurd (SignAt-ne-error m (p + n) q sg)
  atoi_lem fuel max a p n q positive ds sp sg dr word ln ld =
      rw
        (
          atoi_start-run fuel p n q positive sp sg ln,
          read_pos_int-run signed m max 10 fuel q ds (omega arith) word dr ld,
        )
        (ground arith)

  -- Once the sign, the base and its prefix are read, strtol at the limits `max` and `-a` gives the
  -- number that the digits of the base stand for, clamped to the limits, ends behind the last digit,
  -- and sets errno to ERANGE exactly when it clamps.
  pub strtol-clamp :
      (fuel max a p s b : ℕ) (base : ℤ) (ret : StrtoRet) (ds : List ℕ)
      → strto_start fuel signed m p base ≡ ok (ret, s, b)
      → ret ≢ error
      → 0 < b
      → DigitRun signed m b s ds
      → max < 2 ^ 64
      → length ds < fuel
      → strtol fuel signed max (minus a) m p base
        ≡ ok (record {
          value = signed_value ret max a (value_from b 0 ds) (pos max) (minus a);
          str_end = some (s + length ds);
          errno = if out_of_range ret max a (value_from b 0 ds) then erange else unchanged;
        })
  unfolding strtol
  strtol-clamp fuel max a p s b base negative ds st ne pb dr word ld =
      rw (st, read_neg_int-run signed m a b fuel s ds pb dr ld) (ground arith)
  strtol-clamp fuel max a p s b base error ds st ne pb dr word ld = absurd (ne refl)
  strtol-clamp fuel max a p s b base positive ds st ne pb dr word ld =
      rw (st, read_pos_int-run signed m max b fuel s ds pb word dr ld) (ground arith)

  -- strtoul at the limit `max`: a number that is too large gives the limit and ERANGE, sign or not;
  -- any other is given, negated modulo 2 ^ 64 after a minus sign.
  pub strtoul-clamp :
      (fuel max p s b : ℕ) (base : ℤ) (ret : StrtoRet) (ds : List ℕ)
      → strto_start fuel signed m p base ≡ ok (ret, s, b)
      → ret ≢ error
      → 0 < b
      → DigitRun signed m b s ds
      → max < 2 ^ 64
      → length ds < fuel
      → strtoul fuel signed max m p base
        ≡ ok (record {
          value = if ltb max (value_from b 0 ds) then max else elim ret [
            | negative ↦ (2 ^ 64 - value_from b 0 ds) % 2 ^ 64
            | _ ↦ value_from b 0 ds
          ];
          str_end = some (s + length ds);
          errno = if ltb max (value_from b 0 ds) then erange else unchanged;
        })
  unfolding strtoul
  strtoul-clamp fuel max p s b base negative ds st ne pb dr word ld =
      rw (st, read_pos_int-run signed m max b fuel s ds pb word dr ld) (ground arith)
  strtoul-clamp fuel max p s b base error ds st ne pb dr word ld = absurd (ne refl)
  strtoul-clamp fuel max p s b base positive ds st ne pb dr word ld =
      rw (st, read_pos_int-run signed m max b fuel s ds pb word dr ld) (ground arith)
