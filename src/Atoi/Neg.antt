-- ===== src/Atoi/Neg.antt =====
-- src/atoi.c: read_neg_int reads a run of digits downwards and stops at the smallest value.
use libdeepc.Base.{
  ℕ, zero, suc, ◌+◌, ◌*◌, ◌/◌, ◌%◌, ◌≤◌, ◌<◌, ◌≡◌, refl, inl, inr, Bool, true, false, ◌&&◌, ◌||◌,
  List, [], ◌∷◌, arith, ltb, leb, ◌==◌, if◌then◌else◌, Bool-cases, length, ℤ, pos, negsuc, minus,
  ◌-ℤ◌, ◌*ℤ◌, leb_ℤ, ltb_ℤ, eqb_ℤ, ok,
}
use libdeepc.Memory.{Mem}
use libdeepc.Memory.Block.{load-ok}
use libdeepc.Str.Block.{char_value}
use libdeepc.Atoi.{read_neg_loop, read_neg_int, reading, quot, rem}
use libdeepc.Atoi.Run.{DigitRun, skip_digits-run, value_from, value_from-ge, to_base_n-lt}
use libdeepc.Atoi.Pos.{fits, exceeds}

quot-minus : (a b : ℕ) → quot (minus a) b ≡ minus (a / b)
quot-minus zero b = let z : 0 / b ≡ 0 = omega arith in rw z refl
quot-minus (suc a) b = refl

rem-minus : (a b : ℕ) → rem (minus a) b ≡ minus (a % b)
rem-minus zero b = let z : 0 % b ≡ 0 = omega arith in rw z refl
rem-minus (suc a) b = refl

minus-negate : (a : ℕ) → minus a *ℤ negsuc 0 ≡ pos a
unfolding ◌*ℤ◌
minus-negate a = ground arith

minus-step : (k b d : ℕ) → minus k *ℤ pos b -ℤ pos d ≡ minus (k * b + d)
unfolding ◌*ℤ◌ ◌-ℤ◌
minus-step zero b zero = ground arith
minus-step zero b (suc d) = ground arith
minus-step (suc k) zero zero = ground arith
minus-step (suc k) zero (suc d) = ground arith
minus-step (suc k) (suc b) d = ground arith

ltb-minus : (x k : ℕ) → ltb_ℤ (minus x) (minus k) ≡ ltb k x
ltb-minus zero zero = ground arith
ltb-minus zero (suc k) = ground arith
ltb-minus (suc x) zero = ground arith
ltb-minus (suc x) (suc k) = ground arith

eqb-minus : (k x : ℕ) → eqb_ℤ (minus k) (minus x) ≡ (k == x)
eqb-minus zero zero = ground arith
eqb-minus zero (suc x) = ground arith
eqb-minus (suc k) zero = ground arith
eqb-minus (suc k) (suc x) = ground arith

-- The test of the code, on magnitudes.
abbrev fits_below : ℤ → ℕ → ℤ → ℕ → Bool
fits_below max b n d =
    ltb_ℤ (quot max b) n || (eqb_ℤ n (quot max b) && leb_ℤ (pos d) (rem max b *ℤ negsuc 0))

fits_below-minus :
    (a b k d : ℕ)
    → fits_below (minus a) b (minus k) d ≡ (ltb k (a / b) || (k == a / b && leb d (a % b)))
fits_below-minus a b k d =
    rw
      (
        quot-minus a b,
        rem-minus a b,
        minus-negate (a % b),
        ltb-minus (a / b) k,
        eqb-minus k (a / b),
      )
      (ground arith)

module _ (signed : Bool) (m : Mem) (a base : ℕ) (pb : 0 < base) where
  read_neg_loop-run :
      (fuel k s : ℕ) (ds : List ℕ)
      → k ≤ a
      → DigitRun signed m base s ds
      → length ds < fuel
      → read_neg_loop fuel signed m (minus a) base (minus k) s
        ≡ ok (
            if leb (value_from base k ds) a
            then reading (minus (value_from base k ds)) (s + length ds) false
            else reading (minus a) (s + length ds) true)
  unfolding read_neg_loop value_from
  read_neg_loop-run zero k s ds le h lt = absurd (omega arith)
  read_neg_loop-run (suc fuel) k s [] le (c, e, t) lt = rw (load-ok m s e) (ground (arith, t))
  read_neg_loop-run (suc fuel) k s (d ∷ ds) le ((c, e, t), h) lt =
      let db = to_base_n-lt base (char_value signed c) d t in
      let skip = skip_digits-run signed m fuel base (s + 1) ds h (omega arith) in
      elim (Bool-cases (ltb k (a / base) || (k == a / base && leb d (a % base)))) [
        | inl y ↦
            let le' = fits a base k d pb db (ground arith) in
            let rec = read_neg_loop-run fuel (k * base + d) (s + 1) ds le' h (omega arith) in
            let v : s + 1 + length ds ≡ s + suc (length ds) = omega arith in
            rw (load-ok m s e, t, fits_below-minus a base k d, y, minus-step k base d, rec, v) refl
        | inr y ↦
            let gt = exceeds a base k d pb (λ p. ground arith) (λ p. ground arith) in
            let ge = value_from-ge base (k * base + d) ds pb in
            rw (load-ok m s e, t, fits_below-minus a base k d, y, skip) (ground (arith, gt, ge))
      ]

-- read_neg_int on a run of digits, with fuel for them, gives the negative of the number that the
-- digits stand for if that is not below the limit, and otherwise the limit and the overflow flag.
-- Either way it ends behind the last digit.
pub read_neg_int-run :
    (signed : Bool) (m : Mem) (a base fuel s : ℕ) (ds : List ℕ)
    → 0 < base
    → DigitRun signed m base s ds
    → length ds < fuel
    → read_neg_int fuel signed m (minus a) base s
      ≡ ok (
          if leb (value_from base 0 ds) a
          then reading (minus (value_from base 0 ds)) (s + length ds) false
          else reading (minus a) (s + length ds) true)
unfolding read_neg_int
read_neg_int-run signed m a base fuel s ds pb h lt =
    read_neg_loop-run signed m a base pb fuel 0 s ds (omega arith) h lt
