-- ===== src/Atoi/Pos.antt =====
-- src/atoi.c: read_pos_int reads a run of digits and stops at the largest value.
use native.Mathlib.Nat.{div-add-mod, mod-lt, mod-eq_of_lt}
use libdeepc.Base.{
  ℕ, zero, suc, ◌+◌, ◌*◌, ◌/◌, ◌%◌, ◌^◌, ◌≤◌, ◌<◌, ◌≡◌, refl, ◌⊎◌, inl, inr, Bool, true, false,
  ◌&&◌, ◌||◌, List, [], ◌∷◌, arith, ltb, leb, ◌==◌, if◌then◌else◌, Bool-cases, length, ok,
}
use libdeepc.Memory.{Mem}
use libdeepc.Memory.Block.{load-ok}
use libdeepc.Str.Block.{char_value}
use libdeepc.Atoi.{read_pos_loop, read_pos_int, reading}
use libdeepc.Atoi.Run.{DigitRun, skip_digits-run, value_from, value_from-ge, to_base_n-lt}

-- One more digit fits exactly when the test of the code says so.
pub fits :
    (max base n d : ℕ)
    → 0 < base
    → d < base
    → (n < max / base) ⊎ ((n ≡ max / base) × (d ≤ max % base))
    → n * base + d ≤ max
fits max base n d pb lt (inl h) = grind (arith, div-add-mod max base)
fits max base n d pb lt (inr h) = grind (arith, div-add-mod max base)

pub exceeds :
    (max base n d : ℕ)
    → 0 < base
    → ¬ (n < max / base)
    → ¬ ((n ≡ max / base) × (d ≤ max % base))
    → max < n * base + d
exceeds max base n d pb h k = grind (arith, div-add-mod max base, mod-lt max pb)

module _ (signed : Bool) (m : Mem) (max base : ℕ) (pb : 0 < base) (word : max < 2 ^ 64) where
  -- read_pos_loop from a value within the limit
  read_pos_loop-run :
      (fuel n s : ℕ) (ds : List ℕ)
      → n ≤ max
      → DigitRun signed m base s ds
      → length ds < fuel
      → read_pos_loop fuel signed m max base n s
        ≡ ok (
            if leb (value_from base n ds) max
            then reading (value_from base n ds) (s + length ds) false
            else reading max (s + length ds) true)
  unfolding read_pos_loop value_from
  read_pos_loop-run zero n s ds le h lt = absurd (omega arith)
  read_pos_loop-run (suc fuel) n s [] le (c, e, t) lt = rw (load-ok m s e) (ground (arith, t))
  read_pos_loop-run (suc fuel) n s (d ∷ ds) le ((c, e, t), h) lt =
      let db = to_base_n-lt base (char_value signed c) d t in
      let skip = skip_digits-run signed m fuel base (s + 1) ds h (omega arith) in
      elim (Bool-cases (ltb n (max / base) || (n == max / base && leb d (max % base)))) [
        | inl y ↦
            let le' = fits max base n d pb db (ground arith) in
            let q : (n * base + d) % 2 ^ 64 ≡ n * base + d = mod-eq_of_lt (omega arith) in
            let rec = read_pos_loop-run fuel (n * base + d) (s + 1) ds le' h (omega arith) in
            let v : s + 1 + length ds ≡ s + suc (length ds) = omega arith in
            rw (load-ok m s e, t, y, q, rec, v) refl
        | inr y ↦
            let gt = exceeds max base n d pb (λ a. ground arith) (λ a. ground arith) in
            let ge = value_from-ge base (n * base + d) ds pb in
            rw (load-ok m s e, t, y, skip) (ground (arith, gt, ge))
      ]

-- read_pos_int on a run of digits, with fuel for them and a limit below 2 ^ 64, never wraps: it gives
-- the number that the digits stand for if that is within the limit, and otherwise the limit and the
-- overflow flag. Either way it ends behind the last digit.
pub read_pos_int-run :
    (signed : Bool) (m : Mem) (max base fuel s : ℕ) (ds : List ℕ)
    → 0 < base
    → max < 2 ^ 64
    → DigitRun signed m base s ds
    → length ds < fuel
    → read_pos_int fuel signed m max base s
      ≡ ok (
          if leb (value_from base 0 ds) max
          then reading (value_from base 0 ds) (s + length ds) false
          else reading max (s + length ds) true)
unfolding read_pos_int
read_pos_int-run signed m max base fuel s ds pb word h lt =
    read_pos_loop-run signed m max base pb word fuel 0 s ds (omega arith) h lt
