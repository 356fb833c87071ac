-- ===== src/Atoi/Run.antt =====
-- src/atoi.c: runs of digits and of white space in memory, and the numbers that digits stand for.
use libdeepc.Base.{
  ℕ, zero, suc, ◌+◌, ◌*◌, ◌≤◌, ◌<◌, ◌≡◌, ap, ◌∙◌, Bool, true, false, none, some, List, [], ◌∷◌,
  arith, length, ℤ, ok,
}
use libdeepc.Memory.{Mem, Addr}
use libdeepc.Memory.Block.{load-ok}
use libdeepc.Str.Block.{char_value}
use libdeepc.Ctype.{isspace, isdigit}
use libdeepc.Atoi.{to_base_n, skip_digits, skip_space}

module _ (signed : Bool) (m : Mem) where
  -- From `s` on stand characters that are digits in the base, of the values `ds`, and then one that
  -- is not a digit.
  abbrev pub DigitRun : ℕ → Addr → List ℕ → Type 0
  DigitRun base s [] = (c : ℕ) × (m s ≡ some c) × (to_base_n base (char_value signed c) ≡ none)
  DigitRun base s (d ∷ ds) =
      ((c : ℕ) × (m s ≡ some c) × (to_base_n base (char_value signed c) ≡ some d))
      × DigitRun base (s + 1) ds

  -- From `s` on stand `n` characters of white space, and then one that is not.
  abbrev pub SpaceRun : Addr → ℕ → Type 0
  SpaceRun s zero = (c : ℕ) × (m s ≡ some c) × (isspace (char_value signed c) ≡ false)
  SpaceRun s (suc n) =
      ((c : ℕ) × (m s ≡ some c) × (isspace (char_value signed c) ≡ true)) × SpaceRun (s + 1) n

  pub skip_digits-run :
      (fuel base s : ℕ) (ds : List ℕ)
      → DigitRun base s ds
      → length ds < fuel
      → skip_digits fuel signed m base s ≡ ok (s + length ds)
  unfolding skip_digits
  skip_digits-run zero base s ds h lt = absurd (omega arith)
  skip_digits-run (suc fuel) base s [] (c, e, t) lt = rw (load-ok m s e, t) (ap ok (omega arith))
  skip_digits-run (suc fuel) base s (d ∷ ds) ((c, e, t), h) lt =
      rw (load-ok m s e, t)
        (skip_digits-run fuel base (s + 1) ds h (omega arith) ∙ ap ok (omega arith))

  pub skip_space-run :
      (fuel s n : ℕ) → SpaceRun s n → n < fuel → skip_space fuel signed m s ≡ ok (s + n)
  unfolding skip_space
  skip_space-run zero s n h lt = absurd (omega arith)
  skip_space-run (suc fuel) s zero (c, e, t) lt = rw (load-ok m s e, t) (ap ok (omega arith))
  skip_space-run (suc fuel) s (suc n) ((c, e, t), h) lt =
      rw (load-ok m s e, t) (skip_space-run fuel (s + 1) n h (omega arith) ∙ ap ok (omega arith))

-- The number that the digits stand for, with `n` in front of them.
unfoldable pub value_from : ℕ → ℕ → List ℕ → ℕ
value_from base n [] = n
value_from base n (d ∷ ds) = value_from base (n * base + d) ds

pub value_from-ge : (base n : ℕ) (ds : List ℕ) → 0 < base → n ≤ value_from base n ds
unfolding value_from
value_from-ge base n [] h = omega arith
value_from-ge base n (d ∷ ds) h = grind (arith, value_from-ge base (n * base + d) ds h)

-- A digit is below its base.
pub to_base_n-lt : (base : ℕ) (c : ℤ) (d : ℕ) → to_base_n base c ≡ some d → d < base
unfolding to_base_n isdigit
to_base_n-lt base c d h = ground arith
