-- ===== src/Ctype/Classes.antt =====
-- src/ctype.c: how the character classes relate, on every `int`.
use libdeepc.Base.{
  ℕ, suc, ◌≡◌, Bool, true, false, ◌||◌, List, [], ◌∷◌, arith, if◌then◌else◌, ℤ, pos, eqb_ℤ,
}
use libdeepc.Ctype.{
  iscntrl, isprint, isgraph, ispunct, islower, isupper, isalpha, isdigit, isalnum, tolower, toupper,
  isascii, toascii,
}

-- How many of the tests pass.
abbrev pub count_true : List Bool → ℕ
count_true [] = 0
count_true (true ∷ bs) = suc (count_true bs)
count_true (false ∷ bs) = count_true bs

-- Every int in the ASCII range is exactly one of control character, space, letter, digit and
-- punctuation mark, and no other int is any of them; the printing characters are the last four.
pub classes_partition :
    (ch : ℤ)
    → (count_true (iscntrl ch ∷ eqb_ℤ ch (pos 32) ∷ isalpha ch ∷ isdigit ch ∷ ispunct ch ∷ [])
        ≡ (if isascii ch then 1 else 0))
      × (isprint ch ≡ (eqb_ℤ ch (pos 32) || isalnum ch || ispunct ch))
      × (isgraph ch ≡ (isalnum ch || ispunct ch))
unfolding iscntrl isalpha isdigit ispunct isascii isprint isalnum isgraph
classes_partition ch = ground arith

-- tolower and toupper change exactly the upper and the lower case letters, each into a letter of the
-- other case that the other function changes back, and leave every other int alone.
pub case_change :
    (ch : ℤ)
    → ((isupper ch ≡ true) → (islower (tolower ch) ≡ true) × (toupper (tolower ch) ≡ ch))
      × ((islower ch ≡ true) → (isupper (toupper ch) ≡ true) × (tolower (toupper ch) ≡ ch))
      × ((isupper ch ≡ false) → tolower ch ≡ ch)
      × ((islower ch ≡ false) → toupper ch ≡ ch)
unfolding isupper islower tolower toupper
case_change ch = ground arith

-- toascii gives an ASCII character, and leaves those that are one.
pub toascii-isascii :
    (ch : ℤ) → (isascii (toascii ch) ≡ true) × ((isascii ch ≡ true) → toascii ch ≡ ch)
unfolding isascii toascii
toascii-isascii ch = ground arith
