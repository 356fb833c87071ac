-- ===== src/Tests/Text.antt =====
-- src/string.c on concrete strings: "abc" stands at 1, "b" at 5, and the bytes from 7 on are free.
use libdeepc.Base.{ℕ, ◌≡◌, refl, true, some, List, [], ◌∷◌, ◌++◌, arith, take, ℤ, ok, out_of_fuel}
use libdeepc.Memory.{Mem, load}
use libdeepc.Memory.Text.{CString, terminated}
use libdeepc.Str.Scan.{strlen, strlen_loop, strcspn, strpbrk, strcspn_loop, strcspn_inner}
use libdeepc.Str.Scan.Find.{strlen-length}
use libdeepc.Str.Compare.{strcmp}
use libdeepc.Str.Compare.Sign.{Compared, strcmp-Compared}
use libdeepc.Str.Copy.{strcat, strncat}
use libdeepc.Str.Copy.Append.{SameOutside, strcat-append, strncat-append}
use libdeepc.Tests.Image.{image}

abbrev abc : List ℕ
abc = b'a' ∷ b'b' ∷ b'c' ∷ []

abbrev just_b : List ℕ
just_b = b'b' ∷ []

abbrev texts : Mem
texts = image (b'a' ∷ b'b' ∷ b'c' ∷ 0 ∷ b'b' ∷ 0 ∷ [])

-- "b" behind the free room, so that strings can grow at 1.
abbrev growing : Mem
growing = image (b'a' ∷ b'b' ∷ b'c' ∷ 0 ∷ 0 ∷ 0 ∷ 0 ∷ 0 ∷ 0 ∷ b'b' ∷ 0 ∷ [])

abc_there : CString texts 1 abc
abc_there = (refl, omega arith, (refl, omega arith, (refl, omega arith, refl)))

b_there : CString texts 5 just_b
b_there = (refl, omega arith, refl)

abc_grows : CString growing 1 abc
abc_grows = (refl, omega arith, (refl, omega arith, (refl, omega arith, refl)))

b_apart : CString growing 10 just_b
b_apart = (refl, omega arith, refl)

-- "b" is the second byte of "abc".
found : strpbrk 9 texts 1 5 ≡ ok (some 2)
unfolding strpbrk strcspn strcspn_loop strcspn_inner load
found = refl

-- The fuel runs out where there is no NUL in time.
too_long : strlen 3 texts 1 ≡ out_of_fuel
unfolding strlen strlen_loop load
too_long = refl

strlen-length_example : strlen 9 texts 1 ≡ ok 3
strlen-length_example = strlen-length 9 texts 1 abc abc_there (omega arith)

strcmp-Compared_example :
    (c : ℤ) × (strcmp 9 true texts 1 5 ≡ ok c)
    × Compared true (terminated abc) (terminated just_b) c
strcmp-Compared_example =
    strcmp-Compared 9 true texts 1 5 abc just_b abc_there b_there
      (omega arith, (omega arith, (omega arith, tt))) (omega arith, tt) (omega arith)

strcat-append_example :
    (k : Mem) × (strcat 9 growing 1 10 ≡ ok k)
    × CString k 1 (abc ++ just_b)
    × SameOutside growing k 4 2
strcat-append_example =
    strcat-append 9 growing 1 10 abc just_b abc_grows b_apart (λ i lt. ground arith) (omega arith)
      (omega arith) (omega arith) (omega arith)

strncat-append_example :
    (m' : Mem) × (strncat 9 growing 1 10 3 ≡ ok m')
    × CString m' 1 (abc ++ take 3 just_b)
    × SameOutside growing m' 4 2
strncat-append_example =
    strncat-append 9 growing 1 10 3 1 abc just_b abc_grows b_apart (omega arith)
      (λ i lt. ground arith) (omega arith) (omega arith) (omega arith)
