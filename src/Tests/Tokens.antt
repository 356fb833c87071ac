-- ===== src/Tests/Tokens.antt =====
-- src/string.c: the string ",a,b" at 1, and the delimiters "," at 6.
use libdeepc.Base.{ℕ, ◌≡◌, refl, ◌≢◌, ◌⊎◌, true, some, List, [], ◌∷◌, ◌++◌, arith, ok}
use libdeepc.Memory.{Mem, Addr, null}
use libdeepc.Memory.Text.{CString}
use libdeepc.Str.Scan.Span.{mem_byte, take_while}
use libdeepc.Str.Token.{strtok_r}
use libdeepc.Str.Token.Split.{behind, token_of, left_of, strtok_r-token}
use libdeepc.Str.Substring.{strstr}
use libdeepc.Str.Substring.First.{first_index, starts_with, strstr-first_index}
use libdeepc.Tests.Image.{image}

abbrev listed : List ℕ
listed = b',' ∷ b'a' ∷ b',' ∷ b'b' ∷ []

abbrev paper : Mem
paper = image (listed ++ 0 ∷ b',' ∷ 0 ∷ [])

-- The first token is "a" at 2, and the next call starts at 4.
strtok_r-token_example :
    ((behind (b',' ∷ []) listed ≡ []) × (strtok_r 9 paper 1 6 null ≡ ok (null, (paper, null))))
    ⊎ ((behind (b',' ∷ []) listed ≢ [])
        × (m' : Mem) × (state' : Addr) × (strtok_r 9 paper 1 6 null ≡ ok (2, (m', state')))
        × CString m' 2 (b'a' ∷ [])
        × CString m' state' (b'b' ∷ [])
        × ((a : Addr) → a ≢ 3 → m' a ≡ paper a))
unfolding behind token_of left_of mem_byte take_while
strtok_r-token_example =
    strtok_r-token 9 paper 1 6 null listed (b',' ∷ [])
      (
        refl,
        (λ e. omega arith),
        (refl, (λ e. omega arith), (refl, (λ e. omega arith), (refl, (λ e. omega arith), refl))),
      )
      (refl, (λ e. omega arith), refl) (omega arith) (omega arith)

-- The string ",b" stands at 6.
abbrev tail_there : Mem
tail_there = image (listed ++ 0 ∷ b',' ∷ b'b' ∷ 0 ∷ [])

strstr-first_index_example : strstr 9 true tail_there 1 6 ≡ ok (some 3)
unfolding first_index starts_with
strstr-first_index_example =
    strstr-first_index 9 true tail_there 1 6 listed (b',' ∷ b'b' ∷ [])
      (
        refl,
        (λ e. omega arith),
        (refl, (λ e. omega arith), (refl, (λ e. omega arith), (refl, (λ e. omega arith), refl))),
      )
      (refl, (λ e. omega arith), (refl, (λ e. omega arith), refl)) (omega arith) (omega arith)
