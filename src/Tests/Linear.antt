-- ===== src/Tests/Linear.antt =====
-- src/search.c: lfind and lsearch on one-byte elements, compared by their bytes.
use libdeepc.Base.{
  ℕ, ◌+◌, ◌≡◌, refl, Option, none, some, [], ◌∷◌, arith, ◌==◌, if◌then◌else◌, pos, ok,
}
use libdeepc.Memory.{Mem, Addr}
use libdeepc.Memory.Block.{blit}
use libdeepc.Search.Linear.{Compar, lfind, lsearch}
use libdeepc.Search.Linear.Found.{ComparesBytes, SameBytes, lsearch_absent}
use libdeepc.Tests.Image.{image}

abbrev byte_at : Option ℕ → ℕ
byte_at none = 0
byte_at (some b) = b

abbrev by_byte : Compar
by_byte m key it = if byte_at (m key) == byte_at (m it) then pos 0 else pos 1

abbrev table : Mem
table = image (7 ∷ 0 ∷ 3 ∷ 5 ∷ [])

at_zero : (m k : Mem) (p q : Addr) → SameBytes m p k q 1 → k q ≡ m p
at_zero m k p q h =
    let e : p + 0 ≡ p = omega arith in
    let f : q + 0 ≡ q = omega arith in let s = h 0 (omega arith) in rw (← e, ← f) s

by_byte-ComparesBytes : ComparesBytes by_byte 1
by_byte-ComparesBytes = record {
  depends = λ m k key it a b. rw (at_zero m k key key a, at_zero m k it it b) refl;
  reflexive = λ m key it a. rw (at_zero m m key it a) (ground arith);
}

absent : lfind by_byte table 1 3 2 1 ≡ none
unfolding lfind
absent = refl

lsearch_absent_example :
    (lsearch by_byte table 1 3 2 1 ≡ ok (blit table 5 1 1, 3, 5))
    × (lfind by_byte (blit table 5 1 1) 1 3 3 1 ≡ some 5)
lsearch_absent_example =
    lsearch_absent by_byte 1 by_byte-ComparesBytes table 1 3 2 absent (λ i lt. ground arith)
      (λ i lt. ground arith) (omega arith)
