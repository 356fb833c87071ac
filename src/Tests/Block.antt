-- ===== src/Tests/Block.antt =====
-- src/string.c on concrete blocks, and src/ctype.c on characters.
use libdeepc.Base.{
  ℕ, ◌≡◌, refl, ◌||◌, Option, none, some, [], ◌∷◌, arith, if◌then◌else◌, pos, eqb_ℤ, Res, ok, fault,
  out_of_fuel,
}
use libdeepc.Memory.{Mem, write, load, store}
use libdeepc.Memory.Block.{blit}
use libdeepc.Str.Block.{memset, memcpy, copy_down, memmove, memset_loop}
use libdeepc.Str.Block.Copy.{memmove-blit}
use libdeepc.Ctype.{iscntrl, isprint, isgraph, ispunct, isalpha, isdigit, isalnum, isascii}
use libdeepc.Ctype.Classes.{count_true, classes_partition}
use libdeepc.Tests.Image.{image}

abbrev bytes : Mem
bytes = image (1 ∷ 2 ∷ 3 ∷ 4 ∷ 5 ∷ 200 ∷ [])

abbrev peek : Res Mem → ℕ → Option ℕ
peek (ok m) a = m a
peek fault a = none
peek out_of_fuel a = none

-- An overlapping move to the right, where a forward copy would repeat the first two bytes.
moved_right : peek (memmove bytes 3 1 3) 5 ≡ some 3
unfolding memmove memcpy copy_down load store write
moved_right = refl

past_the_end : memset bytes 62 (pos 7) 3 ≡ fault
unfolding memset memset_loop store write
past_the_end = refl

memmove-blit_example : memmove bytes 3 1 3 ≡ ok (blit bytes 3 1 3)
memmove-blit_example = memmove-blit bytes 3 1 3 (λ i lt. ground arith) (λ i lt. ground arith)

classes_partition_example :
    (count_true (
        iscntrl (pos 59)
        ∷ eqb_ℤ (pos 59) (pos 32)
        ∷ isalpha (pos 59)
        ∷ isdigit (pos 59)
        ∷ ispunct (pos 59)
        ∷ [])
      ≡ (if isascii (pos 59) then 1 else 0))
    × (isprint (pos 59) ≡ (eqb_ℤ (pos 59) (pos 32) || isalnum (pos 59) || ispunct (pos 59)))
    × (isgraph (pos 59) ≡ (isalnum (pos 59) || ispunct (pos 59)))
classes_partition_example = classes_partition (pos 59)
