-- ===== src/Tests/Numbers.antt =====
-- src/atoi.c on concrete texts: " -128x" stands at 1, and "0x1fz" at 10.
use libdeepc.Base.{
  ℕ, ◌≡◌, refl, true, false, none, some, List, [], ◌∷◌, arith, leb, if◌then◌else◌, pos, negsuc,
  minus, ◌+ℤ◌, ◌-ℤ◌, ◌*ℤ◌, ok,
}
use libdeepc.Memory.{Mem, load}
use libdeepc.Ctype.{isspace, isdigit}
use libdeepc.Atoi.{
  negative, reading, skip_space, atoi_start, strto_start, to_base_n, skip_digits, read_pos_loop,
  read_pos_int, read_neg_loop, read_neg_int, atoi, strtol, strtoul, unchanged, einval, erange,
}
use libdeepc.Atoi.Run.{DigitRun, SpaceRun, value_from}
use libdeepc.Atoi.Pos.{read_pos_int-run}
use libdeepc.Atoi.Whole.{minus_sign, signed_value, out_of_range, atoi_lem, strtol-clamp}
use libdeepc.Tests.Image.{image}

program : Unit {0}
unfolding load skip_space atoi_start strto_start to_base_n skip_digits read_pos_loop read_pos_int
    read_neg_loop read_neg_int atoi strtol strtoul isspace isdigit ◌+ℤ◌ ◌-ℤ◌ ◌*ℤ◌ value_from
program = tt

abbrev texts : Mem
texts = image (
    b' ' ∷ b'-' ∷ b'1' ∷ b'2' ∷ b'8' ∷ b'x' ∷ 0 ∷ 0 ∷ 0 ∷ b'0' ∷ b'x' ∷ b'1' ∷ b'f' ∷ b'z' ∷ 0 ∷ [])

abbrev one_two_eight : List ℕ
one_two_eight = 1 ∷ 2 ∷ 8 ∷ []

smallest : atoi 20 true 127 (minus 128) texts 1 ≡ ok (negsuc 127)
unfolding program
smallest = refl

below_smallest : atoi 20 true 126 (minus 127) texts 1 ≡ ok (pos 0)
unfolding program
below_smallest = refl

hexadecimal :
    strtol 20 true 1000 (minus 1000) texts 10 (pos 0)
    ≡ ok (record { value = pos 31; str_end = some 14; errno = unchanged })
unfolding program
hexadecimal = refl

no_such_base :
    strtol 20 true 1000 (minus 1000) texts 10 (pos 37)
    ≡ ok (record { value = pos 0; str_end = none; errno = einval })
unfolding program
no_such_base = refl

digits_at_3 : DigitRun true texts 10 3 one_two_eight
unfolding program
digits_at_3 = ((b'1', refl, refl), ((b'2', refl, refl), ((b'8', refl, refl), (b'x', refl, refl))))

space_at_1 : SpaceRun true texts 1 1
unfolding program
space_at_1 = ((b' ', refl, refl), (b'-', refl, refl))

read_pos_int-run_example :
    read_pos_int 20 true texts 100 10 3
    ≡ ok (
        if leb (value_from 10 0 one_two_eight) 100
        then reading (value_from 10 0 one_two_eight) 6 false
        else reading 100 6 true)
read_pos_int-run_example =
    read_pos_int-run true texts 100 10 20 3 one_two_eight (omega arith) (omega arith) digits_at_3
      (omega arith)

atoi_lem_example :
    atoi 20 true 127 (negsuc 127) texts 1
    ≡ ok (signed_value negative 127 128 (value_from 10 0 one_two_eight) (pos 0) (pos 0))
atoi_lem_example =
    atoi_lem true texts 20 127 128 1 1 3 negative one_two_eight space_at_1
      (minus_sign refl refl refl) digits_at_3 (omega arith) (omega arith) (omega arith)

start_at_1 : strto_start 20 true texts 1 (pos 10) ≡ ok (negative, 3, 10)
unfolding program
start_at_1 = refl

strtol-clamp_example :
    strtol 20 true 99 (negsuc 99) texts 1 (pos 10)
    ≡ ok (record {
      value = signed_value negative 99 100 (value_from 10 0 one_two_eight) (pos 99) (negsuc 99);
      str_end = some 6;
      errno =
          if out_of_range negative 99 100 (value_from 10 0 one_two_eight)
          then erange
          else unchanged;
    })
strtol-clamp_example =
    strtol-clamp true texts 20 99 100 1 3 10 (pos 10) negative one_two_eight start_at_1 (cc)
      (omega arith) digits_at_3 (omega arith) (omega arith)
