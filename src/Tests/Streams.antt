-- ===== src/Tests/Streams.antt =====
-- src/file.c on the mode "w+x", which stands at 1.
use libdeepc.Base.{◌≡◌, refl, true, false, Option, some, [], ◌∷◌, arith, ok}
use libdeepc.Memory.{Mem}
use libdeepc.Memory.Text.{CString}
use libdeepc.File.{ParseMode, write_access, parse_mode}
use libdeepc.File.Mode.{Accepted, parse_mode-Accepted}
use libdeepc.Tests.Image.{image}

abbrev mode : Mem
mode = image (b'w' ∷ b'x' ∷ b'+' ∷ [])

mode_there : CString mode 1 (b'w' ∷ b'x' ∷ b'+' ∷ [])
mode_there = (refl, omega arith, (refl, omega arith, (refl, omega arith, refl)))

parse_mode-Accepted_example :
    (r : Option ParseMode) × (parse_mode 4 mode 1 true ≡ ok r)
    × ((i : ParseMode) → r ≡ some i → Accepted true (b'w' ∷ b'x' ∷ b'+' ∷ []) i)
parse_mode-Accepted_example =
    parse_mode-Accepted 4 mode 1 true (b'w' ∷ b'x' ∷ b'+' ∷ []) mode_there (omega arith)

abbrev parsed : ParseMode
parsed = record {
  flag_b = false;
  flag_e = false;
  flag_u = true;
  flag_x = true;
  plus_flag = true;
  access = write_access;
}
