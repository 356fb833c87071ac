-- ===== src/Tests/Lines.antt =====
-- src/stdio.c: a line from a source that is a list of bytes.
use libdeepc.Base.{ℕ, ◌≡◌, refl, false, List, [], ◌∷◌, arith, length, drop, ℤ, pos}
use libdeepc.Memory.{Mem}
use libdeepc.File.{File}
use libdeepc.Stdio.{fgets}
use libdeepc.Stdio.Source.{ReadsFrom}
use libdeepc.Stdio.Line.{line, ReadsLine, fgets-line}
use libdeepc.Tests.Image.{image}

abbrev from_list : List ℕ → ℤ → ℕ → ℤ × (List ℕ × List ℕ)
from_list [] fd n = (pos 0, ([], []))
from_list (b ∷ bs) fd n = (pos 1, (b ∷ [], bs))

abbrev Rest : List ℕ → List ℕ → Type 0
Rest k bs = k ≡ bs

from_list-ReadsFrom : ReadsFrom from_list Rest
from_list-ReadsFrom = record {
  more = λ k fd b bs e. (bs, rw e refl, refl);
  over = λ k fd e. ([], rw e refl, refl);
}

abbrev stdin : File
stdin = record {
  fd = pos 0;
  eof = false;
  err = pos 0;
  fpos = 0;
  ungetc_buf_size = 0;
  ungetc_buf = 0;
}

abbrev input : List ℕ
input = b'h' ∷ b'i' ∷ b'\n' ∷ b'x' ∷ []

abbrev free : Mem
free = image []

fgets-line_example :
    ReadsLine from_list Rest from_list-ReadsFrom
      (fgets from_list 9 free 1 (pos 8) stdin input)
      free
      1
      (line 7 input)
      (drop (length (line 7 input)) input)
fgets-line_example =
    fgets-line from_list Rest from_list-ReadsFrom 9 7 free 1 stdin input input (refl, refl) refl
      (omega arith, (omega arith, (omega arith, (omega arith, tt)))) (λ i lt. ground arith)
      (omega arith)
