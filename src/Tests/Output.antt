-- ===== src/Tests/Output.antt =====
-- src/printf.c: the field of a negative number, through a writer that keeps the bytes.
use libdeepc.Printf.Buffer.Truncates.{vsnprintf_int-truncates}
use libdeepc.Atoi.Run.{value_from}
use libdeepc.Base.{
  ℕ, ◌≡◌, refl, ap, true, false, List, [], ◌∷◌, ◌++◌, arith, length, take, negsuc, ok,
}
use libdeepc.Printf.{conv_d, VprintSpec, number_bytes, num_precision, Writer, vprintf_output_int}
use libdeepc.Printf.Digits.{ReadAs, number_bytes-ReadAs}
use libdeepc.Memory.{Mem}
use libdeepc.Memory.Bytes.{put_bytes}
use libdeepc.Printf.Buffer.{Info, str_writer, start_info, end_buffer}
use libdeepc.Tests.Image.{image}
use libdeepc.Printf.Integer.{Appends, vprintf_output_int-format}
use libdeepc.Printf.Field.{format_int}

number_bytes-ReadAs_example :
    (ds : List ℕ) × ReadAs true 10 (number_bytes conv_d (negsuc 41)) ds
    × (value_from 10 0 ds ≡ 42)
    × (length (number_bytes conv_d (negsuc 41)) ≡ num_precision conv_d (negsuc 41))
number_bytes-ReadAs_example = number_bytes-ReadAs true conv_d (negsuc 41)

abbrev keeps : Writer
keeps = record { State = List ℕ; is_ok = λ out. true; write_fn = λ out bs. ok (out ++ bs) }

abbrev Kept : List ℕ → List ℕ → Type 0
Kept i out = i ≡ out

keeps-Appends : Appends keeps Kept
keeps-Appends = record { write = λ i out bs g o. (i ++ bs, refl, refl, ap (λ t. t ++ bs) o) }

-- "%06d"
abbrev zeros : VprintSpec
zeros = record {
  flag_minus = false;
  flag_plus = false;
  flag_space = false;
  flag_zero = true;
  flag_number = false;
  width_set = true;
  width = 6;
  precision_set = false;
  precision = 0;
  conv = conv_d;
}

vprintf_output_int-format_example :
    (i' : List ℕ) × (vprintf_output_int keeps [] zeros (negsuc 41) ≡ ok i')
    × (true ≡ true)
    × (i' ≡ format_int zeros (negsuc 41))
vprintf_output_int-format_example =
    vprintf_output_int-format keeps Kept keeps-Appends [] [] zeros (negsuc 41) refl refl

abbrev screen : Mem
screen = image []

-- "-00042" cut to three bytes.
vsnprintf_int-truncates_example :
    (i : Info) × (vprintf_output_int str_writer (start_info screen 1 4) zeros (negsuc 41) ≡ ok i)
    × (i.is_ok ≡ true)
    × (i.written ≡ length (format_int zeros (negsuc 41)))
    × (end_buffer i 1 4 ≡ ok (put_bytes screen 1 (take 3 (format_int zeros (negsuc 41)) ++ 0 ∷ [])))
vsnprintf_int-truncates_example =
    vsnprintf_int-truncates screen 1 3 zeros (negsuc 41) (λ i lt. ground arith)
