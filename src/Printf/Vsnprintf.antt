-- ===== src/Printf/Vsnprintf.antt =====
-- src/printf.c: vsnprintf, the composition of vprintf_shared with the writer of a buffer.
use libdeepc.Base.{
  ℕ, suc, ◌+◌, ◌^◌, ◌≤◌, ◌<◌, ◌≡◌, refl, ap, ◌⊎◌, Bool, true, false, not, ◌||◌, List, [], ◌∷◌, ◌++◌,
  arith, ltb, leb, length, take, ℤ, pos, Res, ok, ◌>>=◌,
}
use libdeepc.Memory.{Mem, Addr, IsMapped}
use libdeepc.Memory.Block.{IsMapped-less}
use libdeepc.Memory.Bytes.{put_bytes, put_bytes-outside, length-take}
use libdeepc.Printf.Buffer.{Info, str_writer, start_info, end_buffer}
use libdeepc.Printf.Buffer.Truncates.{Buffered, write_str-Buffered, start-Buffered, end-stored}
use libdeepc.Printf.Spec.{Arg}
use libdeepc.Printf.Convert.{Output, narrow, narrow-small}
use libdeepc.Printf.Shared.{vprintf_shared}
use libdeepc.Printf.Shared.Pieces.{
  Piece, format_text, format_bytes, format_args, Within, ArePieces, Prints,
}
use libdeepc.Printf.Shared.Format.{vprintf_shared-format}

-- An error of the parser is `rc = ERR`, the only way in which this writer stops.
abbrev pub str_output : Output str_writer
str_output = record {
  memory = λ i. i.mem;
  set_memory = λ i m. record i { mem = m };
  written = λ i. i.written;
  fail = λ i e. record i { is_ok = false };
  is_err = λ i. not i.is_ok;
}

unfoldable pub vsnprintf : ℕ → Bool → Mem → Addr → ℕ → Addr → List Arg → Res (ℤ × Mem)
vsnprintf fuel signed m buffer buf_size format args = do
  (ret, info) ←
      vprintf_shared str_writer str_output fuel signed (start_info m buffer buf_size) format args
  m' ← end_buffer info buffer buf_size
  ok (ret, m')

-- The memory but for the `n` bytes at `p`.
abbrev pub outside : Addr → ℕ → Addr → Bool
outside p n a = ltb a p || leb (p + n) a

module _ (m : Mem) (buffer : Addr) (n : ℕ) (mapped : IsMapped m buffer (suc n)) where
  same_outside :
      (i : Info) (out : List ℕ) (a : Addr)
      → Buffered m buffer n i out
      → outside buffer (suc n) a ≡ true
      → i.mem a ≡ m a
  same_outside i out a h away =
      let size = length-take n out in
      let apart : (a < buffer) ⊎ (buffer + length (take n out) ≤ a) = ground (arith, away, size) in
      rw h.memory (put_bytes-outside (take n out) m buffer a apart)

  buffer-Prints : Prints str_writer str_output (Buffered m buffer n) m (outside buffer (suc n))
  buffer-Prints = record {
    appends = record {
      write = λ i out bs g o.
          write_str-Buffered m buffer n i out bs (IsMapped-less m buffer n mapped) g o;
    };
    count = λ i out h. h.count;
    fine = λ i e. ap not e;
    same = same_outside;
  }

  -- As below, with the length as an int.
  pub vsnprintf-run :
      (bound : ℕ) (signed : Bool) (fuel : ℕ) (format : Addr) (ps : List Piece)
      → Within m (outside buffer (suc n)) format (format_text ps)
      → ArePieces m (outside buffer (suc n)) bound ps
      → length (format_text ps) + bound < fuel
      → vsnprintf fuel signed m buffer (suc n) format (format_args ps)
        ≡ ok (
          narrow (2 ^ 31) (pos (length (format_bytes ps))),
          put_bytes m buffer (take n (format_bytes ps) ++ 0 ∷ []),
        )
  unfolding vsnprintf
  vsnprintf-run bound signed fuel format ps h v lt =
      let (i, run, view) =
        vprintf_shared-format str_writer str_output (Buffered m buffer n) m (outside buffer (suc n))
          buffer-Prints bound signed fuel (start_info m buffer (suc n)) format ps refl
          (start-Buffered m buffer n) h v lt in
      rw (run, end-stored m buffer n i (format_bytes ps) mapped view) refl

  -- vsnprintf into a buffer of n + 1 mapped bytes, on a format that is a list of pieces, where the
  -- format and its strings stand outside the buffer, with more fuel than they have bytes, and whose
  -- output is shorter than 2 ^ 31 bytes, makes no access that is not mapped. It returns the length
  -- of the whole output, and the buffer gets the first n bytes of it and a NUL behind them.
  pub vsnprintf-format :
      (bound : ℕ) (signed : Bool) (fuel : ℕ) (format : Addr) (ps : List Piece)
      → Within m (outside buffer (suc n)) format (format_text ps)
      → ArePieces m (outside buffer (suc n)) bound ps
      → length (format_text ps) + bound < fuel
      → length (format_bytes ps) < 2 ^ 31
      → vsnprintf fuel signed m buffer (suc n) format (format_args ps)
        ≡ ok (
          pos (length (format_bytes ps)),
          put_bytes m buffer (take n (format_bytes ps) ++ 0 ∷ []),
        )
  vsnprintf-format bound signed fuel format ps h v lt short =
      rw (← narrow-small (2 ^ 31) (length (format_bytes ps)) short)
        (vsnprintf-run bound signed fuel format ps h v lt)
