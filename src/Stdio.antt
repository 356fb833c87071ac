-- ===== src/Stdio.antt =====
-- src/stdio.c: reading and writing a stream over the kernel. The read and write of the kernel are
-- arguments: from a state of the kernel, a descriptor and a size (and the bytes to write), the result
-- (and the bytes that were read) and the next state. size_t values are numbers below 2 ^ 64.
pub mod Source
pub mod Line
use libdeepc.Base.{
  ℕ, zero, suc, ◌+◌, ◌-◌, ◌*◌, ◌/◌, ◌%◌, ◌^◌, ◌≤◌, ◌<◌, ◌≡◌, refl, sym, ap, ◌∙◌, fun_ext, subst,
  ◌≢◌, ◌↔◌, ◌⊎◌, inl, inr, Bool, true, false, not, ◌&&◌, ◌||◌, Option, none, some, List, [], ◌∷◌,
  ◌++◌, map, arith, dec_lt, dec_le, ℕ_discrete, ltb, leb, ◌==◌, if◌then◌else◌, ltb→lt, lt→ltb,
  ==_iff, ==_refl, Bool-cases, Option-cases, length, get_elem?, set, replicate, take, drop, All,
  length-append, length-set, length-replicate, get_elem?-set_self, get_elem?-set_ne, get_elem?-lt,
  ℤ, pos, negsuc, pos_part, neg_part, sub_ℕ, minus, ◌+ℤ◌, ◌-ℤ◌, ◌*ℤ◌, ◌≤ℤ◌, leb_ℤ, ltb_ℤ, eqb_ℤ,
  Res, ok, fault, out_of_fuel, ◌>>=◌, on_option, lt_wf,
}
use libdeepc.Memory.{Mem, Addr, store}
use libdeepc.Str.Block.{to_uchar}
use libdeepc.File.{File}

-- EOF as a size_t.
abbrev pub eof_size : ℕ
eof_size = 2 ^ 64 - 1

-- `stream->eof || stream->err`
abbrev pub is_stopped : File → Bool
is_stopped stream = stream.eof || not (eqb_ℤ stream.err (pos 0))

-- What a result of read or write that is not positive does to the stream.
abbrev pub stopped_by : File → ℤ → File
stopped_by stream s =
    if eqb_ℤ s (pos 0) then record stream { eof = true } else record stream { err = pos 0 -ℤ s }

-- The first byte of a buffer of one byte.
abbrev pub first_byte : List ℕ → ℕ
first_byte [] = 0
first_byte (b ∷ bs) = b

unfoldable pub feof : File → Bool
feof stream = stream.eof

unfoldable pub ferror : File → ℤ
ferror stream = stream.err

unfoldable pub clearerr : File → File
clearerr stream = record stream { eof = false; err = pos 0 }

module _ {K : Type 0} (read : K → ℤ → ℕ → ℤ × (List ℕ × K)) where
  -- fread: its result, the bytes in the buffer, and the stream and the kernel behind it.
  unfoldable pub fread : K → File → (size count : ℕ) → ℕ × (List ℕ × (File × K))
  fread k stream size count =
      let (s, (bs, k')) = read k stream.fd (size * count % 2 ^ 64) in
      if is_stopped stream
      then (eof_size, ([], (stream, k)))
      else if size == 0 || count == 0
      then (0, ([], (stream, k)))
      else if leb_ℤ s (pos 0)
      then (0, (bs, (stopped_by stream s, k')))
      else (count, (bs, (stream, k')))

  unfoldable pub fgetc : K → File → ℤ × (File × K)
  fgetc k stream =
      let (r, (bs, (stream', k'))) = fread k stream 1 1 in
      (if r == 1 then pos (first_byte bs) else negsuc 0, (stream', k'))

  -- `*i = '\0'`, and then the result: the string or NULL.
  abbrev pub end_string : Mem → Addr → Bool → File → K → Res (Bool × (Mem × (File × K)))
  end_string m i r stream k = do m' ← store m i 0; ok (r, (m', (stream, k)))

  -- The loop of fgets, from the position `i`.
  unfoldable pub fgets_loop :
      ℕ → Mem → (str str_end i : Addr) → File → K → Res (Bool × (Mem × (File × K)))
  fgets_loop zero m str str_end i stream k = out_of_fuel
  fgets_loop (suc fuel) m str str_end i stream k =
      let (c, (stream', k')) = fgetc k stream in
      let stored = (do
        m' ← store m i (to_uchar c)
        let rest = fgets_loop fuel m' str str_end (i + 1) stream' k'
        if eqb_ℤ c (pos b'\n') then end_string m' (i + 1) true stream' k' else rest) in
      if i == str_end
      then end_string m i true stream k
      else if not (eqb_ℤ (ferror stream') (pos 0))
      then end_string m str false stream' k'
      else if eqb_ℤ c (negsuc 0)
      then end_string m i true stream' k'
      else stored

  unfoldable pub fgets : ℕ → Mem → Addr → ℤ → File → K → Res (Bool × (Mem × (File × K)))
  fgets fuel m str count stream k =
      if ltb_ℤ count (pos 0)
      then ok (true, (m, (stream, k)))
      else if not (eqb_ℤ (ferror stream) (pos 0))
      then end_string m str false stream k
      else if feof stream
      then end_string m str true stream k
      else fgets_loop fuel m str (str + pos_part count - 1) str stream k

module _ {K : Type 0} (write : K → ℤ → List ℕ → ℤ × K) where
  -- fwrite of the elements that the bytes hold.
  unfoldable pub fwrite : K → File → List ℕ → (size count : ℕ) → ℕ × (File × K)
  fwrite k stream buffer size count =
      let (s, k') = write k stream.fd (take (size * count % 2 ^ 64) buffer) in
      if is_stopped stream || (size == 0 || count == 0)
      then (0, (stream, k))
      else if leb_ℤ s (pos 0)
      then (0, (stopped_by stream s, k'))
      else (count, (stream, k'))

  unfoldable pub fputc : K → File → ℤ → ℤ × (File × K)
  fputc k stream ch =
      let c = to_uchar ch in
      let (r, (stream', k')) = fwrite k stream (c ∷ []) 1 1 in
      (if r == 1 then pos c else negsuc 0, (stream', k'))
