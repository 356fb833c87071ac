-- ===== src/Stdio/Line.antt =====
-- src/stdio.c: the line that fgets reads.
use libdeepc.Base.{
  ℕ, zero, suc, ◌+◌, ◌-◌, ◌%◌, ◌<◌, ◌≡◌, refl, ◌∙◌, inl, inr, Bool, true, false, some, List, [],
  ◌∷◌, ◌++◌, arith, ◌==◌, if◌then◌else◌, Bool-cases, length, drop, All, ℤ, pos, ltb_ℤ, eqb_ℤ, Res,
  ok,
}
use libdeepc.Memory.{Mem, Addr, write, store, IsMapped}
use libdeepc.Memory.Block.{store-ok, write-IsMapped, IsMapped-suc, IsMapped-head}
use libdeepc.Memory.Bytes.{put_bytes}
use libdeepc.File.{File}
use libdeepc.Str.Block.{to_uchar}
use libdeepc.Stdio.{feof, ferror, fgets_loop, fgets}
use libdeepc.Stdio.Source.{
  ReadsFrom, IsOpen, fgetc-more, fgetc-over, loop_end, loop_over, loop_newline, loop_other,
  IsOpen-fine,
}

-- The bytes up to the first newline, with it, but at most `n` of them.
unfoldable pub line : ℕ → List ℕ → List ℕ
line zero input = []
line (suc n) [] = []
line (suc n) (b ∷ input) = let rest = line n input in b ∷ (if b == b'\n' then [] else rest)

module _ {K : Type 0} (read : K → ℤ → ℕ → ℤ × (List ℕ × K)) (View : K → List ℕ → Type 0)
    (law : ReadsFrom read View) where
  -- A run that reads a line into the memory.
  abbrev pub ReadsLine : Res (Bool × (Mem × (File × K))) → Mem → Addr → List ℕ → List ℕ → Type 0
  ReadsLine run m i l rest =
      (f' : File) × (k' : K) × (run ≡ ok (true, (put_bytes m i (l ++ 0 ∷ []), (f', k'))))
      × View k' rest
      × (f'.err ≡ pos 0)

  store-byte :
      (m : Mem) (i b : ℕ) {c : ℕ}
      → m i ≡ some c
      → b < 256
      → store m i (to_uchar (pos b)) ≡ ok (write m i b)
  store-byte m i b e small = let q : b % 256 ≡ b = omega arith in rw q (store-ok m i e b)

  fgets_loop-line :
      (fuel n : ℕ) (m : Mem) (str i str_end : Addr) (f : File) (k : K) (input : List ℕ)
      → i + n ≡ str_end
      → IsOpen read View law f
      → View k input
      → All (λ b. b < 256) input
      → IsMapped m i (suc n)
      → n < fuel
      → ReadsLine
          (fgets_loop read fuel m str str_end i f k)
          m
          i
          (line n input)
          (drop (length (line n input)) input)
  unfolding line put_bytes
  fgets_loop-line zero n m str i str_end f k input en op v small mapped lt = absurd (omega arith)
  fgets_loop-line (suc fuel) zero m str i str_end f k input en op v small mapped lt =
      let (c, e) = IsMapped-head m i 0 mapped in
      (
        f,
        k,
        loop_end read View law fuel m str str_end i f k (write m i 0) (ground arith)
            (store-ok m i e 0),
        v,
        op.1,
      )
  fgets_loop-line (suc fuel) (suc n) m str i str_end f k [] en op v small mapped lt =
      let (c, e) = IsMapped-head m i (suc n) mapped in
      let (k', g, v') = fgetc-over read View law k f op v in
      let f' = record f { eof = true } in
      (
        f',
        k',
        loop_over read View law fuel m str str_end i f k f' k' (ground arith)
            (IsOpen-fine read View law f' op.1) (write m i 0) g (store-ok m i e 0),
        v',
        op.1,
      )
  fgets_loop-line (suc fuel) (suc n) m str i str_end f k (b ∷ input) en op v small mapped lt =
      let (c, e) = IsMapped-head m i (suc n) mapped in
      let (k', g, v') = fgetc-more read View law k f b input op v in
      let stored = store-byte m i b e small.0 in
      let next = write-IsMapped m i b (i + 1) (suc n) (IsMapped-suc m i (suc n) mapped) in
      let away : (i == str_end) ≡ false = ground arith in
      let fine = IsOpen-fine read View law f op.1 in
      elim (Bool-cases (b == b'\n')) [
        | inl nl ↦
            let (d, h) = IsMapped-head (write m i b) (i + 1) n next in
            rw nl (
              f,
              k',
              loop_newline read View law fuel m str str_end i f k f k' away fine b (write m i b)
                  (write (write m i b) (i + 1) 0) g nl stored (store-ok (write m i b) (i + 1) h 0),
              v',
              op.1,
            )
        | inr nl ↦
            let (f', k'', run, rest, no_err) =
              fgets_loop-line fuel n (write m i b) str (i + 1) str_end f k' input (omega arith) op
                v' small.1 next (omega arith) in
            rw nl (
              f',
              k'',
              loop_other read View law fuel m str str_end i f k f k' away fine b (write m i b) g nl
                    stored
                  ∙ run,
              rest,
              no_err,
            )
      ]

  fgets-loop :
      (fuel n : ℕ) (m : Mem) (str : Addr) (f : File) (k : K)
      → eqb_ℤ (ferror f) (pos 0) ≡ true
      → feof f ≡ false
      → fgets read fuel m str (pos (suc n)) f k
        ≡ fgets_loop read fuel m str (str + suc n - 1) str f k
  unfolding fgets
  fgets-loop fuel n m str f k fine more =
      let count : ltb_ℤ (pos (suc n)) (pos 0) ≡ false = ground arith in rw (count, fine, more) refl

  feof-open : (f : File) → f.eof ≡ false → feof f ≡ false
  unfolding feof
  feof-open f e = e

  -- fgets with room for `n` bytes and a NUL, on a stream in order over a source of bytes, with more
  -- fuel than n, ends without a fault and returns the string. It writes the bytes of the source up to
  -- the first newline, with it, but at most n, and a NUL behind them; the rest of the source is still to
  -- be read, and the stream has no error.
  pub fgets-line :
      (fuel n : ℕ) (m : Mem) (str : Addr) (f : File) (k : K) (input : List ℕ)
      → IsOpen read View law f
      → View k input
      → All (λ b. b < 256) input
      → IsMapped m str (suc n)
      → n < fuel
      → ReadsLine
          (fgets read fuel m str (pos (suc n)) f k)
          m
          str
          (line n input)
          (drop (length (line n input)) input)
  fgets-line fuel n m str f k input op v small mapped lt =
      let start =
        fgets-loop fuel n m str f k (IsOpen-fine read View law f op.1) (feof-open f op.0) in
      let (f', k', run, rest, no_err) =
        fgets_loop-line fuel n m str str (str + suc n - 1) f k input (omega arith) op v small mapped
          lt in
      (f', k', start ∙ run, rest, no_err)
