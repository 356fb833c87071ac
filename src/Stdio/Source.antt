-- ===== src/Stdio/Source.antt =====
-- src/stdio.c: fgetc and the rounds of the loop of fgets over a kernel that reads from a source of bytes.
use libdeepc.Base.{
  ℕ, suc, ◌+◌, ◌≡◌, refl, true, false, List, [], ◌∷◌, arith, ◌==◌, ℤ, pos, negsuc, eqb_ℤ, ok,
}
use libdeepc.Memory.{Mem, Addr, store}
use libdeepc.Str.Block.{to_uchar}
use libdeepc.File.{File}
use libdeepc.Stdio.{is_stopped, ferror, fread, fgetc, fgets_loop}

-- The kernel reads from a source of bytes, which `View` tells, one byte for a size of 1 and none at
-- its end.
pub record ReadsFrom {K : Type 0} (read : K → ℤ → ℕ → ℤ × (List ℕ × K)) (View : K → List ℕ → Type 0)
    : Type 0 where
  pub more :
      (k : K) (fd : ℤ) (b : ℕ) (bs : List ℕ)
      → View k (b ∷ bs)
      → (k' : K) × (read k fd 1 ≡ (pos 1, (b ∷ [], k'))) × View k' bs
  pub over :
      (k : K) (fd : ℤ) → View k [] → (k' : K) × (read k fd 1 ≡ (pos 0, ([], k'))) × View k' []

module _ {K : Type 0} (read : K → ℤ → ℕ → ℤ × (List ℕ × K)) (View : K → List ℕ → Type 0)
    (law : ReadsFrom read View) where
  -- A stream in order.
  abbrev pub IsOpen : File → Type 0
  IsOpen f = (f.eof ≡ false) × (f.err ≡ pos 0)

  pub fgetc-more :
      (k : K) (f : File) (b : ℕ) (bs : List ℕ)
      → IsOpen f
      → View k (b ∷ bs)
      → (k' : K) × (fgetc read k f ≡ (pos b, (f, k'))) × View k' bs
  unfolding fgetc fread
  fgetc-more k f b bs (eof, err) v =
      let (k', e, v') = law.more k f.fd b bs v in
      let on : is_stopped f ≡ false = ground arith in (k', simp (e, on) refl, v')

  pub fgetc-over :
      (k : K) (f : File)
      → IsOpen f
      → View k []
      → (k' : K) × (fgetc read k f ≡ (negsuc 0, (record f { eof = true }, k'))) × View k' []
  unfolding fgetc fread
  fgetc-over k f (eof, err) v =
      let (k', e, v') = law.over k f.fd v in
      let on : is_stopped f ≡ false = ground arith in (k', simp (e, on) refl, v')

  module _ (fuel : ℕ) (m : Mem) (str str_end i : Addr) (f : File) (k : K) where
    pub loop_end :
        (m' : Mem)
        → (i == str_end) ≡ true
        → store m i 0 ≡ ok m'
        → fgets_loop read (suc fuel) m str str_end i f k ≡ ok (true, (m', (f, k)))
    unfolding fgets_loop
    loop_end m' here s = rw (here, s) refl

    module _ (f' : File) (k' : K) (away : (i == str_end) ≡ false)
        (fine : eqb_ℤ (ferror f') (pos 0) ≡ true) where
      pub loop_over :
          (m' : Mem)
          → fgetc read k f ≡ (negsuc 0, (f', k'))
          → store m i 0 ≡ ok m'
          → fgets_loop read (suc fuel) m str str_end i f k ≡ ok (true, (m', (f', k')))
      unfolding fgets_loop
      loop_over m' g s = rw (away, g, fine, s) refl

      pub loop_newline :
          (b : ℕ) (m' m'' : Mem)
          → fgetc read k f ≡ (pos b, (f', k'))
          → (b == b'\n') ≡ true
          → store m i (to_uchar (pos b)) ≡ ok m'
          → store m' (i + 1) 0 ≡ ok m''
          → fgets_loop read (suc fuel) m str str_end i f k ≡ ok (true, (m'', (f', k')))
      unfolding fgets_loop
      loop_newline b m' m'' g nl s z =
          let byte : eqb_ℤ (pos b) (negsuc 0) ≡ false = ground arith in
          let new : eqb_ℤ (pos b) (pos b'\n') ≡ true = ground arith in
          rw (away, g, fine, byte, s, new, z) refl

      pub loop_other :
          (b : ℕ) (m' : Mem)
          → fgetc read k f ≡ (pos b, (f', k'))
          → (b == b'\n') ≡ false
          → store m i (to_uchar (pos b)) ≡ ok m'
          → fgets_loop read (suc fuel) m str str_end i f k
            ≡ fgets_loop read fuel m' str str_end (i + 1) f' k'
      unfolding fgets_loop
      loop_other b m' g nl s =
          let byte : eqb_ℤ (pos b) (negsuc 0) ≡ false = ground arith in
          let old : eqb_ℤ (pos b) (pos b'\n') ≡ false = ground arith in
          rw (away, g, fine, byte, s, old) refl

  pub IsOpen-fine : (f : File) → f.err ≡ pos 0 → eqb_ℤ (ferror f) (pos 0) ≡ true
  unfolding ferror
  IsOpen-fine f e = ground (arith, e)
