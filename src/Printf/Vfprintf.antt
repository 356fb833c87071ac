-- ===== src/Printf/Vfprintf.antt =====
-- src/printf.c: write_fd, the writer of vfprintf, over the write of the kernel, and vfprintf.
use mathlib.Core.List.{append-nil}
use libdeepc.Base.{
  ℕ, ◌+◌, ◌^◌, ◌<◌, ◌≡◌, refl, sym, subst, Bool, true, false, List, [], ◌∷◌, ◌++◌, arith, ltb, ◌==◌,
  if◌then◌else◌, length, length-append, ℤ, pos, negsuc, pos_part, eqb_ℤ, Res, ok,
}
use libdeepc.Memory.{Mem, Addr}
use libdeepc.Printf.{Writer}
use libdeepc.Printf.Spec.{Arg}
use libdeepc.Printf.Convert.{Output, narrow-small}
use libdeepc.Printf.Shared.{vprintf_shared}
use libdeepc.Printf.Shared.Pieces.{
  Piece, format_text, format_bytes, format_args, Within, ArePieces, Prints,
}
use libdeepc.Printf.Shared.Format.{vprintf_shared-format}

-- VPRINT_RET
pub data VprintRet : Type 0 where
  rc_ok rc_end rc_err : VprintRet

abbrev pub is_rc_ok : VprintRet → Bool
is_rc_ok rc_ok = true
is_rc_ok _ = false

abbrev pub is_rc_err : VprintRet → Bool
is_rc_err rc_err = true
is_rc_err _ = false

-- The fields of vprintf_info that write_fd uses, the memory and the state of the kernel.
pub record FdInfo (K : Type 0) : Type 0 where
  pub kernel : K
  pub mem : Mem
  pub written : ℕ
  pub rc : VprintRet

module _ {K : Type 0} (write : K → ℤ → List ℕ → ℤ × K) (fd : ℤ) where
  unfoldable pub write_fd : FdInfo K → List ℕ → Res (FdInfo K)
  write_fd info buf =
      let (n, k) = write info.kernel fd buf in
      let counted = info.written + pos_part n in
      let rc = if ltb (pos_part n) (length buf) then rc_end else info.rc in
      if length buf == 0
      then ok info
      else if eqb_ℤ n (negsuc 0)
      then ok (record info { kernel = k; rc = rc_err })
      else ok (record { kernel = k; mem = info.mem; written = counted; rc = rc })

  abbrev pub fd_writer : Writer
  fd_writer = record { State = FdInfo K; is_ok = λ i. is_rc_ok i.rc; write_fn = write_fd }

  abbrev pub fd_output : Output fd_writer
  fd_output = record {
    memory = λ i. i.mem;
    set_memory = λ i m. record i { mem = m };
    written = λ i. i.written;
    fail = λ i e. record i { rc = rc_err };
    is_err = λ i. is_rc_err i.rc;
  }

  abbrev pub start_fd : K → Mem → FdInfo K
  start_fd k m = record { kernel = k; mem = m; written = 0; rc = rc_ok }

  unfoldable pub vfprintf : ℕ → Bool → K → Mem → Addr → List Arg → Res (ℤ × FdInfo K)
  vfprintf fuel signed k m format args =
      vprintf_shared fd_writer fd_output fuel signed (start_fd k m) format args

  -- The kernel takes every byte: a view of its state as the bytes that it took.
  pub record TakesAll (Taken : K → List ℕ → Type 0) : Type 0 where
    pub takes :
        (k : K) (out bs : List ℕ)
        → Taken k out
        → (k' : K) × (write k fd bs ≡ (pos (length bs), k')) × Taken k' (out ++ bs)

  module _ (Taken : K → List ℕ → Type 0) (law : TakesAll Taken) (m : Mem) where
    -- What the state says of the bytes written.
    pub record Sent (i : FdInfo K) (out : List ℕ) : Type 0 where
      pub taken : Taken i.kernel out
      pub memory : i.mem ≡ m
      pub count : i.written ≡ length out

    write_fd-some :
        (i : FdInfo K) (b : ℕ) (bs : List ℕ) (k' : K)
        → write i.kernel fd (b ∷ bs) ≡ (pos (length (b ∷ bs)), k')
        → write_fd i (b ∷ bs)
          ≡ ok (record {
            kernel = k';
            mem = i.mem;
            written = i.written + length (b ∷ bs);
            rc = i.rc;
          })
    unfolding write_fd
    write_fd-some i b bs k' e =
        let nz : (length (b ∷ bs) == 0) ≡ false = ground arith in
        let good : eqb_ℤ (pos (length (b ∷ bs))) (negsuc 0) ≡ false = ground arith in
        let all : ltb (length (b ∷ bs)) (length (b ∷ bs)) ≡ false = ground arith in
        rw (e, nz, good, all) refl

    write_fd-Sent :
        (i : FdInfo K) (out bs : List ℕ)
        → is_rc_ok i.rc ≡ true
        → Sent i out
        → (i' : FdInfo K) × (write_fd i bs ≡ ok i') × (is_rc_ok i'.rc ≡ true) × Sent i' (out ++ bs)
    unfolding write_fd
    write_fd-Sent i out [] g s =
        (i, refl, g, subst (λ (l : List ℕ). Sent i l) (sym (append-nil out)) s)
    write_fd-Sent i out (b ∷ bs) g s =
        let (k', e, t) = law.takes i.kernel out (b ∷ bs) s.taken in
        (
          record { kernel = k'; mem = i.mem; written = i.written + length (b ∷ bs); rc = i.rc },
          write_fd-some i b bs k' e,
          g,
          record {
            taken = t;
            memory = s.memory;
            count = omega (arith, s.count, length-append out (b ∷ bs));
          },
        )

    rc-fine : (c : VprintRet) → is_rc_ok c ≡ true → is_rc_err c ≡ false
    rc-fine rc_ok g = refl
    rc-fine rc_end g = refl
    rc-fine rc_err g = sym g

    fd-Prints : Prints fd_writer fd_output Sent m (λ a. true)
    fd-Prints = record {
      appends = record { write = write_fd-Sent };
      count = λ i out s. s.count;
      fine = λ i g. rc-fine i.rc g;
      same = λ i out a s inside. rw s.memory refl;
    }

    -- vfprintf on a format that is a list of pieces, over a kernel that takes every byte of a
    -- write, with more fuel than the format and its strings have bytes, and an output shorter than
    -- 2 ^ 31 bytes, ends without a fault. The kernel has taken the bytes of the pieces, and the
    -- result is how many they are.
    pub vfprintf-format :
        (bound : ℕ) (signed : Bool) (fuel : ℕ) (k : K) (format : Addr) (ps : List Piece)
        → Taken k []
        → Within m (λ a. true) format (format_text ps)
        → ArePieces m (λ a. true) bound ps
        → length (format_text ps) + bound < fuel
        → length (format_bytes ps) < 2 ^ 31
        → (i : FdInfo K) × (vfprintf fuel signed k m format (format_args ps)
            ≡ ok (pos (length (format_bytes ps)), i))
          × Taken i.kernel (format_bytes ps)
    unfolding vfprintf
    vfprintf-format bound signed fuel k format ps none_yet h v lt short =
        let start : Sent (start_fd k m) [] = record {
          taken = none_yet;
          memory = refl;
          count = refl;
        } in
        let (i, run, s) =
          vprintf_shared-format fd_writer fd_output Sent m (λ a. true) fd-Prints bound signed fuel
            (start_fd k m) format ps refl start h v lt in
        (i, rw (narrow-small (2 ^ 31) (length (format_bytes ps)) short) at run, s.taken)
