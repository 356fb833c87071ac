-- ===== src/Printf/Shared/Pieces.antt =====
-- src/printf.c: a format as a list of pieces, and the state of an output that vprintf_shared reads.
use libdeepc.Base.{
  ℕ, suc, ◌+◌, ◌-◌, ◌≤◌, ◌≡◌, subst, ◌≢◌, Bool, true, false, List, [], ◌∷◌, ◌++◌, arith, ◌==◌,
  length, All, length-append,
}
use libdeepc.Memory.{Mem, Addr}
use libdeepc.Memory.Text.{CString, CString-same}
use libdeepc.Printf.{Writer}
use libdeepc.Printf.Integer.{Appends, Writes, Writes-nil}
use libdeepc.Printf.Spec.{Arg}
use libdeepc.Printf.Spec.Render.{SpecText, spec_text, spec_of, IsWidth, IsPrecision, CString-drop}
use libdeepc.Printf.Convert.{Output}
use libdeepc.Printf.Convert.Fields.{read_bytes-prefix}
use libdeepc.Printf.Convert.Converts.{Converts}
use libdeepc.Printf.Shared.{write_literal}

-- A byte that stands for itself, or a conversion with its arguments and the bytes it makes of them.
pub data Piece : Type 0 where
  literal : ℕ → Piece
  conversion_of : SpecText → List Arg → List ℕ → Piece

abbrev pub piece_text : Piece → List ℕ
piece_text (literal c) = c ∷ []
piece_text (conversion_of t args bytes) = b'%' ∷ spec_text t

abbrev pub format_text : List Piece → List ℕ
format_text [] = []
format_text (p ∷ ps) = piece_text p ++ format_text ps

abbrev pub piece_bytes : Piece → List ℕ
piece_bytes (literal c) = c ∷ []
piece_bytes (conversion_of t args bytes) = bytes

-- What the format is to write.
abbrev pub format_bytes : List Piece → List ℕ
format_bytes [] = []
format_bytes (p ∷ ps) = piece_bytes p ++ format_bytes ps

abbrev pub piece_args : Piece → List Arg
piece_args (literal c) = []
piece_args (conversion_of t args bytes) = args

abbrev pub format_args : List Piece → List Arg
format_args [] = []
format_args (p ∷ ps) = piece_args p ++ format_args ps

-- A string that stands in a region of the memory, with its NUL.
abbrev pub Within : Mem → (Addr → Bool) → Addr → List ℕ → Type 0
Within m region p s = CString m p s × ((j : ℕ) → j ≤ length s → region (p + j) ≡ true)

pub Within-drop :
    (m : Mem) (region : Addr → Bool) (xs ys : List ℕ) (p : Addr)
    → Within m region p (xs ++ ys)
    → Within m region (p + length xs) ys
Within-drop m region xs ys p (h, inside) = (
  CString-drop m xs ys p h,
  λ j le.
      let q : p + (length xs + j) ≡ p + length xs + j = omega arith in
      subst (λ a. region a ≡ true) q (inside (length xs + j) (omega (arith, length-append xs ys))),
)

module _ (m : Mem) (region : Addr → Bool) (bound : ℕ) where
  abbrev pub IsPiece : Piece → Type 0
  IsPiece (literal c) = (c ≢ 0) × (c ≢ b'%')
  IsPiece (conversion_of t args bytes) =
      IsWidth t.width
      × IsPrecision t.precision
      × Converts (Within m region) bound (spec_of t) t.conv args bytes

  abbrev pub ArePieces : List Piece → Type 0
  ArePieces = All IsPiece

-- An output that appends: a view of its state as the bytes written, which tells the count; while
-- nothing failed there is no error; and the region of the memory stays as it was.
pub record Prints (w : Writer) (o : Output w) (Out : w.State → List ℕ → Type 0) (m : Mem)
    (region : Addr → Bool) : Type 0 where
  pub appends : Appends w Out
  pub count : (i : w.State) (out : List ℕ) → Out i out → o.written i ≡ length out
  pub fine : (i : w.State) → w.is_ok i ≡ true → o.is_err i ≡ false
  pub same :
      (i : w.State) (out : List ℕ) (a : Addr) → Out i out → region a ≡ true → o.memory i a ≡ m a

module _ (w : Writer) (o : Output w) (Out : w.State → List ℕ → Type 0) (m : Mem)
    (region : Addr → Bool) (law : Prints w o Out m region) where
  pub Within-CString :
      (i : w.State) (out : List ℕ) (p : Addr) (s : List ℕ)
      → Out i out
      → Within m region p s
      → CString (o.memory i) p s
  Within-CString i out p s view (h, inside) =
      CString-same m (o.memory i) p s (λ j le. law.same i out (p + j) view (inside j le)) h

  -- The literal in front of a format is written.
  pub write_literal-Writes :
      (i : w.State) (out lits rest : List ℕ) (start : Addr)
      → w.is_ok i ≡ true
      → Out i out
      → Within m region start (lits ++ rest)
      → Writes w Out law.appends (write_literal w o i start (start + length lits)) out lits
  unfolding write_literal
  write_literal-Writes i out [] rest start g view h =
      let same : (start == start + 0) ≡ true = ground arith in
      rw same (Writes-nil w Out law.appends i out g view)
  write_literal-Writes i out (c ∷ lits) rest start g view h =
      let other : (start == start + suc (length lits)) ≡ false = ground arith in
      let size : start + suc (length lits) - start ≡ suc (length lits) = omega arith in
      let text = Within-CString i out start ((c ∷ lits) ++ rest) view h in
      rw (other, size, read_bytes-prefix (o.memory i) start (c ∷ lits) rest text)
        (law.appends.write i out (c ∷ lits) g view)
