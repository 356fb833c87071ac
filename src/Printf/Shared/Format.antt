-- ===== src/Printf/Shared/Format.antt =====
-- src/printf.c: what vprintf_shared writes for a whole format.
use mathlib.Core.List.{append_assoc, append-nil}
use libdeepc.Base.{
  ℕ, zero, suc, ◌+◌, ◌^◌, ◌<◌, ◌≡◌, refl, sym, ap, ◌∙◌, subst, Bool, true, false, some, List, [],
  ◌∷◌, ◌++◌, arith, ◌==◌, length, length-append, pos, Res, ok,
}
use libdeepc.Memory.{Mem, Addr}
use libdeepc.Memory.Block.{load-ok}
use libdeepc.Printf.{Writer}
use libdeepc.Printf.Spec.{Arg}
use libdeepc.Printf.Spec.Render.{SpecText, spec_text, spec_of}
use libdeepc.Printf.Spec.Whole.{vprintf_parse_spec-reads}
use libdeepc.Printf.Convert.{Output, narrow}
use libdeepc.Printf.Convert.Converts.{vprintf_write_spec-Converts}
use libdeepc.Printf.Shared.{write_literal, conversion, shared_loop, vprintf_shared}
use libdeepc.Printf.Shared.Pieces.{
  Piece, literal, conversion_of, format_text, format_bytes, format_args, Within, Within-drop,
  IsPiece, ArePieces, Prints, Within-CString, write_literal-Writes,
}

module _ (w : Writer) (o : Output w) (Out : w.State → List ℕ → Type 0) (m : Mem)
    (region : Addr → Bool) (law : Prints w o Out m region) (bound : ℕ) (signed : Bool) where
  -- A conversion in the format, behind its `%`.
  conversion-Writes :
      (fuel : ℕ) (i : w.State) (out : List ℕ) (t : SpecText) (args more : List Arg)
      (bytes rest : List ℕ) (p : Addr)
      → w.is_ok i ≡ true
      → Out i out
      → Within m region p (spec_text t ++ rest)
      → IsPiece m region bound (conversion_of t args bytes)
      → length (spec_text t) + bound < fuel
      → (i' : w.State) × (conversion w o fuel signed i p (args ++ more)
          ≡ ok (i', some (p + length (spec_text t), more)))
        × (w.is_ok i' ≡ true)
        × Out i' (out ++ bytes)
  unfolding conversion
  conversion-Writes fuel i out t args more bytes rest p g view h (vw, vp, conv) lt =
      let text = Within-CString w o Out m region law i out p (spec_text t ++ rest) view h in
      let parse =
        vprintf_parse_spec-reads fuel signed (o.memory i) (args ++ more) t rest p text vw vp
          (omega arith) in
      let (i', run, g', view') =
        vprintf_write_spec-Converts w o Out law.appends (Within m region) bound i out g view
          (λ q s there. Within-CString w o Out m region law i out q s view there) fuel (omega arith)
          (spec_of t) t.conv args more bytes conv in
      (i', rw (parse, run, g') refl, g', view')

  -- How the loop ends: what is written, and the literal that is still to be written, make the whole.
  abbrev Left : Res (w.State × (Addr × Addr)) → List ℕ → Type 0
  Left run whole =
      (i : w.State) × (out : List ℕ) × (start : Addr) × (lits : List ℕ) × (run
        ≡ ok (i, (start, start + length lits)))
      × (w.is_ok i ≡ true)
      × Out i out
      × Within m region start (lits ++ [])
      × (out ++ lits ≡ whole)

  -- One round of the loop at a byte, where the output is fine.
  module _ (fuel : ℕ) (i : w.State) (start format c : Addr) (args : List Arg) (g : w.is_ok i ≡ true)
      (here : o.memory i format ≡ some c) where
    loop_end :
        (c == 0) ≡ true
        → shared_loop w o (suc fuel) signed i start format args ≡ ok (i, (start, format))
    unfolding shared_loop
    loop_end z = rw (g, load-ok (o.memory i) format here, z) refl

    loop_skip :
        (c == 0) ≡ false
        → (c == b'%') ≡ false
        → shared_loop w o (suc fuel) signed i start format args
          ≡ shared_loop w o fuel signed i start (format + 1) args
    unfolding shared_loop
    loop_skip nz other = rw (g, load-ok (o.memory i) format here, nz, other) refl

    loop_convert :
        (j k : w.State) (next : Addr) (more : List Arg)
        → c ≡ b'%'
        → write_literal w o i start format ≡ ok j
        → w.is_ok j ≡ true
        → conversion w o fuel signed j (format + 1) args ≡ ok (k, some (next, more))
        → shared_loop w o (suc fuel) signed i start format args
          ≡ shared_loop w o fuel signed k next next more
    unfolding shared_loop
    loop_convert j k next more e wrote fine run =
        let z : (c == 0) ≡ false = ground arith in
        let p : (c == b'%') ≡ true = ground arith in
        rw (g, load-ok (o.memory i) format here, z, p, wrote, fine, run) refl

  Left-same :
      (run run' : Res (w.State × (Addr × Addr))) (whole whole' : List ℕ)
      → run ≡ run'
      → whole ≡ whole'
      → Left run' whole
      → Left run whole'
  Left-same run run' whole whole' e f (i, out, start, lits, q, g, v, h, u) =
      (i, out, start, lits, e ∙ q, g, v, h, u ∙ f)

  loop-Left :
      (fuel : ℕ) (i : w.State) (out : List ℕ) (start : Addr) (lits : List ℕ) (ps : List Piece)
      → w.is_ok i ≡ true
      → Out i out
      → Within m region start (lits ++ format_text ps)
      → ArePieces m region bound ps
      → length (format_text ps) + bound < fuel
      → Left
          (shared_loop w o fuel signed i start (start + length lits) (format_args ps))
          (out ++ (lits ++ format_bytes ps))
  loop-Left zero i out start lits ps g view h v lt = absurd (omega arith)
  loop-Left (suc fuel) i out start lits [] g view h v lt =
      let here =
        Within-CString w o Out m region law i out (start + length lits) [] view
          (Within-drop m region lits [] start h) in
      (
        i,
        out,
        start,
        lits,
        loop_end fuel i start (start + length lits) 0 [] g here refl,
        g,
        view,
        h,
        ap (λ (l : List ℕ). out ++ l) (sym (append-nil lits)),
      )
  loop-Left (suc fuel) i out start lits (literal c ∷ ps) g view h v lt =
      let here =
        Within-CString w o Out m region law i out (start + length lits) (c ∷ format_text ps) view
          (Within-drop m region lits (c ∷ format_text ps) start h) in
      let zero_not : (c == 0) ≡ false = ground (arith, v.0.0) in
      let percent_not : (c == b'%') ≡ false = ground (arith, v.0.1) in
      let grown : List ℕ = lits ++ c ∷ [] in
      let split : (rest : List ℕ) → grown ++ rest ≡ lits ++ c ∷ rest =
        λ rest. append_assoc lits (c ∷ []) rest in
      let next : start + length lits + 1 ≡ start + length grown =
        omega (arith, length-append lits (c ∷ [])) in
      let run = shared_loop w o fuel signed i start (start + length grown) (format_args ps) in
      Left-same (shared_loop w o (suc fuel) signed i start (start + length lits) (format_args ps))
        run (out ++ (grown ++ format_bytes ps)) (out ++ (lits ++ c ∷ format_bytes ps))
        (loop_skip fuel i start (start + length lits) c (format_args ps) g here.0 zero_not
            percent_not
          ∙ ap (λ (a : ℕ). shared_loop w o fuel signed i start a (format_args ps)) next)
        (ap (λ (l : List ℕ). out ++ l) (split (format_bytes ps)))
        (loop-Left fuel i out start grown ps g view (rw (split (format_text ps)) h) v.1
          (omega arith))
  loop-Left (suc fuel) i out start lits (conversion_of t args bytes ∷ ps) g view h v lt =
      let at_percent = Within-drop m region lits (b'%' ∷ (spec_text t ++ format_text ps)) start h in
      let spec =
        Within-drop m region (b'%' ∷ []) (spec_text t ++ format_text ps) (start + length lits)
          at_percent in
      let here =
        Within-CString w o Out m region law i out (start + length lits)
          (b'%' ∷ (spec_text t ++ format_text ps)) view at_percent in
      let (j, wrote, gj, vj) =
        write_literal-Writes w o Out m region law i out lits
          (b'%' ∷ (spec_text t ++ format_text ps)) start g view h in
      let size = length-append (spec_text t) (format_text ps) in
      let (k, run, gk, vk) =
        conversion-Writes fuel j (out ++ lits) t args (format_args ps) bytes (format_text ps)
          (start + length lits + 1) gj vj spec v.0 (omega (arith, size)) in
      let next = start + length lits + 1 + length (spec_text t) in
      let q : next ≡ next + 0 = omega arith in
      Left-same
        (shared_loop w o (suc fuel) signed i start (start + length lits) (args ++ format_args ps))
        (shared_loop w o fuel signed k next (next + 0) (format_args ps))
        (((out ++ lits) ++ bytes) ++ format_bytes ps) (out ++ (lits ++ (bytes ++ format_bytes ps)))
        (loop_convert fuel i start (start + length lits) b'%' (args ++ format_args ps) g here.0 j k
            next (format_args ps) refl wrote gj run
          ∙ ap (λ (a : ℕ). shared_loop w o fuel signed k next a (format_args ps)) q)
        (simp append_assoc refl)
        (loop-Left fuel k ((out ++ lits) ++ bytes) next [] ps gk vk
          (Within-drop m region (spec_text t) (format_text ps) (start + length lits + 1) spec) v.1
          (omega (arith, size)))

  -- vprintf_shared on a format that is a list of pieces, over an output that appends and does not fail,
  -- with more fuel than the format and its strings have bytes, ends without a fault. It writes the
  -- bytes of the pieces one after the other and returns how many they are, as an int.
  pub vprintf_shared-format :
      (fuel : ℕ) (i : w.State) (p : Addr) (ps : List Piece)
      → w.is_ok i ≡ true
      → Out i []
      → Within m region p (format_text ps)
      → ArePieces m region bound ps
      → length (format_text ps) + bound < fuel
      → (i' : w.State) × (vprintf_shared w o fuel signed i p (format_args ps)
          ≡ ok (narrow (2 ^ 31) (pos (length (format_bytes ps))), i'))
        × Out i' (format_bytes ps)
  unfolding vprintf_shared
  vprintf_shared-format fuel i p ps g view h v lt =
      let q : p + 0 ≡ p = omega arith in
      let (j, out, start, lits, run, gj, vj, there, whole) =
        loop-Left fuel i [] p [] ps g view h v lt in
      let run' = rw q at run in
      let (k, wrote, gk, vk) =
        write_literal-Writes w o Out m region law j out lits [] start gj vj there in
      let all = subst (λ (l : List ℕ). Out k l) whole vk in
      (k, rw (run', gj, wrote, law.fine k gk, law.count k (format_bytes ps) all) refl, all)
