-- ===== src/Printf/Shared.antt =====
-- src/printf.c: vprintf_shared, over any output. The lock that it holds is not modelled here.
pub mod Pieces
pub mod Format
use libdeepc.Base.{
  ℕ, zero, suc, ◌+◌, ◌-◌, ◌*◌, ◌/◌, ◌%◌, ◌^◌, ◌≤◌, ◌<◌, ◌≡◌, refl, sym, ap, ◌∙◌, fun_ext, subst,
  ◌≢◌, ◌↔◌, ◌⊎◌, inl, inr, Bool, true, false, not, ◌&&◌, ◌||◌, Option, none, some, List, [], ◌∷◌,
  ◌++◌, map, arith, dec_lt, dec_le, ℕ_discrete, ltb, leb, ◌==◌, if◌then◌else◌, ltb→lt, lt→ltb,
  ==_iff, ==_refl, Bool-cases, Option-cases, length, get_elem?, set, replicate, take, drop, All,
  length-append, length-set, length-replicate, get_elem?-set_self, get_elem?-set_ne, get_elem?-lt,
  ℤ, pos, negsuc, pos_part, neg_part, sub_ℕ, minus, ◌+ℤ◌, ◌-ℤ◌, ◌*ℤ◌, ◌≤ℤ◌, leb_ℤ, ltb_ℤ, eqb_ℤ,
  Res, ok, fault, out_of_fuel, ◌>>=◌, on_option, lt_wf,
}
use libdeepc.Memory.{Mem, Addr, load}
use libdeepc.Printf.{Writer}
use libdeepc.Printf.Spec.{Arg, Parse, parsed, failed, empty_spec, vprintf_parse_spec}
use libdeepc.Printf.Convert.{Output, narrow, read_bytes, vprintf_write_spec}

module _ (w : Writer) (out : Output w) where
  open w use {State, is_ok, write_fn}
  open out use {memory, written, fail, is_err}

  -- The literal between `start` and `format`, where there is one.
  unfoldable pub write_literal : State → (start format : Addr) → Res State
  write_literal info start format =
      let literal = (do bs ← read_bytes (memory info) start (format - start); write_fn info bs) in
      if start == format then ok info else literal

  -- A conversion, from behind its `%`: the state, and the format and the arguments behind it, which are
  -- `none` where the loop is left.
  unfoldable pub conversion :
      ℕ → Bool → State → Addr → List Arg → Res (State × Option (Addr × List Arg))
  conversion fuel signed info format args = do
    p ← vprintf_parse_spec fuel signed (memory info) empty_spec args format
    elim p [
      | failed e ↦ ok (fail info e, none)
      | parsed s len k format' args' ↦ do
        (i, args'') ← vprintf_write_spec w out fuel info s len k args'
        ok (i, if is_ok i then some (format', args'') else none)
    ]

  -- The loop: the state, start_literal and format where it ends.
  unfoldable pub shared_loop :
      ℕ → Bool → State → (start format : Addr) → List Arg → Res (State × (Addr × Addr))
  shared_loop zero signed info start format args = out_of_fuel
  shared_loop (suc fuel) signed info start format args =
      let skip = shared_loop fuel signed info start (format + 1) args in
      let percent = (do
        i ← write_literal info start format
        let convert = (do
          (i', next) ← conversion fuel signed i (format + 1) args
          on_option next (ok (i', (start, format)))
              (λ (format', args'). shared_loop fuel signed i' format' format' args'))
        if is_ok i then convert else ok (i, (start, format))) in
      let round = (do
        c ← load (memory info) format
        if c == 0 then ok (info, (start, format)) else if c == b'%' then percent else skip) in
      if is_ok info then round else ok (info, (start, format))

  -- The result, which is the number of bytes written as an int, and the state at the end.
  unfoldable pub vprintf_shared : ℕ → Bool → State → Addr → List Arg → Res (ℤ × State)
  vprintf_shared fuel signed info format args = do
    (i, (start, format')) ← shared_loop fuel signed info format format args
    i' ← if is_ok i then write_literal i start format' else ok i
    ok (if is_err i' then negsuc 0 else narrow (2 ^ 31) (pos (written i')), i')
