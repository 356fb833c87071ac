-- ===== src/Printf/Convert.antt =====
-- src/printf.c: the conversions, from the arguments to what a writer is handed. An output is a writer
-- with the memory that the program sees through its state, the count of bytes written, and the ways to
-- set `rc` to ERR and to store into the memory.
pub mod Fields
pub mod Converts
use native.Mathlib.Nat.{mod-eq_of_lt}
use libdeepc.Base.{
  ℕ, zero, suc, ◌+◌, ◌-◌, ◌*◌, ◌/◌, ◌%◌, ◌^◌, ◌≤◌, ◌<◌, ◌≡◌, refl, sym, ap, ◌∙◌, fun_ext, subst,
  ◌≢◌, ◌↔◌, ◌⊎◌, inl, inr, Bool, true, false, not, ◌&&◌, ◌||◌, Option, none, some, List, [], ◌∷◌,
  ◌++◌, map, arith, dec_lt, dec_le, ℕ_discrete, ltb, leb, ◌==◌, if◌then◌else◌, ltb→lt, lt→ltb,
  ==_iff, ==_refl, Bool-cases, Option-cases, length, get_elem?, set, replicate, take, drop, All,
  length-append, length-set, length-replicate, get_elem?-set_self, get_elem?-set_ne, get_elem?-lt,
  ℤ, pos, negsuc, pos_part, neg_part, sub_ℕ, minus, ◌+ℤ◌, ◌-ℤ◌, ◌*ℤ◌, ◌≤ℤ◌, leb_ℤ, ltb_ℤ, eqb_ℤ,
  Res, ok, fault, out_of_fuel, ◌>>=◌, on_option, lt_wf,
}
use libdeepc.Memory.{Mem, Addr, null, load}
use libdeepc.Atoi.{Errno}
use libdeepc.Str.Block.{to_uchar}
use libdeepc.Str.Scan.{strlen}
use libdeepc.Printf.{
  IntConv, conv_d, conv_x, VprintSpec, Writer, vprintf_padding, vprintf_output_int,
}
use libdeepc.Printf.Buffer.{copy_in}
use libdeepc.Printf.Spec.{
  Length, length_none, length_hh, length_h, length_l, length_ll, length_j, length_z, length_t,
  length_upper_l, Conv, conv_int, conv_c, conv_s, conv_p, conv_n, conv_percent, Arg, va_number,
  va_pointer,
}

pub record Output (w : Writer) : Type 0 where
  pub memory : w.State → Mem
  pub set_memory : w.State → Mem → w.State
  pub written : w.State → ℕ
  pub fail : w.State → Errno → w.State
  pub is_err : w.State → Bool

-- (signed char) and (short) of an int.
unfoldable pub narrow : ℕ → ℤ → ℤ
narrow half v =
    let u : ℕ = elim v [ pos n ↦ n % (2 * half) | negsuc n ↦ 2 * half - 1 - n % (2 * half) ] in
    if ltb u half then pos u else minus (2 * half - u)

-- A number that an int has is not changed.
pub narrow-small : (half n : ℕ) → n < half → narrow half (pos n) ≡ pos n
unfolding narrow
narrow-small half n lt =
    let e : n % (2 * half) ≡ n = mod-eq_of_lt (omega arith) in
    let c : ltb n half ≡ true = ground arith in rw (e, c) refl

-- vprintf_conv_signed: an argument is a value of the type that is read.
unfoldable pub conv_signed : Length → ℤ → ℤ
conv_signed length_hh v = narrow (2 ^ 7) v
conv_signed length_h v = narrow (2 ^ 15) v
conv_signed _ v = v

-- vprintf_conv_unsigned, of a number that is not negative.
unfoldable pub conv_unsigned : Length → ℕ → ℕ
conv_unsigned length_hh n = n % 2 ^ 8
conv_unsigned length_h n = n % 2 ^ 16
conv_unsigned _ n = n

abbrev pub natural : ℤ → Res ℕ
natural (pos n) = ok n
natural (negsuc n) = fault

-- The bytes of a stored number, the lowest first.
abbrev pub le_bytes : ℕ → ℕ → List ℕ
le_bytes zero n = []
le_bytes (suc k) n = (n % 256) ∷ le_bytes k (n / 256)

-- How many bytes the type of a %n argument has.
abbrev pub size_of : Length → ℕ
size_of length_hh = 1
size_of length_h = 2
size_of length_none = 4
size_of length_upper_l = 4
size_of _ = 8

-- The bytes that a write function reads at a pointer.
unfoldable pub read_bytes : Mem → Addr → ℕ → Res (List ℕ)
read_bytes m p zero = ok []
read_bytes m p (suc n) = do b ← load m p; bs ← read_bytes m (p + 1) n; ok (b ∷ bs)

abbrev pub null_text : List ℕ
null_text = b'(' ∷ b'N' ∷ b'U' ∷ b'L' ∷ b'L' ∷ b')' ∷ []

abbrev pub nil_text : List ℕ
nil_text = b'(' ∷ b'n' ∷ b'i' ∷ b'l' ∷ b')' ∷ []

-- The spec of a %p.
abbrev pub pointer_spec : VprintSpec → VprintSpec
pointer_spec s = record s { flag_number = true; conv = conv_x }

module _ (w : Writer) (out : Output w) where
  open w use {State, write_fn}
  open out use {memory, set_memory, written}

  -- Bytes between paddings, which do not look at `rc`: the ends of vprintf_conv_c and vprintf_conv_s.
  unfoldable pub pad_write : State → VprintSpec → List ℕ → Res State
  pad_write info s bs =
      let pad = s.width - length bs in
      let padded = (do
        i1 ← if s.flag_minus then ok info else vprintf_padding w info b' ' pad
        i2 ← write_fn i1 bs
        if s.flag_minus then vprintf_padding w i2 b' ' pad else ok i2) in
      if s.width_set && ltb (length bs) s.width then padded else write_fn info bs

  unfoldable pub vprintf_conv_c : State → VprintSpec → ℕ → Res State
  vprintf_conv_c info s c = pad_write info s (c ∷ [])

  -- vprintf_conv_s on the bytes of a string.
  unfoldable pub conv_text : State → VprintSpec → List ℕ → Res State
  conv_text info s text =
      let len =
        if s.precision_set && ltb s.precision (length text) then s.precision else length text in
      pad_write info s (take len text)

  unfoldable pub vprintf_conv_s : ℕ → State → VprintSpec → Addr → Res State
  vprintf_conv_s fuel info s str =
      let at_str = (do
        n ← strlen fuel (memory info) str
        text ← read_bytes (memory info) str n
        conv_text info s text) in
      if str == null then conv_text info s null_text else at_str

  unfoldable pub vprintf_conv_p : State → VprintSpec → Addr → Res State
  vprintf_conv_p info s ptr =
      if ptr == null
      then conv_text info s nil_text
      else vprintf_output_int w info (pointer_spec s) (pos ptr)

  unfoldable pub vprintf_conv_n : State → Length → Addr → Res State
  vprintf_conv_n info len s = do
    m' ← copy_in (memory info) s (le_bytes (size_of len) (written info))
    ok (set_memory info m')

  -- The integer conversions: %d reads a signed type, the others an unsigned one.
  unfoldable pub vprintf_conv_int : State → VprintSpec → Length → IntConv → ℤ → Res State
  vprintf_conv_int info s len conv_d v = vprintf_output_int w info s (conv_signed len v)
  vprintf_conv_int info s len _ v = do
    n ← natural v
    vprintf_output_int w info s (pos (conv_unsigned len n))

  -- vprintf_write_spec: the state and the arguments that are left.
  unfoldable pub vprintf_write_spec :
      ℕ → State → VprintSpec → Length → Conv → List Arg → Res (State × List Arg)
  vprintf_write_spec fuel info s len conv_percent args = do
    i ← write_fn info (b'%' ∷ [])
    ok (i, args)
  vprintf_write_spec fuel info s len conv_c args = do
    (v, args') ← va_number args
    i ← vprintf_conv_c info s (to_uchar v)
    ok (i, args')
  vprintf_write_spec fuel info s len conv_s args = do
    (p, args') ← va_pointer args
    i ← vprintf_conv_s fuel info s p
    ok (i, args')
  vprintf_write_spec fuel info s len (conv_int k) args = do
    (v, args') ← va_number args
    i ← vprintf_conv_int info s len k v
    ok (i, args')
  vprintf_write_spec fuel info s len conv_p args = do
    (p, args') ← va_pointer args
    i ← vprintf_conv_p info s p
    ok (i, args')
  vprintf_write_spec fuel info s len conv_n args = do
    (p, args') ← va_pointer args
    i ← vprintf_conv_n info len p
    ok (i, args')
