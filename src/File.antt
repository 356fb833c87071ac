-- ===== src/File.antt =====
-- src/file.c: the mode string of fopen, the flags of open that it stands for, fopen and fclose. The
-- kernel's open and close, and whether the allocation succeeds, are arguments.
pub mod Mode
pub mod Open
use Prim.Native.Nat.{bit_or}
use libdeepc.Base.{
  ℕ, zero, suc, ◌+◌, ◌-◌, ◌*◌, ◌/◌, ◌%◌, ◌^◌, ◌≤◌, ◌<◌, ◌≡◌, refl, sym, ap, ◌∙◌, fun_ext, subst,
  ◌≢◌, ◌↔◌, ◌⊎◌, inl, inr, Bool, true, false, not, ◌&&◌, ◌||◌, Option, none, some, List, [], ◌∷◌,
  ◌++◌, map, arith, dec_lt, dec_le, ℕ_discrete, ltb, leb, ◌==◌, if◌then◌else◌, ltb→lt, lt→ltb,
  ==_iff, ==_refl, Bool-cases, Option-cases, length, get_elem?, set, replicate, take, drop, All,
  length-append, length-set, length-replicate, get_elem?-set_self, get_elem?-set_ne, get_elem?-lt,
  ℤ, pos, negsuc, pos_part, neg_part, sub_ℕ, minus, ◌+ℤ◌, ◌-ℤ◌, ◌*ℤ◌, ◌≤ℤ◌, leb_ℤ, ltb_ℤ, eqb_ℤ,
  Res, ok, fault, out_of_fuel, ◌>>=◌, on_option, lt_wf,
}
use libdeepc.Memory.{Mem, Addr, load}

-- access_mode: NONE, WRITE, READ, APPEND.
pub data AccessMode : Type 0 where
  no_access write_access read_access append_access : AccessMode

pub record ParseMode : Type 0 where
  pub flag_b : Bool
  pub flag_e : Bool
  pub flag_u : Bool
  pub flag_x : Bool
  pub plus_flag : Bool
  pub access : AccessMode

abbrev pub is_none : AccessMode → Bool
is_none no_access = true
is_none _ = false

abbrev pub is_read : AccessMode → Bool
is_read read_access = true
is_read _ = false

abbrev pub is_write : AccessMode → Bool
is_write write_access = true
is_write _ = false

abbrev pub is_append : AccessMode → Bool
is_append append_access = true
is_append _ = false

-- The `default` case: the access letter, once. Any other letter before it is passed over.
unfoldable pub parse_access : ParseMode → Bool → ℕ → Option ParseMode
parse_access info auto_u_flag c =
    if not (is_none info.access)
    then none
    else if c == b'r'
    then if not auto_u_flag && info.flag_u
      then none
      else some (record info { access = read_access })
    else if c == b'w'
    then some (record info { access = write_access })
    else if c == b'a'
    then some (record info { access = append_access })
    else some info

-- One round of the loop of parse_mode; `none` is `return false`.
unfoldable pub parse_char : ParseMode → Bool → ℕ → Option ParseMode
unfolding parse_access
parse_char info auto_u_flag c =
    if c == b'+'
    then if info.plus_flag then none else some (record info { plus_flag = true })
    else if c == b'b'
    then if info.flag_b then none else some (record info { flag_b = true })
    else if c == b'e'
    then if info.flag_e then none else some (record info { flag_e = true })
    else if c == b'u'
    then if info.flag_u || is_read info.access then none else some (record info { flag_u = true })
    else if c == b'x'
    then if info.flag_x || not (is_write info.access)
      then none
      else some (record info { flag_x = true })
    else parse_access info auto_u_flag c

unfoldable pub parse_loop : ℕ → Mem → Addr → Bool → ParseMode → Res (Option ParseMode)
parse_loop zero m mode auto_u_flag info = out_of_fuel
parse_loop (suc fuel) m mode auto_u_flag info = do
  c ← load m mode
  let next =
      on_option (parse_char info auto_u_flag c) (ok none)
        (λ info'. parse_loop fuel m (mode + 1) auto_u_flag info')
  if c == 0 then ok (if is_none info.access then none else some info) else next

abbrev pub mode_start : Bool → ParseMode
mode_start auto_u_flag = record {
  flag_b = false;
  flag_e = false;
  flag_u = auto_u_flag;
  flag_x = false;
  plus_flag = false;
  access = no_access;
}

unfoldable pub parse_mode : ℕ → Mem → Addr → Bool → Res (Option ParseMode)
parse_mode fuel m mode auto_u_flag = parse_loop fuel m mode auto_u_flag (mode_start auto_u_flag)

abbrev pub o_rdonly : ℕ
o_rdonly = 0o0

abbrev pub o_wronly : ℕ
o_wronly = 0o1

abbrev pub o_rdwr : ℕ
o_rdwr = 0o2

abbrev pub o_creat : ℕ
o_creat = 0o100

abbrev pub o_excl : ℕ
o_excl = 0o200

abbrev pub o_trunc : ℕ
o_trunc = 0o1000

abbrev pub o_append : ℕ
o_append = 0o2000

abbrev pub o_cloexec : ℕ
o_cloexec = 0o2000000

unfoldable pub mode_to_flags : ParseMode → ℕ
mode_to_flags info =
    let f0 : ℕ = 0 in
    let f1 = if info.flag_e then bit_or f0 o_cloexec else f0 in
    let f2 = if info.flag_x then bit_or f1 o_excl else f1 in
    let f3 =
      if info.plus_flag
      then bit_or f2 o_rdwr
      else if is_read info.access
      then bit_or f2 o_rdonly
      else bit_or f2 o_wronly in
    if is_read info.access
    then f3
    else let f4 = bit_or f3 o_creat in
      if is_append info.access then bit_or f4 o_append else bit_or f4 o_trunc

-- S_IWUSR | S_IRUSR, and with flag_u the same for the group and for others.
unfoldable pub mode_to_mode_t : ParseMode → ℕ
mode_to_mode_t info =
    let mode = bit_or 0o200 0o400 in
    if info.flag_u then bit_or mode (bit_or (bit_or 0o2 0o4) (bit_or 0o20 0o40)) else mode

-- struct FILE.
pub record File : Type 0 where
  pub fd : ℤ
  pub eof : Bool
  pub err : ℤ
  pub fpos : ℕ
  pub ungetc_buf_size : ℕ
  pub ungetc_buf : ℕ

-- What fopen returns: a stream, or NULL with the errno that it sets itself, or NULL with that of open.
pub data Fopen : Type 0 where
  opened : File → Fopen
  einval enomem open_failed : Fopen

-- `allocated` says whether malloc gave memory, and `sys_open` is the kernel's open of this file.
unfoldable pub fopen : ℕ → Mem → Bool → (ℕ → ℕ → ℤ) → Addr → Res Fopen
fopen fuel m allocated sys_open mode = do
  parsed ← parse_mode fuel m mode true
  on_option parsed (ok einval) (λ info.
      if not allocated
      then ok enomem
      else let fd = sys_open (mode_to_flags info) (mode_to_mode_t info) in
        if eqb_ℤ fd (negsuc 0)
        then ok open_failed
        else ok (
            opened (record {
              fd = fd;
              eof = false;
              err = pos 0;
              fpos = 0;
              ungetc_buf_size = 0;
              ungetc_buf = 0;
            })))

-- fclose, after the flush that does nothing, with the result of close.
unfoldable pub fclose : ℤ → ℤ
fclose closed = let success = eqb_ℤ closed (negsuc 0) in if not success then negsuc 0 else pos 0
