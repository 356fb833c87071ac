-- ===== src/Atoi.antt =====
-- src/atoi.c: the number parsers. A `char` is read as the int that the platform makes of it
-- (`signed`); the limits of the integer types come from a generated header and are arguments.
-- Every loop over the text runs on fuel, one round for each byte that it reads.
pub mod Run
pub mod Pos
pub mod Neg
pub mod Whole
use libdeepc.Base.{
  ℕ, zero, suc, ◌+◌, ◌-◌, ◌*◌, ◌/◌, ◌%◌, ◌^◌, ◌≤◌, ◌<◌, ◌≡◌, refl, sym, ap, ◌∙◌, fun_ext, subst,
  ◌≢◌, ◌↔◌, ◌⊎◌, inl, inr, Bool, true, false, not, ◌&&◌, ◌||◌, Option, none, some, List, [], ◌∷◌,
  ◌++◌, map, arith, dec_lt, dec_le, ℕ_discrete, ltb, leb, ◌==◌, if◌then◌else◌, ltb→lt, lt→ltb,
  ==_iff, ==_refl, Bool-cases, Option-cases, length, get_elem?, set, replicate, take, drop, All,
  length-append, length-set, length-replicate, get_elem?-set_self, get_elem?-set_ne, get_elem?-lt,
  ℤ, pos, negsuc, pos_part, neg_part, sub_ℕ, minus, ◌+ℤ◌, ◌-ℤ◌, ◌*ℤ◌, ◌≤ℤ◌, leb_ℤ, ltb_ℤ, eqb_ℤ,
  Res, ok, fault, out_of_fuel, ◌>>=◌, on_option, lt_wf,
}
use libdeepc.Memory.{Mem, Addr, load}
use libdeepc.Ctype.{isspace, isdigit}
use libdeepc.Str.Block.{char_value}

-- STRTO_RET: NEG, ERR, POS.
pub data StrtoRet : Type 0 where
  negative error positive : StrtoRet

unfoldable pub skip_space : ℕ → Bool → Mem → Addr → Res Addr
skip_space zero signed m s = out_of_fuel
skip_space (suc fuel) signed m s = do
  c ← load m s
  let rest = skip_space fuel signed m (s + 1)
  if isspace (char_value signed c) then rest else ok s

unfoldable pub atoi_start : ℕ → Bool → Mem → Addr → Res (StrtoRet × Addr)
atoi_start fuel signed m str = do
  s ← skip_space fuel signed m str
  c ← load m s
  if c == b'-'
      then ok (negative, s + 1)
      else if c == b'+'
      then ok (positive, s + 1)
      else ok (positive, s)

-- The base is checked, and base 0 is decided by the prefix, which is skipped: the sign, the address of
-- the digits and the base. On ERR the address is the one given, and errno is EINVAL.
unfoldable pub strto_start : ℕ → Bool → Mem → Addr → ℤ → Res (StrtoRet × Addr × ℕ)
strto_start fuel signed m str base =
    if ltb_ℤ base (pos 0) || eqb_ℤ base (pos 1) || ltb_ℤ (pos 36) base
    then ok (error, str, 0)
    else do
      (ret, s) ← atoi_start fuel signed m str
      c ← load m s
      let b = pos_part base
      if c == b'0'
          then (do
            x ← load m (s + 1)
            ok (
                if (b == 0 || b == 16) && (x == b'x' || x == b'X')
                then (ret, s + 2, 16)
                else (ret, s + 1, if b == 0 then 8 else b)))
          else ok (ret, s, if b == 0 then 10 else b)

-- The digit that `c` stands for; `none` is the result -1.
unfoldable pub to_base_n : ℕ → ℤ → Option ℕ
to_base_n base c =
    if leb base 10
    then if ltb_ℤ c (pos b'0') || leb_ℤ (pos (b'0' + base)) c
      then none
      else some (pos_part c - b'0')
    else if isdigit c
    then some (pos_part c - b'0')
    else if leb_ℤ (pos b'a') c && ltb_ℤ c (pos (b'a' - 10 + base))
    then some (pos_part c - b'a' + 10)
    else if leb_ℤ (pos b'A') c && ltb_ℤ c (pos (b'A' - 10 + base))
    then some (pos_part c - b'A' + 10)
    else none

-- `while (to_base_n(base, *s) != -1) ++s;`
unfoldable pub skip_digits : ℕ → Bool → Mem → ℕ → Addr → Res Addr
skip_digits zero signed m base s = out_of_fuel
skip_digits (suc fuel) signed m base s = do
  c ← load m s
  let rest = skip_digits fuel signed m base (s + 1)
  on_option (to_base_n base (char_value signed c)) (ok s) (λ d. rest)

-- What the readers write to `*result`, `*str` and `*overflow`.
pub record Reading (N : Type 0) : Type 0 where
  pub result : N
  pub str : Addr
  pub overflow : Bool

abbrev pub reading : {N : Type 0} → N → Addr → Bool → Reading N
reading n s o = record { result = n; str = s; overflow = o }

-- The loop of read_pos_int, in the 64 bits of an uintmax_t.
unfoldable pub read_pos_loop : ℕ → Bool → Mem → ℕ → ℕ → ℕ → Addr → Res (Reading ℕ)
read_pos_loop zero signed m max base n s = out_of_fuel
read_pos_loop (suc fuel) signed m max base n s = do
  c ← load m s
  on_option (to_base_n base (char_value signed c)) (ok (reading n s false)) (λ d.
      let next = read_pos_loop fuel signed m max base ((n * base + d) % 2 ^ 64) (s + 1) in
      if ltb n (max / base) || (n == max / base && leb d (max % base))
      then next
      else do s' ← skip_digits fuel signed m base (s + 1); ok (reading max s' true))

unfoldable pub read_pos_int : ℕ → Bool → Mem → ℕ → ℕ → Addr → Res (Reading ℕ)
read_pos_int fuel signed m max base str = read_pos_loop fuel signed m max base 0 str

-- Signed division and remainder by a positive number, truncated towards zero.
abbrev pub quot : ℤ → ℕ → ℤ
quot (pos n) b = pos (n / b)
quot (negsuc n) b = minus (suc n / b)

abbrev pub rem : ℤ → ℕ → ℤ
rem (pos n) b = pos (n % b)
rem (negsuc n) b = minus (suc n % b)

-- The loop of read_neg_int. An intmax_t is a ℤ; the theorems show that it stays in range.
unfoldable pub read_neg_loop : ℕ → Bool → Mem → ℤ → ℕ → ℤ → Addr → Res (Reading ℤ)
unfolding ◌+ℤ◌ ◌-ℤ◌ ◌*ℤ◌
read_neg_loop zero signed m max base n s = out_of_fuel
read_neg_loop (suc fuel) signed m max base n s = do
  c ← load m s
  on_option (to_base_n base (char_value signed c)) (ok (reading n s false)) (λ d.
      let next = read_neg_loop fuel signed m max base (n *ℤ pos base -ℤ pos d) (s + 1) in
      if ltb_ℤ (quot max base) n
        || (eqb_ℤ n (quot max base) && leb_ℤ (pos d) (rem max base *ℤ negsuc 0))
      then next
      else do s' ← skip_digits fuel signed m base (s + 1); ok (reading max s' true))

unfoldable pub read_neg_int : ℕ → Bool → Mem → ℤ → ℕ → Addr → Res (Reading ℤ)
read_neg_int fuel signed m max base str = read_neg_loop fuel signed m max base (pos 0) str

-- ATOI(MAX, MIN): the body of atoi, atol and atoll at their limits.
unfoldable pub atoi : ℕ → Bool → (max : ℕ) (min : ℤ) → Mem → Addr → Res ℤ
atoi fuel signed max min m str = do
  (sign, s) ← atoi_start fuel signed m str
  elim sign [
    | positive ↦ do
      r ← read_pos_int fuel signed m max 10 s
      ok (if r.overflow then pos 0 else pos r.result)
    | _ ↦ do r ← read_neg_int fuel signed m min 10 s; ok (if r.overflow then pos 0 else r.result)
  ]

pub data Errno : Type 0 where
  unchanged einval erange : Errno

-- What a call of the strtol family gives: the value, `*str_end` (`none` where it is not written) and
-- errno.
pub record Strto (N : Type 0) : Type 0 where
  pub value : N
  pub str_end : Option Addr
  pub errno : Errno

-- STRTOL(MAX, MIN): the body of strtol, strtoll and strtoimax at their limits.
unfoldable pub strtol : ℕ → Bool → (max : ℕ) (min : ℤ) → Mem → Addr → ℤ → Res (Strto ℤ)
strtol fuel signed max min m str base = do
  (sign, s, b) ← strto_start fuel signed m str base
  elim sign [
    | error ↦ ok (record { value = pos 0; str_end = none; errno = einval })
    | positive ↦ do
      r ← read_pos_int fuel signed m max b s
      ok (record {
        value = pos r.result;
        str_end = some r.str;
        errno = if r.overflow then erange else unchanged;
      })
    | negative ↦ do
      r ← read_neg_int fuel signed m min b s
      ok (record {
        value = r.result;
        str_end = some r.str;
        errno = if r.overflow then erange else unchanged;
      })
  ]

-- STRTOUL(MAX): the body of strtoul, strtoull and strtoumax. A negated value wraps in 64 bits.
unfoldable pub strtoul : ℕ → Bool → (max : ℕ) → Mem → Addr → ℤ → Res (Strto ℕ)
strtoul fuel signed max m str base = do
  (sign, s, b) ← strto_start fuel signed m str base
  let read = do
    r ← read_pos_int fuel signed m max b s
    let negate : Bool = elim sign [ negative ↦ not r.overflow | _ ↦ false ]
    ok (record {
      value = if negate then (2 ^ 64 - r.result) % 2 ^ 64 else r.result;
      str_end = some r.str;
      errno = if r.overflow then erange else unchanged;
    })
  elim sign [ error ↦ ok (record { value = 0; str_end = none; errno = einval }) | _ ↦ read ]
