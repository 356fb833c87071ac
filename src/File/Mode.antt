-- ===== src/File/Mode.antt =====
-- src/file.c: what parse_mode accepts, and what it makes of it.
use libdeepc.Base.{
  ℕ, zero, suc, ◌+◌, ◌<◌, ◌≡◌, refl, ap, ◌∙◌, subst, inl, inr, Bool, true, false, Option, none,
  some, List, [], ◌∷◌, arith, ◌==◌, if◌then◌else◌, Bool-cases, Option-cases, length, ok, on_option,
}
use libdeepc.Memory.{Mem, Addr}
use libdeepc.Memory.Block.{load-ok}
use libdeepc.Memory.Text.{CString}
use libdeepc.File.{
  write_access, ParseMode, is_none, is_read, is_write, is_append, parse_char, parse_loop,
  parse_mode, mode_start,
}

abbrev pub bit : Bool → ℕ
bit true = 1
bit false = 0

unfoldable pub count_byte : ℕ → List ℕ → ℕ
count_byte c [] = 0
count_byte c (x ∷ xs) = bit (x == c) + count_byte c xs

-- The loop on the bytes of the string.
unfoldable pub parse_all : ParseMode → Bool → List ℕ → Option ParseMode
parse_all info auto [] = if is_none info.access then none else some info
parse_all info auto (c ∷ s) =
    on_option (parse_char info auto c) none (λ info'. parse_all info' auto s)

parse_loop-all :
    (fuel : ℕ) (m : Mem) (p : Addr) (auto : Bool) (info : ParseMode) (s : List ℕ)
    → CString m p s
    → length s < fuel
    → parse_loop fuel m p auto info ≡ ok (parse_all info auto s)
unfolding parse_loop parse_all
parse_loop-all zero m p auto info s h lt = absurd (omega arith)
parse_loop-all (suc fuel) m p auto info [] h lt = rw (load-ok m p h) refl
parse_loop-all (suc fuel) m p auto info (c ∷ s) h lt =
    let nz : (c == 0) ≡ false = ground (arith, h.1) in
    elim (Option-cases (parse_char info auto c)) [
      | inl e ↦ rw (load-ok m p h.0, nz, e) refl
      | inr (i, e) ↦
          rw (load-ok m p h.0, nz, e) (parse_loop-all fuel m (p + 1) auto i s h.2 (omega arith))
    ]

module _ (info i : ParseMode) (auto : Bool) (c : ℕ) (h : parse_char info auto c ≡ some i) where
  step_plus : bit i.plus_flag ≡ bit info.plus_flag + bit (c == b'+')
  unfolding parse_char
  step_plus = ground arith

  step_b : bit i.flag_b ≡ bit info.flag_b + bit (c == b'b')
  unfolding parse_char
  step_b = ground arith

  step_e : bit i.flag_e ≡ bit info.flag_e + bit (c == b'e')
  unfolding parse_char
  step_e = ground arith

  step_u : bit i.flag_u ≡ bit info.flag_u + bit (c == b'u')
  unfolding parse_char
  step_u = ground arith

  step_x : bit i.flag_x ≡ bit info.flag_x + bit (c == b'x')
  unfolding parse_char
  step_x = ground arith

  step_read : bit (is_read i.access) ≡ bit (is_read info.access) + bit (c == b'r')
  unfolding parse_char
  step_read = ground arith

  step_writes : bit (is_write i.access) ≡ bit (is_write info.access) + bit (c == b'w')
  unfolding parse_char
  step_writes = ground arith

  step_append : bit (is_append i.access) ≡ bit (is_append info.access) + bit (c == b'a')
  unfolding parse_char
  step_append = ground arith

  step_write :
      ((info.flag_x ≡ true) → info.access ≡ write_access)
      → (i.flag_x ≡ true)
      → i.access ≡ write_access
  unfolding parse_char
  step_write = ground arith

-- A run that accepts is a step, or the end.
parse_all-cons :
    (info i : ParseMode) (auto : Bool) (c : ℕ) (s : List ℕ)
    → parse_all info auto (c ∷ s) ≡ some i
    → (k : ParseMode) × (parse_char info auto c ≡ some k) × (parse_all k auto s ≡ some i)
unfolding parse_all
parse_all-cons info i auto c s h = elim (Option-cases (parse_char info auto c)) [
  | inl e ↦ absurd (let q : none ≡ some i = rw e at h in cc)
  | inr (k, e) ↦ (k, e, (let q : parse_all k auto s ≡ some i = rw e at h in q))
]

parse_all-nil :
    (info i : ParseMode) (auto : Bool)
    → parse_all info auto [] ≡ some i
    → (info ≡ i) × (is_none info.access ≡ false)
unfolding parse_all
parse_all-nil info i auto h = elim (Bool-cases (is_none info.access)) [
  | inl e ↦ absurd (let q : none ≡ some i = rw e at h in cc)
  | inr e ↦ (let q : some info ≡ some i = rw e at h in (cc), e)
]

-- A field that one byte sets, at most once.
module _ (field : ParseMode → ℕ) (b : ℕ → ℕ) (auto : Bool)
    (step : (info i : ParseMode) (c : ℕ)
      → parse_char info auto c ≡ some i
      → field i ≡ field info + b c) where
  abbrev total : List ℕ → ℕ
  total [] = 0
  total (c ∷ s) = b c + total s

  counted :
      (info i : ParseMode) (s : List ℕ)
      → parse_all info auto s ≡ some i
      → field i ≡ field info + total s
  counted info i [] h = let e = (parse_all-nil info i auto h).0 in rw (← e) (omega arith)
  counted info i (c ∷ s) h =
      let (k, e, rest) = parse_all-cons info i auto c s h in
      omega (arith, step info k c e, counted k i s rest)

written :
    (auto : Bool) (info i : ParseMode) (s : List ℕ)
    → parse_all info auto s ≡ some i
    → ((info.flag_x ≡ true) → info.access ≡ write_access)
    → ((i.flag_x ≡ true) → i.access ≡ write_access) × (is_none i.access ≡ false)
written auto info i [] h w =
    let (e, n) = parse_all-nil info i auto h in
    subst
      (λ (t : ParseMode).
        ((t.flag_x ≡ true) → t.access ≡ write_access) × (is_none t.access ≡ false))
      e (w, n)
written auto info i (c ∷ s) h w =
    let (k, e, rest) = parse_all-cons info i auto c s h in
    written auto k i s rest (step_write info k auto c e w)

-- What an accepted mode string says: each letter sets its flag and stands at most once (no `u` where
-- the flag is set from the start), just one access letter stands there, and `x` asks for `w`.
pub record Accepted (auto : Bool) (s : List ℕ) (i : ParseMode) : Type 0 where
  pub plus : bit i.plus_flag ≡ count_byte b'+' s
  pub binary : bit i.flag_b ≡ count_byte b'b' s
  pub cloexec : bit i.flag_e ≡ count_byte b'e' s
  pub umask : bit i.flag_u ≡ bit auto + count_byte b'u' s
  pub exclusive : bit i.flag_x ≡ count_byte b'x' s
  pub read_letter : bit (is_read i.access) ≡ count_byte b'r' s
  pub write_letter : bit (is_write i.access) ≡ count_byte b'w' s
  pub append_letter : bit (is_append i.access) ≡ count_byte b'a' s
  pub one_access : is_none i.access ≡ false
  pub exclusive_write : (i.flag_x ≡ true) → i.access ≡ write_access

total-count :
    (b : ℕ) (s : List ℕ)
    → (t : List ℕ → ℕ) → t [] ≡ 0
    → ((c : ℕ) (r : List ℕ) → t (c ∷ r) ≡ bit (c == b) + t r)
    → t s ≡ count_byte b s
unfolding count_byte
total-count b [] t z n = z
total-count b (c ∷ s) t z n = n c s ∙ ap (λ k. bit (c == b) + k) (total-count b s t z n)

-- A flag that the byte `b` sets, at most once.
field_count :
    (field : ParseMode → ℕ) (b : ℕ) (auto : Bool)
    → ((info i : ParseMode) (c : ℕ)
        → parse_char info auto c ≡ some i
        → field i ≡ field info + bit (c == b))
    → (info i : ParseMode) (s : List ℕ) → parse_all info auto s ≡ some i
    → field i ≡ field info + count_byte b s
field_count field b auto step info i s h =
    counted field (λ c. bit (c == b)) auto step info i s h
    ∙ ap (λ k. field info + k)
        (total-count b s (total field (λ c. bit (c == b)) auto step) refl (λ c r. refl))

parse_all-Accepted :
    (auto : Bool) (s : List ℕ) (i : ParseMode)
    → parse_all (mode_start auto) auto s ≡ some i
    → Accepted auto s i
parse_all-Accepted auto s i h =
    let start = mode_start auto in
    let w = written auto start i s h (λ e. absurd (cc)) in
    record {
      plus = omega (
        arith,
        field_count (λ t. bit t.plus_flag) b'+' auto (λ f k c e. step_plus f k auto c e) start i s
            h,
      );
      binary = omega (
        arith,
        field_count (λ t. bit t.flag_b) b'b' auto (λ f k c e. step_b f k auto c e) start i s h,
      );
      cloexec = omega (
        arith,
        field_count (λ t. bit t.flag_e) b'e' auto (λ f k c e. step_e f k auto c e) start i s h,
      );
      umask =
          field_count (λ t. bit t.flag_u) b'u' auto (λ f k c e. step_u f k auto c e) start i s h;
      exclusive = omega (
        arith,
        field_count (λ t. bit t.flag_x) b'x' auto (λ f k c e. step_x f k auto c e) start i s h,
      );
      read_letter = omega (
        arith,
        field_count (λ t. bit (is_read t.access)) b'r' auto (λ f k c e. step_read f k auto c e)
            start i s h,
      );
      write_letter = omega (
        arith,
        field_count (λ t. bit (is_write t.access)) b'w' auto (λ f k c e. step_writes f k auto c e)
            start i s h,
      );
      append_letter = omega (
        arith,
        field_count (λ t. bit (is_append t.access)) b'a' auto (λ f k c e. step_append f k auto c e)
            start i s h,
      );
      one_access = w.1;
      exclusive_write = w.0;
    }

-- parse_mode on a string, with more fuel than bytes, ends without a fault. Where it accepts, each of
-- the letters + b e x stands at most once and sets its flag, as does u unless its flag is set from
-- the start, in which case the string has none; just one of the letters r w a stands there and gives
-- the access mode; and x goes with w.
pub parse_mode-Accepted :
    (fuel : ℕ) (m : Mem) (p : Addr) (auto : Bool) (s : List ℕ)
    → CString m p s
    → length s < fuel
    → (r : Option ParseMode) × (parse_mode fuel m p auto ≡ ok r)
      × ((i : ParseMode) → r ≡ some i → Accepted auto s i)
unfolding parse_mode
parse_mode-Accepted fuel m p auto s h lt = (
  parse_all (mode_start auto) auto s,
  parse_loop-all fuel m p auto (mode_start auto) s h lt,
  λ i e. parse_all-Accepted auto s i e,
)
