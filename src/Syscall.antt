-- ===== src/Syscall.antt =====
-- src/syscall.c: what a system call returns. A raw call gives an int64_t, where -4095 to -1 are errors.
use libdeepc.Base.{
  ℕ, ◌-◌, ◌%◌, ◌^◌, ◌≡◌, refl, Bool, false, Option, none, some, arith, ltb, if◌then◌else◌, ℤ, pos,
  negsuc, ◌-ℤ◌, ◌≤ℤ◌,
}

-- (uint64_t)ret
abbrev pub as_uint64 : ℤ → ℕ
as_uint64 (pos n) = n % 2 ^ 64
as_uint64 (negsuc n) = 2 ^ 64 - 1 - n % 2 ^ 64

-- The result, and what errno is set to.
unfoldable pub syscall_chk_err : ℤ → ℤ × Option ℤ
syscall_chk_err ret =
    if ltb (2 ^ 64 - 4096) (as_uint64 ret) then (negsuc 0, some (pos 0 -ℤ ret)) else (ret, none)

-- __syscall0 to __syscall5, with the arguments as one value.
unfoldable pub syscall : {A : Type 0} → (A → ℤ) → A → ℤ × Option ℤ
syscall raw a = syscall_chk_err (raw a)

-- The errors of a raw call.
abbrev pub is_error : ℤ → Bool
is_error (pos n) = false
is_error (negsuc n) = ltb n 4095

checked :
    (ret : ℤ)
    → negsuc (2 ^ 63 - 1) ≤ℤ ret
    → ret ≤ℤ pos (2 ^ 63 - 1)
    → syscall_chk_err ret ≡ (if is_error ret then (negsuc 0, some (pos 0 -ℤ ret)) else (ret, none))
unfolding syscall_chk_err
checked (pos n) low high =
    let q : ltb (2 ^ 64 - 4096) (n % 2 ^ 64) ≡ false = ground (arith, high) in rw q refl
checked (negsuc n) low high =
    let q : ltb (2 ^ 64 - 4096) (2 ^ 64 - 1 - n % 2 ^ 64) ≡ ltb n 4095 = ground (arith, low) in
    rw q refl

-- A system call whose raw result is an int64_t gives -1 and sets errno to the negated result exactly
-- where that is from -4095 to -1; else it gives the result and leaves errno.
pub syscall-errors :
    {A : Type 0} (raw : A → ℤ) (a : A)
    → negsuc (2 ^ 63 - 1) ≤ℤ raw a
    → raw a ≤ℤ pos (2 ^ 63 - 1)
    → syscall raw a
      ≡ (if is_error (raw a) then (negsuc 0, some (pos 0 -ℤ raw a)) else (raw a, none))
unfolding syscall
syscall-errors raw a low high = checked (raw a) low high
