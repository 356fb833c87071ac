-- ===== src/Tests/Calls.antt =====
-- src/syscall.c: a raw call that gives -2, which is ENOENT.
use libdeepc.Base.{ℕ, ◌≡◌, some, arith, ℤ, pos, negsuc, ◌-ℤ◌}
use libdeepc.Syscall.{syscall, syscall-errors}

abbrev no_entry : ℕ → ℤ
no_entry a = negsuc 1

syscall-errors_example : syscall no_entry 0 ≡ (negsuc 0, some (pos 2))
unfolding ◌-ℤ◌
syscall-errors_example = syscall-errors no_entry 0 (omega arith) (omega arith)
