-- ===== src/Tests/Image.antt =====
-- A memory for tests: the addresses 1 to 63 are mapped, and hold the given bytes from 1 on and then
-- NULs.
use libdeepc.Base.{ℕ, zero, suc, none, some, List, [], ◌∷◌, ltb, if◌then◌else◌}
use libdeepc.Memory.{Mem}

abbrev get_or : List ℕ → ℕ → ℕ
get_or [] i = 0
get_or (x ∷ xs) zero = x
get_or (x ∷ xs) (suc i) = get_or xs i

abbrev pub image : List ℕ → Mem
image bs zero = none
image bs (suc a) = if ltb a 63 then some (get_or bs a) else none
