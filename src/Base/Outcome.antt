-- ===== src/Base/Outcome.antt =====
-- What a run of C code gives: a value, a fault (an access to memory that is not there), or the end
-- of the fuel of a loop that has no bound of its own.

use mathlib.Core.Option.{Option, none, some}

pub data Res {ℓ} (A : Type ℓ) : Type ℓ where
  ok : A → Res A
  fault : Res A
  out_of_fuel : Res A

infixl 5 ◌>>=◌
abbrev pub ◌>>=◌ {ℓ κ} : {A : Type ℓ} {B : Type κ} → Res A → (A → Res B) → Res B
ok a >>= f = f a
fault >>= f = fault
out_of_fuel >>= f = out_of_fuel

-- A split on an optional value.
abbrev pub on_option {ℓ κ} : {A : Type ℓ} {B : Type κ} → Option A → B → (A → B) → B
on_option none b f = b
on_option (some a) b f = f a
