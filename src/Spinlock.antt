-- ===== src/Spinlock.antt =====
-- src/spinlock.c, src/mtx.c: the lock, as the steps of any number of threads. One step of a thread is
-- one atomic operation on the flag, which is what atomic_flag_test_and_set and atomic_flag_clear are.
use libdeepc.Base.{
  ℕ, ◌≡◌, refl, inl, inr, Bool, true, false, arith, ◌==◌, if◌then◌else◌, Bool-cases,
}

-- Where a thread stands: outside, in the loop of __spinlock_lock, or behind it.
pub data Position : Type 0 where
  outside waiting inside : Position

pub record LockState : Type 0 where
  pub flag : Bool
  pub position : ℕ → Position

abbrev pub move : (ℕ → Position) → ℕ → Position → ℕ → Position
move pc t p u = if u == t then p else pc u

-- One round of the loop of __spinlock_lock: test and set, and leave the loop if the flag was clear.
unfoldable pub lock_round : LockState → ℕ → LockState
lock_round s t = record {
  flag = true;
  position = if s.flag then s.position else move s.position t inside;
}

-- __spinlock_unlock
unfoldable pub unlock : LockState → ℕ → LockState
unlock s t = record { flag = false; position = move s.position t outside }

-- __spinlock_init, before any thread uses the lock.
abbrev pub init : LockState
init = record { flag = false; position = λ t. outside }

pub data Step (s : LockState) : LockState → Type 0 where
  enter :
      (t : ℕ)
      → s.position t ≡ outside
      → Step s (record { flag = s.flag; position = move s.position t waiting })
  round : (t : ℕ) → s.position t ≡ waiting → Step s (lock_round s t)
  leave : (t : ℕ) → s.position t ≡ inside → Step s (unlock s t)

pub data Reachable : LockState → Type 0 where
  start : Reachable init
  step : {s s' : LockState} → Reachable s → Step s s' → Reachable s'

-- Whoever is inside has the flag, no other thread is inside, and a set flag has a thread inside.
pub record Exclusive (s : LockState) : Type 0 where
  pub held : (t : ℕ) → s.position t ≡ inside → s.flag ≡ true
  pub alone : (t u : ℕ) → s.position t ≡ inside → s.position u ≡ inside → t ≡ u
  pub taken : s.flag ≡ true → (t : ℕ) × (s.position t ≡ inside)

enter-Exclusive :
    (s : LockState) (t : ℕ)
    → s.position t ≡ outside
    → Exclusive s
    → Exclusive (record { flag = s.flag; position = move s.position t waiting })
enter-Exclusive s t here inv = record {
  held = λ u h. ground (arith, h, inv.held u);
  alone = λ u v h k. ground (arith, h, k, inv.alone u v);
  taken = λ f. let (u, h) = inv.taken f in (u, ground (arith, h, here));
}

round-taken :
    (s : LockState) (t : ℕ) → Exclusive s → (u : ℕ) × ((lock_round s t).position u ≡ inside)
unfolding lock_round
round-taken s t inv = elim (Bool-cases s.flag) [
  | inl f ↦ let (u, h) = inv.taken f in (u, ground (arith, h, f))
  | inr f ↦ (t, ground (arith, f))
]

round-Exclusive : (s : LockState) (t : ℕ) → Exclusive s → Exclusive (lock_round s t)
unfolding lock_round
round-Exclusive s t inv = record {
  held = λ u h. refl;
  alone = λ u v h k. ground (arith, h, k, inv.alone u v, inv.held u, inv.held v);
  taken = λ f. round-taken s t inv;
}

leave-Exclusive :
    (s : LockState) (t : ℕ) → s.position t ≡ inside → Exclusive s → Exclusive (unlock s t)
unfolding unlock
leave-Exclusive s t here inv = record {
  held = λ u h. ground (arith, h, here, inv.alone u t);
  alone = λ u v h k. ground (arith, h, k, inv.alone u v);
  taken = λ f. absurd (ground (arith, f));
}

Step-Exclusive : {s s' : LockState} → Step s s' → Exclusive s → Exclusive s'
Step-Exclusive {s} (enter t h) inv = enter-Exclusive s t h inv
Step-Exclusive {s} (round t h) inv = round-Exclusive s t inv
Step-Exclusive {s} (leave t h) inv = leave-Exclusive s t h inv

-- In every state that any number of threads can reach, in any order of their steps, at most one thread
-- is behind the loop of __spinlock_lock; the flag is set while it is there, and only then.
pub Reachable-Exclusive : {s : LockState} → Reachable s → Exclusive s
Reachable-Exclusive start = record {
  held = λ t h. ground (arith, h);
  alone = λ t u h k. ground (arith, h);
  taken = λ f. absurd (ground (arith, f));
}
Reachable-Exclusive (step r s) = Step-Exclusive s (Reachable-Exclusive r)
