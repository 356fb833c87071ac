-- ===== src/Tests/Locks.antt =====
-- src/spinlock.c: the thread 3 has come to the lock and taken it.
use libdeepc.Base.{refl, false}
use libdeepc.Spinlock.{
  LockState, init, move, waiting, lock_round, enter, round, start, step, Exclusive,
  Reachable-Exclusive,
}

abbrev came : LockState
came = record { flag = false; position = move init.position 3 waiting }

Reachable-Exclusive_example : Exclusive (lock_round came 3)
Reachable-Exclusive_example = Reachable-Exclusive (step (step start (enter 3 refl)) (round 3 refl))
