-- ===== src/Tests/Join.antt =====
-- src/threads.c: a thread is created at 64, its creator waits for it, and it exits with 7.
use libdeepc.Base.{◌≡◌, refl, false, pos}
use libdeepc.Threads.{
  Thrd, create_thrd_t, running, exited, joining, joined, joins, Reachable, start, step,
}
use libdeepc.Threads.Refs.{CanExit, CanRelease, Steps, Reachable-released, joining-returns}

abbrev fresh : Thrd
fresh = record { refs = pos 2; result = pos 0; is_freed = false; is_stack_freed = false }

awaited : Reachable fresh running joining
unfolding create_thrd_t
awaited = step (start 64 (pos 0) refl) joins

Reachable-released_example :
    CanExit fresh running × CanRelease fresh running joining × (fresh.is_freed ≡ false)
Reachable-released_example = Reachable-released awaited

joining-returns_example :
    (t : Thrd) × Steps fresh running joining t (exited (pos 7)) (joined (pos 7))
joining-returns_example = joining-returns awaited (pos 7)
