-- ===== src/Threads.antt =====
-- src/threads.c: the object of a thread and its references. Each operation is one step under the
-- object's spinlock. A use of the object after it was freed, a second free and a failed assertion are
-- faults. The counter is a signed char, which is a ℤ here: the theorems show that it stays from 0 to 2.
pub mod Refs
use libdeepc.Base.{
  ℕ, zero, suc, ◌+◌, ◌-◌, ◌*◌, ◌/◌, ◌%◌, ◌^◌, ◌≤◌, ◌<◌, ◌≡◌, refl, sym, ap, ◌∙◌, fun_ext, subst,
  ◌≢◌, ◌↔◌, ◌⊎◌, inl, inr, Bool, true, false, not, ◌&&◌, ◌||◌, Option, none, some, List, [], ◌∷◌,
  ◌++◌, map, arith, dec_lt, dec_le, ℕ_discrete, ltb, leb, ◌==◌, if◌then◌else◌, ltb→lt, lt→ltb,
  ==_iff, ==_refl, Bool-cases, Option-cases, length, get_elem?, set, replicate, take, drop, All,
  length-append, length-set, length-replicate, get_elem?-set_self, get_elem?-set_ne, get_elem?-lt,
  ℤ, pos, negsuc, pos_part, neg_part, sub_ℕ, minus, ◌+ℤ◌, ◌-ℤ◌, ◌*ℤ◌, ◌≤ℤ◌, leb_ℤ, ltb_ℤ, eqb_ℤ,
  Res, ok, fault, out_of_fuel, ◌>>=◌, on_option, lt_wf,
}
use libdeepc.Memory.{Addr, null}

-- struct __thrd_t_object, and whether it and its stack are freed.
pub record Thrd : Type 0 where
  pub refs : ℤ
  pub result : ℤ
  pub is_freed : Bool
  pub is_stack_freed : Bool

-- create_thrd_t, where malloc gives `block`; `garbage` is what stands in its memory.
unfoldable pub create_thrd_t : Addr → ℤ → Option Thrd
create_thrd_t block garbage =
    if block == null
    then none
    else some (record { refs = pos 2; result = garbage; is_freed = false; is_stack_freed = false })

unfoldable pub free_thrd_t : Thrd → Bool → Res Thrd
free_thrd_t thr free_stack =
    if thr.is_freed || (free_stack && thr.is_stack_freed)
    then fault
    else ok (record {
      refs = thr.refs;
      result = thr.result;
      is_freed = true;
      is_stack_freed = free_stack || thr.is_stack_freed;
    })

-- thrd_exit_with_thr, behind the destructors.
unfoldable pub thrd_exit_with_thr : ℤ → Thrd → Res Thrd
thrd_exit_with_thr ret thr =
    if thr.is_freed
    then fault
    else if eqb_ℤ thr.refs (pos 1)
    then free_thrd_t thr false
    else if eqb_ℤ thr.refs (pos 2)
    then ok (record {
      refs = thr.refs -ℤ pos 1;
      result = ret;
      is_freed = thr.is_freed;
      is_stack_freed = thr.is_stack_freed;
    })
    else fault

unfoldable pub thrd_detach : Thrd → Res Thrd
thrd_detach thr =
    let thr' : Thrd = record {
      refs = thr.refs -ℤ pos 1;
      result = thr.result;
      is_freed = thr.is_freed;
      is_stack_freed = thr.is_stack_freed;
    } in
    if thr.is_freed
    then fault
    else if eqb_ℤ thr'.refs (pos 0)
    then free_thrd_t thr' true
    else if eqb_ℤ thr'.refs (pos 1)
    then ok thr'
    else fault

-- One round of the loop of thrd_join: `none` where it has to wait, else the result.
unfoldable pub thrd_join : Thrd → Res (Option (ℤ × Thrd))
thrd_join thr =
    let leave = (do thr' ← free_thrd_t thr true; ok (some (thr.result, thr'))) in
    if thr.is_freed
    then fault
    else if eqb_ℤ thr.refs (pos 2)
    then ok none
    else if eqb_ℤ thr.refs (pos 1)
    then leave
    else fault

-- The thread runs or has exited with a result. Its creator holds it, waits in thrd_join, has detached
-- it or has joined it with a result.
pub data Child : Type 0 where
  running : Child
  exited : ℤ → Child

pub data Parent : Type 0 where
  holding joining detached : Parent
  joined : ℤ → Parent

pub data Step : Thrd → Child → Parent → Thrd → Child → Parent → Type 0 where
  exits :
      {t t' : Thrd} {p : Parent} (ret : ℤ)
      → thrd_exit_with_thr ret t ≡ ok t'
      → Step t running p t' (exited ret) p
  detaches : {t t' : Thrd} {c : Child} → thrd_detach t ≡ ok t' → Step t c holding t' c detached
  joins : {t : Thrd} {c : Child} → Step t c holding t c joining
  waits : {t : Thrd} {c : Child} → thrd_join t ≡ ok none → Step t c joining t c joining
  returns :
      {t t' : Thrd} {c : Child} {res : ℤ}
      → thrd_join t ≡ ok (some (res, t'))
      → Step t c joining t' c (joined res)

pub data Reachable : Thrd → Child → Parent → Type 0 where
  start :
      {t : Thrd} (block : Addr) (garbage : ℤ)
      → create_thrd_t block garbage ≡ some t
      → Reachable t running holding
  step :
      {t t' : Thrd} {c c' : Child} {p p' : Parent}
      → Reachable t c p
      → Step t c p t' c' p'
      → Reachable t' c' p'
