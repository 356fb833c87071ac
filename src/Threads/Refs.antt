-- ===== src/Threads/Refs.antt =====
-- src/threads.c: in every order of the steps the references are counted right.
use libdeepc.Base.{
  ℕ, ◌≡◌, refl, sym, ap, ◌∙◌, subst, inl, inr, Bool, true, false, none, some, ◌==◌, Bool-cases, ℤ,
  pos, ◌-ℤ◌, ok,
}
use libdeepc.Memory.{null}
use libdeepc.Threads.{
  Thrd, create_thrd_t, free_thrd_t, thrd_exit_with_thr, thrd_detach, thrd_join, Child, running,
  exited, Parent, holding, joining, detached, joined, Step, exits, detaches, joins, waits, returns,
  Reachable, start, step,
}

abbrev Counts : Thrd → ℕ → Type 0
Counts t n = (t.refs ≡ pos n) × (t.is_freed ≡ false) × (t.is_stack_freed ≡ false)

-- How many references are left, what the result is then, and who has freed the object.
abbrev Counted : Thrd → Child → Parent → Type 0
Counted t running holding = Counts t 2
Counted t running joining = Counts t 2
Counted t running detached = Counts t 1
Counted t running (joined r) = ⊥
Counted t (exited r) holding = Counts t 1 × (t.result ≡ r)
Counted t (exited r) joining = Counts t 1 × (t.result ≡ r)
Counted t (exited r) detached = t.is_freed ≡ true
Counted t (exited r) (joined r') = (t.is_freed ≡ true) × (r' ≡ r)

abbrev thrd : ℤ → ℤ → Bool → Bool → Thrd
thrd n r f s = record { refs = n; result = r; is_freed = f; is_stack_freed = s }

pub ok_eq : {A : Type 0} {x y : A} → ok x ≡ ok y → x ≡ y
ok_eq e = cc

module _ (t : Thrd) where
  exit_first : (ret : ℤ) → Counts t 2 → thrd_exit_with_thr ret t ≡ ok (thrd (pos 1) ret false false)
  unfolding thrd_exit_with_thr ◌-ℤ◌
  exit_first ret (n, f, s) = rw (f, n, s) refl

  exit_last :
      (ret : ℤ) → Counts t 1 → thrd_exit_with_thr ret t ≡ ok (thrd (pos 1) t.result true false)
  unfolding thrd_exit_with_thr free_thrd_t
  exit_last ret (n, f, s) = rw (f, n, s) refl

  detach_first : Counts t 2 → thrd_detach t ≡ ok (thrd (pos 1) t.result false false)
  unfolding thrd_detach ◌-ℤ◌
  detach_first (n, f, s) = rw (f, n, s) refl

  detach_last : Counts t 1 → thrd_detach t ≡ ok (thrd (pos 0) t.result true true)
  unfolding thrd_detach free_thrd_t ◌-ℤ◌
  detach_last (n, f, s) = rw (f, n, s) refl

  join_early : Counts t 2 → thrd_join t ≡ ok none
  unfolding thrd_join
  join_early (n, f, s) = rw (f, n) refl

  join_late : Counts t 1 → thrd_join t ≡ ok (some (t.result, thrd (pos 1) t.result true true))
  unfolding thrd_join free_thrd_t
  join_late (n, f, s) = rw (f, n, s) refl

Step-Counted :
    {t t' : Thrd} {c c' : Child} {p p' : Parent}
    → Step t c p t' c' p'
    → Counted t c p
    → Counted t' c' p'
Step-Counted {t} {t'} {p = holding} (exits ret e) inv =
    subst (λ u. Counted u (exited ret) holding) (ok_eq (sym (exit_first t ret inv) ∙ e))
      ((refl, refl, refl), refl)
Step-Counted {t} {t'} {p = joining} (exits ret e) inv =
    subst (λ u. Counted u (exited ret) joining) (ok_eq (sym (exit_first t ret inv) ∙ e))
      ((refl, refl, refl), refl)
Step-Counted {t} {t'} {p = detached} (exits ret e) inv =
    subst (λ u. Counted u (exited ret) detached) (ok_eq (sym (exit_last t ret inv) ∙ e)) refl
Step-Counted {p = joined r} (exits ret e) inv = absurd inv
Step-Counted {t} {c = running} (detaches e) inv =
    subst (λ u. Counted u running detached) (ok_eq (sym (detach_first t inv) ∙ e))
      (refl, refl, refl)
Step-Counted {t} {c = exited r} (detaches e) inv =
    subst (λ u. Counted u (exited r) detached) (ok_eq (sym (detach_last t inv.0) ∙ e)) refl
Step-Counted {c = running} joins inv = inv
Step-Counted {c = exited r} joins inv = inv
Step-Counted (waits e) inv = inv
Step-Counted {t} {c = running} (returns e) inv =
    let q = ok_eq (sym (join_early t inv) ∙ e) in absurd cc
Step-Counted {t} {t'} {c = exited r} (returns {res = res} e) inv =
    let q = ok_eq (sym (join_late t inv.0) ∙ e) in
    let same_t : thrd (pos 1) t.result true true ≡ t' = cc in
    let same_r : t.result ≡ res = cc in
    (subst (λ u. u.is_freed ≡ true) same_t refl, sym same_r ∙ inv.1)

pub Reachable-Counted : {t : Thrd} {c : Child} {p : Parent} → Reachable t c p → Counted t c p
unfolding create_thrd_t
Reachable-Counted {t} (start block garbage e) = elim (Bool-cases (block == null)) [
  | inl z ↦ let q : none ≡ some t = rw z at e in absurd cc
  | inr z ↦
      let q : some (thrd (pos 2) garbage false false) ≡ some t = rw z at e in
      let same : thrd (pos 2) garbage false false ≡ t = cc in
      subst (λ u. Counted u running holding) same (refl, refl, refl)
]
Reachable-Counted (step r s) = Step-Counted s (Reachable-Counted r)

-- What may be run runs without a fault: the exit of a running thread, and a detach or a join by the
-- creator that holds it. A joined thread has exited with the result given. The object is freed when
-- both sides are done with it, and not before.
abbrev pub CanExit : Thrd → Child → Type 0
CanExit t running = (ret : ℤ) → (t' : Thrd) × (thrd_exit_with_thr ret t ≡ ok t')
CanExit t (exited r) = Unit

abbrev pub CanRelease : Thrd → Child → Parent → Type 0
CanRelease t c holding = (t' : Thrd) × (thrd_detach t ≡ ok t')
CanRelease t running joining = thrd_join t ≡ ok none
CanRelease t (exited r) joining = (t' : Thrd) × (thrd_join t ≡ ok (some (r, t')))
CanRelease t c detached = Unit
CanRelease t c (joined r) = c ≡ exited r

abbrev pub is_done : Child → Parent → Bool
is_done running p = false
is_done (exited r) holding = false
is_done (exited r) joining = false
is_done (exited r) detached = true
is_done (exited r) (joined r') = true

can_exit : (t : Thrd) (c : Child) (p : Parent) → Counted t c p → CanExit t c
can_exit t running holding inv = λ ret. (_, exit_first t ret inv)
can_exit t running joining inv = λ ret. (_, exit_first t ret inv)
can_exit t running detached inv = λ ret. (_, exit_last t ret inv)
can_exit t running (joined r) inv = absurd inv
can_exit t (exited r) p inv = tt

can_release : (t : Thrd) (c : Child) (p : Parent) → Counted t c p → CanRelease t c p
can_release t running holding inv = (_, detach_first t inv)
can_release t (exited r) holding inv = (_, detach_last t inv.0)
can_release t running joining inv = join_early t inv
can_release t (exited r) joining (inv, e) =
    (_, join_late t inv ∙ ap (λ (x : ℤ). ok (some (x, thrd (pos 1) t.result true true))) e)
can_release t running detached inv = tt
can_release t (exited r) detached inv = tt
can_release t running (joined r) inv = absurd inv
can_release t (exited r) (joined r') inv = let e = inv.1 in rw e refl

freed-is_done : (t : Thrd) (c : Child) (p : Parent) → Counted t c p → t.is_freed ≡ is_done c p
freed-is_done t running holding inv = inv.1
freed-is_done t running joining inv = inv.1
freed-is_done t running detached inv = inv.1
freed-is_done t running (joined r) inv = absurd inv
freed-is_done t (exited r) holding inv = inv.0.1
freed-is_done t (exited r) joining inv = inv.0.1
freed-is_done t (exited r) detached inv = inv
freed-is_done t (exited r) (joined r') inv = inv.0

-- However the steps of a thread and its creator are ordered: the exit of a running thread and a detach
-- by its creator never fault, thrd_join waits while the thread runs and gives its exit value once it
-- has exited, a joined thread has exited with that value, and the object is freed exactly when both
-- sides are done with it.
pub Reachable-released :
    {t : Thrd} {c : Child} {p : Parent}
    → Reachable t c p
    → CanExit t c × CanRelease t c p × (t.is_freed ≡ is_done c p)
Reachable-released {t} {c} {p} r =
    let inv = Reachable-Counted r in
    (can_exit t c p inv, can_release t c p inv, freed-is_done t c p inv)

pub data Steps : Thrd → Child → Parent → Thrd → Child → Parent → Type 0 where
  finished : {t : Thrd} {c : Child} {p : Parent} → Steps t c p t c p
  next :
      {t t' t'' : Thrd} {c c' c'' : Child} {p p' p'' : Parent}
      → Step t c p t' c' p'
      → Steps t' c' p' t'' c'' p''
      → Steps t c p t'' c'' p''

join_after :
    (t : Thrd) (r : ℤ)
    → Counted t (exited r) joining
    → (t' : Thrd) × Steps t (exited r) joining t' (exited r) (joined r)
join_after t r inv =
    let (t', e) = can_release t (exited r) joining inv in (t', next (returns e) finished)

-- A thread that its creator waits for in thrd_join can always go on, whatever it exits with, to a state
-- where thrd_join has given its exit value.
pub joining-returns :
    {t : Thrd}
    → Reachable t running joining
    → (ret : ℤ) → (t' : Thrd) × Steps t running joining t' (exited ret) (joined ret)
joining-returns {t} r ret =
    let inv = Reachable-Counted r in
    let (t1, e) = can_exit t running joining inv ret in
    let (t', rest) = join_after t1 ret (Step-Counted {p = joining} (exits ret e) inv) in
    (t', next (exits ret e) rest)
