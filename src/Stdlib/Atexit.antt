-- ===== src/Stdlib/Atexit.antt =====
-- src/stdlib.c: atexit, at_quick_exit and the order in which exit and quick_exit run what they hold. A
-- function is a value of any type; the tables have a fixed size and no function is called by atexit.
use mathlib.Core.List.{reverse, reverse-append}
use native.Mathlib.Numerals.{add-one}
use libdeepc.Base.{
  ℕ, zero, suc, ◌+◌, ◌≤◌, ◌<◌, ◌≡◌, refl, ap, ◌∙◌, false, some, List, [], ◌∷◌, ◌++◌, arith, ◌==◌,
  if◌then◌else◌, length, get_elem?, set, take, length-append, length-set, get_elem?-set_self,
  get_elem?-lt, Res, ok, fault, ◌>>=◌, on_option,
}

-- AT_EXIT_FUNCS
abbrev pub at_exit_funcs_max : ℕ
at_exit_funcs_max = 32

-- A table of functions and how many of its slots are taken.
pub record Table (F : Type 0) : Type 0 where
  pub funcs : List F
  pub cur : ℕ

module _ {F : Type 0} where
  -- atexit, and at_quick_exit on its own table: the result and the table.
  unfoldable pub atexit : Table F → F → ℕ × Table F
  atexit t func =
      if t.cur == at_exit_funcs_max
      then (1, t)
      else (0, record { funcs = set t.funcs t.cur func; cur = t.cur + 1 })

  -- The functions that run_exit_funcs calls, in order; a slot outside the table is a fault.
  unfoldable pub run_exit_funcs : List F → ℕ → Res (List F)
  run_exit_funcs fns zero = ok []
  run_exit_funcs fns (suc entries) =
      on_option (get_elem? fns entries) fault
        (λ f. do rest ← run_exit_funcs fns entries; ok (f ∷ rest))

  -- What exit and quick_exit call before the process ends.
  unfoldable pub exit : Table F → Res (List F)
  exit t = run_exit_funcs t.funcs t.cur

  unfoldable pub quick_exit : Table F → Table F → Res (List F)
  quick_exit quick t = do
    before ← run_exit_funcs quick.funcs quick.cur
    after ← exit t
    ok (before ++ after)

  -- The table holds the functions `fs`, in the order in which they were registered.
  pub record IsRegistered (t : Table F) (fs : List F) : Type 0 where
    pub size : length t.funcs ≡ at_exit_funcs_max
    pub count : t.cur ≡ length fs
    pub fits : t.cur ≤ at_exit_funcs_max
    pub slots : take t.cur t.funcs ≡ fs

  set-take : (xs : List F) (k n : ℕ) (v : F) → n ≤ k → take n (set xs k v) ≡ take n xs
  set-take xs k zero v h = refl
  set-take [] k (suc n) v h = refl
  set-take (x ∷ xs) zero (suc n) v h = absurd (omega arith)
  set-take (x ∷ xs) (suc k) (suc n) v h = ap (λ t. x ∷ t) (set-take xs k n v (omega arith))

  take-suc :
      (xs : List F) (n : ℕ) {v : F}
      → get_elem? xs n ≡ some v
      → take (suc n) xs ≡ take n xs ++ v ∷ []
  take-suc [] n e = cc
  take-suc (x ∷ xs) zero e = ground arith
  take-suc (x ∷ xs) (suc n) e = ap (λ t. x ∷ t) (take-suc xs n e)

  run_exit_funcs-reverse :
      (fns : List F) (n : ℕ) → n ≤ length fns → run_exit_funcs fns n ≡ ok (reverse (take n fns))
  unfolding run_exit_funcs
  run_exit_funcs-reverse fns zero h = refl
  run_exit_funcs-reverse fns (suc n) h =
      let (v, e) = get_elem?-lt fns n h in
      rw
        (
          e,
          run_exit_funcs-reverse fns n (omega arith),
          take-suc fns n e,
          reverse-append (take n fns) (v ∷ []),
        )
        refl

  registered :
      (t : Table F) (fs : List F) (f : F)
      → IsRegistered t fs
      → length fs < at_exit_funcs_max
      → IsRegistered (record { funcs = set t.funcs t.cur f; cur = t.cur + 1 }) (fs ++ f ∷ [])
  registered t fs f r h =
      let new = get_elem?-set_self t.funcs t.cur f (omega (arith, r.size, r.count)) in
      record {
        size = length-set t.funcs t.cur f ∙ r.size;
        count = omega (arith, r.count, length-append fs (f ∷ []));
        fits = omega (arith, r.count);
        slots =
            ap (λ n. take n (set t.funcs t.cur f)) (add-one t.cur)
            ∙ take-suc (set t.funcs t.cur f) t.cur new
            ∙ ap (λ l. l ++ f ∷ []) (set-take t.funcs t.cur t.cur f (omega arith) ∙ r.slots);
      }

  -- atexit on a table with a free slot returns 0 and registers the function behind the others; on a
  -- full table it returns 1 and changes nothing. Either way the table stays in order.
  pub atexit-IsRegistered :
      (t : Table F) (fs : List F) (f : F)
      → IsRegistered t fs
      → ((length fs < at_exit_funcs_max)
          → ((atexit t f).0 ≡ 0) × IsRegistered (atexit t f).1 (fs ++ f ∷ []))
        × ((length fs ≡ at_exit_funcs_max) → atexit t f ≡ (1, t))
  unfolding atexit
  atexit-IsRegistered t fs f r = (
    λ h.
        (let e : (t.cur == 32) ≡ false = ground (arith, r.count) in
          rw e (refl, registered t fs f r h)),
    λ h. ground (arith, r.count),
  )

  -- exit runs the registered functions, each once, in the reverse of the order in which they were
  -- registered, and quick_exit runs its own table so before it exits.
  pub exit-reverse :
      (t quick : Table F) (fs qs : List F)
      → IsRegistered t fs
      → IsRegistered quick qs
      → (exit t ≡ ok (reverse fs)) × (quick_exit quick t ≡ ok (reverse qs ++ reverse fs))
  unfolding exit quick_exit
  exit-reverse t quick fs qs r q =
      let a = run_exit_funcs-reverse t.funcs t.cur (omega (arith, r.size, r.fits)) in
      let b = run_exit_funcs-reverse quick.funcs quick.cur (omega (arith, q.size, q.fits)) in
      (rw (a, r.slots) refl, rw (b, a, r.slots, q.slots) refl)
