-- ===== src/Tests/Sorting.antt =====
-- src/stdlib.c on numbers, and its tables of exit functions.
use libdeepc.Base.{
  ℕ, zero, suc, ◌≤◌, ◌<◌, ◌≡◌, refl, ◌⊎◌, inl, inr, Option, some, List, [], ◌∷◌, arith, ltb,
  if◌then◌else◌, get_elem?, replicate, ℤ, pos, negsuc, ok,
}
use libdeepc.Stdlib.Sort.{qsort}
use libdeepc.Stdlib.Sort.Order.{IsStrict}
use libdeepc.Stdlib.Sort.Correct.{Sorts, qsort-Sorts}
use libdeepc.Stdlib.Bsearch.{bsearch, IsOrdered, Found, bsearch-Found}
use libdeepc.Stdlib.Atexit.{
  Table, atexit, exit, quick_exit, IsRegistered, at_exit_funcs_max, atexit-IsRegistered,
  exit-reverse,
}

abbrev by_value : ℕ → ℕ → ℤ
by_value a b = if ltb a b then negsuc 0 else if ltb b a then pos 1 else pos 0

by_value-IsStrict : IsStrict by_value
by_value-IsStrict = record {
  irreflexive = λ a. ground arith;
  transitive = λ a b c h k. ground arith;
}

abbrev shuffled : List ℕ
shuffled = 3 ∷ 1 ∷ 2 ∷ 1 ∷ []

qsort-Sorts_example : Sorts by_value shuffled (qsort by_value 5 shuffled)
qsort-Sorts_example = qsort-Sorts by_value by_value-IsStrict 5 shuffled (omega arith)

abbrev sorted : List ℕ
sorted = 2 ∷ 5 ∷ 9 ∷ []

abbrev to_five : ℕ → ℤ
to_five a = by_value a 5

slot :
    (i x : ℕ)
    → get_elem? sorted i ≡ some x
    → ((i ≡ 0) × (x ≡ 2)) ⊎ (((i ≡ 1) × (x ≡ 5)) ⊎ ((i ≡ 2) × (x ≡ 9)))
slot zero x e = inl (refl, cc)
slot (suc zero) x e = inr (inl (refl, cc))
slot (suc (suc zero)) x e = inr (inr (refl, cc))
slot (suc (suc (suc i))) x e = cc

sorted-IsOrdered : IsOrdered to_five sorted
sorted-IsOrdered i j x y lt ei ej =
    let le : x ≤ y = ground (arith, slot i x ei, slot j y ej) in
    (λ h. ground arith, λ h. ground arith)

bsearch-Found_example : (r : Option ℕ) × (bsearch to_five sorted ≡ ok r) × Found to_five sorted r
bsearch-Found_example = bsearch-Found to_five sorted sorted-IsOrdered

-- A table with 7 and 8 registered.
abbrev registered : Table ℕ
registered = record { funcs = 7 ∷ 8 ∷ replicate 30 0; cur = 2 }

registered-IsRegistered : IsRegistered registered (7 ∷ 8 ∷ [])
registered-IsRegistered = record { size = refl; count = refl; fits = omega arith; slots = refl }

atexit-IsRegistered_example :
    ((2 < at_exit_funcs_max)
      → ((atexit registered 9).0 ≡ 0) × IsRegistered (atexit registered 9).1 (7 ∷ 8 ∷ 9 ∷ []))
    × ((2 ≡ at_exit_funcs_max) → atexit registered 9 ≡ (1, registered))
atexit-IsRegistered_example = atexit-IsRegistered registered (7 ∷ 8 ∷ []) 9 registered-IsRegistered

exit-reverse_example :
    (exit registered ≡ ok (8 ∷ 7 ∷ []))
    × (quick_exit registered registered ≡ ok (8 ∷ 7 ∷ 8 ∷ 7 ∷ []))
exit-reverse_example =
    exit-reverse registered registered (7 ∷ 8 ∷ []) (7 ∷ 8 ∷ []) registered-IsRegistered
      registered-IsRegistered
