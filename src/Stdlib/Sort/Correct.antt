-- ===== src/Stdlib/Sort/Correct.antt =====
-- src/stdlib.c: qsort sorts.
use mathlib.Core.List.{Permᴰ}
use mathlib.Core.List.Permᴰ
use libdeepc.Base.{
  ℕ, zero, suc, ◌+◌, ◌-◌, ◌≤◌, ◌<◌, ◌≡◌, refl, sym, ap, ◌∙◌, subst, true, false, List, [], ◌∷◌,
  ◌++◌, arith, leb, length, length-append, ℤ, Res, ok,
}
use libdeepc.Stdlib.Sort.{qsort}
use libdeepc.Stdlib.Sort.Partition.{
  split, rotate, partition_loop-split, swap-pivot, take-middle, drop-middle, element-middle,
}
use libdeepc.Stdlib.Sort.Order.{
  IsStrict, IsSorted, IsSorted-join, split-sides, split-perm, snoc-perm, All-perm, rotate-perm,
  All-rotate, Below, NotBelow,
}

module _ {ℓ} {A : Type ℓ} where
  -- A list that is not empty, with its last element apart.
  unsnoc :
      (x : A) (xs : List A)
      → (init : List A) × (p : A) × (x ∷ xs ≡ init ++ p ∷ []) × (length init ≡ length xs)
  unsnoc x [] = ([], x, refl, refl)
  unsnoc x (y ∷ ys) =
      let (init, p, e, n) = unsnoc y ys in (x ∷ init, p, ap (λ t. x ∷ t) e, ap suc n)

-- A run sorts: it ends with a sorted permutation.
abbrev pub Sorts {ℓ} : {A : Type ℓ} → (A → A → ℤ) → List A → Res (List A) → Type ℓ
Sorts {A = A} comp xs run = (ys : List A) × (run ≡ ok ys) × Permᴰ xs ys × IsSorted comp ys

module _ {ℓ} {A : Type ℓ} (comp : A → A → ℤ) (law : IsStrict comp) where
  length-perm : {xs ys : List A} → Permᴰ xs ys → length xs ≡ length ys
  length-perm Permᴰ.nil = refl
  length-perm (Permᴰ.cons e d) = ap suc (length-perm d)
  length-perm (Permᴰ.swap e f) = refl
  length-perm (Permᴰ.trans d e) = length-perm d ∙ length-perm e

  -- One call, given the runs of the two calls below it.
  qsort-run :
      (fuel : ℕ) (init : List A) (p : A) {l r : List A}
      → 0 < length init
      → qsort comp fuel (split comp p [] [] init).0 ≡ ok l
      → qsort comp fuel (rotate (split comp p [] [] init).1) ≡ ok r
      → qsort comp (suc fuel) (init ++ p ∷ []) ≡ ok (l ++ p ∷ r)
  unfolding qsort
  qsort-run fuel init p pi run_l run_r =
      let ls = (split comp p [] [] init).0 in
      let rs = (split comp p [] [] init).1 in
      let n = length-perm (split-perm comp law p [] [] init) in
      let count = length-append init (p ∷ []) in
      let big : leb (length (init ++ p ∷ [])) 1 ≡ false = ground (arith, count) in
      let pred : length (init ++ p ∷ []) - 1 ≡ length init = omega (arith, count) in
      let loop =
        partition_loop-split comp p [] [] init 0 (length init) 0 (omega arith) (omega arith)
          (omega arith) in
      let pivot =
        swap-pivot ls rs p (length ls) (length init) refl (omega (arith, n, length-append ls rs)) in
      rw
        (
          big,
          pred,
          loop,
          pivot,
          take-middle ls p (rotate rs),
          drop-middle ls p (rotate rs) (length ls + 1) (omega arith),
          run_l,
          run_r,
          element-middle ls p (rotate rs) (length ls) refl,
        )
        refl

  -- One call sorts if the two calls below it do.
  qsort-call :
      (fuel : ℕ) (init : List A) (p : A)
      → 0 < length init
      → ((zs : List A) → length zs ≤ length init → Sorts comp zs (qsort comp fuel zs))
      → Sorts comp (init ++ p ∷ []) (qsort comp (suc fuel) (init ++ p ∷ []))
  qsort-call fuel init p pi ih =
      let ls = (split comp p [] [] init).0 in
      let rs = (split comp p [] [] init).1 in
      let perm = split-perm comp law p [] [] init in
      let sides = split-sides comp law p [] [] init tt tt in
      let sizes = length-append ls rs in
      let (l, run_l, perm_l, sorted_l) = ih ls (omega (arith, length-perm perm, sizes)) in
      let (r, run_r, perm_r, sorted_r) =
        ih (rotate rs)
          (omega (arith, length-perm perm, sizes, length-perm (rotate-perm comp law p rs))) in
      (
        l ++ p ∷ r,
        qsort-run fuel init p pi run_l run_r,
        Permᴰ.trans (Permᴰ.symm (snoc-perm p init)) (
            Permᴰ.trans (Permᴰ.cons refl perm) (
              Permᴰ.trans (Permᴰ.symm (Permᴰ.middle p ls rs)) (
                Permᴰ.trans (Permᴰ.append_right (p ∷ rs) perm_l) (
                  Permᴰ.append_left l
                    (Permᴰ.cons refl (Permᴰ.trans (rotate-perm comp law p rs) perm_r)))))),
        IsSorted-join comp law p l r (All-perm (Below comp law p) perm_l sides.0)
            (All-perm (NotBelow comp law p) perm_r (All-rotate comp law p rs sides.1)) sorted_l
            sorted_r,
      )

  qsort-short : (fuel : ℕ) (xs : List A) → length xs ≤ 1 → qsort comp (suc fuel) xs ≡ ok xs
  unfolding qsort
  qsort-short fuel xs h = let e : leb (length xs) 1 ≡ true = ground arith in rw e refl

  -- qsort with a comparison that is a strict order, on any array, with more fuel than elements, makes
  -- no access outside the array, ends, and leaves a permutation of the elements in which none is
  -- smaller than one before it.
  pub qsort-Sorts :
      (fuel : ℕ) (xs : List A)
      → length xs < fuel
      → (ys : List A) × (qsort comp fuel xs ≡ ok ys) × Permᴰ xs ys × IsSorted comp ys
  qsort-Sorts zero xs h = absurd (omega arith)
  qsort-Sorts (suc fuel) [] h = ([], qsort-short fuel [] (omega arith), Permᴰ.nil, tt)
  qsort-Sorts (suc fuel) (x ∷ []) h =
      (x ∷ [], qsort-short fuel (x ∷ []) (omega arith), Permᴰ.refl (x ∷ []), (tt, tt))
  qsort-Sorts (suc fuel) (x ∷ y ∷ xs) h =
      let (init, p, e, n) = unsnoc x (y ∷ xs) in
      subst (λ t. Sorts comp t (qsort comp (suc fuel) t)) (sym e)
        (qsort-call fuel init p (omega arith) (λ zs le. qsort-Sorts fuel zs (omega arith)))
