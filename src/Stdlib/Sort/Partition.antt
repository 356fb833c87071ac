-- ===== src/Stdlib/Sort/Partition.antt =====
-- src/stdlib.c: the loop of qsort that moves the smaller elements to the front, against a split of the
-- list that keeps the two sides apart.
use mathlib.Core.List.{append_assoc}
use libdeepc.Base.{
  ℕ, zero, suc, ◌+◌, ◌≡◌, refl, ap, inl, inr, true, false, some, List, [], ◌∷◌, ◌++◌, arith, ◌==◌,
  if◌then◌else◌, Bool-cases, length, get_elem?, set, take, drop, length-append, ℤ, pos, ltb_ℤ, ok,
}
use libdeepc.Stdlib.Sort.{element, swap, partition_loop}

module _ {ℓ} {A : Type ℓ} where
  -- The exchange puts the first element of the right side behind it.
  abbrev pub rotate : List A → List A
  rotate [] = []
  rotate (y ∷ rs) = rs ++ y ∷ []

  -- The left and the right side when `xs` have been looked at.
  unfoldable pub split : (A → A → ℤ) → A → List A → List A → List A → List A × List A
  split comp p ls rs [] = (ls, rs)
  split comp p ls rs (x ∷ xs) =
      split comp p (if ltb_ℤ (comp x p) (pos 0) then ls ++ x ∷ [] else ls)
        (if ltb_ℤ (comp x p) (pos 0) then rotate rs else rs ++ x ∷ []) xs

module _ {ℓ} {A : Type ℓ} where
  get-middle :
      (ls : List A) (x : A) (ys : List A) (k : ℕ)
      → k ≡ length ls
      → get_elem? (ls ++ x ∷ ys) k ≡ some x
  get-middle [] x ys zero e = refl
  get-middle [] x ys (suc k) e = absurd (omega arith)
  get-middle (l ∷ ls) x ys zero e = absurd (omega arith)
  get-middle (l ∷ ls) x ys (suc k) e = get-middle ls x ys k (omega arith)

  set-middle :
      (ls : List A) (x v : A) (ys : List A) (k : ℕ)
      → k ≡ length ls
      → set (ls ++ x ∷ ys) k v ≡ ls ++ v ∷ ys
  set-middle [] x v ys zero e = refl
  set-middle [] x v ys (suc k) e = absurd (omega arith)
  set-middle (l ∷ ls) x v ys zero e = absurd (omega arith)
  set-middle (l ∷ ls) x v ys (suc k) e = ap (λ t. l ∷ t) (set-middle ls x v ys k (omega arith))

  pub element-middle :
      (ls : List A) (x : A) (ys : List A) (k : ℕ) → k ≡ length ls → element (ls ++ x ∷ ys) k ≡ ok x
  element-middle ls x ys k e = rw (get-middle ls x ys k e) refl

  -- The exchange of the elements at the two ends of `y ∷ rs ++ x ∷ []`.
  pub swap-ends :
      (ls : List A) (y : A) (rs : List A) (x : A) (ys : List A) (i r : ℕ)
      → i ≡ length ls + suc (length rs)
      → r ≡ length ls
      → swap (ls ++ y ∷ (rs ++ x ∷ ys)) i r ≡ ok (ls ++ x ∷ (rs ++ y ∷ ys))
  unfolding swap
  swap-ends ls y rs x ys i r ei er =
      let ne : (i == r) ≡ false = ground arith in
      let assoc = λ (a b : A). append_assoc ls (a ∷ rs) (b ∷ ys) in
      let ex = element-middle (ls ++ y ∷ rs) x ys i (omega (arith, length-append ls (y ∷ rs))) in
      let ex' = rw (assoc y x) at ex in
      let ey = element-middle ls y (rs ++ x ∷ ys) r er in
      let s1 = set-middle (ls ++ y ∷ rs) x y ys i (omega (arith, length-append ls (y ∷ rs))) in
      let s1' = rw (assoc y x, assoc y y) at s1 in
      rw (ne, ex', ey, s1') (ap ok (set-middle ls y x (rs ++ y ∷ ys) r er))

module _ {ℓ} {A : Type ℓ} where
  -- The exchange that puts the pivot between the sides.
  pub swap-pivot :
      (ls rs : List A) (p : A) (r k : ℕ)
      → r ≡ length ls
      → k ≡ length ls + length rs
      → swap (ls ++ (rs ++ p ∷ [])) r k ≡ ok (ls ++ p ∷ rotate rs)
  unfolding swap
  swap-pivot ls [] p r k er ek = let e : (r == k) ≡ true = ground arith in rw e refl
  swap-pivot ls (y ∷ rs) p r k er ek =
      let ne : (r == k) ≡ false = ground arith in
      let assoc = λ (a b : A). append_assoc ls (a ∷ rs) (b ∷ []) in
      let ey = element-middle ls y (rs ++ p ∷ []) r er in
      let ep = element-middle (ls ++ y ∷ rs) p [] k (omega (arith, length-append ls (y ∷ rs))) in
      let ep' = rw (assoc y p) at ep in
      let s = set-middle (ls ++ p ∷ rs) p y [] k (omega (arith, length-append ls (p ∷ rs))) in
      let s' = rw (assoc p p, assoc p y) at s in
      rw (ne, ey, ep', set-middle ls y p (rs ++ p ∷ []) r er) (ap ok s')

  pub take-middle : (ls : List A) (p : A) (rs : List A) → take (length ls) (ls ++ p ∷ rs) ≡ ls
  take-middle [] p rs = refl
  take-middle (l ∷ ls) p rs = ap (λ t. l ∷ t) (take-middle ls p rs)

  pub drop-middle :
      (ls : List A) (p : A) (rs : List A) (k : ℕ) → k ≡ suc (length ls) → drop k (ls ++ p ∷ rs) ≡ rs
  drop-middle ls p rs zero e = absurd (omega arith)
  drop-middle [] p rs (suc zero) e = refl
  drop-middle [] p rs (suc (suc k)) e = absurd (omega arith)
  drop-middle (l ∷ ls) p rs (suc k) e = drop-middle ls p rs k (omega arith)

length-rotate {ℓ} : {A : Type ℓ} (rs : List A) → length (rotate rs) ≡ length rs
length-rotate [] = refl
length-rotate (y ∷ rs) = omega (arith, length-append rs (y ∷ []))

module _ {ℓ} {A : Type ℓ} (comp : A → A → ℤ) (p : A) where
  -- The array during the loop: the two sides, what is still to be looked at, and the pivot.
  abbrev layout : List A → List A → List A → List A
  layout ls rs xs = ls ++ (rs ++ (xs ++ p ∷ []))

  layout-next :
      (ls rs : List A) (x : A) (xs : List A) (i : ℕ)
      → i ≡ length ls + length rs
      → element (layout ls rs (x ∷ xs)) i ≡ ok x
  layout-next ls rs x xs i e =
      let a = append_assoc ls rs (x ∷ (xs ++ p ∷ [])) in
      rw (← a) (element-middle (ls ++ rs) x (xs ++ p ∷ []) i (omega (arith, length-append ls rs)))

  layout-pivot :
      (ls rs xs : List A) (k : ℕ)
      → k ≡ length ls + length rs + length xs
      → element (layout ls rs xs) k ≡ ok p
  layout-pivot ls rs xs k e =
      let a = append_assoc ls rs (xs ++ p ∷ []) in
      let b = append_assoc (ls ++ rs) xs (p ∷ []) in
      rw (← a, ← b)
        (element-middle (ls ++ rs ++ xs) p [] k
          (omega (arith, length-append ls rs, length-append (ls ++ rs) xs)))

  layout-keep :
      (ls rs : List A) (x : A) (xs : List A) → layout ls rs (x ∷ xs) ≡ layout ls (rs ++ x ∷ []) xs
  layout-keep ls rs x xs = rw (append_assoc rs (x ∷ []) (xs ++ p ∷ [])) refl

  layout-swap :
      (ls rs : List A) (x : A) (xs : List A) (i r : ℕ)
      → i ≡ length ls + length rs
      → r ≡ length ls
      → swap (layout ls rs (x ∷ xs)) i r ≡ ok (layout (ls ++ x ∷ []) (rotate rs) xs)
  unfolding swap
  layout-swap ls [] x xs i r ei er =
      let e : (i == r) ≡ true = ground arith in
      let a = append_assoc ls (x ∷ []) (xs ++ p ∷ []) in rw (e, a) refl
  layout-swap ls (y ∷ rs) x xs i r ei er =
      let a = append_assoc ls (x ∷ []) ((rs ++ y ∷ []) ++ (xs ++ p ∷ [])) in
      let b = append_assoc rs (y ∷ []) (xs ++ p ∷ []) in
      rw (a, b) (swap-ends ls y rs x (xs ++ p ∷ []) i r (omega arith) er)

  pub split-below :
      (ls rs : List A) (x : A) (xs : List A)
      → ltb_ℤ (comp x p) (pos 0) ≡ true
      → split comp p ls rs (x ∷ xs) ≡ split comp p (ls ++ x ∷ []) (rotate rs) xs
  unfolding split
  split-below ls rs x xs e = rw e refl

  pub split-other :
      (ls rs : List A) (x : A) (xs : List A)
      → ltb_ℤ (comp x p) (pos 0) ≡ false
      → split comp p ls rs (x ∷ xs) ≡ split comp p ls (rs ++ x ∷ []) xs
  unfolding split
  split-other ls rs x xs e = rw e refl

  pub split-nil : (ls rs : List A) → split comp p ls rs [] ≡ (ls, rs)
  unfolding split
  split-nil ls rs = refl

  pub partition_loop-split :
      (ls rs xs : List A) (i k r : ℕ)
      → i ≡ length ls + length rs
      → k ≡ i + length xs
      → r ≡ length ls
      → partition_loop comp (length xs) (layout ls rs xs) i k r
        ≡ ok (
          layout (split comp p ls rs xs).0 (split comp p ls rs xs).1 [],
          length (split comp p ls rs xs).0,
        )
  unfolding partition_loop
  partition_loop-split ls rs [] i k r ei ek er = rw (split-nil ls rs, er) refl
  partition_loop-split ls rs (x ∷ xs) i k r ei ek er =
      let next = layout-next ls rs x xs i ei in
      let pivot = layout-pivot ls rs (x ∷ xs) k (omega arith) in
      elim (Bool-cases (ltb_ℤ (comp x p) (pos 0))) [
        | inl e ↦
            rw (split-below ls rs x xs e, next, pivot, e, layout-swap ls rs x xs i r ei er)
              (partition_loop-split (ls ++ x ∷ []) (rotate rs) xs (i + 1) k (r + 1)
                (omega (arith, length-append ls (x ∷ []), length-rotate rs)) (omega arith)
                (omega (arith, length-append ls (x ∷ []))))
        | inr e ↦
            rw (split-other ls rs x xs e, next, pivot, e, layout-keep ls rs x xs)
              (partition_loop-split ls (rs ++ x ∷ []) xs (i + 1) k r
                (omega (arith, length-append rs (x ∷ []))) (omega arith) er)
      ]
