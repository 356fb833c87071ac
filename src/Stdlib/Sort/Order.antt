-- ===== src/Stdlib/Sort/Order.antt =====
-- src/stdlib.c: what qsort assumes of the comparison, and sorted lists.
use mathlib.Core.List.{Permᴰ, append_assoc, append-nil}
use mathlib.Core.List.Permᴰ
use libdeepc.Base.{
  ◌≡◌, refl, sym, ◌∙◌, subst, inl, inr, true, false, List, [], ◌∷◌, ◌++◌, Bool-cases, All, ℤ, pos,
  ltb_ℤ,
}
use libdeepc.Stdlib.Sort.Partition.{split, rotate, split-below, split-other, split-nil}

module _ {ℓ} {A : Type ℓ} where
  -- What a comparison is to be: `comp a b < 0` is a strict order.
  pub record IsStrict (comp : A → A → ℤ) : Type ℓ where
    pub irreflexive : (a : A) → ltb_ℤ (comp a a) (pos 0) ≡ false
    pub transitive :
        (a b c : A)
        → ltb_ℤ (comp a b) (pos 0) ≡ true
        → ltb_ℤ (comp b c) (pos 0) ≡ true
        → ltb_ℤ (comp a c) (pos 0) ≡ true

  -- No element is smaller than one before it.
  abbrev pub IsSorted : (A → A → ℤ) → List A → Type ℓ
  IsSorted comp [] = Unit
  IsSorted comp (x ∷ xs) = All (λ y. ltb_ℤ (comp y x) (pos 0) ≡ false) xs × IsSorted comp xs

module _ {ℓ κ} {A : Type ℓ} where
  pub All-append : (P : A → Type κ) (xs ys : List A) → All P xs → All P ys → All P (xs ++ ys)
  All-append P [] ys hx hy = hy
  All-append P (x ∷ xs) ys hx hy = (hx.0, All-append P xs ys hx.1 hy)

  pub All-perm : (P : A → Type κ) {xs ys : List A} → Permᴰ xs ys → All P xs → All P ys
  All-perm P Permᴰ.nil h = tt
  All-perm P (Permᴰ.cons e d) h = (subst P e h.0, All-perm P d h.1)
  All-perm P (Permᴰ.swap e f) h = (subst P f h.1.0, (subst P e h.0, h.1.1))
  All-perm P (Permᴰ.trans d e) h = All-perm P e (All-perm P d h)

module _ {ℓ κ η} {A : Type ℓ} {P : A → Type κ} {Q : A → Type η} where
  pub All-map : (f : (a : A) → P a → Q a) (xs : List A) → All P xs → All Q xs
  All-map f [] h = tt
  All-map f (x ∷ xs) h = (f x h.0, All-map f xs h.1)

module _ {ℓ} {A : Type ℓ} where
  pub snoc-perm : (y : A) (rs : List A) → Permᴰ (y ∷ rs) (rs ++ y ∷ [])
  snoc-perm y [] = Permᴰ.refl (y ∷ [])
  snoc-perm y (r ∷ rs) = Permᴰ.trans (Permᴰ.swap refl refl) (Permᴰ.cons refl (snoc-perm y rs))

module _ {ℓ} {A : Type ℓ} (comp : A → A → ℤ) (law : IsStrict comp) (p : A) where
  abbrev pub Below : A → Type 0
  Below x = ltb_ℤ (comp x p) (pos 0) ≡ true

  abbrev pub NotBelow : A → Type 0
  NotBelow x = ltb_ℤ (comp x p) (pos 0) ≡ false

  not_below : (y x : A) → Below x → NotBelow y → ltb_ℤ (comp y x) (pos 0) ≡ false
  not_below y x b n = elim (Bool-cases (ltb_ℤ (comp y x) (pos 0))) [
    | inl e ↦ let t = law.transitive y x p e b in absurd (let q : true ≡ false = sym t ∙ n in cc)
    | inr e ↦ e
  ]

  pub All-rotate : (rs : List A) → All NotBelow rs → All NotBelow (rotate rs)
  All-rotate [] h = tt
  All-rotate (y ∷ rs) h = All-append NotBelow rs (y ∷ []) h.1 (h.0, tt)

  pub split-sides :
      (ls rs xs : List A)
      → All Below ls
      → All NotBelow rs
      → All Below (split comp p ls rs xs).0 × All NotBelow (split comp p ls rs xs).1
  split-sides ls rs [] hl hr = rw (split-nil comp p ls rs) (hl, hr)
  split-sides ls rs (x ∷ xs) hl hr = elim (Bool-cases (ltb_ℤ (comp x p) (pos 0))) [
    | inl e ↦ rw (split-below comp p ls rs x xs e) (
        split-sides (ls ++ x ∷ []) (rotate rs) xs (All-append Below ls (x ∷ []) hl (e, tt))
          (All-rotate rs hr))
    | inr e ↦
        rw (split-other comp p ls rs x xs e)
          (split-sides ls (rs ++ x ∷ []) xs hl (All-append NotBelow rs (x ∷ []) hr (e, tt)))
  ]

  pub rotate-perm : (rs : List A) → Permᴰ rs (rotate rs)
  rotate-perm [] = Permᴰ.nil
  rotate-perm (y ∷ rs) = snoc-perm y rs

  pub split-perm :
      (ls rs xs : List A)
      → Permᴰ (ls ++ (rs ++ xs)) ((split comp p ls rs xs).0 ++ (split comp p ls rs xs).1)
  split-perm ls rs [] = rw (split-nil comp p ls rs, append-nil rs) (Permᴰ.refl (ls ++ rs))
  split-perm ls rs (x ∷ xs) = elim (Bool-cases (ltb_ℤ (comp x p) (pos 0))) [
    | inl e ↦ rw (split-below comp p ls rs x xs e) (
        Permᴰ.trans
          (Permᴰ.append_left ls (
            Permᴰ.trans (Permᴰ.middle x rs xs)
              (Permᴰ.cons refl (Permᴰ.append_right xs (rotate-perm rs)))))
          (subst
            (λ t. Permᴰ t (
              (split comp p (ls ++ x ∷ []) (rotate rs) xs).0
              ++ (split comp p (ls ++ x ∷ []) (rotate rs) xs).1))
            (append_assoc ls (x ∷ []) (rotate rs ++ xs))
            (split-perm (ls ++ x ∷ []) (rotate rs) xs)))
    | inr e ↦ rw (split-other comp p ls rs x xs e) (
        subst
          (λ t.
            Permᴰ (ls ++ t)
              ((split comp p ls (rs ++ x ∷ []) xs).0 ++ (split comp p ls (rs ++ x ∷ []) xs).1))
          (append_assoc rs (x ∷ []) xs) (split-perm ls (rs ++ x ∷ []) xs))
  ]

  -- Sorted sides with the pivot between them.
  pub IsSorted-join :
      (ls rs : List A)
      → All Below ls
      → All NotBelow rs
      → IsSorted comp ls
      → IsSorted comp rs
      → IsSorted comp (ls ++ p ∷ rs)
  IsSorted-join [] rs bl br sl sr = (br, sr)
  IsSorted-join (x ∷ ls) rs bl br sl sr = (
    All-append (λ y. ltb_ℤ (comp y x) (pos 0) ≡ false) ls (p ∷ rs) sl.0
        (not_below p x bl.0 (law.irreflexive p), All-map (λ y h. not_below y x bl.0 h) rs br),
    IsSorted-join ls rs bl.1 br sl.1 sr,
  )
