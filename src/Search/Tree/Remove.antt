-- ===== src/Search/Tree/Remove.antt =====
-- src/search.c: what a deletion is on a tree, and what it leaves of the nodes in order.
use libdeepc.Base.{
  ◌≡◌, refl, sym, ◌∙◌, inl, inr, true, false, ◌||◌, some, List, [], ◌∷◌, ◌++◌, arith, if◌then◌else◌,
  ==_refl, Bool-cases, ℤ,
}
use libdeepc.Memory.{Addr}
use libdeepc.Search.Tree.Shape.{Tree, nil, node, has, Apart, IsDistinct, same, before, find}
use libdeepc.Search.Tree.Walk.{in_order}

-- The second tree below the rightmost node of the first.
unfoldable pub graft : Tree → Tree → Tree
graft nil u = u
graft (node a v l r) u = node a v l (graft r u)

pub graft-nil : (t : Tree) → graft t nil ≡ t
unfolding graft
graft-nil nil = refl
graft-nil (node a v l r) = let q = graft-nil r in rw q refl

pub has-graft : (x : Addr) (t u : Tree) → has x (graft t u) ≡ (has x t || has x u)
unfolding graft
has-graft x nil u = refl
has-graft x (node a v l r) u = let q = has-graft x r u in rw q (ground arith)

graft-IsDistinct : (t u : Tree) → Apart t u → IsDistinct t → IsDistinct u → IsDistinct (graft t u)
unfolding graft
graft-IsDistinct nil u apart d e = e
graft-IsDistinct (node a v l r) u apart (real, nl, nr, lr, dl, dr) e =
    let self = ==_refl a in
    let off : has a u ≡ false = apart a (rw self refl) in
    (
      real,
      nl,
      has-graft a r u ∙ ground (arith, nr, off),
      λ x h.
          let out_r = lr x h in
          let out_u = apart x (ground (arith, h)) in has-graft x r u ∙ ground (arith, out_r, out_u),
      dl,
      graft-IsDistinct r u (λ x h. apart x (ground (arith, h))) dr e,
    )

append_assoc : (xs ys zs : List Addr) → (xs ++ ys) ++ zs ≡ xs ++ (ys ++ zs)
append_assoc [] ys zs = refl
append_assoc (x ∷ xs) ys zs = let q = append_assoc xs ys zs in rw q refl

in_order-graft : (t u : Tree) → in_order (graft t u) ≡ in_order t ++ in_order u
unfolding graft in_order
in_order-graft nil u = refl
in_order-graft (node a v l r) u =
    let q = in_order-graft r u in
    rw q (sym (append_assoc (in_order l) (a ∷ in_order r) (in_order u)))

module _ (compar : Addr → Addr → ℤ) (key : Addr) where
  unfoldable pub remove : Tree → Tree
  remove nil = nil
  remove (node a v l r) =
      let l' = remove l in
      let r' = remove r in
      if same compar key v
      then graft l r
      else if before compar key v
      then node a v l' r
      else node a v l r'

  pub has-remove : (x : Addr) (t : Tree) → has x t ≡ false → has x (remove t) ≡ false
  unfolding remove
  has-remove x nil out = refl
  has-remove x (node a v l r) out =
      let il = has-remove x l (ground (arith, out)) in
      let ir = has-remove x r (ground (arith, out)) in
      elim (Bool-cases (same compar key v)) [
        | inl eq ↦ rw eq (has-graft x l r ∙ ground (arith, out))
        | inr n ↦ elim (Bool-cases (before compar key v)) [
          | inl b ↦ rw (n, b) (ground (arith, out, il))
          | inr b ↦ rw (n, b) (ground (arith, out, ir))
        ]
      ]

  has-remove_in : (x : Addr) (t : Tree) → has x (remove t) ≡ true → has x t ≡ true
  has-remove_in x t h = elim (Bool-cases (has x t)) [
    | inl i ↦ i
    | inr o ↦ let q = has-remove x t o in absurd cc
  ]

  pub remove-IsDistinct : (t : Tree) → IsDistinct t → IsDistinct (remove t)
  unfolding remove
  remove-IsDistinct nil d = d
  remove-IsDistinct (node a v l r) (real, nl, nr, apart, dl, dr) =
      elim (Bool-cases (same compar key v)) [
        | inl eq ↦ rw eq (graft-IsDistinct l r apart dl dr)
        | inr n ↦ elim (Bool-cases (before compar key v)) [
          | inl b ↦
              rw (n, b)
                (
                  real,
                  has-remove a l nl,
                  nr,
                  λ x h. apart x (has-remove_in x l h),
                  remove-IsDistinct l dl,
                  dr,
                )
          | inr b ↦
              rw (n, b)
                (
                  real,
                  nl,
                  has-remove a r nr,
                  λ x h. has-remove x r (apart x h),
                  dl,
                  remove-IsDistinct r dr,
                )
        ]
      ]

  -- The nodes of the list before and behind the one that is removed.
  abbrev pub Dropped : List Addr → Addr → List Addr → Type 0
  Dropped xs a ys = (us : List Addr) × (vs : List Addr) × (xs ≡ us ++ a ∷ vs) × (ys ≡ us ++ vs)

  Dropped-left :
      (xs ys zs : List Addr) (a : Addr) → Dropped xs a ys → Dropped (xs ++ zs) a (ys ++ zs)
  Dropped-left xs ys zs a (us, vs, e, f) =
      (us, vs ++ zs, rw e (append_assoc us (a ∷ vs) zs), rw f (append_assoc us vs zs))

  Dropped-right :
      (xs ys zs : List Addr) (a : Addr) → Dropped xs a ys → Dropped (zs ++ xs) a (zs ++ ys)
  Dropped-right xs ys zs a (us, vs, e, f) =
      (zs ++ us, vs, rw e (sym (append_assoc zs us (a ∷ vs))), rw f (sym (append_assoc zs us vs)))

  pub in_order-remove :
      (t : Tree) (a : Addr)
      → find compar key t ≡ some a
      → Dropped (in_order t) a (in_order (remove t))
  unfolding find remove in_order
  in_order-remove nil a f = cc
  in_order-remove (node b v l r) a f =
      let il = in_order-remove l a in
      let ir = in_order-remove r a in
      elim (Bool-cases (same compar key v)) [
        | inl eq ↦
            let f' : some b ≡ some a = rw eq at f in
            let q : b ≡ a = cc in rw eq (in_order l, in_order r, rw q refl, in_order-graft l r)
        | inr n ↦ elim (Bool-cases (before compar key v)) [
          | inl lt ↦
              rw (n, lt)
                (Dropped-left (in_order l) (in_order (remove l)) (b ∷ in_order r) a
                  (il (rw (n, lt) at f)))
          | inr ge ↦
              let (us, vs, e, g) = ir (rw (n, ge) at f) in
              rw (n, ge)
                (Dropped-right (b ∷ in_order r) (b ∷ in_order (remove r)) (in_order l) a
                  (b ∷ us, vs, rw e refl, rw g refl))
        ]
      ]
