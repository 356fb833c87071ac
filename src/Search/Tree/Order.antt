-- ===== src/Search/Tree/Order.antt =====
-- src/search.c: the order that the tree keeps, and what a search and an insertion keep of a tree.
use libdeepc.Base.{◌≡◌, refl, subst, ◌≢◌, inl, inr, true, false, arith, Bool-cases, ℤ}
use libdeepc.Memory.{Addr, null}
use libdeepc.Search.Tree.Shape.{Tree, nil, node, has, Apart, IsDistinct, same, before, insert}

module _ (compar : Addr → Addr → ℤ) where
  -- Every value of the tree is compared less than `v`, or greater.
  abbrev pub IsBelow : Addr → Tree → Type 0
  IsBelow v nil = Unit
  IsBelow v (node a w l r) = (before compar w v ≡ true) × IsBelow v l × IsBelow v r

  abbrev pub IsAbove : Addr → Tree → Type 0
  IsAbove v nil = Unit
  IsAbove v (node a w l r) =
      (same compar w v ≡ false) × (before compar w v ≡ false) × IsAbove v l × IsAbove v r

  -- A search tree.
  abbrev pub IsOrdered : Tree → Type 0
  IsOrdered nil = Unit
  IsOrdered (node a v l r) = IsBelow v l × IsAbove v r × IsOrdered l × IsOrdered r

  module _ (key block : Addr) where
    insert-IsBelow :
        (v : Addr) (t : Tree)
        → before compar key v ≡ true
        → IsBelow v t
        → IsBelow v (insert compar key block t)
    unfolding insert
    insert-IsBelow v nil b s = (b, tt, tt)
    insert-IsBelow v (node a w l r) b (s, sl, sr) = elim (Bool-cases (same compar key w)) [
      | inl eq ↦ rw eq (s, sl, sr)
      | inr ne ↦ elim (Bool-cases (before compar key w)) [
        | inl lt ↦ rw (ne, lt) (s, insert-IsBelow v l b sl, sr)
        | inr ge ↦ rw (ne, ge) (s, sl, insert-IsBelow v r b sr)
      ]
    ]

    insert-IsAbove :
        (v : Addr) (t : Tree)
        → same compar key v ≡ false
        → before compar key v ≡ false
        → IsAbove v t
        → IsAbove v (insert compar key block t)
    unfolding insert
    insert-IsAbove v nil n b s = (n, b, tt, tt)
    insert-IsAbove v (node a w l r) n b (m, s, sl, sr) = elim (Bool-cases (same compar key w)) [
      | inl eq ↦ rw eq (m, s, sl, sr)
      | inr ne ↦ elim (Bool-cases (before compar key w)) [
        | inl lt ↦ rw (ne, lt) (m, s, insert-IsAbove v l n b sl, sr)
        | inr ge ↦ rw (ne, ge) (m, s, sl, insert-IsAbove v r n b sr)
      ]
    ]

    pub insert-IsOrdered : (t : Tree) → IsOrdered t → IsOrdered (insert compar key block t)
    unfolding insert
    insert-IsOrdered nil o = (tt, tt, tt, tt)
    insert-IsOrdered (node a v l r) (below, above, ol, ors) =
        elim (Bool-cases (same compar key v)) [
          | inl eq ↦ rw eq (below, above, ol, ors)
          | inr ne ↦ elim (Bool-cases (before compar key v)) [
            | inl lt ↦ rw (ne, lt) (insert-IsBelow v l lt below, above, insert-IsOrdered l ol, ors)
            | inr ge ↦
                rw (ne, ge) (below, insert-IsAbove v r ne ge above, ol, insert-IsOrdered r ors)
          ]
        ]

    -- An insertion adds at most the new node.
    pub has-insert :
        (x : Addr) (t : Tree)
        → has x t ≡ false
        → x ≢ block
        → has x (insert compar key block t) ≡ false
    unfolding insert
    has-insert x nil out ne = ground arith
    has-insert x (node a v l r) out ne =
        let il = has-insert x l (ground (arith, out)) ne in
        let ir = has-insert x r (ground (arith, out)) ne in
        elim (Bool-cases (same compar key v)) [
          | inl eq ↦ rw eq out
          | inr n ↦ elim (Bool-cases (before compar key v)) [
            | inl lt ↦ rw (n, lt) (ground (arith, out, il))
            | inr ge ↦ rw (n, ge) (ground (arith, out, ir))
          ]
        ]

    pub insert-IsDistinct :
        (t : Tree)
        → block ≢ null
        → has block t ≡ false
        → IsDistinct t
        → IsDistinct (insert compar key block t)
    unfolding insert
    insert-IsDistinct nil real out d = (real, refl, refl, λ x h. cc, tt, tt)
    insert-IsDistinct (node a v l r) real out (na, nl, nr, apart, dl, dr) =
        let a_ne : a ≢ block = ground (arith, out) in
        let out_l : has block l ≡ false = ground (arith, out) in
        let out_r : has block r ≡ false = ground (arith, out) in
        let il = has-insert a l nl a_ne in
        let ir = has-insert a r nr a_ne in
        let ne_l : (x : Addr) → has x l ≡ true → x ≢ block =
          λ x hx e. let q = subst (λ z. has z l ≡ true) e hx in cc in
        let apart_l : Apart (insert compar key block l) r = λ x hx. elim (Bool-cases (has x r)) [
          | inl in_r ↦
              let not_l : has x l ≡ false = ground (arith, apart x, in_r) in
              let x_ne : x ≢ block = λ e. let q = subst (λ z. has z r ≡ true) e in_r in cc in
              let q = has-insert x l not_l x_ne in absurd cc
          | inr out ↦ out
        ] in
        let apart_r : Apart l (insert compar key block r) =
          λ x hx. has-insert x r (apart x hx) (ne_l x hx) in
        elim (Bool-cases (same compar key v)) [
          | inl eq ↦ rw eq (na, nl, nr, apart, dl, dr)
          | inr n ↦ elim (Bool-cases (before compar key v)) [
            | inl lt ↦ rw (n, lt) (na, il, nr, apart_l, insert-IsDistinct l real out_l dl, dr)
            | inr ge ↦ rw (n, ge) (na, nl, ir, apart_r, dl, insert-IsDistinct r real out_r dr)
          ]
        ]
