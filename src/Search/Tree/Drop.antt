-- ===== src/Search/Tree/Drop.antt =====
-- src/search.c: tdelete refines the deletion from a tree.
use libdeepc.Base.{
  ℕ, ◌<◌, ◌≡◌, refl, sym, ◌∙◌, subst, ◌≢◌, ◌⊎◌, inl, inr, Bool, true, false, none, some, arith,
  ◌==◌, Bool-cases, Option-cases, ℤ, ok,
}
use libdeepc.Memory.{Addr, null}
use libdeepc.Search.Tree.{NodeHeap, put_node, tfind_with_parent, tdelete}
use libdeepc.Search.Tree.Shape.{
  Tree, nil, node, bnode, has, IsDistinct, Stands, depth, find, above, put_node_ne, Stands-same,
  tfind_with_parent-found, tfind_with_parent-absent,
}
use libdeepc.Search.Tree.Walk.{in_order}
use libdeepc.Search.Tree.Insert.{has_ne}
use libdeepc.Search.Tree.Refine.{has-real, find-has}
use libdeepc.Search.Tree.Remove.{
  graft, graft-nil, remove, remove-IsDistinct, Dropped, in_order-remove,
}
use libdeepc.Search.Tree.Located.{Located, find-Located, part_depth, above_in}
use libdeepc.Search.Tree.Unlink.{part-Stands, part-IsDistinct}
use libdeepc.Search.Tree.Graft.{rightmost-Grafts}
use libdeepc.Search.Tree.Delete.{
  redirected, new_root, freed, no_left_run, no_right_run, promote_run, redirected_ne, node_there,
  q_out, leaves,
}

module _ (compar : Addr → Addr → ℤ) (fuel key root q a : Addr) (h : NodeHeap) (t t' : Tree) where
  -- The run, and what it leaves.
  abbrev pub Deletes : Type 0
  Deletes =
      (h' : NodeHeap) × (root' : Addr) × (tdelete compar fuel h key root ≡ ok (q, (h', root')))
      × Stands h' root' t'
      × (h' a ≡ none)
      × ((x : Addr) → has x t ≡ false → h' x ≡ h x)

  module _ (v : Addr) (top : Bool) (s : Stands h root t) (d : IsDistinct t) (real : a ≢ null)
      (run : tfind_with_parent compar fuel h key null root ≡ ok (q, a)) (w ql qr : Addr)
      (at_q : q ≢ null → h q ≡ some (bnode w ql qr)) (lp rp : Addr)
      (here : h a ≡ some (bnode v lp rp)) where
    -- The nodes below the part stand behind `*dst = p` as before.
    below :
        (l r c : Tree) (p cp : Addr)
        → Located a v l r (graft l r) t null q top t'
        → ((x : Addr) → has x c ≡ true → has x (node a v l r) ≡ true)
        → Stands h cp c
        → Stands (redirected h q a p w ql qr) cp c
    below l r c p cp loc into sc =
        Stands-same h (redirected h q a p w ql qr) cp c
          (λ x hx. redirected_ne h q a p w ql qr x (λ _ e.
            has_ne x q (node a v l r) (into x hx)
              (q_out h root a v l r t t' q top loc s d w ql qr at_q) e))
          sc

    no_left :
        (r : Tree) → Located a v nil r r t null q top t' → Stands h lp nil → Stands h rp r → Deletes
    unfolding graft
    no_left r loc sl sr =
        let h1 = redirected h q a rp w ql qr in
        let (st, gone, rest) =
          leaves h root a v nil r t t' q top loc s d w ql qr at_q rp h1 (λ x _. refl)
            (below nil r r rp rp loc (λ x hx. ground (arith, hx)) sr) in
        (
          freed h1 a,
          new_root root q rp,
          no_left_run compar fuel key root q a v lp rp w ql qr h run real here at_q sl,
          st,
          gone,
          rest,
        )

    no_right :
        (l : Tree)
        → Located a v l nil (graft l nil) t null q top t'
        → lp ≢ null
        → Stands h lp l
        → Stands h rp nil
        → Deletes
    no_right l loc ne sl sr =
        let h1 = redirected h q a lp w ql qr in
        let sl1 : Stands h1 lp (graft l nil) =
          subst (λ (x : Tree). Stands h1 lp x) (sym (graft-nil l))
            (below l nil l lp lp loc (λ x hx. ground (arith, hx)) sl) in
        let (st, gone, rest) =
          leaves h root a v l nil t t' q top loc s d w ql qr at_q lp h1 (λ x _. refl) sl1 in
        (
          freed h1 a,
          new_root root q lp,
          no_right_run compar fuel key root q a v lp rp w ql qr h run real here at_q ne sr,
          st,
          gone,
          rest,
        )

    promote :
        (l r : Tree)
        → Located a v l r (graft l r) t null q top t'
        → lp ≢ null
        → rp ≢ null
        → l ≢ nil
        → depth l < fuel
        → Stands h lp l
        → Stands h rp r
        → Deletes
    promote l r loc ne me some_node lt sl sr =
        let h1 = redirected h q a lp w ql qr in
        let dp = part-IsDistinct a v l r (graft l r) h h 0 loc d in
        let sl1 = below l r l lp lp loc (λ x hx. ground (arith, hx)) sl in
        let sr1 = below l r r lp rp loc (λ x hx. ground (arith, hx)) sr in
        let (x, xv, xl, xr, found, at_x, inside, sg) =
          rightmost-Grafts h1 r rp sr1 fuel lp l some_node sl1 dp.4 dp.3 lt in
        let n = bnode xv xl rp in
        let agree : (y : Addr) → has y (node a v l r) ≡ false → put_node h1 x n y ≡ h1 y = λ y o.
          put_node_ne h1 x y n
            (λ e. has_ne x y (node a v l r) (ground (arith, inside)) o (sym e)) in
        let (st, gone, rest) =
          leaves h root a v l r t t' q top loc s d w ql qr at_q lp (put_node h1 x n) agree sg in
        (
          freed (put_node h1 x n) a,
          new_root root q lp,
          promote_run compar fuel key root q a v lp rp w ql qr h run real here at_q x xv xl xr ne me
              found at_x,
          st,
          gone,
          rest,
        )

    by_children :
        (l r : Tree)
        → Located a v l r (graft l r) t null q top t'
        → depth l < fuel
        → Stands h lp l
        → Stands h rp r
        → Deletes
    unfolding graft
    by_children nil r loc lt sl sr = no_left r loc sl sr
    by_children (node b y l1 l2) nil loc lt sl sr =
        let dp = part-IsDistinct a v (node b y l1 l2) nil _ h h 0 loc d in
        no_right (node b y l1 l2) loc (λ z. dp.4.0 (sym sl.0 ∙ z)) sl sr
    by_children (node b y l1 l2) (node c z r1 r2) loc lt sl sr =
        let dp = part-IsDistinct a v (node b y l1 l2) (node c z r1 r2) _ h h 0 loc d in
        promote (node b y l1 l2) (node c z r1 r2) loc (λ e. dp.4.0 (sym sl.0 ∙ e))
          (λ e. dp.5.0 (sym sr.0 ∙ e)) (λ e. cc) lt sl sr

-- The node above, wherever it is.
above_node :
    (h : NodeHeap) (root q : Addr) (t : Tree)
    → Stands h root t
    → (q ≢ null → has q t ≡ true)
    → (w : Addr) × (ql : Addr) × (qr : Addr) × (q ≢ null → h q ≡ some (bnode w ql qr))
above_node h root q t s inside = elim (Bool-cases (q == null)) [
  | inl z ↦ (0, 0, 0, λ real. absurd (real (ground arith)))
  | inr z ↦
      let (w, ql, qr, e) = node_there h root q t s (inside (ground (arith, z))) in
      (w, ql, qr, λ _. e)
]

absent_run :
    (compar : Addr → Addr → ℤ) (fuel key root par : ℕ) (h : NodeHeap)
    → tfind_with_parent compar fuel h key null root ≡ ok (par, null)
    → tdelete compar fuel h key root ≡ ok (null, (h, root))
unfolding tdelete
absent_run compar fuel key root par h run = rw run refl

-- On a heap with a tree whose nodes are at different addresses, with more fuel than it has nodes,
-- tdelete ends without a fault. It returns NULL and changes nothing where the search finds no node.
-- Else it returns the node above the one found, or NULL if that is the root: the tree without the
-- node stands on the heap, its nodes are at different addresses, nothing stands at the address of
-- the node, no address outside the tree has changed, and the other nodes have kept their order.
pub tdelete-remove :
    (compar : Addr → Addr → ℤ) (fuel key : ℕ) (h : NodeHeap) (root : Addr) (t : Tree)
    → Stands h root t
    → IsDistinct t
    → depth t < fuel
    → ((find compar key t ≡ none) × (tdelete compar fuel h key root ≡ ok (null, (h, root))))
      ⊎ ((a : Addr) × (find compar key t ≡ some a)
          × Deletes compar fuel key root (above compar key null t) a h t (remove compar key t)
          × IsDistinct (remove compar key t)
          × Dropped compar key (in_order t) a (in_order (remove compar key t)))
tdelete-remove compar fuel key h root t s d lt = elim (Option-cases (find compar key t)) [
  | inl f ↦ inl (
    f,
    absent_run compar fuel key root _ h
        (tfind_with_parent-absent compar key h fuel null root t s d lt f),
  )
  | inr (a, f) ↦
      let q = above compar key null t in
      let (v, l, r, top, loc) = find-Located compar key t a null f in
      let (_, lp, rp, here, sl, sr) = part-Stands a v l r (graft l r) h h 0 root loc s in
      let inside : q ≢ null → has q t ≡ true = λ other. above_in a v l r (graft l r) loc other in
      let (w, ql, qr, at_q) = above_node h root q t s inside in
      let real = has-real t a d (find-has compar key t a f) in
      let run = tfind_with_parent-found compar key h fuel null root a t s d lt f in
      let below_fuel : depth l < fuel = omega (arith, part_depth loc) in
      inr (
        a,
        f,
        by_children compar fuel key root q a h t (remove compar key t) v top s d real run w ql qr
            at_q lp rp here l r loc below_fuel sl sr,
        remove-IsDistinct compar key t d,
        in_order-remove compar key t a f,
      )
]
