-- ===== src/Search/Tree/Graft.antt =====
-- src/search.c: the loop of tdelete to the rightmost node, and the link that it sets there.
use libdeepc.Base.{
  ℕ, zero, suc, ◌<◌, ◌≡◌, refl, sym, ◌∙◌, ◌≢◌, true, false, some, arith, ◌==◌, ==_refl, ok,
}
use libdeepc.Memory.{Addr, null}
use libdeepc.Search.Tree.{NodeHeap, put_node, rightmost}
use libdeepc.Search.Tree.Shape.{
  Tree, nil, node, bnode, has, Apart, IsDistinct, Stands, depth, put_node_self, put_node_ne,
  Stands-same,
}
use libdeepc.Search.Tree.Insert.{has_ne}
use libdeepc.Search.Tree.Remove.{graft}

module _ (h : NodeHeap) (u : Tree) (up : Addr) (su : Stands h up u) where
  -- The loop ends at a node of the tree, and with the link there the tree has `u` below it.
  abbrev pub Grafts : ℕ → Addr → Tree → Type 0
  Grafts fuel p t =
      (x : Addr) × (w : Addr) × (wl : Addr) × (wr : Addr) × (rightmost fuel h p ≡ ok x)
      × (h x ≡ some (bnode w wl wr))
      × (has x t ≡ true)
      × Stands (put_node h x (bnode w wl up)) p (graft t u)

  module _ (fuel a v lp rp : ℕ) (here : h a ≡ some (bnode v lp rp)) where
    stop_run : rp ≡ null → rightmost (suc fuel) h a ≡ ok a
    unfolding rightmost
    stop_run e = let q : (rp == null) ≡ true = ground arith in rw (here, q) refl

    next_run : rp ≢ null → rightmost (suc fuel) h a ≡ rightmost fuel h rp
    unfolding rightmost
    next_run e = let q : (rp == null) ≡ false = ground arith in rw (here, q) refl

  pub rightmost-Grafts :
      (fuel p : ℕ) (t : Tree)
      → t ≢ nil
      → Stands h p t
      → IsDistinct t
      → Apart t u
      → depth t < fuel
      → Grafts fuel p t
  unfolding graft
  rightmost-Grafts zero p t some_node s d apart lt = absurd (omega arith)
  rightmost-Grafts (suc fuel) p nil some_node s d apart lt = absurd (some_node refl)
  rightmost-Grafts (suc fuel) p (node a v l nil) some_node (e, lp, rp, here, sl, sr) d apart lt =
      let self = ==_refl a in
      let n = bnode v lp up in
      let off : has a u ≡ false = apart a (rw self refl) in
      (
        a,
        v,
        lp,
        rp,
        rw e (stop_run fuel a v lp rp here sr),
        here,
        rw self refl,
        (
          e,
          lp,
          up,
          put_node_self h a n,
          Stands-same h (put_node h a n) lp l (λ x hx. put_node_ne h a x n (has_ne x a l hx d.1))
              sl,
          Stands-same h (put_node h a n) up u (λ x hx. put_node_ne h a x n (has_ne x a u hx off))
              su,
        ),
      )
  rightmost-Grafts (suc fuel) p (node a v l (node b w y z)) some_node (e, lp, rp, here, sl, sr) d
        apart lt =
      let r = node b w y z in
      let real : rp ≢ null = λ n. d.5.0 (sym sr.0 ∙ n) in
      let (x, xv, xl, xr, run, at_x, inside, s) =
        rightmost-Grafts fuel rp r (λ n. cc) sr d.5 (λ c hc. apart c (ground (arith, hc)))
          (omega arith) in
      let n = bnode xv xl up in
      let other : a ≢ x = λ c. has_ne x a r inside d.2 (sym c) in
      (
        x,
        xv,
        xl,
        xr,
        rw e (next_run fuel a v lp rp here real ∙ run),
        at_x,
        ground (arith, inside),
        (
          e,
          lp,
          rp,
          put_node_ne h x a n other ∙ here,
          Stands-same h (put_node h x n) lp l
              (λ c hc. put_node_ne h x c n (λ k. has_ne x c r inside (d.3 c hc) (sym k))) sl,
          s,
        ),
      )
