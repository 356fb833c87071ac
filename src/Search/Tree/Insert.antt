-- ===== src/Search/Tree/Insert.antt =====
-- src/search.c: tsearch refines an insertion into a tree.
use libdeepc.Base.{
  ◌≡◌, refl, sym, ◌∙◌, subst, ◌≢◌, inl, inr, true, false, none, some, arith, if◌then◌else◌, ==_refl,
  Bool-cases, ℤ,
}
use libdeepc.Memory.{Addr, null}
use libdeepc.Search.Tree.{Bnode, NodeHeap, put_node}
use libdeepc.Search.Tree.Shape.{
  Tree, nil, node, bnode, has, IsDistinct, Stands, same, before, find, insert, last, put_node_self,
  put_node_ne, Stands-same,
}

pub has_ne : (x y : Addr) (t : Tree) → has x t ≡ true → has y t ≡ false → x ≢ y
has_ne x y t hx hy e = let q : has y t ≡ true = subst (λ z. has z t ≡ true) e hx in cc

module _ (compar : Addr → Addr → ℤ) (key block : Addr) where
  -- The new node, and the node above it with the link to it.
  abbrev pub linked : Addr → Addr → Addr → Bnode
  linked w l r = if before compar key w then bnode w block r else bnode w l block

  -- The link of the last node of a tree to the new node makes the tree with the insertion.
  abbrev pub Links : NodeHeap → Addr → Addr → Tree → Type 0
  Links h q p t =
      (w : Addr) × (ql : Addr) × (qr : Addr) × (h q ≡ some (bnode w ql qr))
      × (has q t ≡ true)
      × Stands (put_node h q (linked w ql qr)) p (insert compar key block t)

  last-left :
      (par a v : Addr) (l r : Tree)
      → before compar key v ≡ true
      → last compar key a l ≡ last compar key par (node a v l r)
  unfolding last
  last-left par a v l r b = rw b refl

  last-right :
      (par a v : Addr) (l r : Tree)
      → before compar key v ≡ false
      → last compar key a r ≡ last compar key par (node a v l r)
  unfolding last
  last-right par a v l r b = rw b refl

  module _ (h : NodeHeap) (fresh : h block ≡ some (bnode key null null)) where
    new_node :
        (q : Addr) (n : Bnode) → q ≢ block → Stands (put_node h q n) block (node block key nil nil)
    new_node q n ne =
        (refl, null, null, put_node_ne h q block n (λ e. ne (sym e)) ∙ fresh, refl, refl)

    -- The link is in the left tree, or in the right one, below the root.
    link_left :
        (q p a v lp rp : Addr) (l r : Tree)
        → IsDistinct (node a v l r)
        → h a ≡ some (bnode v lp rp)
        → Stands h rp r
        → same compar key v ≡ false
        → before compar key v ≡ true
        → p ≡ a
        → Links h q lp l
        → Links h q p (node a v l r)
    unfolding insert
    link_left q p a v lp rp l r d here sr ne b e (w, ql, qr, at_q, inside, s) =
        let other : a ≢ q = λ z. has_ne q a l inside d.1 (sym z) in
        (
          w,
          ql,
          qr,
          at_q,
          ground (arith, inside),
          rw (ne, b)
              (
                e,
                lp,
                rp,
                put_node_ne h q a (linked w ql qr) other ∙ here,
                s,
                Stands-same h (put_node h q (linked w ql qr)) rp r
                    (λ x hx. put_node_ne h q x (linked w ql qr) (has_ne x q r hx (d.3 q inside)))
                    sr,
              ),
        )

    link_right :
        (q p a v lp rp : Addr) (l r : Tree)
        → IsDistinct (node a v l r)
        → h a ≡ some (bnode v lp rp)
        → Stands h lp l
        → same compar key v ≡ false
        → before compar key v ≡ false
        → p ≡ a
        → Links h q rp r
        → Links h q p (node a v l r)
    unfolding insert
    link_right q p a v lp rp l r d here sl ne b e (w, ql, qr, at_q, inside, s) =
        let other : a ≢ q = λ z. has_ne q a r inside d.2 (sym z) in
        (
          w,
          ql,
          qr,
          at_q,
          ground (arith, inside),
          rw (ne, b)
              (
                e,
                lp,
                rp,
                put_node_ne h q a (linked w ql qr) other ∙ here,
                Stands-same h (put_node h q (linked w ql qr)) lp l
                    (λ x hx.
                      put_node_ne h q x (linked w ql qr)
                        (λ z. has_ne q x r inside (d.3 x hx) (sym z)))
                    sl,
                s,
              ),
        )

    -- The link is at the root itself, where it has no child on the side of the key.
    here_left :
        (p a v lp rp : Addr) (r : Tree)
        → IsDistinct (node a v nil r)
        → has block (node a v nil r) ≡ false
        → h a ≡ some (bnode v lp rp)
        → Stands h rp r
        → same compar key v ≡ false
        → before compar key v ≡ true
        → p ≡ a
        → Links h a p (node a v nil r)
    unfolding insert
    here_left p a v lp rp r d out here sr ne b e =
        let other : a ≢ block = ground (arith, out) in
        let self = ==_refl a in
        let root : put_node h a (bnode v block rp) a ≡ some (bnode v block rp) =
          put_node_self h a (bnode v block rp) in
        let right : Stands (put_node h a (bnode v block rp)) rp r =
          Stands-same h (put_node h a (bnode v block rp)) rp r
            (λ x hx. put_node_ne h a x (bnode v block rp) (has_ne x a r hx d.2)) sr in
        (
          v,
          lp,
          rp,
          here,
          rw self refl,
          rw (ne, b) (e, block, rp, root, new_node a (bnode v block rp) other, right),
        )

    here_right :
        (p a v lp rp : Addr) (l : Tree)
        → IsDistinct (node a v l nil)
        → has block (node a v l nil) ≡ false
        → h a ≡ some (bnode v lp rp)
        → Stands h lp l
        → same compar key v ≡ false
        → before compar key v ≡ false
        → p ≡ a
        → Links h a p (node a v l nil)
    unfolding insert
    here_right p a v lp rp l d out here sl ne b e =
        let other : a ≢ block = ground (arith, out) in
        let self = ==_refl a in
        let root : put_node h a (bnode v lp block) a ≡ some (bnode v lp block) =
          put_node_self h a (bnode v lp block) in
        let left : Stands (put_node h a (bnode v lp block)) lp l =
          Stands-same h (put_node h a (bnode v lp block)) lp l
            (λ x hx. put_node_ne h a x (bnode v lp block) (has_ne x a l hx d.1)) sl in
        (
          v,
          lp,
          rp,
          here,
          rw self refl,
          rw (ne, b) (e, lp, block, root, left, new_node a (bnode v lp block) other),
        )

    below_left :
        (p a v lp rp : Addr) (l r : Tree)
        → Stands h p (node a v l r)
        → IsDistinct (node a v l r)
        → has block (node a v l r) ≡ false
        → h a ≡ some (bnode v lp rp)
        → Stands h rp r
        → same compar key v ≡ false
        → before compar key v ≡ true
        → (l ≢ nil → Links h (last compar key a l) lp l)
        → Links h (last compar key a l) p (node a v l r)
    unfolding last
    below_left p a v lp rp nil r s d out here sr ne b below =
        here_left p a v lp rp r d out here sr ne b s.0
    below_left p a v lp rp (node a' v' l' r') r s d out here sr ne b below =
        let l = node a' v' l' r' in
        link_left (last compar key a l) p a v lp rp l r d here sr ne b s.0 (below (λ z. cc))

    below_right :
        (p a v lp rp : Addr) (l r : Tree)
        → Stands h p (node a v l r)
        → IsDistinct (node a v l r)
        → has block (node a v l r) ≡ false
        → h a ≡ some (bnode v lp rp)
        → Stands h lp l
        → same compar key v ≡ false
        → before compar key v ≡ false
        → (r ≢ nil → Links h (last compar key a r) rp r)
        → Links h (last compar key a r) p (node a v l r)
    unfolding last
    below_right p a v lp rp l nil s d out here sl ne b below =
        here_right p a v lp rp l d out here sl ne b s.0
    below_right p a v lp rp l (node a' v' l' r') s d out here sl ne b below =
        let r = node a' v' l' r' in
        link_right (last compar key a r) p a v lp rp l r d here sl ne b s.0 (below (λ z. cc))

    -- In a tree with nodes, the last node of the search is linked.
    pub last-Links :
        (p : Addr) (t : Tree)
        → t ≢ nil
        → Stands h p t
        → IsDistinct t
        → has block t ≡ false
        → find compar key t ≡ none
        → (par : Addr) → Links h (last compar key par t) p t
    unfolding find
    last-Links p nil some_node s d out f par = absurd (some_node refl)
    last-Links p (node a v l r) some_node s d out f par =
        let (e, lp, rp, here, sl, sr) = s in
        elim (Bool-cases (same compar key v)) [
          | inl eq ↦ let f' : some a ≡ none = rw eq at f in absurd cc
          | inr ne ↦ elim (Bool-cases (before compar key v)) [
            | inl b ↦
                let f' : find compar key l ≡ none = rw (ne, b) at f in
                subst (λ q. Links h q p (node a v l r)) (last-left par a v l r b)
                  (below_left p a v lp rp l r s d out here sr ne b
                    (λ nn. last-Links lp l nn sl d.4 (ground (arith, out)) f' a))
            | inr b ↦
                let f' : find compar key r ≡ none = rw (ne, b) at f in
                subst (λ q. Links h q p (node a v l r)) (last-right par a v l r b)
                  (below_right p a v lp rp l r s d out here sl ne b
                    (λ nn. last-Links rp r nn sr d.5 (ground (arith, out)) f' a))
          ]
        ]
