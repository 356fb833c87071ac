-- ===== src/Search/Tree/Unlink.antt =====
-- src/search.c: a tree where the part at the node with the key was replaced.
use libdeepc.Base.{
  ◌≡◌, refl, sym, ◌∙◌, subst, ◌≢◌, inl, inr, Bool, true, false, some, arith, ◌==◌, if◌then◌else◌,
  ==_refl,
}
use libdeepc.Memory.{Addr, null}
use libdeepc.Search.Tree.{Bnode, NodeHeap}
use libdeepc.Search.Tree.Shape.{Tree, nil, node, bnode, has, Apart, IsDistinct, Stands, Stands-same}
use libdeepc.Search.Tree.Insert.{has_ne}
use libdeepc.Search.Tree.Located.{Located, at_once, in_left, in_right, has-part, top-cases}

-- The link to `a` of a node leads to `p` now.
abbrev pub relinked : Addr → Addr → Addr → Addr → Addr → Bnode
relinked a p w ql qr = if ql == a then bnode w p qr else bnode w ql p

-- The heap after is that before, but for the part of the tree, and the link to it.
pub record Relinked (h h' : NodeHeap) (t sub : Tree) (q a p : Addr) : Type 0 where
  pub rest : (x : Addr) → has x t ≡ true → has x sub ≡ false → x ≢ q → h' x ≡ h x
  pub link :
      (w ql qr : Addr)
      → has q t ≡ true
      → h q ≡ some (bnode w ql qr)
      → h' q ≡ some (relinked a p w ql qr)

Apart-sym : (t u : Tree) (x : Addr) → Apart t u → has x u ≡ true → has x t ≡ false
Apart-sym t u x apart h = let q = apart x in ground (arith, q, h)

module _ (a v : Addr) (l r u : Tree) (h h' : NodeHeap) (p' : Addr) where
  abbrev Part : Tree
  Part = node a v l r

  -- What is known of a child of the node above it: the child's nodes are not that node's.
  child-Relinked :
      (t c : Tree) (q : Addr)
      → ((x : Addr) → has x c ≡ true → has x t ≡ true)
      → Relinked h h' t Part q a p'
      → Relinked h h' c Part q a p'
  child-Relinked t c q into re = record {
    rest = λ x hx out ne. re.rest x (into x hx) out ne;
    link = λ w ql qr hq at_q. re.link w ql qr (into q hq) at_q;
  }

  -- The node above a child where the part is, in the heap after: its link to the child is new where the
  -- part is the child.
  link_left :
      (b w lp rp q : Addr) (c c' s : Tree) (top : Bool)
      → Located a v l r u c b q top c'
      → IsDistinct (node b w c s)
      → h b ≡ some (bnode w lp rp)
      → Stands h lp c
      → Relinked h h' (node b w c s) Part q a p'
      → h' b ≡ some (bnode w (if top then p' else lp) rp)
  link_left b w lp rp q c c' s top loc d here sc re = elim (top-cases a v l r u loc) [
    | inl (e, same_q, same_c) ↦
        let lp_a : lp ≡ a = (subst (λ (x : Tree). Stands h lp x) same_c sc).0 in
        let self = ==_refl b in
        let hit : (lp == a) ≡ true = ground arith in
        let at_q : h q ≡ some (bnode w lp rp) = rw same_q here in
        let inside : has q (node b w c s) ≡ true = rw (same_q, self) refl in
        let q' = re.link w lp rp inside at_q in
        rw e (subst (λ x. h' x ≡ some (bnode w p' rp)) same_q (rw hit at q'))
    | inr (e, inside) ↦
        let other : b ≢ q = λ z. has_ne q b c inside d.1 (sym z) in
        let self = ==_refl b in
        let off = has-part a v l r u b loc d.1 in rw e (re.rest b (rw self refl) off other ∙ here)
  ]

  link_right :
      (b w lp rp q : Addr) (c c' s : Tree) (top : Bool)
      → Located a v l r u c b q top c'
      → IsDistinct (node b w s c)
      → h b ≡ some (bnode w lp rp)
      → lp ≢ a
      → Stands h rp c
      → Relinked h h' (node b w s c) Part q a p'
      → h' b ≡ some (bnode w lp (if top then p' else rp))
  link_right b w lp rp q c c' s top loc d here not_a sc re = elim (top-cases a v l r u loc) [
    | inl (e, same_q, same_c) ↦
        let self = ==_refl b in
        let miss : (lp == a) ≡ false = ground arith in
        let at_q : h q ≡ some (bnode w lp rp) = rw same_q here in
        let inside : has q (node b w s c) ≡ true = rw (same_q, self) refl in
        let q' = re.link w lp rp inside at_q in
        rw e (subst (λ x. h' x ≡ some (bnode w lp p')) same_q (rw miss at q'))
    | inr (e, inside) ↦
        let other : b ≢ q = λ z. has_ne q b c inside d.2 (sym z) in
        let self = ==_refl b in
        let off = has-part a v l r u b loc d.2 in rw e (re.rest b (rw self refl) off other ∙ here)
  ]

  -- The other child stays.
  sibling_stays :
      (b w q sp : Addr) (c c' s t : Tree) (top : Bool)
      → Located a v l r u c b q top c'
      → ((x : Addr) → has x s ≡ true → has x t ≡ true)
      → ((x : Addr) → has x s ≡ true → has x c ≡ false)
      → has b s ≡ false
      → Stands h sp s
      → Relinked h h' t Part q a p'
      → Stands h' sp s
  sibling_stays b w q sp c c' s t top loc into apart no_b ss re =
      Stands-same h h' sp s
        (λ x hx.
          let off = has-part a v l r u x loc (apart x hx) in
          re.rest x (into x hx) off (λ e. elim (top-cases a v l r u loc) [
            | inl (_, same_q, _) ↦ has_ne x b s hx no_b (e ∙ same_q)
            | inr (_, inside) ↦ has_ne q x c inside (apart x hx) (sym e)
          ]))
        ss

  pub a_in_part :
      {t t' : Tree} {par q : Addr} {top : Bool} → Located a v l r u t par q top t' → has a t ≡ true
  a_in_part at_once = let self = ==_refl a in rw self refl
  a_in_part (in_left loc) = let q = a_in_part loc in ground (arith, q)
  a_in_part (in_right loc) = let q = a_in_part loc in ground (arith, q)

  not_link :
      (sp : Addr) (s c : Tree) → a ≢ null → Stands h sp s → Apart s c → has a c ≡ true → sp ≢ a
  not_link sp nil c real e apart i z = real (sym z ∙ e)
  not_link sp (node b w x y) c real st apart i z =
      let self = ==_refl b in
      let off : has b c ≡ false = apart b (rw self refl) in has_ne a b c i off (sym z ∙ st.0)

  pub replace :
      {t t' : Tree} {par q : Addr} {top : Bool} (p : Addr)
      → Located a v l r u t par q top t'
      → a ≢ null
      → Stands h p t
      → IsDistinct t
      → Relinked h h' t Part q a p'
      → Stands h' p' u
      → Stands h' (if top then p' else p) t'
  replace p at_once real st d re su = su
  replace p (in_left {b} {w} {t = c} {t' = c'} {s = s} {top = top} loc) real
        (e, lp, rp, here, sl, sr) d re su =
      let re' = child-Relinked (node b w c s) c _ (λ x hx. ground (arith, hx)) re in
      (
        e,
        (if top then p' else lp),
        rp,
        link_left b w lp rp _ c c' s top loc d here sl re,
        replace lp loc real sl d.4 re' su,
        sibling_stays b w _ rp c c' s (node b w c s) top loc (λ x hx. ground (arith, hx))
            (λ x hx. Apart-sym c s x d.3 hx) d.2 sr re,
      )
  replace p (in_right {b} {w} {t = c} {t' = c'} {s = s} {top = top} loc) real
        (e, lp, rp, here, sl, sr) d re su =
      let re' = child-Relinked (node b w s c) c _ (λ x hx. ground (arith, hx)) re in
      (
        e,
        lp,
        (if top then p' else rp),
        link_right b w lp rp _ c c' s top loc d here (not_link lp s c real sl d.3 (a_in_part loc))
            sr re,
        sibling_stays b w _ lp c c' s (node b w s c) top loc (λ x hx. ground (arith, hx))
            (λ x hx. d.3 x hx) d.1 sl re,
        replace rp loc real sr d.5 re' su,
      )

  pub part-Stands :
      {t t' : Tree} {par q : Addr} {top : Bool} (p : Addr)
      → Located a v l r u t par q top t'
      → Stands h p t
      → Stands h a Part
  part-Stands p at_once (e, lp, rp, here, sl, sr) = (refl, lp, rp, here, sl, sr)
  part-Stands p (in_left loc) (e, lp, rp, here, sl, sr) = part-Stands lp loc sl
  part-Stands p (in_right loc) (e, lp, rp, here, sl, sr) = part-Stands rp loc sr

  pub part-IsDistinct :
      {t t' : Tree} {par q : Addr} {top : Bool}
      → Located a v l r u t par q top t'
      → IsDistinct t
      → IsDistinct Part
  part-IsDistinct at_once d = d
  part-IsDistinct (in_left loc) d = part-IsDistinct loc d.4
  part-IsDistinct (in_right loc) d = part-IsDistinct loc d.5

  -- The node above the part is not in it.
  pub above_part :
      {t t' : Tree} {par q : Addr} {top : Bool}
      → Located a v l r u t par q top t'
      → has par t ≡ false
      → IsDistinct t
      → has q Part ≡ false
  above_part at_once out d = out
  above_part (in_left loc) out d = above_part loc d.1 d.4
  above_part (in_right loc) out d = above_part loc d.2 d.5
