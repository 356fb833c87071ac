-- ===== src/Search/Tree/Delete.antt =====
-- src/search.c: tdelete refines the deletion from a tree.
use libdeepc.Base.{
  ℕ, ◌≡◌, refl, sym, ap, ◌∙◌, subst, ◌≢◌, inl, inr, Bool, true, false, none, some, arith, ◌==◌,
  if◌then◌else◌, ==_refl, Bool-cases, ℤ, ok,
}
use libdeepc.Memory.{Addr, null}
use libdeepc.Search.Tree.{Bnode, NodeHeap, put_node, rightmost, set_dst, tfind_with_parent, tdelete}
use libdeepc.Search.Tree.Shape.{
  Tree, nil, node, bnode, has, IsDistinct, Stands, put_node_self, put_node_ne, Stands-same,
}
use libdeepc.Search.Tree.Insert.{has_ne}
use libdeepc.Search.Tree.Refine.{has-real}
use libdeepc.Search.Tree.Remove.{graft, has-graft}
use libdeepc.Search.Tree.Located.{Located, has-part, top-cases}
use libdeepc.Search.Tree.Unlink.{relinked, Relinked, replace, part-IsDistinct, above_part}

-- The heap behind `*dst = p`, and the root.
abbrev pub redirected : NodeHeap → Addr → Addr → Addr → Addr → Addr → Addr → NodeHeap
redirected h q a p w ql qr = if q == null then h else put_node h q (relinked a p w ql qr)

abbrev pub new_root : Addr → Addr → Addr → Addr
new_root root q p = if q == null then p else root

set_dst_run :
    (h : NodeHeap) (root q a p w ql qr : Addr)
    → (q ≢ null → h q ≡ some (bnode w ql qr))
    → set_dst h root q a p ≡ ok (redirected h q a p w ql qr, new_root root q p)
unfolding set_dst
set_dst_run h root q a p w ql qr at_q = elim (Bool-cases (q == null)) [
  | inl z ↦ rw z refl
  | inr z ↦
      let there = at_q (ground (arith, z)) in
      elim (Bool-cases (ql == a)) [ inl e ↦ rw (z, there, e) refl | inr e ↦ rw (z, there, e) refl ]
]

-- The heap without the node.
abbrev pub freed : NodeHeap → Addr → NodeHeap
freed h a x = if x == a then none else h x

freed_ne : (h : NodeHeap) (a x : Addr) → x ≢ a → freed h a x ≡ h x
freed_ne h a x ne = let q : (x == a) ≡ false = ground (arith, ne) in rw q refl

module _ (compar : Addr → Addr → ℤ) (fuel key root q a v lp rp w ql qr : ℕ) (h : NodeHeap)
    (run : tfind_with_parent compar fuel h key null root ≡ ok (q, a)) (real : a ≢ null)
    (here : h a ≡ some (bnode v lp rp)) (at_q : q ≢ null → h q ≡ some (bnode w ql qr)) where
  pub no_left_run :
      lp ≡ null
      → tdelete compar fuel h key root
        ≡ ok (q, (freed (redirected h q a rp w ql qr) a, new_root root q rp))
  unfolding tdelete
  no_left_run e =
      let nz : (a == null) ≡ false = ground (arith, real) in
      let z : (lp == null) ≡ true = ground arith in
      rw (run, nz, here, z, set_dst_run h root q a rp w ql qr at_q) refl

  pub no_right_run :
      lp ≢ null
      → rp ≡ null
      → tdelete compar fuel h key root
        ≡ ok (q, (freed (redirected h q a lp w ql qr) a, new_root root q lp))
  unfolding tdelete
  no_right_run ne e =
      let nz : (a == null) ≡ false = ground (arith, real) in
      let y : (lp == null) ≡ false = ground arith in
      let z : (rp == null) ≡ true = ground arith in
      rw (run, nz, here, y, z, set_dst_run h root q a lp w ql qr at_q) refl

  pub promote_run :
      (x xv xl xr : Addr)
      → lp ≢ null
      → rp ≢ null
      → rightmost fuel (redirected h q a lp w ql qr) lp ≡ ok x
      → redirected h q a lp w ql qr x ≡ some (bnode xv xl xr)
      → tdelete compar fuel h key root
        ≡ ok (
          q,
          (freed (put_node (redirected h q a lp w ql qr) x (bnode xv xl rp)) a, new_root root q lp),
        )
  unfolding tdelete
  promote_run x xv xl xr ne me found at_x =
      let nz : (a == null) ≡ false = ground (arith, real) in
      let y : (lp == null) ≡ false = ground arith in
      let z : (rp == null) ≡ false = ground arith in
      rw (run, nz, here, y, z, set_dst_run h root q a lp w ql qr at_q, found, at_x) refl

pub redirected_ne :
    (h : NodeHeap) (q a p w ql qr x : Addr)
    → (q ≢ null → x ≢ q)
    → redirected h q a p w ql qr x ≡ h x
redirected_ne h q a p w ql qr x ne = elim (Bool-cases (q == null)) [
  | inl z ↦ rw z refl
  | inr z ↦ rw z (put_node_ne h q x (relinked a p w ql qr) (ne (ground (arith, z))))
]

redirected_self :
    (h : NodeHeap) (q a p w ql qr : Addr)
    → q ≢ null
    → redirected h q a p w ql qr q ≡ some (relinked a p w ql qr)
redirected_self h q a p w ql qr real =
    let z : (q == null) ≡ false = ground (arith, real) in
    rw z (put_node_self h q (relinked a p w ql qr))

some_eq : {A : Type 0} {x y : A} → some x ≡ some y → x ≡ y
some_eq e = cc

-- The nodes of a tree are on the heap.
pub node_there :
    (h : NodeHeap) (p q : Addr) (t : Tree)
    → Stands h p t
    → has q t ≡ true
    → (w : Addr) × (ql : Addr) × (qr : Addr) × (h q ≡ some (bnode w ql qr))
node_there h p q nil s i = cc
node_there h p q (node b v l r) (e, lp, rp, here, sl, sr) i = elim (Bool-cases (has q l)) [
  | inl k ↦ node_there h lp q l sl k
  | inr k ↦ elim (Bool-cases (has q r)) [
    | inl m ↦ node_there h rp q r sr m
    | inr m ↦
        let same : b ≡ q = ground (arith, i, k, m) in
        (v, lp, rp, subst (λ x. h x ≡ some (bnode v lp rp)) same here)
  ]
]

module _ (h : NodeHeap) (root a v : Addr) (l r t t' : Tree) (q : Addr) (top : Bool)
    (loc : Located a v l r (graft l r) t null q top t') (s : Stands h root t) (d : IsDistinct t)
    (w ql qr : Addr) (at_q : q ≢ null → h q ≡ some (bnode w ql qr)) where
  abbrev Part : Tree
  Part = node a v l r

  pub null_out : has null t ≡ false
  null_out = elim (Bool-cases (has null t)) [
    | inl i ↦ absurd (has-real t null d i refl)
    | inr o ↦ o
  ]

  a_in : has a Part ≡ true
  a_in = let self = ==_refl a in rw self refl

  pub q_out : has q Part ≡ false
  q_out = above_part a v l r (graft l r) h h 0 loc null_out d

  -- The root is new where the node has no parent.
  root_lem : (p : Addr) → (if top then p else root) ≡ new_root root q p
  root_lem p = elim (top-cases a v l r (graft l r) loc) [
    | inl (e, z, _) ↦ let n : (q == null) ≡ true = ground arith in rw (e, n) refl
    | inr (e, i) ↦
        let real = has-real t q d i in
        let n : (q == null) ≡ false = ground (arith, real) in rw (e, n) refl
  ]

  pub q_in : q ≢ null → has q t ≡ true
  q_in real = elim (top-cases a v l r (graft l r) loc) [
    | inl (_, z, _) ↦ absurd (real z)
    | inr (_, i) ↦ i
  ]

  module _ (p : Addr) (hk : NodeHeap)
      (agree : (x : Addr) → has x Part ≡ false → hk x ≡ redirected h q a p w ql qr x) where
    off_a : (x : Addr) → has x Part ≡ false → x ≢ a
    off_a x o e = has_ne a x Part a_in o (sym e)

    behind : (x : Addr) → has x Part ≡ false → freed hk a x ≡ redirected h q a p w ql qr x
    behind x o = freed_ne hk a x (off_a x o) ∙ agree x o

    freed-Relinked : Relinked h (freed hk a) t Part q a p
    freed-Relinked = record {
      rest = λ x hx o ne. behind x o ∙ redirected_ne h q a p w ql qr x (λ _. ne);
      link = λ w' ql' qr' inside e.
          let real = has-real t q d inside in
          let same : bnode w ql qr ≡ bnode w' ql' qr' = some_eq (sym (at_q real) ∙ e) in
          behind q q_out
          ∙ redirected_self h q a p w ql qr real
          ∙ ap (λ (n : Bnode). some (relinked a p n.val n.l n.r)) same;
    }

    -- What the deletion leaves.
    pub leaves :
        Stands hk p (graft l r)
        → Stands (freed hk a) (new_root root q p) t'
          × (freed hk a a ≡ none)
          × ((x : Addr) → has x t ≡ false → freed hk a x ≡ h x)
    leaves sk =
        let dp = part-IsDistinct a v l r (graft l r) h h 0 loc d in
        let out_l = dp.1 in
        let out_r = dp.2 in
        let no_a : has a (graft l r) ≡ false = has-graft a l r ∙ ground (arith, out_l, out_r) in
        let gone : Stands (freed hk a) p (graft l r) =
          Stands-same hk (freed hk a) p (graft l r)
            (λ x hx. freed_ne hk a x (has_ne x a (graft l r) hx no_a)) sk in
        let self = ==_refl a in
        (
          subst (λ x. Stands (freed hk a) x t') (root_lem p)
              (replace a v l r (graft l r) h (freed hk a) p root loc dp.0 s d freed-Relinked gone),
          rw self refl,
          λ x o.
              behind x (has-part a v l r (graft l r) x loc o)
              ∙ redirected_ne h q a p w ql qr x (λ real e. has_ne q x t (q_in real) o (sym e)),
        )
