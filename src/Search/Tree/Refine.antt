-- ===== src/Search/Tree/Refine.antt =====
-- src/search.c: tsearch refines an insertion into a search tree.
use libdeepc.Base.{
  ℕ, ◌<◌, ◌≡◌, refl, sym, ◌∙◌, ◌≢◌, ◌⊎◌, inl, inr, true, false, none, some, arith, ℕ_discrete, ◌==◌,
  ==_refl, Bool-cases, Option-cases, ℤ, ok,
}
use libdeepc.Memory.{Addr, null}
use libdeepc.Search.Tree.{Bnode, NodeHeap, put_node, tfind_with_parent, tsearch}
use libdeepc.Search.Tree.Shape.{
  Tree, nil, node, bnode, has, IsDistinct, Stands, depth, same, before, find, insert, last,
  put_node_self, put_node_ne, Stands-same, above, tfind_with_parent-found, tfind_with_parent-absent,
}
use libdeepc.Search.Tree.Order.{IsOrdered, insert-IsOrdered, insert-IsDistinct}
use libdeepc.Search.Tree.Insert.{has_ne, linked, last-Links}

pub has-real : (t : Tree) (a : Addr) → IsDistinct t → has a t ≡ true → a ≢ null
has-real nil a d i = cc
has-real (node b v l r) a (real, _, _, _, dl, dr) i =
    let il = has-real l a dl in let ir = has-real r a dr in ground (arith, il, ir, i, real)

module _ (compar : Addr → Addr → ℤ) where
  -- The heap has the tree from the root on, and it is a search tree.
  abbrev pub Represents : NodeHeap → Addr → Tree → Type 0
  Represents h root t = Stands h root t × IsDistinct t × IsOrdered compar t

  module _ (key : Addr) where
    pub find-has : (t : Tree) (a : Addr) → find compar key t ≡ some a → has a t ≡ true
    unfolding find
    find-has nil a f = cc
    find-has (node b v l r) a f =
        let il = find-has l a in
        let ir = find-has r a in
        elim (Bool-cases (same compar key v)) [
          | inl eq ↦
              let f' : some b ≡ some a = rw eq at f in
              let q : b ≡ a = cc in let s = ==_refl a in rw (q, s) refl
          | inr n ↦ elim (Bool-cases (before compar key v)) [
            | inl lt ↦ let q = il (rw (n, lt) at f) in ground (arith, q)
            | inr ge ↦ let q = ir (rw (n, ge) at f) in ground (arith, q)
          ]
        ]

  module _ (key block : Addr) (cell : Bnode) where
    abbrev pub new_heap : NodeHeap → NodeHeap
    new_heap h = put_node h block (bnode key cell.l cell.r)

    module _ (fuel : ℕ) (h : NodeHeap) (root par a : Addr) where
      found_run :
          tfind_with_parent compar fuel h key null root ≡ ok (par, a)
          → a ≢ null
          → tsearch compar fuel h key root block cell ≡ ok (a, (h, root))
      unfolding tsearch
      found_run run real = let q : (a == null) ≡ false = ground arith in rw (run, q) refl

      full_run :
          tfind_with_parent compar fuel h key null root ≡ ok (par, null)
          → block ≡ null
          → tsearch compar fuel h key root block cell ≡ ok (null, (h, root))
      unfolding tsearch
      full_run run z = let q : (block == null) ≡ true = ground arith in rw (run, q) refl

      pub root_run :
          tfind_with_parent compar fuel h key null root ≡ ok (null, null)
          → block ≢ null
          → tsearch compar fuel h key root block cell ≡ ok (block, (new_heap h, block))
      unfolding tsearch
      root_run run real = let q : (block == null) ≡ false = ground arith in rw (run, q) refl

      pub link_run :
          (w ql qr : Addr)
          → tfind_with_parent compar fuel h key null root ≡ ok (par, null)
          → block ≢ null
          → par ≢ null
          → new_heap h par ≡ some (bnode w ql qr)
          → tsearch compar fuel h key root block cell
            ≡ ok (block, (put_node (new_heap h) par (linked compar key block w ql qr), root))
      unfolding tsearch
      link_run w ql qr run real some_par there =
          let q : (block == null) ≡ false = ground arith in
          let p : (par == null) ≡ false = ground arith in
          elim (Bool-cases (before compar key w)) [
            | inl lt ↦ rw (run, q, p, there, lt) refl
            | inr ge ↦ rw (run, q, p, there, ge) refl
          ]

    -- The run gives the outcome, on a heap with its tree that agrees elsewhere.
    abbrev pub Enters : ℕ → NodeHeap → Addr → Tree → Addr × Tree → Type 0
    Enters fuel h root t (a, u) =
        (h' : NodeHeap) × (root' : Addr) × (tsearch compar fuel h key root block cell
          ≡ ok (a, (h', root')))
        × Represents h' root' u
        × ((x : Addr) → has x t ≡ false → x ≢ block → h' x ≡ h x)

    pub Enters-insert :
        (fuel : ℕ) (h : NodeHeap) (root : Addr) (t : Tree)
        → Represents h root t
        → depth t < fuel
        → has block t ≡ false
        → block ≢ null
        → find compar key t ≡ none
        → cell.l ≡ null
        → cell.r ≡ null
        → Enters fuel h root t (block, insert compar key block t)
    unfolding insert last
    Enters-insert fuel h root nil (s, d, o) lt out real f zl zr =
        let run : tfind_with_parent compar fuel h key null root ≡ ok (null, null) =
          tfind_with_parent-absent compar key h fuel null root nil s d lt f in
        (
          new_heap h,
          block,
          root_run fuel h root null null run real,
          (
            (refl, cell.l, cell.r, put_node_self h block (bnode key cell.l cell.r), zl, zr),
            insert-IsDistinct compar key block nil real out d,
            insert-IsOrdered compar key block nil o,
          ),
          λ x _ ne. put_node_ne h block x (bnode key cell.l cell.r) ne,
        )
    Enters-insert fuel h root (node a v l r) (s, d, o) lt out real f zl zr =
        let t = node a v l r in
        let h1 = new_heap h in
        let q = last compar key null t in
        let run = tfind_with_parent-absent compar key h fuel null root t s d lt f in
        let framed : Stands h1 root t =
          Stands-same h h1 root t
            (λ x hx. put_node_ne h block x (bnode key cell.l cell.r) (has_ne x block t hx out)) s in
        let self : h1 block ≡ some (bnode key null null) =
          put_node_self h block (bnode key cell.l cell.r) ∙ rw (zl, zr) refl in
        let (w, ql, qr, at_q, inside, linked_t) =
          last-Links compar key block h1 self root t (λ z. cc) framed d out f null in
        (
          put_node h1 q (linked compar key block w ql qr),
          root,
          link_run fuel h root q null w ql qr run real (has-real t q d inside) at_q,
          (
            linked_t,
            insert-IsDistinct compar key block t real out d,
            insert-IsOrdered compar key block t o,
          ),
          λ x off ne.
              put_node_ne h1 q x (linked compar key block w ql qr)
                (λ e. has_ne q x t inside off (sym e))
              ∙ put_node_ne h block x (bnode key cell.l cell.r) ne,
        )

  -- On a heap with a search tree, with more fuel than it has nodes, where the block is none of its
  -- nodes and stands with NULL children, as tsearch relies on of calloc, tsearch ends without a
  -- fault. Where a node has a value that compares equal to the key it gives that node, and the heap
  -- and the root are those before. Else, where calloc gives NULL, it gives NULL, and again heap and
  -- root are those before. Else it gives the block: what stands on the heap then is the search tree
  -- with the key inserted in the block, and no address outside the tree but the block has changed.
  pub tsearch-enter :
      (fuel key block : ℕ) (cell : Bnode) (h : NodeHeap) (root : Addr) (t : Tree)
      → Represents h root t
      → depth t < fuel
      → has block t ≡ false
      → cell.l ≡ null
      → cell.r ≡ null
      → ((a : Addr) × (find compar key t ≡ some a)
          × (tsearch compar fuel h key root block cell ≡ ok (a, (h, root))))
        ⊎ (((find compar key t ≡ none)
              × (block ≡ null)
              × (tsearch compar fuel h key root block cell ≡ ok (null, (h, root))))
            ⊎ ((find compar key t ≡ none)
                × (block ≢ null)
                × Enters key block cell fuel h root t (block, insert compar key block t)))
  tsearch-enter fuel key block cell h root t (s, d, o) lt out zl zr =
      elim (Option-cases (find compar key t)) [
        | inl f ↦ elim (ℕ_discrete block null) [
          | yes z ↦
              let run = tfind_with_parent-absent compar key h fuel null root t s d lt f in
              inr (
                inl (f, z, full_run key block cell fuel h root (last compar key null t) null run z))
          | no z ↦
              inr
                (inr (f, z, Enters-insert key block cell fuel h root t (s, d, o) lt out z f zl zr))
        ]
        | inr (a, f) ↦
            let run = tfind_with_parent-found compar key h fuel null root a t s d lt f in
            inl (
              a,
              f,
              found_run key block cell fuel h root (above compar key null t) a run
                  (has-real t a d (find-has key t a f)),
            )
      ]
