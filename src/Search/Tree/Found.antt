-- ===== src/Search/Tree/Found.antt =====
-- src/search.c: tfind finds what tsearch inserted.
use libdeepc.Base.{
  ℕ, zero, suc, ◌≤◌, ◌<◌, ◌≡◌, refl, sym, ◌∙◌, ◌≢◌, inl, inr, true, false, none, some, arith,
  ℕ_discrete, if◌then◌else◌, Bool-cases, Option-cases, ℤ, pos, ok,
}
use libdeepc.Memory.{Addr, null}
use libdeepc.Search.Tree.{Bnode, NodeHeap, put_node, tfind_with_parent, tfind, tsearch}
use libdeepc.Search.Tree.Shape.{
  Tree, nil, node, bnode, has, IsDistinct, Stands, depth, same, before, find, insert, last, above,
  put_node_self, put_node_ne, Stands-same, tfind_with_parent-found, tfind_with_parent-absent,
}
use libdeepc.Search.Tree.Order.{insert-IsDistinct}
use libdeepc.Search.Tree.Insert.{has_ne, linked, last-Links}
use libdeepc.Search.Tree.Refine.{Represents, has-real, root_run, link_run}

module _ (compar : Addr → Addr → ℤ) where
  module _ (key block : Addr) where
    find-insert :
        (t : Tree)
        → same compar key key ≡ true
        → find compar key t ≡ none
        → find compar key (insert compar key block t) ≡ some block
    unfolding find insert
    find-insert nil e f = rw e refl
    find-insert (node a v l r) e f =
        let il = find-insert l e in
        let ir = find-insert r e in
        elim (Bool-cases (same compar key v)) [
          | inl eq ↦ let f' : some a ≡ none = rw eq at f in absurd cc
          | inr n ↦ elim (Bool-cases (before compar key v)) [
            | inl lt ↦ rw (n, lt, n, lt) (il (rw (n, lt) at f))
            | inr ge ↦ rw (n, ge, n, ge) (ir (rw (n, ge) at f))
          ]
        ]

    depth-insert : (t : Tree) → depth (insert compar key block t) ≤ suc (depth t)
    unfolding insert
    depth-insert nil = omega arith
    depth-insert (node a v l r) =
        let il = depth-insert l in
        let ir = depth-insert r in
        elim (Bool-cases (same compar key v)) [
          | inl eq ↦ rw eq (omega arith)
          | inr n ↦ elim (Bool-cases (before compar key v)) [
            | inl lt ↦ rw (n, lt) (omega arith)
            | inr ge ↦ rw (n, ge) (omega arith)
          ]
        ]

  tfind_run :
      (fuel key root par a : ℕ) (h : NodeHeap)
      → tfind_with_parent compar fuel h key null root ≡ ok (par, a)
      → tfind compar fuel h key root ≡ ok a
  unfolding tfind
  tfind_run fuel key root par a h run = rw run refl

  -- The search for a key that compares equal to itself does not look at the children of its node.
  module _ (key block : Addr) (h k : NodeHeap) (l r l' r' : Addr)
      (self : same compar key key ≡ true) (agree : (x : Addr) → x ≢ block → k x ≡ h x)
      (old : h block ≡ some (bnode key l r)) (new : k block ≡ some (bnode key l' r')) where
    tfind_with_parent-agree :
        (fuel par p : ℕ)
        → tfind_with_parent compar fuel k key par p ≡ tfind_with_parent compar fuel h key par p
    unfolding tfind_with_parent
    tfind_with_parent-agree zero par p = refl
    tfind_with_parent-agree (suc fuel) par p = elim (ℕ_discrete p block) [
      | yes e ↦ rw (e, old, new, self) refl
      | no e ↦ elim (Option-cases (h p)) [
        | inl there ↦ rw (agree p e, there) refl
        | inr (n, there) ↦
            rw
              (
                agree p e,
                there,
                tfind_with_parent-agree fuel p (if before compar key n.val then n.l else n.r),
              )
              refl
      ]
    ]

    tfind-agree :
        (fuel root : ℕ) (u : Tree)
        → Stands h root u
        → IsDistinct u
        → depth u < fuel
        → find compar key u ≡ some block
        → tfind compar fuel k key root ≡ ok block
    tfind-agree fuel root u s d lt f = tfind_run fuel key root (above compar key null u) block k (
        tfind_with_parent-agree fuel null root
        ∙ tfind_with_parent-found compar key h fuel null root block u s d lt f)

  put_node-same :
      (h k : NodeHeap) (q : Addr) (n : Bnode) (x : Addr)
      → k x ≡ h x
      → put_node k q n x ≡ put_node h q n x
  unfolding put_node
  put_node-same h k q n x e = rw e refl

  -- The heaps of an insertion into a clear block and into any other differ in the children of the new
  -- node only, so the node is found whatever stands in the block.
  module _ (fuel key block : ℕ) (cell : Bnode) (h : NodeHeap) (root : Addr)
      (out_real : block ≢ null) (self : same compar key key ≡ true) where
    SearchFinds : Type 0
    SearchFinds =
        (h' : NodeHeap) × (root' : Addr) × (tsearch compar fuel h key root block cell
          ≡ ok (block, (h', root')))
        × (tfind compar fuel h' key root' ≡ ok block)

    clear : NodeHeap
    clear = put_node h block (bnode key null null)

    dirty : NodeHeap
    dirty = put_node h block (bnode key cell.l cell.r)

    dirty-clear : (x : Addr) → x ≢ block → dirty x ≡ clear x
    unfolding dirty clear
    dirty-clear x ne =
        put_node_ne h block x (bnode key cell.l cell.r) ne
        ∙ sym (put_node_ne h block x (bnode key null null) ne)

    clear-block : clear block ≡ some (bnode key null null)
    unfolding clear
    clear-block = put_node_self h block (bnode key null null)

    dirty-block : dirty block ≡ some (bnode key cell.l cell.r)
    unfolding dirty
    dirty-block = put_node_self h block (bnode key cell.l cell.r)

    insert-finds :
        (t : Tree)
        → Represents compar h root t
        → suc (depth t) < fuel
        → has block t ≡ false
        → find compar key t ≡ none
        → SearchFinds
    unfolding SearchFinds dirty clear insert last
    insert-finds nil (s, d, o) lt out f =
        let run = tfind_with_parent-absent compar key h fuel null root nil s d (omega arith) f in
        (
          dirty,
          block,
          root_run compar key block cell fuel h root null null run out_real,
          tfind-agree key block clear dirty null null cell.l cell.r self dirty-clear clear-block
              dirty-block fuel block (node block key nil nil)
              (refl, null, null, clear-block, refl, refl)
              (insert-IsDistinct compar key block nil out_real out d) (omega arith)
              (find-insert key block nil self f),
        )
    insert-finds (node a v l r) (s, d, o) lt out f =
        let t = node a v l r in
        let q = last compar key null t in
        let run = tfind_with_parent-absent compar key h fuel null root t s d (omega arith) f in
        let framed : Stands clear root t =
          Stands-same h clear root t
            (λ x hx. put_node_ne h block x (bnode key null null) (has_ne x block t hx out)) s in
        let (w, ql, qr, at_q, inside, linked_t) =
          last-Links compar key block clear clear-block root t (λ z. cc) framed d out f null in
        let ne : q ≢ block = has_ne q block t inside out in
        let new = linked compar key block w ql qr in
        (
          put_node dirty q new,
          root,
          link_run compar key block cell fuel h root q null w ql qr run out_real
              (has-real t q d inside) (dirty-clear q ne ∙ at_q),
          tfind-agree key block (put_node clear q new) (put_node dirty q new) null null cell.l
              cell.r self (λ x nx. put_node-same clear dirty q new x (dirty-clear x nx))
              (put_node_ne clear q block new (λ e. ne (sym e)) ∙ clear-block)
              (put_node_ne dirty q block new (λ e. ne (sym e)) ∙ dirty-block) fuel root
              (insert compar key block t) linked_t
              (insert-IsDistinct compar key block t out_real out d)
              (omega (arith, depth-insert key block t)) (find-insert key block t self f),
        )

  -- On a heap with a search tree that has no node for a key, where the key compares equal to itself
  -- and calloc gives a block that is none of the nodes, and with more fuel than one more node needs,
  -- tsearch gives the block, and tfind then finds the key there.
  pub tfind-tsearch :
      (fuel key block : ℕ) (cell : Bnode) (h : NodeHeap) (root : Addr) (t : Tree)
      → Represents compar h root t
      → suc (depth t) < fuel
      → has block t ≡ false
      → block ≢ null
      → compar key key ≡ pos 0
      → find compar key t ≡ none
      → (h' : NodeHeap) × (root' : Addr) × (tsearch compar fuel h key root block cell
          ≡ ok (block, (h', root')))
        × (tfind compar fuel h' key root' ≡ ok block)
  unfolding SearchFinds
  tfind-tsearch fuel key block cell h root t rep lt out real e f =
      let self : same compar key key ≡ true = rw e refl in
      insert-finds fuel key block cell h root real self t rep lt out f
