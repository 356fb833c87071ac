-- ===== src/Search/Tree/Walk.antt =====
-- src/search.c: twalk, against the order in which it is to visit the nodes of a tree.
use libdeepc.Base.{
  ℕ, zero, suc, ◌+◌, ◌<◌, ◌≡◌, refl, ◌∙◌, ◌≢◌, inl, inr, Bool, true, false, ◌&&◌, List, [], ◌∷◌,
  ◌++◌, arith, ◌==◌, if◌then◌else◌, Bool-cases, ok,
}
use libdeepc.Memory.{Addr, null}
use libdeepc.Search.Tree.{
  NodeHeap, Visit, preorder, postorder, endorder, leaf, twalk_internal, twalk,
}
use libdeepc.Search.Tree.Shape.{Tree, nil, node, IsDistinct, Stands, depth}

abbrev is_nil : Tree → Bool
is_nil nil = true
is_nil (node a v l r) = false

-- The visits of a tree: a leaf once, another node before, between and after its children.
unfoldable pub visits : Tree → ℕ → List (Addr × (Visit × ℕ))
visits nil d = []
visits (node a v l r) d =
    let ls = visits l (d + 1) in
    let rs = visits r (d + 1) in
    if is_nil l && is_nil r
    then (a, (leaf, d)) ∷ []
    else (a, (preorder, d)) ∷ (ls ++ (a, (postorder, d)) ∷ (rs ++ (a, (endorder, d)) ∷ []))

-- The nodes of the tree from the least to the greatest, and those of the visits that are in this order.
unfoldable pub in_order : Tree → List Addr
in_order nil = []
in_order (node a v l r) = in_order l ++ a ∷ in_order r

unfoldable pub middle : List (Addr × (Visit × ℕ)) → List Addr
middle [] = []
middle ((a, (preorder, d)) ∷ vs) = middle vs
middle ((a, (postorder, d)) ∷ vs) = a ∷ middle vs
middle ((a, (endorder, d)) ∷ vs) = middle vs
middle ((a, (leaf, d)) ∷ vs) = a ∷ middle vs

is_nil-null :
    (h : NodeHeap) (p : Addr) (t : Tree) → Stands h p t → IsDistinct t → (p == null) ≡ is_nil t
is_nil-null h p nil s d = rw s refl
is_nil-null h p (node a v l r) s d = let real = d.0 in let e = s.0 in rw e (ground (arith, real))

walk :
    (fuel d : ℕ) (h : NodeHeap) (p : Addr) (t : Tree)
    → Stands h p t
    → IsDistinct t
    → depth t < fuel
    → (if p == null then ok [] else twalk_internal fuel h p d) ≡ ok (visits t d)
unfolding twalk_internal visits
walk zero d h p t s dist lt = absurd (omega arith)
walk (suc fuel) d h p nil s dist lt = rw s refl
walk (suc fuel) d h p (node a v l r) (e, lp, rp, here, sl, sr) dist lt =
    let real : (a == null) ≡ false = let ne = dist.0 in ground (arith, ne) in
    let il = walk fuel (d + 1) h lp l sl dist.4 (omega arith) in
    let ir = walk fuel (d + 1) h rp r sr dist.5 (omega arith) in
    let nl = is_nil-null h lp l sl dist.4 in
    let nr = is_nil-null h rp r sr dist.5 in
    rw (e, real, here, il, ir, nl, nr)
      (elim (Bool-cases (is_nil l && is_nil r)) [ inl b ↦ rw b refl | inr b ↦ rw b refl ])

middle-append : (us vs : List (Addr × (Visit × ℕ))) → middle (us ++ vs) ≡ middle us ++ middle vs
unfolding middle
middle-append [] vs = refl
middle-append ((a, (preorder, d)) ∷ us) vs = middle-append us vs
middle-append ((a, (postorder, d)) ∷ us) vs = let q = middle-append us vs in rw q refl
middle-append ((a, (endorder, d)) ∷ us) vs = middle-append us vs
middle-append ((a, (leaf, d)) ∷ us) vs = let q = middle-append us vs in rw q refl

nil-in_order : (t : Tree) → is_nil t ≡ true → in_order t ≡ []
unfolding in_order
nil-in_order nil e = refl
nil-in_order (node a v l r) e = absurd cc

append_nil : (xs : List Addr) → xs ++ [] ≡ xs
append_nil [] = refl
append_nil (x ∷ xs) = let q = append_nil xs in rw q refl

middle-visits : (t : Tree) (d : ℕ) → middle (visits t d) ≡ in_order t
unfolding middle visits in_order
middle-visits nil d = refl
middle-visits (node a v l r) d =
    let il = middle-visits l (d + 1) in
    let ir = middle-visits r (d + 1) in
    elim (Bool-cases (is_nil l && is_nil r)) [
      | inl b ↦
          let nl = nil-in_order l (ground (arith, b)) in
          let nr = nil-in_order r (ground (arith, b)) in rw (b, nl, nr) refl
      | inr b ↦
          let right = middle-append (visits r (d + 1)) ((a, (endorder, d)) ∷ []) in
          let left =
            middle-append (visits l (d + 1))
              ((a, (postorder, d)) ∷ (visits r (d + 1) ++ (a, (endorder, d)) ∷ [])) in
          let last = append_nil (in_order r) in rw b (left ∙ (rw (il, right, ir, last) refl))
    ]

-- On a heap with a tree that has nodes, at different addresses, and with more fuel than nodes, twalk
-- calls the action with the visits of the tree, and those of them that are leaf or postorder are of
-- each node once, a node behind those left of it and before those right of it.
pub twalk-visits :
    (fuel : ℕ) (h : NodeHeap) (root : Addr) (t : Tree)
    → Stands h root t
    → IsDistinct t
    → t ≢ nil
    → depth t < fuel
    → (twalk fuel h root ≡ ok (visits t 0)) × (middle (visits t 0) ≡ in_order t)
unfolding twalk
twalk-visits fuel h root nil s dist some_node lt = absurd (some_node refl)
twalk-visits fuel h root (node a v l r) s dist some_node lt =
    let t = node a v l r in
    let run = walk fuel 0 h root t s dist lt in
    let real = is_nil-null h root t s dist in (rw real at run, middle-visits t 0)
