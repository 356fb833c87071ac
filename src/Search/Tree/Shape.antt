-- ===== src/Search/Tree/Shape.antt =====
-- src/search.c: the tree that the nodes of a heap make, and what the search and an insertion are on it.
use libdeepc.Base.{
  ℕ, zero, suc, ◌+◌, ◌<◌, ◌≡◌, refl, ◌∙◌, ◌≢◌, inl, inr, Bool, true, false, ◌||◌, Option, none,
  some, arith, ◌==◌, if◌then◌else◌, ==_refl, Bool-cases, ℤ, pos, ltb_ℤ, eqb_ℤ, ok,
}
use libdeepc.Memory.{Addr, null}
use libdeepc.Search.Tree.{Bnode, NodeHeap, put_node, tfind_with_parent}

-- A node with its address and its value.
pub data Tree : Type 0 where
  nil : Tree
  node : (a v : Addr) (l r : Tree) → Tree

abbrev pub bnode : (v l r : Addr) → Bnode
bnode v l r = record { val = v; l = l; r = r }

-- The address is that of a node.
abbrev pub has : Addr → Tree → Bool
has x nil = false
has x (node a v l r) = (x == a) || (has x l || has x r)

abbrev pub Apart : Tree → Tree → Type 0
Apart t u = (x : Addr) → has x t ≡ true → has x u ≡ false

-- No two nodes are at one address, and none at NULL.
abbrev pub IsDistinct : Tree → Type 0
IsDistinct nil = Unit
IsDistinct (node a v l r) =
    (a ≢ null) × (has a l ≡ false) × (has a r ≡ false) × Apart l r × IsDistinct l × IsDistinct r

-- From `p` on the heap has the nodes of the tree.
abbrev pub Stands : NodeHeap → Addr → Tree → Type 0
Stands h p nil = p ≡ null
Stands h p (node a v l r) =
    (p ≡ a)
    × (lp : Addr) × (rp : Addr) × (h a ≡ some (bnode v lp rp))
    × Stands h lp l
    × Stands h rp r

abbrev pub depth : Tree → ℕ
depth nil = 0
depth (node a v l r) = suc (depth l + depth r)

module _ (compar : Addr → Addr → ℤ) (key : Addr) where
  -- Where the key is compared equal, and which child is next.
  abbrev pub same : Addr → Bool
  same v = eqb_ℤ (compar key v) (pos 0)

  abbrev pub before : Addr → Bool
  before v = ltb_ℤ (compar key v) (pos 0)

  unfoldable pub find : Tree → Option Addr
  find nil = none
  find (node a v l r) =
      let x = find l in let y = find r in if same v then some a else if before v then x else y

  unfoldable pub insert : Addr → Tree → Tree
  insert b nil = node b key nil nil
  insert b (node a v l r) =
      let l' = insert b l in
      let r' = insert b r in
      if same v then node a v l r else if before v then node a v l' r else node a v l r'

  -- The node that the search ends at, `par` where it ends at once.
  unfoldable pub last : Addr → Tree → Addr
  last par nil = par
  last par (node a v l r) = let x = last a l in let y = last a r in if before v then x else y

  -- The node above the one with the key, `par` where that is at the root.
  unfoldable pub above : Addr → Tree → Addr
  above par nil = par
  above par (node a v l r) =
      let x = above a l in let y = above a r in if same v then par else if before v then x else y

pub put_node_self : (h : NodeHeap) (a : Addr) (n : Bnode) → put_node h a n a ≡ some n
unfolding put_node
put_node_self h a n = let q = ==_refl a in rw q refl

pub put_node_ne : (h : NodeHeap) (a b : Addr) (n : Bnode) → b ≢ a → put_node h a n b ≡ h b
unfolding put_node
put_node_ne h a b n ne = let q : (b == a) ≡ false = ground arith in rw q refl

-- A tree stands in every heap that agrees on its nodes.
pub Stands-same :
    (h k : NodeHeap) (p : Addr) (t : Tree)
    → ((x : Addr) → has x t ≡ true → k x ≡ h x)
    → Stands h p t
    → Stands k p t
Stands-same h k p nil agree s = s
Stands-same h k p (node a v l r) agree (e, lp, rp, here, sl, sr) = (
  e,
  lp,
  rp,
  agree a (let q = ==_refl a in rw q refl) ∙ here,
  Stands-same h k lp l (λ x hx. agree x (ground (arith, hx))) sl,
  Stands-same h k rp r (λ x hx. agree x (ground (arith, hx))) sr,
)

module _ (compar : Addr → Addr → ℤ) (key : Addr) (h : NodeHeap) where
  module _ (fuel par a v lp rp : ℕ) (real : a ≢ null) (here : h a ≡ some (bnode v lp rp)) where
    step_same :
        same compar key v ≡ true → tfind_with_parent compar (suc fuel) h key par a ≡ ok (par, a)
    unfolding tfind_with_parent
    step_same e = let there : (a == null) ≡ false = ground arith in rw (there, here, e) refl

    step_before :
        same compar key v ≡ false
        → before compar key v ≡ true
        → tfind_with_parent compar (suc fuel) h key par a ≡ tfind_with_parent compar fuel h key a lp
    unfolding tfind_with_parent
    step_before e b = let there : (a == null) ≡ false = ground arith in rw (there, here, e, b) refl

    step_after :
        same compar key v ≡ false
        → before compar key v ≡ false
        → tfind_with_parent compar (suc fuel) h key par a ≡ tfind_with_parent compar fuel h key a rp
    unfolding tfind_with_parent
    step_after e b = let there : (a == null) ≡ false = ground arith in rw (there, here, e, b) refl

  at_null : (fuel par : ℕ) → tfind_with_parent compar (suc fuel) h key par null ≡ ok (par, null)
  unfolding tfind_with_parent
  at_null fuel par = refl

  -- The search ends at the node that compares equal, below the one above it.
  pub tfind_with_parent-found :
      (fuel par p a : ℕ) (t : Tree)
      → Stands h p t
      → IsDistinct t
      → depth t < fuel
      → find compar key t ≡ some a
      → tfind_with_parent compar fuel h key par p ≡ ok (above compar key par t, a)
  unfolding find above
  tfind_with_parent-found zero par p a t s d lt f = absurd (omega arith)
  tfind_with_parent-found (suc fuel) par p a nil s d lt f = cc
  tfind_with_parent-found (suc fuel) par p a (node b v l r) (e, lp, rp, here, sl, sr) d lt f =
      elim (Bool-cases (same compar key v)) [
        | inl eq ↦
            let f' : some b ≡ some a = rw eq at f in
            let q : b ≡ a = cc in rw (e, eq, step_same fuel par b v lp rp d.0 here eq, q) refl
        | inr ne ↦ elim (Bool-cases (before compar key v)) [
          | inl b' ↦
              rw (e, ne, b', step_before fuel par b v lp rp d.0 here ne b')
                (tfind_with_parent-found fuel b lp a l sl d.4 (omega arith) (rw (ne, b') at f))
          | inr b' ↦
              rw (e, ne, b', step_after fuel par b v lp rp d.0 here ne b')
                (tfind_with_parent-found fuel b rp a r sr d.5 (omega arith) (rw (ne, b') at f))
        ]
      ]

  -- Without such a node it ends at NULL, below the last node.
  pub tfind_with_parent-absent :
      (fuel par p : ℕ) (t : Tree)
      → Stands h p t
      → IsDistinct t
      → depth t < fuel
      → find compar key t ≡ none
      → tfind_with_parent compar fuel h key par p ≡ ok (last compar key par t, null)
  unfolding find last
  tfind_with_parent-absent zero par p t s d lt f = absurd (omega arith)
  tfind_with_parent-absent (suc fuel) par p nil s d lt f = rw s (at_null fuel par)
  tfind_with_parent-absent (suc fuel) par p (node b v l r) (e, lp, rp, here, sl, sr) d lt f =
      elim (Bool-cases (same compar key v)) [
        | inl eq ↦ let f' : some b ≡ none = rw eq at f in cc
        | inr ne ↦ elim (Bool-cases (before compar key v)) [
          | inl b' ↦
              rw (e, b', step_before fuel par b v lp rp d.0 here ne b')
                (tfind_with_parent-absent fuel b lp l sl d.4 (omega arith) (rw (ne, b') at f))
          | inr b' ↦
              rw (e, b', step_after fuel par b v lp rp d.0 here ne b')
                (tfind_with_parent-absent fuel b rp r sr d.5 (omega arith) (rw (ne, b') at f))
        ]
      ]
