-- ===== src/Search/Tree.antt =====
-- src/search.c: the binary tree, on a heap of nodes. NULL is 0, and an access to an address where
-- no node stands is a fault. The comparison is the caller's, on the key and the value of a node,
-- which are addresses, and the block that calloc gives is an argument.
pub mod Shape
pub mod Insert
pub mod Order
pub mod Refine
pub mod Found
pub mod Walk
pub mod Remove
pub mod Located
pub mod Unlink
pub mod Graft
pub mod Delete
pub mod Drop
use libdeepc.Base.{
  ℕ, zero, suc, ◌+◌, ◌-◌, ◌*◌, ◌/◌, ◌%◌, ◌^◌, ◌≤◌, ◌<◌, ◌≡◌, refl, sym, ap, ◌∙◌, fun_ext, subst,
  ◌≢◌, ◌↔◌, ◌⊎◌, inl, inr, Bool, true, false, not, ◌&&◌, ◌||◌, Option, none, some, List, [], ◌∷◌,
  ◌++◌, map, arith, dec_lt, dec_le, ℕ_discrete, ltb, leb, ◌==◌, if◌then◌else◌, ltb→lt, lt→ltb,
  ==_iff, ==_refl, Bool-cases, Option-cases, length, get_elem?, set, replicate, take, drop, All,
  length-append, length-set, length-replicate, get_elem?-set_self, get_elem?-set_ne, get_elem?-lt,
  ℤ, pos, negsuc, pos_part, neg_part, sub_ℕ, minus, ◌+ℤ◌, ◌-ℤ◌, ◌*ℤ◌, ◌≤ℤ◌, leb_ℤ, ltb_ℤ, eqb_ℤ,
  Res, ok, fault, out_of_fuel, ◌>>=◌, on_option, lt_wf,
}
use libdeepc.Memory.{Addr, null}

-- bnode
pub record Bnode : Type 0 where
  pub val : Addr
  pub l : Addr
  pub r : Addr

abbrev pub NodeHeap : Type 0
NodeHeap = Addr → Option Bnode

unfoldable pub put_node : NodeHeap → Addr → Bnode → NodeHeap
put_node h a n x = if x == a then some n else h x

abbrev pub node_at : NodeHeap → Addr → Res Bnode
node_at h a = on_option (h a) fault ok

-- `a->l = p` and `a->r = p`.
abbrev pub set_l : NodeHeap → Addr → Addr → Res NodeHeap
set_l h a p =
    on_option (h a) fault (λ n. ok (put_node h a (record { val = n.val; l = p; r = n.r })))

abbrev pub set_r : NodeHeap → Addr → Addr → Res NodeHeap
set_r h a p =
    on_option (h a) fault (λ n. ok (put_node h a (record { val = n.val; l = n.l; r = p })))

-- VISIT
pub data Visit : Type 0 where
  preorder postorder endorder leaf : Visit

-- `while (cur->r != NULL) cur = cur->r;`
unfoldable pub rightmost : ℕ → NodeHeap → Addr → Res Addr
rightmost zero h cur = out_of_fuel
rightmost (suc fuel) h cur = do
  n ← node_at h cur
  let rest = rightmost fuel h n.r
  if n.r == null then ok cur else rest

-- `*dst = p`: the root where there is no parent, else the child of the parent that is `cur`.
unfoldable pub set_dst : NodeHeap → (root parent cur p : Addr) → Res (NodeHeap × Addr)
set_dst h root parent cur p =
    let child = (do
      n ← node_at h parent
      h' ← if n.l == cur then set_l h parent p else set_r h parent p
      ok (h', root)) in
    if parent == null then ok (h, p) else child

module _ (compar : Addr → Addr → ℤ) where
  -- tfind_with_parent: the parent and the node where the search ends.
  unfoldable pub tfind_with_parent : ℕ → NodeHeap → (key parent cur : Addr) → Res (Addr × Addr)
  tfind_with_parent zero h key parent cur = out_of_fuel
  tfind_with_parent (suc fuel) h key parent cur =
      let round = (do
        n ← node_at h cur
        let c = compar key n.val
        let next = tfind_with_parent fuel h key cur (if ltb_ℤ c (pos 0) then n.l else n.r)
        if eqb_ℤ c (pos 0) then ok (parent, cur) else next) in
      if cur == null then ok (parent, cur) else round

  unfoldable pub tfind : ℕ → NodeHeap → (key root : Addr) → Res Addr
  tfind fuel h key root = do (parent, child) ← tfind_with_parent fuel h key null root; ok child

  -- tsearch: the node, the heap and `*rootp`. `block` is what calloc gives, NULL where it fails,
  -- and `cell` is what stands there then. Only its value is set.
  unfoldable pub tsearch :
      ℕ → NodeHeap → (key root block : Addr) → Bnode → Res (Addr × (NodeHeap × Addr))
  tsearch fuel h key root block cell = do
    (parent, child) ← tfind_with_parent fuel h key null root
    let h1 = put_node h block (record { val = key; l = cell.l; r = cell.r })
    let link = (do
      n ← node_at h1 parent
      h2 ← if ltb_ℤ (compar key n.val) (pos 0) then set_l h1 parent block else set_r h1 parent block
      ok (block, (h2, root)))
    if not (child == null)
        then ok (child, (h, root))
        else if block == null
        then ok (null, (h, root))
        else if parent == null
        then ok (block, (h1, block))
        else link

  -- tdelete: the parent, the heap and `*rootp`. The node is freed, so nothing stands there any
  -- more.
  unfoldable pub tdelete : ℕ → NodeHeap → (key root : Addr) → Res (Addr × (NodeHeap × Addr))
  tdelete fuel h key root = do
    (parent, cur) ← tfind_with_parent fuel h key null root
    let unlink = (do
      n ← node_at h cur
      let promote = (do
        (h1, root') ← set_dst h root parent cur n.l
        last ← rightmost fuel h1 n.l
        h2 ← set_r h1 last n.r
        ok (h2, root'))
      (h', root') ←
          if n.l == null
          then set_dst h root parent cur n.r
          else if n.r == null
          then set_dst h root parent cur n.l
          else promote
      ok (parent, ((λ a. if a == cur then none else h' a), root')))
    if cur == null then ok (null, (h, root)) else unlink

-- twalk_internal: the calls of the action, in order.
unfoldable pub twalk_internal : ℕ → NodeHeap → Addr → ℕ → Res (List (Addr × (Visit × ℕ)))
twalk_internal zero h cur depth = out_of_fuel
twalk_internal (suc fuel) h cur depth = do
  n ← node_at h cur
  let left = twalk_internal fuel h n.l (depth + 1)
  let right = twalk_internal fuel h n.r (depth + 1)
  let inner = (do
    ls ← if n.l == null then ok [] else left
    rs ← if n.r == null then ok [] else right
    ok (
        (cur, (preorder, depth))
        ∷ (ls ++ (cur, (postorder, depth)) ∷ (rs ++ (cur, (endorder, depth)) ∷ []))))
  if n.l == null && n.r == null then ok ((cur, (leaf, depth)) ∷ []) else inner

unfoldable pub twalk : ℕ → NodeHeap → Addr → Res (List (Addr × (Visit × ℕ)))
twalk fuel h root = twalk_internal fuel h root 0
