-- ===== src/Tests/Trees.antt =====
-- src/search.c: a tree of two nodes, the values 5 at 10 and 3 at 20, and a new node at 30.
use libdeepc.Base.{◌≡◌, refl, ◌≢◌, ◌⊎◌, none, some, [], ◌∷◌, arith, ℤ, pos, ◌-ℤ◌, ok}
use libdeepc.Memory.{Addr, null}
use libdeepc.Search.Tree.{
  Bnode, NodeHeap, put_node, tfind_with_parent, tfind, tsearch, tdelete, set_dst, preorder,
  postorder, endorder, leaf, twalk,
}
use libdeepc.Search.Tree.Shape.{Tree, nil, node, bnode, find, insert}
use libdeepc.Search.Tree.Refine.{Represents, Enters, tsearch-enter}
use libdeepc.Search.Tree.Shape.{above, IsDistinct}
use libdeepc.Search.Tree.Remove.{graft, remove, Dropped}
use libdeepc.Search.Tree.Drop.{Deletes, tdelete-remove}
use libdeepc.Search.Tree.Found.{tfind-tsearch}
use libdeepc.Search.Tree.Walk.{visits, in_order, middle, twalk-visits}

abbrev by_value : Addr → Addr → ℤ
by_value a b = pos a -ℤ pos b

abbrev pair : NodeHeap
pair = put_node (put_node (λ _. none) 20 (bnode 3 null null)) 10 (bnode 5 20 null)

abbrev pair_tree : Tree
pair_tree = node 10 5 (node 20 3 nil nil) nil

pair-Represents : Represents by_value pair 10 pair_tree
unfolding put_node ◌-ℤ◌
pair-Represents = (
  (refl, 20, null, refl, (refl, null, null, refl, refl, refl), refl),
  (
    λ e. omega arith,
    refl,
    refl,
    λ x h. refl,
    (λ e. omega arith, refl, refl, λ x h. refl, tt, tt),
    tt,
  ),
  ((refl, tt, tt), tt, (tt, tt, tt, tt), tt),
)

-- The value 4 belongs right of 3.
-- What stands at 30 before the insertion, and what a block that was in use has there.
abbrev fresh : Bnode
fresh = bnode 0 null null

abbrev used : Bnode
used = bnode 7 8 9

tsearch-enter_example :
    ((a : Addr) × (find by_value 4 pair_tree ≡ some a)
      × (tsearch by_value 9 pair 4 10 30 fresh ≡ ok (a, (pair, 10))))
    ⊎ (((find by_value 4 pair_tree ≡ none)
          × (30 ≡ null)
          × (tsearch by_value 9 pair 4 10 30 fresh ≡ ok (null, (pair, 10))))
        ⊎ ((find by_value 4 pair_tree ≡ none)
            × (30 ≢ null)
            × Enters by_value 4 30 fresh 9 pair 10 pair_tree (30, insert by_value 4 30 pair_tree)))
tsearch-enter_example =
    tsearch-enter by_value 9 4 30 fresh pair 10 pair_tree pair-Represents (omega arith) refl refl
      refl

tfind-tsearch_example :
    (h' : NodeHeap) × (root' : Addr) × (tsearch by_value 9 pair 4 10 30 used ≡ ok (30, (h', root')))
    × (tfind by_value 9 h' 4 root' ≡ ok 30)
unfolding ◌-ℤ◌ find
tfind-tsearch_example =
    tfind-tsearch by_value 9 4 30 used pair 10 pair_tree pair-Represents (omega arith) refl
      (omega arith) refl refl

twalk-visits_example :
    (twalk 9 pair 10
      ≡ ok
          ((10, (preorder, 0)) ∷ (20, (leaf, 1)) ∷ (10, (postorder, 0)) ∷ (10, (endorder, 0)) ∷ []))
    × (middle (visits pair_tree 0) ≡ 20 ∷ 10 ∷ [])
unfolding visits in_order
twalk-visits_example =
    twalk-visits 9 pair 10 pair_tree pair-Represents.0 pair-Represents.1 (λ e. cc) (omega arith)

-- The root has one child, which takes its place.
tdelete-remove_example :
    ((find by_value 5 pair_tree ≡ none) × (tdelete by_value 9 pair 5 10 ≡ ok (null, (pair, 10))))
    ⊎ ((a : Addr) × (find by_value 5 pair_tree ≡ some a)
        × Deletes by_value 9 5 10 null a pair pair_tree (node 20 3 nil nil)
        × IsDistinct (node 20 3 nil nil)
        × Dropped by_value 5 (20 ∷ 10 ∷ []) a (20 ∷ []))
unfolding find above remove graft in_order ◌-ℤ◌
tdelete-remove_example =
    tdelete-remove by_value 9 5 pair 10 pair_tree pair-Represents.0 pair-Represents.1 (omega arith)

-- tdelete returns the parent, which is NULL for the root as it is where nothing is found.
tdelete_run : (h' : NodeHeap) × (tdelete by_value 9 pair 5 10 ≡ ok (null, (h', 20)))
unfolding put_node ◌-ℤ◌ tdelete tfind_with_parent set_dst
tdelete_run = (_, refl)
