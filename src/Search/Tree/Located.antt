-- ===== src/Search/Tree/Located.antt =====
-- src/search.c: where the search ends in a tree, and the tree with another part there.
use libdeepc.Base.{
  ◌<◌, ◌≡◌, refl, ◌≢◌, ◌⊎◌, inl, inr, Bool, true, false, some, arith, ==_refl, Bool-cases, ℤ,
}
use libdeepc.Memory.{Addr, null}
use libdeepc.Search.Tree.Shape.{Tree, nil, node, has, depth, same, before, find, above}
use libdeepc.Search.Tree.Remove.{graft, remove}

module _ (a v : Addr) (l r u : Tree) where
  -- The search in a tree, below `par`, ends at the part `node a v l r`, below `q`: at once or not. The
  -- last tree has `u` in place of the part.
  pub data Located : Tree → Addr → Addr → Bool → Tree → Type 0 where
    at_once : {par : Addr} → Located (node a v l r) par par true u
    in_left :
        {b w par q : Addr} {t t' s : Tree} {top : Bool}
        → Located t b q top t'
        → Located (node b w t s) par q false (node b w t' s)
    in_right :
        {b w par q : Addr} {t t' s : Tree} {top : Bool}
        → Located t b q top t'
        → Located (node b w s t) par q false (node b w s t')

  pub has-part :
      {t t' : Tree} {par q : Addr} {top : Bool} (x : Addr)
      → Located t par q top t'
      → has x t ≡ false
      → has x (node a v l r) ≡ false
  has-part x at_once out = out
  has-part x (in_left loc) out = has-part x loc (ground (arith, out))
  has-part x (in_right loc) out = has-part x loc (ground (arith, out))

  -- Where the search ends at once.
  pub top-cases :
      {t t' : Tree} {par q : Addr} {top : Bool}
      → Located t par q top t'
      → ((top ≡ true) × (q ≡ par) × (t ≡ node a v l r)) ⊎ ((top ≡ false) × (has q t ≡ true))
  top-cases at_once = inl (refl, refl, refl)
  top-cases {q = q} (in_left {b} loc) = elim (top-cases loc) [
    | inl (_, e, _) ↦ let self = ==_refl b in inr (refl, rw (e, self) refl)
    | inr (_, h) ↦ inr (refl, ground (arith, h))
  ]
  top-cases {q = q} (in_right {b} loc) = elim (top-cases loc) [
    | inl (_, e, _) ↦ let self = ==_refl b in inr (refl, rw (e, self) refl)
    | inr (_, h) ↦ inr (refl, ground (arith, h))
  ]

module _ (compar : Addr → Addr → ℤ) (key : Addr) where
  pub find-Located :
      (t : Tree) (a par : Addr)
      → find compar key t ≡ some a
      → (v : Addr) × (l : Tree) × (r : Tree) × (top : Bool) × Located a v l r
          (graft l r)
          t
          par
          (above compar key par t)
          top
          (remove compar key t)
  unfolding find above remove
  find-Located nil a par f = cc
  find-Located (node b w x y) a par f = elim (Bool-cases (same compar key w)) [
    | inl eq ↦
        let f' : some b ≡ some a = rw eq at f in
        let q : b ≡ a = cc in rw (eq, q) (w, x, y, true, at_once)
    | inr n ↦ elim (Bool-cases (before compar key w)) [
      | inl lt ↦
          let (v, l, r, top, loc) = find-Located x a b (rw (n, lt) at f) in
          rw (n, lt) (v, l, r, false, in_left loc)
      | inr ge ↦
          let (v, l, r, top, loc) = find-Located y a b (rw (n, ge) at f) in
          rw (n, ge) (v, l, r, false, in_right loc)
    ]
  ]

pub part_depth :
    {a v : Addr} {l r u t t' : Tree} {par q : Addr} {top : Bool}
    → Located a v l r u t par q top t'
    → depth l < depth t
part_depth at_once = omega arith
part_depth (in_left loc) = omega (arith, part_depth loc)
part_depth (in_right loc) = omega (arith, part_depth loc)

pub above_in :
    (a v : Addr) (l r u : Tree) {t t' : Tree} {q : Addr} {top : Bool}
    → Located a v l r u t null q top t'
    → q ≢ null
    → has q t ≡ true
above_in a v l r u loc other = elim (top-cases a v l r u loc) [
  | inl (_, z, _) ↦ absurd (other z)
  | inr (_, i) ↦ i
]
