-- ===== src/Stdlib/Sort.antt =====
-- src/stdlib.c: qsort. An array of `count` elements of `size` bytes is the list of its elements, and
-- the exchange of `size` bytes is that of two elements; a sub-array is the list of its elements. An
-- access outside the array is a fault. The comparison is the caller's.
pub mod Partition
pub mod Order
pub mod Correct
use libdeepc.Base.{
  ℕ, zero, suc, ◌+◌, ◌-◌, ◌*◌, ◌/◌, ◌%◌, ◌^◌, ◌≤◌, ◌<◌, ◌≡◌, refl, sym, ap, ◌∙◌, fun_ext, subst,
  ◌≢◌, ◌↔◌, ◌⊎◌, inl, inr, Bool, true, false, not, ◌&&◌, ◌||◌, Option, none, some, List, [], ◌∷◌,
  ◌++◌, map, arith, dec_lt, dec_le, ℕ_discrete, ltb, leb, ◌==◌, if◌then◌else◌, ltb→lt, lt→ltb,
  ==_iff, ==_refl, Bool-cases, Option-cases, length, get_elem?, set, replicate, take, drop, All,
  length-append, length-set, length-replicate, get_elem?-set_self, get_elem?-set_ne, get_elem?-lt,
  ℤ, pos, negsuc, pos_part, neg_part, sub_ℕ, minus, ◌+ℤ◌, ◌-ℤ◌, ◌*ℤ◌, ◌≤ℤ◌, leb_ℤ, ltb_ℤ, eqb_ℤ,
  Res, ok, fault, out_of_fuel, ◌>>=◌, on_option, lt_wf,
}

module _ {ℓ} {A : Type ℓ} where
  -- The element at an index.
  abbrev pub element : List A → ℕ → Res A
  element arr i = on_option (get_elem? arr i) fault ok

  unfoldable pub swap : List A → ℕ → ℕ → Res (List A)
  swap arr a b =
      if a == b then ok arr else do x ← element arr a; y ← element arr b; ok (set (set arr a y) b x)

  module _ (comp : A → A → ℤ) where
    -- The loop over the elements before the pivot, with `left` of them to go: the array and the index
    -- of the right side.
    unfoldable pub partition_loop : ℕ → List A → (i pivot right_side : ℕ) → Res (List A × ℕ)
    partition_loop zero arr i pivot right_side = ok (arr, right_side)
    partition_loop (suc left) arr i pivot right_side = do
      x ← element arr i
      p ← element arr pivot
      let smaller = do
        arr' ← swap arr i right_side
        partition_loop left arr' (i + 1) pivot (right_side + 1)
      let other = partition_loop left arr (i + 1) pivot right_side
      if ltb_ℤ (comp x p) (pos 0) then smaller else other

    -- The fuel bounds the depth of the calls.
    unfoldable pub qsort : ℕ → List A → Res (List A)
    qsort zero arr = out_of_fuel
    qsort (suc fuel) arr =
        let count = length arr in
        let sorted = (do
          (arr', right_side) ← partition_loop (count - 1) arr 0 (count - 1) 0
          arr'' ← swap arr' right_side (count - 1)
          l ← qsort fuel (take right_side arr'')
          r ← qsort fuel (drop (right_side + 1) arr'')
          p ← element arr'' right_side
          ok (l ++ p ∷ r)) in
        if leb count 1 then ok arr else sorted
