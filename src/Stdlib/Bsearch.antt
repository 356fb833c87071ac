-- ===== src/Stdlib/Bsearch.antt =====
-- src/stdlib.c: bsearch. The array is the list of its elements, an address in it is an index, and the
-- comparison of an element with the key is a function of the element. The fuel bounds the rounds.
use libdeepc.Base.{
  ℕ, zero, suc, ◌+◌, ◌-◌, ◌/◌, ◌≤◌, ◌<◌, ◌≡◌, refl, ◌≢◌, inl, inr, true, false, Option, none, some,
  List, [], ◌∷◌, arith, dec_lt, ltb, if◌then◌else◌, Bool-cases, length, get_elem?, get_elem?-lt, ℤ,
  pos, ltb_ℤ, Res, ok, out_of_fuel, ◌>>=◌,
}
use libdeepc.Stdlib.Sort.{element}

get_elem?-ge {ℓ} :
    {A : Type ℓ} (xs : List A) (i : ℕ) {x : A} → length xs ≤ i → get_elem? xs i ≡ some x → ⊥
get_elem?-ge [] i h e = cc
get_elem?-ge (y ∷ xs) zero h e = absurd (omega arith)
get_elem?-ge (y ∷ xs) (suc i) h e = get_elem?-ge xs i (omega arith) e

module _ {ℓ} {A : Type ℓ} (comp : A → ℤ) (arr : List A) where
  unfoldable pub bsearch_loop : ℕ → (min max : ℕ) → Res (Option ℕ)
  bsearch_loop zero min max = out_of_fuel
  bsearch_loop (suc fuel) min max =
      let mid = (max - min) / 2 + min in
      let round = (do
        x ← element arr mid
        let c = comp x
        let upper = bsearch_loop fuel (mid + 1) max
        let lower = bsearch_loop fuel min mid
        if ltb_ℤ c (pos 0) then upper else if ltb_ℤ (pos 0) c then lower else ok (some mid)) in
      if ltb min max then round else ok none

  unfoldable pub bsearch : Res (Option ℕ)
  bsearch = bsearch_loop (suc (length arr)) 0 (length arr)

  -- What the search relies on: behind an element above the key all are above it, and before an element
  -- below the key all are below it.
  abbrev pub IsOrdered : Type ℓ
  IsOrdered =
      (i j : ℕ) (x y : A)
      → i < j
      → get_elem? arr i ≡ some x
      → get_elem? arr j ≡ some y
      → ((ltb_ℤ (pos 0) (comp x) ≡ true) → ltb_ℤ (pos 0) (comp y) ≡ true)
        × ((ltb_ℤ (comp y) (pos 0) ≡ true) → ltb_ℤ (comp x) (pos 0) ≡ true)

  -- The element at `i` is not equal to the key.
  abbrev pub Unequal : ℕ → Type ℓ
  Unequal i = (x : A) → get_elem? arr i ≡ some x → comp x ≢ pos 0

  -- The result of the search.
  pub data Found : Option ℕ → Type ℓ where
    found :
        {r : Option ℕ} (i : ℕ) (x : A)
        → r ≡ some i
        → get_elem? arr i ≡ some x
        → comp x ≡ pos 0
        → Found r
    absent : {r : Option ℕ} → r ≡ none → ((i : ℕ) → i < length arr → Unequal i) → Found r

  below_ne : (x : A) → ltb_ℤ (comp x) (pos 0) ≡ true → comp x ≢ pos 0
  below_ne x h e = let q : ltb_ℤ (pos 0) (pos 0) ≡ true = rw e at h in cc

  above_ne : (x : A) → ltb_ℤ (pos 0) (comp x) ≡ true → comp x ≢ pos 0
  above_ne x h e = let q : ltb_ℤ (pos 0) (pos 0) ≡ true = rw e at h in cc

  Unequal-to :
      (mid i : ℕ) (x : A)
      → IsOrdered
      → get_elem? arr mid ≡ some x
      → ltb_ℤ (comp x) (pos 0) ≡ true
      → i < mid + 1
      → Unequal i
  Unequal-to mid i x ord g b li y gy = elim (dec_lt i mid) [
    | yes lt ↦ below_ne y ((ord i mid y x lt gy g).1 b)
    | no ge ↦
        below_ne y
          (let q : i ≡ mid = omega arith in let gx = rw q at gy in let z : x ≡ y = cc in rw (← z) b)
  ]

  Unequal-from :
      (mid i : ℕ) (x : A)
      → IsOrdered
      → get_elem? arr mid ≡ some x
      → ltb_ℤ (pos 0) (comp x) ≡ true
      → mid ≤ i
      → Unequal i
  Unequal-from mid i x ord g b li y gy = elim (dec_lt mid i) [
    | yes lt ↦ above_ne y ((ord mid i x y lt g gy).0 b)
    | no ge ↦
        above_ne y
          (let q : i ≡ mid = omega arith in let gx = rw q at gy in let z : x ≡ y = cc in rw (← z) b)
  ]

  bsearch_loop-Found :
      (fuel min max : ℕ)
      → IsOrdered
      → max ≤ length arr
      → min ≤ max
      → max - min < fuel
      → ((i : ℕ) → i < min → Unequal i)
      → ((i : ℕ) → max ≤ i → Unequal i)
      → (r : Option ℕ) × (bsearch_loop fuel min max ≡ ok r) × Found r
  unfolding bsearch_loop
  bsearch_loop-Found zero min max ord hi le lt low high = absurd (omega arith)
  bsearch_loop-Found (suc fuel) min max ord hi le lt low high = elim (dec_lt min max) [
    | no h ↦
        let e : ltb min max ≡ false = ground arith in
        (
          none,
          rw e refl,
          absent refl
              (λ i li. elim (dec_lt i min) [ yes a ↦ low i a | no a ↦ high i (omega arith) ]),
        )
    | yes h ↦
        let mid = (max - min) / 2 + min in
        let e : ltb min max ≡ true = ground arith in
        let (x, g) = get_elem?-lt arr mid (omega arith) in
        elim (Bool-cases (ltb_ℤ (comp x) (pos 0))) [
          | inl b ↦
              let (r, run, f) =
                bsearch_loop-Found fuel (mid + 1) max ord hi (omega arith) (omega arith)
                  (λ i li. Unequal-to mid i x ord g b li) high in
              (r, rw (e, g, b) run, f)
          | inr b ↦ elim (Bool-cases (ltb_ℤ (pos 0) (comp x))) [
            | inl a ↦
                let (r, run, f) =
                  bsearch_loop-Found fuel min mid ord (omega arith) (omega arith) (omega arith) low
                    (λ i li. Unequal-from mid i x ord g a li) in
                (r, rw (e, g, b, a) run, f)
            | inr a ↦ (some mid, rw (e, g, b, a) refl, found mid x refl g (ground arith))
          ]
        ]
  ]

  -- bsearch on an array that is ordered with respect to the key makes no access outside the array and
  -- ends. It gives the index of an element that compares equal to the key, and NULL only if no element
  -- does.
  pub bsearch-Found : IsOrdered → (r : Option ℕ) × (bsearch ≡ ok r) × Found r
  unfolding bsearch
  bsearch-Found ord =
      bsearch_loop-Found (suc (length arr)) 0 (length arr) ord (omega arith) (omega arith)
        (omega arith) (λ i li. absurd (omega arith)) (λ i li x g. absurd (get_elem?-ge arr i li g))
