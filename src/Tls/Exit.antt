-- ===== src/Tls/Exit.antt =====
-- src/tls.c: the destructors that run when a thread ends.
use libdeepc.Base.{
  ℕ, zero, suc, ◌+◌, ◌-◌, ◌≤◌, ◌<◌, ◌≡◌, refl, inl, inr, true, false, Option, none, some, List, [],
  ◌∷◌, arith, dec_lt, ltb, ◌==◌, Option-cases, length, get_elem?, drop, ok, on_option,
}
use libdeepc.Memory.{Addr}
use libdeepc.Tls.{Tss, Local, pending, destructors_loop, run_tss_destructors}
use libdeepc.Tls.Keys.{IsTable}
use libdeepc.Tls.Values.{IsLocal}

drop-get {ℓ} :
    {A : Type ℓ} (xs : List A) (i : ℕ)
    → i < length xs
    → (x : A) × (get_elem? xs i ≡ some x) × (drop i xs ≡ x ∷ drop (i + 1) xs)
drop-get [] i h = absurd (omega arith)
drop-get (x ∷ xs) zero h = (x, refl, refl)
drop-get (x ∷ xs) (suc i) h =
    let (y, e, d) = drop-get xs i (omega arith) in
    let q : suc i + 1 ≡ suc (i + 1) = omega arith in (y, e, rw q d)

drop-all {ℓ} : {A : Type ℓ} (xs : List A) (i : ℕ) → length xs ≤ i → drop i xs ≡ []
drop-all [] zero h = refl
drop-all [] (suc i) h = refl
drop-all (x ∷ xs) zero h = absurd (omega arith)
drop-all (x ∷ xs) (suc i) h = drop-all xs i (omega arith)

module _ {D : Type 0} where
  -- The destructors and values of the keys that have both, a value of 0 being none, in the order of
  -- the keys.
  abbrev pub all_pending : List (Option D) → List Addr → List (D × Addr)
  all_pending ds [] = []
  all_pending [] (v ∷ vs) = []
  all_pending (none ∷ ds) (v ∷ vs) = all_pending ds vs
  all_pending (some d ∷ ds) (zero ∷ vs) = all_pending ds vs
  all_pending (some d ∷ ds) (suc v ∷ vs) = (d, suc v) ∷ all_pending ds vs

  -- The guards of the loop find those.
  all_pending-cons :
      (d : Option D) (v : Addr) (ds : List (Option D)) (vs : List Addr)
      → all_pending (d ∷ ds) (v ∷ vs)
        ≡ on_option (pending d v) (all_pending ds vs) (λ c. c ∷ all_pending ds vs)
  all_pending-cons none v ds vs = refl
  all_pending-cons (some d) zero ds vs = refl
  all_pending-cons (some d) (suc v) ds vs = let e : (suc v == 0) ≡ false = ground arith in rw e refl

  module _ (call : D → Addr → Tss D × Local → Tss D × Local) (t : Tss D) (l : Local)
      (table : IsTable t) (local : IsLocal t l)
      (quiet : (d : D) (v : Addr) → call d v (t, l) ≡ (t, l)) where
    destructors_loop-calls :
        (fuel i : ℕ)
        → i ≤ l.data_capacity
        → l.data_capacity - i < fuel
        → destructors_loop call fuel i (t, l)
          ≡ ok (all_pending (drop i t.meta) (drop i l.data_), (t, l))
    unfolding destructors_loop
    destructors_loop-calls zero i le lt = absurd (omega arith)
    destructors_loop-calls (suc fuel) i le lt = elim (dec_lt i l.data_capacity) [
      | no h ↦
          let c : ltb i l.data_capacity ≡ false = ground arith in
          rw (c, drop-all l.data_ i (omega (arith, local.size))) refl
      | yes h ↦
          let c : ltb i l.data_capacity ≡ true = ground arith in
          let (d, ed, dd) = drop-get t.meta i (omega (arith, table.size, local.fits)) in
          let (v, ev, dv) = drop-get l.data_ i (omega (arith, local.size)) in
          let rest = destructors_loop-calls fuel (i + 1) (omega arith) (omega arith) in
          let cons = all_pending-cons d v (drop (i + 1) t.meta) (drop (i + 1) l.data_) in
          elim (Option-cases (pending d v)) [
            | inl p ↦ rw (c, ed, ev, dd, dv, cons, p) rest
            | inr ((f, w), p) ↦ rw (c, ed, ev, dd, dv, cons, p, quiet f w, rest) refl
          ]
    ]

    -- When a thread ends, with well-formed tables and destructors that change neither of them, the
    -- loop over more fuel than values ends without an access outside the tables. It calls the
    -- destructor of each key that has one and a value that is not NULL, once, with that value, in the
    -- order of the keys, and no other.
    pub run_tss_destructors-all_pending :
        (fuel : ℕ)
        → l.data_capacity < fuel
        → run_tss_destructors call fuel (t, l) ≡ ok (all_pending t.meta l.data_, (t, l))
    unfolding run_tss_destructors
    run_tss_destructors-all_pending fuel lt =
        destructors_loop-calls fuel 0 (omega arith) (omega arith)
