-- ===== src/Tls.antt =====
-- src/tls.c: thread-specific storage. Each operation runs under the mutex, so it is one step on the
-- table of destructors, which all threads share, and on the values of the calling thread. A value
-- is an address, and 0 is NULL. The blocks that malloc and calloc give hold anything, since the
-- calloc of src/malloc.c clears nothing.
pub mod Keys
pub mod Values
pub mod Exit
use libdeepc.Base.{
  ℕ, zero, suc, ◌+◌, ◌-◌, ◌*◌, ◌/◌, ◌%◌, ◌^◌, ◌≤◌, ◌<◌, ◌≡◌, refl, sym, ap, ◌∙◌, fun_ext, subst,
  ◌≢◌, ◌↔◌, ◌⊎◌, inl, inr, Bool, true, false, not, ◌&&◌, ◌||◌, Option, none, some, List, [], ◌∷◌,
  ◌++◌, map, arith, dec_lt, dec_le, ℕ_discrete, ltb, leb, ◌==◌, if◌then◌else◌, ltb→lt, lt→ltb,
  ==_iff, ==_refl, Bool-cases, Option-cases, length, get_elem?, set, replicate, take, drop, All,
  length-append, length-set, length-replicate, get_elem?-set_self, get_elem?-set_ne, get_elem?-lt,
  ℤ, pos, negsuc, pos_part, neg_part, sub_ℕ, minus, ◌+ℤ◌, ◌-ℤ◌, ◌*ℤ◌, ◌≤ℤ◌, leb_ℤ, ltb_ℤ, eqb_ℤ,
  Res, ok, fault, out_of_fuel, ◌>>=◌, on_option, lt_wf,
}
use libdeepc.Memory.{Addr, null}

-- tss_meta, tss_meta_capacity and tss_next.
pub record Tss (D : Type 0) : Type 0 where
  pub meta : List (Option D)
  pub meta_capacity : ℕ
  pub next : ℕ

-- __tss_data and __tss_data_capacity of a thread.
pub record Local : Type 0 where
  pub data_ : List Addr
  pub data_capacity : ℕ

-- memcpy of a whole array to the start of a block that is not shorter.
abbrev pub copy_front {ℓ} : {A : Type ℓ} → List A → List A → List A
copy_front xs block = xs ++ drop (length xs) block

abbrev pub slot {ℓ} : {A : Type ℓ} → List A → ℕ → Res A
slot xs i = on_option (get_elem? xs i) fault ok

-- `__tss_data[tss_key] = val; return thrd_success;`
unfoldable pub put : Local → ℕ → Addr → Res (Bool × Local)
put l key val =
    on_option (get_elem? l.data_ key) fault
      (λ old. ok (true, record l { data_ = set l.data_ key val }))

unfoldable pub tss_get : Local → ℕ → Res Addr
tss_get l key = if leb l.data_capacity key then ok null else slot l.data_ key

module _ {D : Type 0} where
  -- The array of tss_create made larger where it is full; `none` where malloc fails.
  unfoldable pub grow : (ℕ → Option (List (Option D))) → Tss D → Option (Tss D)
  grow malloc t =
      let new_capacity = if t.meta_capacity == 0 then 8 else t.meta_capacity * 2 in
      let larger = on_option (malloc new_capacity) none (λ block.
        some (record t { meta = copy_front t.meta block; meta_capacity = new_capacity })) in
      if leb t.meta_capacity t.next then larger else some t

  -- tss_create: the key and the table, or `none` for thrd_error, which leaves the table.
  unfoldable pub tss_create : (ℕ → Option (List (Option D))) → Tss D → Option D → Option (ℕ × Tss D)
  tss_create malloc t dtor =
      on_option (grow malloc t) none
        (λ u. some (u.next, record u { meta = set u.meta u.next dtor; next = u.next + 1 }))

  -- tss_set, where calloc gives a block of as many values or fails: whether it succeeds, and the
  -- values. A failed assertion is a fault.
  unfoldable pub tss_set : (ℕ → Option (List Addr)) → Tss D → Local → ℕ → Addr → Res (Bool × Local)
  tss_set calloc t l key val =
      let resize = on_option (calloc t.meta_capacity) (ok (false, l)) (λ block.
        put (record { data_ = copy_front l.data_ block; data_capacity = t.meta_capacity }) key
          val) in
      if leb l.data_capacity key
      then if ltb key t.meta_capacity then resize else fault
      else put l key val

  unfoldable pub tss_delete : Tss D → ℕ → Tss D
  tss_delete t key = record t { meta = set t.meta key none }

  -- The destructor and the value of a slot, where both are set.
  abbrev pub pending : Option D → Addr → Option (D × Addr)
  pending none v = none
  pending (some d) v = if v == null then none else some (d, v)

  -- The loop of __run_tss_destructors: the calls it makes, and the state behind them. A destructor
  -- runs outside the lock and may change both tables, which is `call`.
  unfoldable pub destructors_loop :
      (D → Addr → Tss D × Local → Tss D × Local)
      → ℕ
      → ℕ
      → Tss D × Local
      → Res (List (D × Addr) × (Tss D × Local))
  destructors_loop call zero i s = out_of_fuel
  destructors_loop call (suc fuel) i (t, l) =
      let round = (do
        d ← slot t.meta i
        v ← slot l.data_ i
        let skip = destructors_loop call fuel (i + 1) (t, l)
        on_option (pending d v) skip (λ (f, w). do
          (calls, s) ← destructors_loop call fuel (i + 1) (call f w (t, l))
          ok ((f, w) ∷ calls, s))) in
      if ltb i l.data_capacity then round else ok ([], (t, l))

  unfoldable pub run_tss_destructors :
      (D → Addr → Tss D × Local → Tss D × Local)
      → ℕ
      → Tss D × Local
      → Res (List (D × Addr) × (Tss D × Local))
  run_tss_destructors call fuel s = destructors_loop call fuel 0 s
