-- ===== src/Tls/Keys.antt =====
-- src/tls.c: the keys that tss_create gives out.
use libdeepc.Base.{
  ℕ, zero, suc, ◌+◌, ◌-◌, ◌*◌, ◌≤◌, ◌<◌, ◌≡◌, refl, ap, ◌∙◌, ◌⊎◌, inl, inr, true, false, Option,
  none, some, List, [], ◌∷◌, ◌++◌, arith, dec_lt, leb, ◌==◌, if◌then◌else◌, Option-cases, length,
  get_elem?, set, drop, length-append, length-set, get_elem?-set_self, get_elem?-set_ne,
}
use libdeepc.Tls.{Tss, copy_front, grow, tss_create}

get_elem?-append {ℓ} :
    {A : Type ℓ} (xs ys : List A) (i : ℕ) → i < length xs → get_elem? (xs ++ ys) i ≡ get_elem? xs i
get_elem?-append [] ys i h = absurd (omega arith)
get_elem?-append (x ∷ xs) ys zero h = refl
get_elem?-append (x ∷ xs) ys (suc i) h = get_elem?-append xs ys i (omega arith)

length-drop {ℓ} : {A : Type ℓ} (n : ℕ) (xs : List A) → length (drop n xs) ≡ length xs - n
length-drop zero xs = omega arith
length-drop (suc n) [] = omega arith
length-drop (suc n) (x ∷ xs) = omega (arith, length-drop n xs)

pub length-copy_front {ℓ} :
    {A : Type ℓ} (xs block : List A)
    → length xs ≤ length block
    → length (copy_front xs block) ≡ length block
length-copy_front xs block h =
    omega (arith, length-append xs (drop (length xs) block), length-drop (length xs) block)

pub get_elem?-copy_front {ℓ} :
    {A : Type ℓ} (xs block : List A) (i : ℕ)
    → i < length xs
    → get_elem? (copy_front xs block) i ≡ get_elem? xs i
get_elem?-copy_front xs block i h = get_elem?-append xs (drop (length xs) block) i h

module _ {D : Type 0} where
  -- The array has its capacity, and the keys given out have slots in it.
  pub record IsTable (t : Tss D) : Type 0 where
    pub size : length t.meta ≡ t.meta_capacity
    pub fits : t.next ≤ t.meta_capacity

  -- A block of malloc has the size that was asked for.
  abbrev pub GivesSize : (ℕ → Option (List (Option D))) → Type 0
  GivesSize malloc = (n : ℕ) (b : List (Option D)) → malloc n ≡ some b → length b ≡ n

  -- A table with room for a key, and the same slots as before for those given out.
  pub record HasRoom (t u : Tss D) : Type 0 where
    pub table : IsTable u
    pub same_next : u.next ≡ t.next
    pub room : u.next < u.meta_capacity
    pub kept : (k : ℕ) → k < t.next → get_elem? u.meta k ≡ get_elem? t.meta k

  larger-HasRoom :
      (t : Tss D) (block : List (Option D)) (n : ℕ)
      → IsTable t
      → length block ≡ n
      → t.meta_capacity < n
      → HasRoom t (record t { meta = copy_front t.meta block; meta_capacity = n })
  larger-HasRoom t block n inv e h =
      let size = length-copy_front t.meta block (omega (arith, inv.size)) in
      record {
        table = record { size = size ∙ e; fits = omega (arith, inv.fits) };
        same_next = refl;
        room = omega (arith, inv.fits);
        kept = λ k lt. get_elem?-copy_front t.meta block k (omega (arith, inv.size, inv.fits));
      }

  grow-cases :
      (malloc : ℕ → Option (List (Option D))) (t : Tss D)
      → GivesSize malloc
      → IsTable t
      → ((grow malloc t ≡ none) × ((n : ℕ) × (malloc n ≡ none)))
        ⊎ ((u : Tss D) × (grow malloc t ≡ some u) × HasRoom t u)
  unfolding grow
  grow-cases malloc t law inv =
      let n = if t.meta_capacity == 0 then 8 else t.meta_capacity * 2 in
      elim (dec_lt t.next t.meta_capacity) [
        | yes h ↦
            let e : leb t.meta_capacity t.next ≡ false = ground arith in
            inr (
              t,
              rw e refl,
              record { table = inv; same_next = refl; room = h; kept = λ k lt. refl },
            )
        | no h ↦
            let e : leb t.meta_capacity t.next ≡ true = ground arith in
            elim (Option-cases (malloc n)) [
              | inl m ↦ inl (rw (e, m) refl, (n, m))
              | inr (block, m) ↦ inr (
                record t { meta = copy_front t.meta block; meta_capacity = n },
                rw (e, m) refl,
                larger-HasRoom t block n inv (law n block m) (ground arith),
              )
            ]
      ]

  registered :
      (t u : Tss D) (dtor : Option D)
      → HasRoom t u
      → IsTable (record u { meta = set u.meta u.next dtor; next = u.next + 1 })
        × (get_elem? (set u.meta u.next dtor) u.next ≡ some dtor)
        × ((k : ℕ) → k < t.next → get_elem? (set u.meta u.next dtor) k ≡ get_elem? t.meta k)
  registered t u dtor r = (
    record { size = length-set u.meta u.next dtor ∙ r.table.size; fits = omega (arith, r.room) },
    get_elem?-set_self u.meta u.next dtor (omega (arith, r.room, r.table.size)),
    λ k lt.
        get_elem?-set_ne u.meta u.next k dtor (λ e. omega (arith, e, r.same_next)) ∙ r.kept k lt,
  )

  -- tss_create, with a malloc that gives blocks of the size asked for, fails only where malloc does.
  -- Otherwise the table stays well formed, the key is one that was not given out before, its slot
  -- holds the destructor, and the slots of the other keys are unchanged.
  pub tss_create-IsTable :
      (malloc : ℕ → Option (List (Option D))) (t : Tss D) (dtor : Option D)
      → GivesSize malloc
      → IsTable t
      → ((tss_create malloc t dtor ≡ none) × ((n : ℕ) × (malloc n ≡ none)))
        ⊎ ((u : Tss D) × (tss_create malloc t dtor ≡ some (t.next, u))
            × IsTable u
            × (u.next ≡ t.next + 1)
            × (get_elem? u.meta t.next ≡ some dtor)
            × ((k : ℕ) → k < t.next → get_elem? u.meta k ≡ get_elem? t.meta k))
  unfolding tss_create
  tss_create-IsTable malloc t dtor law inv = elim (grow-cases malloc t law inv) [
    | inl (e, m) ↦ inl (rw e refl, m)
    | inr (u, e, r) ↦
        let (table, new, kept) = registered t u dtor r in
        inr (
          record u { meta = set u.meta u.next dtor; next = u.next + 1 },
          rw (e, r.same_next) refl,
          table,
          ap (λ n. n + 1) r.same_next,
          rw (← r.same_next) new,
          kept,
        )
  ]
