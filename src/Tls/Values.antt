-- ===== src/Tls/Values.antt =====
-- src/tls.c: the values of a thread under its keys.
use libdeepc.Base.{
  ℕ, zero, suc, ◌≤◌, ◌<◌, ◌≡◌, refl, sym, ◌∙◌, ◌≢◌, ◌⊎◌, inl, inr, true, false, Option, none, some,
  List, [], ◌∷◌, ◌++◌, arith, dec_lt, ltb, leb, Option-cases, length, get_elem?, set, length-append,
  length-set, get_elem?-set_self, get_elem?-set_ne, get_elem?-lt, ok, on_option,
}
use libdeepc.Memory.{Addr, null}
use libdeepc.Tls.{Tss, Local, copy_front, put, tss_get, tss_set}
use libdeepc.Tls.Keys.{length-copy_front, get_elem?-copy_front}

get_elem?-ge {ℓ} : {A : Type ℓ} (xs : List A) (i : ℕ) → length xs ≤ i → get_elem? xs i ≡ none
get_elem?-ge [] i h = refl
get_elem?-ge (x ∷ xs) zero h = absurd (omega arith)
get_elem?-ge (x ∷ xs) (suc i) h = get_elem?-ge xs i (omega arith)

-- Behind the copied values stand those of the block.
get_elem?-behind {ℓ} :
    {A : Type ℓ} (xs block : List A) (i : ℕ)
    → length xs ≤ i
    → get_elem? (copy_front xs block) i ≡ get_elem? block i
get_elem?-behind [] block i h = refl
get_elem?-behind (x ∷ xs) block zero h = absurd (omega arith)
get_elem?-behind (x ∷ xs) [] (suc i) h =
    get_elem?-ge (xs ++ []) i (omega (arith, length-append xs []))
get_elem?-behind (x ∷ xs) (b ∷ block) (suc i) h = get_elem?-behind xs block i (omega arith)

-- The values have their capacity, which is at most that of the table of keys.
pub record IsLocal {D : Type 0} (t : Tss D) (l : Local) : Type 0 where
  pub size : length l.data_ ≡ l.data_capacity
  pub fits : l.data_capacity ≤ t.meta_capacity

-- What tss_get gives: the value of a slot, and NULL without one.
tss_get-slot :
    (l : Local) (k : ℕ)
    → length l.data_ ≡ l.data_capacity
    → tss_get l k ≡ on_option (get_elem? l.data_ k) (ok null) ok
unfolding tss_get
tss_get-slot l k size = elim (dec_lt k l.data_capacity) [
  | yes h ↦
      let (v, e) = get_elem?-lt l.data_ k (omega (arith, size)) in
      let c : leb l.data_capacity k ≡ false = ground arith in rw (c, e) refl
  | no h ↦
      let e = get_elem?-ge l.data_ k (omega (arith, size)) in
      let c : leb l.data_capacity k ≡ true = ground arith in rw (c, e) refl
]

-- A block of calloc has the size asked for.
abbrev pub CallocSize : (ℕ → Option (List Addr)) → Type 0
CallocSize calloc = (n : ℕ) (b : List Addr) → calloc n ≡ some b → length b ≡ n

module _ {D : Type 0} (t : Tss D) where
  -- A put under a key that has a slot.
  abbrev pub IsPut : Local → Local → ℕ → Addr → Type 0
  IsPut l l' key val =
      IsLocal t l' × (tss_get l' key ≡ ok val) × ((k : ℕ) → k ≢ key → tss_get l' k ≡ tss_get l k)

  put-IsPut :
      (l : Local) (key : ℕ) (val : Addr)
      → IsLocal t l
      → key < l.data_capacity
      → (l' : Local) × (put l key val ≡ ok (true, l')) × IsPut l l' key val
  unfolding put
  put-IsPut l key val inv h =
      let (old, e) = get_elem?-lt l.data_ key (omega (arith, inv.size)) in
      let size = length-set l.data_ key val ∙ inv.size in
      let l' : Local = record l { data_ = set l.data_ key val } in
      (
        l',
        rw e refl,
        (
          record { size = size; fits = inv.fits },
          rw
              (
                tss_get-slot l' key size,
                get_elem?-set_self l.data_ key val (omega (arith, inv.size)),
              )
              refl,
          λ k ne.
              rw
                (
                  tss_get-slot l' k size,
                  tss_get-slot l k inv.size,
                  get_elem?-set_ne l.data_ key k val (λ q. ne (sym q)),
                )
                refl,
        ),
      )

  -- The array made larger, with the values in front and those of the block behind them.
  module _ (l : Local) (inv : IsLocal t l) (block : List Addr)
      (whole : length block ≡ t.meta_capacity) where
    abbrev pub resized : Local
    resized = record { data_ = copy_front l.data_ block; data_capacity = t.meta_capacity }

    resized-IsLocal : IsLocal t resized
    resized-IsLocal = record {
      size = length-copy_front l.data_ block (omega (arith, inv.size, inv.fits, whole)) ∙ whole;
      fits = omega arith;
    }

    resized-old : (k : ℕ) → k < l.data_capacity → tss_get resized k ≡ tss_get l k
    resized-old k h =
        rw
          (
            tss_get-slot resized k resized-IsLocal.size,
            tss_get-slot l k inv.size,
            get_elem?-copy_front l.data_ block k (omega (arith, inv.size)),
          )
          refl

    resized-new :
        (k : ℕ)
        → l.data_capacity ≤ k
        → tss_get resized k ≡ on_option (get_elem? block k) (ok null) ok
    resized-new k h =
        rw
          (
            tss_get-slot resized k resized-IsLocal.size,
            get_elem?-behind l.data_ block k (omega (arith, inv.size)),
          )
          refl

  -- A put behind the capacity: the old values stay, and behind them stand those of a block.
  abbrev pub IsGrownPut : Local → Local → List Addr → ℕ → Addr → Type 0
  IsGrownPut l l' block key val =
      IsLocal t l'
      × (tss_get l' key ≡ ok val)
      × ((k : ℕ) → k ≢ key → k < l.data_capacity → tss_get l' k ≡ tss_get l k)
      × ((k : ℕ)
          → k ≢ key
          → l.data_capacity ≤ k
          → tss_get l' k ≡ on_option (get_elem? block k) (ok null) ok)

  -- tss_set under a key within the table of keys, in a thread whose values are well formed, makes no
  -- access outside its array, and the assertion holds, where calloc gives blocks of the size asked
  -- for. Under a key within the capacity it succeeds: the values stay well formed, tss_get gives the
  -- value under the key, and under every other key what it gave before. Under a larger key it fails
  -- where calloc does, and then changes nothing. Else the values are again well formed and tss_get
  -- gives the value under the key, what it gave before under every other key within the old capacity,
  -- and under those behind it what stands in the block of calloc.
  pub tss_set-get :
      (calloc : ℕ → Option (List Addr)) (l : Local) (key : ℕ) (val : Addr)
      → CallocSize calloc
      → IsLocal t l
      → key < t.meta_capacity
      → ((key < l.data_capacity)
          × (l' : Local) × (tss_set calloc t l key val ≡ ok (true, l'))
          × IsPut l l' key val)
        ⊎ (((l.data_capacity ≤ key)
              × (calloc t.meta_capacity ≡ none)
              × (tss_set calloc t l key val ≡ ok (false, l)))
            ⊎ ((l.data_capacity ≤ key)
                × (block : List Addr) × (calloc t.meta_capacity ≡ some block)
                × (l' : Local) × (tss_set calloc t l key val ≡ ok (true, l'))
                × IsGrownPut l l' block key val))
  unfolding tss_set
  tss_set-get calloc l key val law inv h =
      let room : ltb key t.meta_capacity ≡ true = ground arith in
      elim (dec_lt key l.data_capacity) [
        | yes g ↦
            let c : leb l.data_capacity key ≡ false = ground arith in
            let (l', run, is) = put-IsPut l key val inv g in inl (g, l', rw c run, is)
        | no g ↦
            let c : leb l.data_capacity key ≡ true = ground arith in
            elim (Option-cases (calloc t.meta_capacity)) [
              | inl e ↦ inr (inl (omega arith, e, rw (c, room, e) refl))
              | inr (block, e) ↦
                  let whole = law t.meta_capacity block e in
                  let larger = resized l inv block whole in
                  let (l', run, (a, b, f)) =
                    put-IsPut larger key val (resized-IsLocal l inv block whole) h in
                  inr (
                    inr (
                      omega arith,
                      block,
                      e,
                      l',
                      rw (c, room, e) run,
                      (
                        a,
                        b,
                        λ k ne lt. f k ne ∙ resized-old l inv block whole k lt,
                        λ k ne ge. f k ne ∙ resized-new l inv block whole k ge,
                      ),
                    ))
            ]
      ]
