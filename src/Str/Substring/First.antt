-- ===== src/Str/Substring/First.antt =====
-- src/string.c: strstr gives the first place where the substring stands.
use libdeepc.Base.{
  ℕ, zero, suc, ◌+◌, ◌-◌, ◌≤◌, ◌<◌, ◌≡◌, refl, sym, ap, ◌∙◌, ◌≢◌, inl, inr, Bool, true, false,
  Option, none, some, List, [], ◌∷◌, arith, dec_le, leb, ◌==◌, if◌then◌else◌, Bool-cases, length, ℤ,
  pos, ltb_ℤ, eqb_ℤ, Res, ok, ◌>>=◌,
}
use mathlib.Core.Option
use libdeepc.Memory.{Mem, Addr}
use libdeepc.Memory.Block.{load-ok}
use libdeepc.Memory.Text.{CString}
use libdeepc.Str.Block.{memcmp, char_sign, char_value}
use libdeepc.Str.Scan.{strchr_loop}
use libdeepc.Str.Scan.Find.{at_offset, at_offset-suc, strlen-length}
use libdeepc.Str.Substring.{strstr_loop, strstr}

-- The first list stands at the start of the second.
unfoldable pub starts_with : List ℕ → List ℕ → Bool
starts_with [] s = true
starts_with (x ∷ t) [] = false
starts_with (x ∷ t) (y ∷ s) = let rest = starts_with t s in if y == x then rest else false

-- The least index at which it stands in the second.
unfoldable pub first_index : List ℕ → List ℕ → Option ℕ
first_index t [] = if starts_with t [] then some 0 else none
first_index t (y ∷ s) =
    let rest = first_index t s in if starts_with t (y ∷ s) then some 0 else Option.map suc rest

sign_nonzero : (signed : Bool) (a b : ℕ) → eqb_ℤ (char_sign signed a b) (pos 0) ≡ false
sign_nonzero signed a b = elim (Bool-cases (ltb_ℤ (char_value signed a) (char_value signed b))) [
  | inl e ↦ rw e refl
  | inr e ↦ rw e refl
]

-- memcmp on as many bytes as the substring has.
memcmp-starts_with :
    (signed : Bool) (m : Mem) (p q : Addr) (s t : List ℕ)
    → CString m p s
    → CString m q t
    → length t ≤ length s
    → (r : ℤ) × (memcmp signed m p q (length t) ≡ ok r) × (eqb_ℤ r (pos 0) ≡ starts_with t s)
unfolding memcmp starts_with
memcmp-starts_with signed m p q s [] hs ht le = (pos 0, refl, refl)
memcmp-starts_with signed m p q [] (x ∷ t) hs ht le = absurd (omega arith)
memcmp-starts_with signed m p q (y ∷ s) (x ∷ t) hs ht le = elim (Bool-cases (y == x)) [
  | inl e ↦
      let (r, run, z) = memcmp-starts_with signed m (p + 1) (q + 1) s t hs.2 ht.2 (omega arith) in
      (r, rw (load-ok m p hs.0, load-ok m q ht.0, e) run, rw e z)
  | inr e ↦ (
    char_sign signed y x,
    rw (load-ok m p hs.0, load-ok m q ht.0, e) refl,
    rw e (sign_nonzero signed y x),
  )
]

starts_with-length : (t s : List ℕ) → length s < length t → starts_with t s ≡ false
unfolding starts_with
starts_with-length [] s lt = absurd (omega arith)
starts_with-length (x ∷ t) [] lt = refl
starts_with-length (x ∷ t) (y ∷ s) lt =
    let rec = starts_with-length t s (omega arith) in ground (arith, rec)

first_index-length : (t s : List ℕ) → length s < length t → first_index t s ≡ none
unfolding first_index
first_index-length t [] lt = rw (starts_with-length t [] lt) refl
first_index-length t (y ∷ s) lt =
    rw (starts_with-length t (y ∷ s) lt, first_index-length t s (omega arith)) refl

first_index-nil : (s : List ℕ) → first_index [] s ≡ some 0
unfolding first_index starts_with
first_index-nil [] = refl
first_index-nil (y ∷ s) = refl

module _ (signed : Bool) (m : Mem) (str_end q inner c : ℕ) (t : List ℕ)
    (ht : CString m q (c ∷ t)) where
  -- The rest of the search, from strchr on.
  abbrev search : ℕ → ℕ → Addr → Res (Option Addr)
  search fuel k p = do
    s ← strchr_loop k m p c
    strstr_loop fuel inner signed m str_end q (suc (length t)) c s

  module _ (fuel k p y : ℕ) (here : m p ≡ some y) where
    skip_run : y ≢ c → y ≢ 0 → search fuel (suc k) p ≡ search fuel k (p + 1)
    unfolding strchr_loop
    skip_run ne nz =
        let d : (y == c) ≡ false = ground (arith, ne) in
        let z : (y == 0) ≡ false = ground (arith, nz) in rw (load-ok m p here, d, z) refl

    short_run :
        y ≡ c → leb (p + suc (length t)) str_end ≡ false → search (suc fuel) (suc k) p ≡ ok none
    unfolding strchr_loop strstr_loop
    short_run same short =
        let d : (y == c) ≡ true = ground (arith, same) in rw (load-ok m p here, d, short) refl

    found_run :
        (r : ℤ)
        → y ≡ c
        → leb (p + suc (length t)) str_end ≡ true
        → memcmp signed m (p + 1) (q + 1) (length t) ≡ ok r
        → eqb_ℤ r (pos 0) ≡ true
        → search (suc fuel) (suc k) p ≡ ok (some p)
    unfolding strchr_loop strstr_loop
    found_run r same long run z =
        let d : (y == c) ≡ true = ground (arith, same) in
        let less : suc (length t) - 1 ≡ length t = omega arith in
        rw (load-ok m p here, d, long, less, run, z) refl

    other_run :
        (r : ℤ)
        → y ≡ c
        → leb (p + suc (length t)) str_end ≡ true
        → memcmp signed m (p + 1) (q + 1) (length t) ≡ ok r
        → eqb_ℤ r (pos 0) ≡ false
        → search (suc fuel) (suc k) p ≡ search fuel inner (p + 1)
    unfolding strchr_loop strstr_loop
    other_run r same long run z =
        let d : (y == c) ≡ true = ground (arith, same) in
        let less : suc (length t) - 1 ≡ length t = omega arith in
        rw (load-ok m p here, d, long, less, run, z) refl

  end_run : (fuel k p : ℕ) → m p ≡ some 0 → search fuel (suc k) p ≡ ok none
  unfolding strchr_loop strstr_loop
  end_run fuel k p here =
      let nz = ht.1 in
      let d : (0 == c) ≡ false = ground (arith, nz) in rw (load-ok m p here, d) refl

  -- Behind a byte where the substring does not stand.
  later :
      (p y : ℕ) (s : List ℕ)
      → starts_with (c ∷ t) (y ∷ s) ≡ false
      → at_offset (p + 1) (first_index (c ∷ t) s) ≡ at_offset p (first_index (c ∷ t) (y ∷ s))
  unfolding first_index
  later p y s no_start = at_offset-suc p (first_index (c ∷ t) s) ∙ (rw no_start refl)

  search-first_index :
      (fuel k p : ℕ) (s : List ℕ)
      → CString m p s
      → p + length s ≡ str_end
      → length s < fuel
      → length s < k
      → length s < inner
      → search fuel k p ≡ ok (at_offset p (first_index (c ∷ t) s))
  unfolding first_index starts_with
  search-first_index zero k p s h e lt lk li = absurd (omega arith)
  search-first_index (suc fuel) zero p s h e lt lk li = absurd (omega arith)
  search-first_index (suc fuel) (suc k) p [] h e lt lk li = end_run (suc fuel) k p h
  search-first_index (suc fuel) (suc k) p (y ∷ s) h e lt lk li = elim (Bool-cases (y == c)) [
    | inr d ↦
        let no_start : starts_with (c ∷ t) (y ∷ s) ≡ false = rw d refl in
        skip_run (suc fuel) k p y h.0 (ground (arith, d)) h.1
        ∙ search-first_index (suc fuel) k (p + 1) s h.2 (omega arith) (omega arith) (omega arith)
            (omega arith)
        ∙ ap ok (later p y s no_start)
    | inl d ↦ elim (dec_le (length t) (length s)) [
      | no long ↦
          let short : first_index (c ∷ t) (y ∷ s) ≡ none =
            first_index-length (c ∷ t) (y ∷ s) (omega arith) in
          short_run fuel k p y h.0 (ground (arith, d)) (ground (arith, long, e))
          ∙ ap (λ o. ok (at_offset p o)) (sym short)
      | yes le ↦
          let (r, run, z) = memcmp-starts_with signed m (p + 1) (q + 1) s t h.2 ht.2 le in
          let fits : leb (p + suc (length t)) str_end ≡ true = ground (arith, le, e) in
          elim (Bool-cases (starts_with t s)) [
            | inl b ↦
                let first : first_index (c ∷ t) (y ∷ s) ≡ some 0 = rw (d, b) refl in
                found_run fuel k p y h.0 r (ground (arith, d)) fits run (z ∙ b)
                ∙ ap (λ a. ok (some a)) (omega arith)
                ∙ ap (λ o. ok (at_offset p o)) (sym first)
            | inr b ↦
                let no_start : starts_with (c ∷ t) (y ∷ s) ≡ false = rw (d, b) refl in
                other_run fuel k p y h.0 r (ground (arith, d)) fits run (z ∙ b)
                ∙ search-first_index fuel inner (p + 1) s h.2 (omega arith) (omega arith)
                    (omega arith) (omega arith)
                ∙ ap ok (later p y s no_start)
          ]
    ]
  ]

-- strstr on two strings, with more fuel than either has bytes, gives the address of the first place in
-- the first string where the second stands, or NULL if it stands nowhere; an empty one stands at once.
pub strstr-first_index :
    (fuel : ℕ) (signed : Bool) (m : Mem) (p q : Addr) (s t : List ℕ)
    → CString m p s
    → CString m q t
    → length s < fuel
    → length t < fuel
    → strstr fuel signed m p q ≡ ok (at_offset p (first_index t s))
unfolding strstr
strstr-first_index fuel signed m p q s [] hs ht ls lt =
    let size = strlen-length fuel m q [] ht lt in
    let first = first_index-nil s in
    rw size (ap (λ a. ok (some a)) (omega arith) ∙ ap (λ o. ok (at_offset p o)) (sym first))
strstr-first_index fuel signed m p q s (c ∷ t) hs ht ls lt =
    let size = strlen-length fuel m q (c ∷ t) ht lt in
    let all = strlen-length fuel m p s hs ls in
    let nz : (suc (length t) == 0) ≡ false = ground arith in
    rw (size, nz, all, load-ok m q ht.0)
      (search-first_index signed m (p + length s) q fuel c t ht fuel fuel p s hs refl ls ls ls)
