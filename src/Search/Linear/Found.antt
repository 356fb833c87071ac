-- ===== src/Search/Linear/Found.antt =====
-- src/search.c: what lfind finds, and that lsearch adds what is not there.
use native.Mathlib.Nat.{mul-le-mul_right}
use libdeepc.Base.{
  ℕ, zero, suc, ◌+◌, ◌-◌, ◌*◌, ◌≤◌, ◌<◌, ◌≡◌, refl, sym, ◌∙◌, ◌⊎◌, inl, inr, true, false, Option,
  none, some, arith, Bool-cases, pos, eqb_ℤ, ok,
}
use libdeepc.Memory.{Mem, Addr, IsMapped}
use libdeepc.Memory.Block.{blit}
use libdeepc.Str.Block.Copy.{memcpy-blit}
use libdeepc.Search.Linear.{Compar, lfind, lsearch}

-- The first of the `n` elements of `width` bytes from `base` that compares equal to the key.
pub data FirstMatch (compar : Compar) (m : Mem) (key base n width : ℕ) (r : Option Addr)
    : Type 0 where
  hit :
      (i p : ℕ)
      → i < n
      → p ≡ base + i * width
      → r ≡ some p
      → eqb_ℤ (compar m key p) (pos 0) ≡ true
      → ((j : ℕ) → j < i → eqb_ℤ (compar m key (base + j * width)) (pos 0) ≡ false)
      → FirstMatch compar m key base n width r
  miss :
      r ≡ none
      → ((j : ℕ) → j < n → eqb_ℤ (compar m key (base + j * width)) (pos 0) ≡ false)
      → FirstMatch compar m key base n width r

module _ (compar : Compar) (m : Mem) (key width : ℕ) where
  abbrev Unequal : Addr → Type 0
  Unequal p = eqb_ℤ (compar m key p) (pos 0) ≡ false

  Unequal-all :
      (base i : ℕ)
      → Unequal base
      → ((j : ℕ) → j < i → Unequal (base + width + j * width))
      → (j : ℕ) → j < suc i
      → Unequal (base + j * width)
  Unequal-all base i first rest zero lt =
      let e : base + 0 * width ≡ base = omega arith in rw e first
  Unequal-all base i first rest (suc j) lt =
      let e : base + suc j * width ≡ base + width + j * width = omega arith in
      rw e (rest j (omega arith))

  FirstMatch-cons :
      (base n : ℕ) {r : Option Addr}
      → Unequal base
      → FirstMatch compar m key (base + width) n width r
      → FirstMatch compar m key base (suc n) width r
  FirstMatch-cons base n first (hit i p lt e er eq before) =
      hit (suc i) p (omega arith) (omega arith) er eq (Unequal-all base i first before)
  FirstMatch-cons base n first (miss er all) = miss er (Unequal-all base n first all)

  -- lfind gives the first element that compares equal to the key, and NULL exactly when no element
  -- does.
  pub lfind-FirstMatch :
      (base n : ℕ) → FirstMatch compar m key base n width (lfind compar m key base n width)
  unfolding lfind
  lfind-FirstMatch base zero = miss refl (λ j lt. absurd (omega arith))
  lfind-FirstMatch base (suc n) = elim (Bool-cases (eqb_ℤ (compar m key base) (pos 0))) [
    | inl e ↦ hit 0 base (omega arith) (omega arith) (rw e refl) e (λ j lt. absurd (omega arith))
    | inr e ↦ rw e (FirstMatch-cons base n e (lfind-FirstMatch (base + width) n))
  ]

-- The `width` bytes at `p` in `m` are those at `q` in `k`.
abbrev pub SameBytes : Mem → Addr → Mem → Addr → ℕ → Type 0
SameBytes m p k q width = (i : ℕ) → i < width → k (q + i) ≡ m (p + i)

-- What the callers of lsearch rely on in a comparison: it reads no more than the two elements, and
-- elements of the same bytes compare equal.
pub record ComparesBytes (compar : Compar) (width : ℕ) : Type 0 where
  pub depends :
      (m k : Mem) (key it : Addr)
      → SameBytes m key k key width
      → SameBytes m it k it width
      → compar k key it ≡ compar m key it
  pub reflexive : (m : Mem) (key it : Addr) → SameBytes m key m it width → compar m key it ≡ pos 0

lfind-none :
    (compar : Compar) (m : Mem) (key p l width : ℕ)
    → lfind compar m key p (suc l) width ≡ none
    → (eqb_ℤ (compar m key p) (pos 0) ≡ false) × (lfind compar m key (p + width) l width ≡ none)
unfolding lfind
lfind-none compar m key p l width h = elim (Bool-cases (eqb_ℤ (compar m key p) (pos 0))) [
  | inl y ↦ absurd (let h' : some p ≡ none = rw y at h in cc)
  | inr y ↦ (y, rw y at h)
]

blit-get : (m : Mem) (d s n i : ℕ) → i < n → blit m d s n (d + i) ≡ m (s + i)
unfolding blit
blit-get m d s n i lt = let e : d + i - d + s ≡ s + i = omega arith in ground (arith, e)

blit-other : (m : Mem) (d s n a : ℕ) → (a < d) ⊎ (d + n ≤ a) → blit m d s n a ≡ m a
unfolding blit
blit-other m d s n a h = ground arith

module _ (compar : Compar) (width : ℕ) (law : ComparesBytes compar width) (m : Mem) (key base n : ℕ)
    (absent : lfind compar m key base n width ≡ none) (readable : IsMapped m key width)
    (room : IsMapped m (base + n * width) width)
    (apart : (key + width ≤ base + n * width) ⊎ (base + n * width + width ≤ key)) where
  abbrev after : Mem
  after = blit m (base + n * width) key width

  key_kept : SameBytes m key after key width
  key_kept i lt = blit-other m (base + n * width) key width (key + i) (omega arith)

  element_kept : (j : ℕ) → j < n → SameBytes m (base + j * width) after (base + j * width) width
  element_kept j lt i li =
      blit-other m (base + n * width) key width (base + j * width + i)
        (inl (let e : suc j * width ≤ n * width = mul-le-mul_right width lt in omega arith))

  new_equal : eqb_ℤ (compar after key (base + n * width)) (pos 0) ≡ true
  new_equal =
      rw
        (law.reflexive after key (base + n * width)
          (λ i lt. blit-get m (base + n * width) key width i lt ∙ sym (key_kept i lt)))
        refl

  p_kept : (k p : ℕ) → k < n → p ≡ base + k * width → compar after key p ≡ compar m key p
  p_kept k p lt e = rw e (law.depends m after key (base + k * width) key_kept (element_kept k lt))

  lfind-after :
      (k l p : ℕ)
      → k + l ≡ n
      → p ≡ base + k * width
      → lfind compar m key p l width ≡ none
      → lfind compar after key p (suc l) width ≡ some (base + n * width)
  unfolding lfind
  lfind-after k zero p e ep h =
      let f : k ≡ n = omega arith in
      let q : p ≡ base + n * width = rw (← f) ep in rw (q, new_equal) refl
  lfind-after k (suc l) p e ep h =
      let (y, rest) = lfind-none compar m key p l width h in
      rw (p_kept k p (omega arith) ep, y)
        (lfind-after (suc k) l (p + width) (omega arith) (omega arith) rest)

  -- lsearch of a key that is not among the elements, with mapped room behind them that is apart from
  -- the key, copies the key there as a new element and changes nothing else; afterwards lfind finds
  -- the key as that element.
  pub lsearch_absent :
      (lsearch compar m key base n width ≡ ok (after, n + 1, base + n * width))
      × (lfind compar after key base (suc n) width ≡ some (base + n * width))
  unfolding lsearch
  lsearch_absent = (
    rw (absent, memcpy-blit m (base + n * width) key width readable room (omega arith)) refl,
    lfind-after 0 n base (omega arith) (omega arith) absent,
  )
