-- ===== src/Memory/Text.antt =====
-- What a block of bytes and a NUL-terminated string look like in memory.
use Prim.Native.Nat.{min}
use libdeepc.Base.{
  ℕ, zero, suc, ◌+◌, ◌≤◌, ◌<◌, ◌≡◌, ◌∙◌, subst, ◌≢◌, ◌⊎◌, none, some, List, [], ◌∷◌, ◌++◌, arith,
  length, take,
}
use libdeepc.Memory.{Mem, Addr, write}

-- The bytes from `p` on are `bs`.
abbrev pub Holds : Mem → Addr → List ℕ → Type 0
Holds m p [] = Unit
Holds m p (b ∷ bs) = (m p ≡ some b) × Holds m (p + 1) bs

-- The string at `p` is `s`: none of its bytes is NUL, and a NUL follows.
abbrev pub CString : Mem → Addr → List ℕ → Type 0
CString m p [] = m p ≡ some 0
CString m p (c ∷ s) = (m p ≡ some c) × (c ≢ 0) × CString m (p + 1) s

-- The string with its terminator, as bytes.
abbrev pub terminated : List ℕ → List ℕ
terminated s = s ++ 0 ∷ []

pub CString-Holds : (m : Mem) (p : Addr) (s : List ℕ) → CString m p s → Holds m p (terminated s)
CString-Holds m p [] h = (h, tt)
CString-Holds m p (c ∷ s) h = (h.0, CString-Holds m (p + 1) s h.2)

pub Holds-same :
    (m k : Mem) (p : Addr) (bs : List ℕ)
    → ((i : ℕ) → i < length bs → k (p + i) ≡ m (p + i))
    → Holds m p bs
    → Holds k p bs
Holds-same m k p [] same h = tt
Holds-same m k p (b ∷ bs) same h =
    let q : p + 0 ≡ p = omega arith in
    (
      subst (λ a. k a ≡ m a) q (same 0 (omega arith)) ∙ h.0,
      Holds-same m k (p + 1) bs
          (λ i lt.
            let e : p + suc i ≡ p + 1 + i = omega arith in
            subst (λ a. k a ≡ m a) e (same (suc i) (omega arith)))
          h.1,
    )

pub CString-same :
    (m k : Mem) (p : Addr) (s : List ℕ)
    → ((i : ℕ) → i ≤ length s → k (p + i) ≡ m (p + i))
    → CString m p s
    → CString k p s
CString-same m k p [] same h =
    let q : p + 0 ≡ p = omega arith in subst (λ a. k a ≡ m a) q (same 0 (omega arith)) ∙ h
CString-same m k p (c ∷ s) same h =
    let q : p + 0 ≡ p = omega arith in
    (
      subst (λ a. k a ≡ m a) q (same 0 (omega arith)) ∙ h.0,
      h.1,
      CString-same m k (p + 1) s
          (λ i lt.
            let e : p + suc i ≡ p + 1 + i = omega arith in
            subst (λ a. k a ≡ m a) e (same (suc i) (omega arith)))
          h.2,
    )

-- A write outside a string leaves it.
pub CString-write :
    (m : Mem) (a c p : ℕ) (s : List ℕ)
    → (a < p) ⊎ (p + length s < a)
    → CString m p s
    → CString (write m a c) p s
unfolding write
CString-write m a c p s out h = CString-same m (write m a c) p s (λ i le. ground arith) h

pub CString-get :
    (m : Mem) (p : Addr) (s : List ℕ) (i : ℕ) → CString m p s → i ≤ length s → m (p + i) ≢ none
CString-get m p [] zero h le = let q : p + 0 ≡ p = omega arith in rw q (λ e. cc)
CString-get m p [] (suc i) h le = absurd (omega arith)
CString-get m p (c ∷ s) zero h le = let q : p + 0 ≡ p = omega arith in rw q (λ e. cc (h.0))
CString-get m p (c ∷ s) (suc i) h le =
    let q : p + 1 + i ≡ p + suc i = omega arith in
    subst (λ a. m a ≢ none) q (CString-get m (p + 1) s i h.2 (omega arith))

pub CString-first : (m : Mem) (p : Addr) (s : List ℕ) → CString m p s → (b : ℕ) × (m p ≡ some b)
CString-first m p [] h = (0, h)
CString-first m p (c ∷ s) h = (c, h.0)

-- The same bytes at another place.
pub CString-move :
    (m k : Mem) (p r : Addr) (s : List ℕ)
    → ((i : ℕ) → i ≤ length s → k (r + i) ≡ m (p + i))
    → CString m p s
    → CString k r s
CString-move m k p r [] same h =
    let q : p + 0 ≡ p = omega arith in
    let u : r + 0 ≡ r = omega arith in rw (← u) (same 0 (omega arith) ∙ rw q h)
CString-move m k p r (c ∷ s) same h =
    let q : p + 0 ≡ p = omega arith in
    let u : r + 0 ≡ r = omega arith in
    (
      subst (λ a. k a ≡ some c) u (same 0 (omega arith) ∙ rw q h.0),
      h.1,
      CString-move m k (p + 1) (r + 1) s
          (λ i lt.
            let e : p + suc i ≡ p + 1 + i = omega arith in
            let f : r + suc i ≡ r + 1 + i = omega arith in
            rw (← e, ← f) (same (suc i) (omega arith)))
          h.2,
    )

-- A string is cut short by a NUL over one of its bytes.
pub CString-take :
    (m k : Mem) (p r : Addr) (n : ℕ) (s : List ℕ)
    → ((i : ℕ) → i < n → i < length s → k (r + i) ≡ m (p + i))
    → ((i : ℕ) → i ≡ min n (length s) → k (r + i) ≡ some 0)
    → CString m p s
    → CString k r (take n s)
CString-take m k p r zero s same stop h =
    let u : r + 0 ≡ r = omega arith in subst (λ a. k a ≡ some 0) u (stop 0 (omega arith))
CString-take m k p r (suc n) [] same stop h =
    let u : r + 0 ≡ r = omega arith in subst (λ a. k a ≡ some 0) u (stop 0 (omega arith))
CString-take m k p r (suc n) (c ∷ s) same stop h =
    let q : p + 0 ≡ p = omega arith in
    let u : r + 0 ≡ r = omega arith in
    (
      subst (λ a. k a ≡ some c) u (same 0 (omega arith) (omega arith) ∙ rw q h.0),
      h.1,
      CString-take m k (p + 1) (r + 1) n s
          (λ i lt ls.
            let e : p + suc i ≡ p + 1 + i = omega arith in
            let f : r + suc i ≡ r + 1 + i = omega arith in
            rw (← e, ← f) (same (suc i) (omega arith) (omega arith)))
          (λ i e.
            let f : r + suc i ≡ r + 1 + i = omega arith in rw (← f) (stop (suc i) (omega arith)))
          h.2,
    )

-- A string behind the bytes of another.
pub CString-append :
    (m k : Mem) (p : Addr) (s t : List ℕ)
    → ((i : ℕ) → i < length s → k (p + i) ≡ m (p + i))
    → CString m p s
    → CString k (p + length s) t
    → CString k p (s ++ t)
CString-append m k p [] t same h ht =
    let u : p + 0 ≡ p = omega arith in subst (λ a. CString k a t) u ht
CString-append m k p (c ∷ s) t same h ht =
    let u : p + 0 ≡ p = omega arith in
    let v : p + suc (length s) ≡ p + 1 + length s = omega arith in
    (
      subst (λ a. k a ≡ m a) u (same 0 (omega arith)) ∙ h.0,
      h.1,
      CString-append m k (p + 1) s t
          (λ i lt.
            let e : p + suc i ≡ p + 1 + i = omega arith in
            subst (λ a. k a ≡ m a) e (same (suc i) (omega arith)))
          h.2 (subst (λ a. CString k a t) v ht),
    )
