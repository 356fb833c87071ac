-- ===== src/Str/Compare/Sign.antt =====
-- src/string.c: what the results of memcmp, strcmp and strncmp say.
use libdeepc.Base.{
  ℕ, zero, suc, ◌+◌, ◌%◌, ◌<◌, ◌≡◌, refl, sym, ap, subst, ◌≢◌, ◌⊎◌, inl, inr, Bool, true, false,
  List, [], ◌∷◌, arith, dec_lt, ℕ_discrete, length, take, All, ℤ, pos, negsuc, ok,
}
use libdeepc.Memory.{Mem, Addr}
use libdeepc.Memory.Block.{load-ok}
use libdeepc.Memory.Text.{Holds, CString, terminated}
use libdeepc.Str.Block.{char_sign, memcmp}
use libdeepc.Str.Compare.{strcmp, strncmp}

-- After a common prefix, `xs` has `x` where `ys` has `y`, and these differ.
pub data Differ : List ℕ → List ℕ → ℕ → ℕ → Type 0 where
  here : {x y : ℕ} {xs ys : List ℕ} → x ≢ y → Differ (x ∷ xs) (y ∷ ys) x y
  there : {x y b : ℕ} {xs ys : List ℕ} → Differ xs ys x y → Differ (b ∷ xs) (b ∷ ys) x y

-- As chars `x` is less than `y`: a signed char of 128 or more is 256 less than its byte.
abbrev pub CharLess : Bool → ℕ → ℕ → Type 0
CharLess false x y = x < y
CharLess true x y = (x + 128) % 256 < (y + 128) % 256

-- `r` is 0 and the bytes are the same, or it is -1 or 1 and the first two that differ are in that
-- order.
pub data Compared (signed : Bool) (xs ys : List ℕ) (r : ℤ) : Type 0 where
  same : xs ≡ ys → r ≡ pos 0 → Compared signed xs ys r
  less : (x y : ℕ) → Differ xs ys x y → CharLess signed x y → r ≡ negsuc 0 → Compared signed xs ys r
  greater : (x y : ℕ) → Differ xs ys x y → CharLess signed y x → r ≡ pos 1 → Compared signed xs ys r

-- A byte of 8 bits.
abbrev pub IsByte : ℕ → Type 0
IsByte b = b < 256

Compared-cons :
    {signed : Bool} {xs ys : List ℕ} {r : ℤ} (b : ℕ)
    → Compared signed xs ys r
    → Compared signed (b ∷ xs) (b ∷ ys) r
Compared-cons b (same e z) = same (ap (λ t. b ∷ t) e) z
Compared-cons b (less x y d l e) = less x y (there d) l e
Compared-cons b (greater x y d l e) = greater x y (there d) l e

char_less :
    (signed : Bool) (x y : ℕ)
    → IsByte x
    → IsByte y
    → x ≢ y
    → (CharLess signed x y × (char_sign signed x y ≡ negsuc 0))
      ⊎ (CharLess signed y x × (char_sign signed x y ≡ pos 1))
char_less false x y bx hy ne = elim (dec_lt x y) [
  | yes h ↦ inl (h, ground arith)
  | no h ↦ inr (omega arith, ground arith)
]
char_less true x y bx hy ne = elim (dec_lt ((x + 128) % 256) ((y + 128) % 256)) [
  | yes h ↦ inl (h, ground arith)
  | no h ↦ inr (omega arith, ground arith)
]

differ_first :
    (signed : Bool) (x y : ℕ) (xs ys : List ℕ)
    → IsByte x
    → IsByte y
    → x ≢ y
    → Compared signed (x ∷ xs) (y ∷ ys) (char_sign signed x y)
differ_first signed x y xs ys bx hy ne = elim (char_less signed x y bx hy ne) [
  | inl (l, e) ↦ less x y (here ne) l e
  | inr (l, e) ↦ greater x y (here ne) l e
]

-- memcmp on two blocks of the same length, of bytes below 256, never faults. Its result is 0 if the
-- bytes are the same, and otherwise -1 or 1, where the first two that differ are less or greater as
-- chars.
pub memcmp-Compared :
    (signed : Bool) (m : Mem) (l r : Addr) (xs ys : List ℕ)
    → Holds m l xs
    → Holds m r ys
    → length xs ≡ length ys
    → All IsByte xs
    → All IsByte ys
    → (c : ℤ) × (memcmp signed m l r (length xs) ≡ ok c) × Compared signed xs ys c
unfolding memcmp
memcmp-Compared signed m l r [] [] hx hy e gx gy = (pos 0, refl, same refl refl)
memcmp-Compared signed m l r [] (y ∷ ys) hx hy e gx gy = absurd (omega arith)
memcmp-Compared signed m l r (x ∷ xs) [] hx hy e gx gy = absurd (omega arith)
memcmp-Compared signed m l r (x ∷ xs) (y ∷ ys) hx hy e gx gy = elim (ℕ_discrete x y) [
  | yes q ↦
      let (c, run, rel) =
        memcmp-Compared signed m (l + 1) (r + 1) xs ys hx.1 hy.1 (omega arith) gx.1 gy.1 in
      (
        c,
        rw (load-ok m l hx.0, load-ok m r hy.0) (ground arith),
        subst (λ t. Compared signed (x ∷ xs) (t ∷ ys) c) q (Compared-cons x rel),
      )
  | no q ↦ (
    char_sign signed x y,
    rw (load-ok m l hx.0, load-ok m r hy.0) (ground arith),
    differ_first signed x y xs ys gx.0 gy.0 (q),
  )
]

-- strcmp on two strings of bytes below 256, with fuel for the first, never faults. Its result is 0 if
-- the strings are the same, and otherwise -1 where the first byte that differs, terminators included,
-- is less as a char in the first string, and 1 where it is greater.
pub strcmp-Compared :
    (fuel : ℕ) (signed : Bool) (m : Mem) (l r : Addr) (s t : List ℕ)
    → CString m l s
    → CString m r t
    → All IsByte s
    → All IsByte t
    → length s < fuel
    → (c : ℤ) × (strcmp fuel signed m l r ≡ ok c) × Compared signed (terminated s) (terminated t) c
unfolding strcmp
strcmp-Compared zero signed m l r s t hs ht gs gt lt = absurd (omega arith)
strcmp-Compared (suc fuel) signed m l r [] [] hs ht gs gt lt =
    (pos 0, rw (load-ok m l hs, load-ok m r ht) refl, same refl refl)
strcmp-Compared (suc fuel) signed m l r [] (y ∷ t) hs ht gs gt lt = (
  char_sign signed 0 y,
  rw (load-ok m l hs, load-ok m r ht.0) (ground arith),
  differ_first signed 0 y [] (terminated t) (omega arith) gt.0 ((λ e. ht.1 (sym e))),
)
strcmp-Compared (suc fuel) signed m l r (x ∷ s) [] hs ht gs gt lt = (
  char_sign signed x 0,
  rw (load-ok m l hs.0, load-ok m r ht) (ground arith),
  differ_first signed x 0 (terminated s) [] gs.0 (omega arith) (hs.1),
)
strcmp-Compared (suc fuel) signed m l r (x ∷ s) (y ∷ t) hs ht gs gt lt = elim (ℕ_discrete x y) [
  | yes q ↦
      let (c, run, rel) =
        strcmp-Compared fuel signed m (l + 1) (r + 1) s t hs.2 ht.2 gs.1 gt.1 (omega arith) in
      (
        c,
        rw (load-ok m l hs.0, load-ok m r ht.0) (ground arith),
        subst (λ b. Compared signed (x ∷ terminated s) (b ∷ terminated t) c) q
            (Compared-cons x rel),
      )
  | no q ↦ (
    char_sign signed x y,
    rw (load-ok m l hs.0, load-ok m r ht.0) (ground arith),
    differ_first signed x y (terminated s) (terminated t) gs.0 gt.0 (q),
  )
]

-- strncmp on two strings of bytes below 256 never faults. It compares the first `n` bytes, terminators included, in
-- the way of strcmp.
pub strncmp-Compared :
    (n : ℕ) (signed : Bool) (m : Mem) (l r : Addr) (s t : List ℕ)
    → CString m l s
    → CString m r t
    → All IsByte s
    → All IsByte t
    → (c : ℤ) × (strncmp signed m l r n ≡ ok c)
      × Compared signed (take n (terminated s)) (take n (terminated t)) c
unfolding strncmp
strncmp-Compared zero signed m l r s t hs ht gs gt = (pos 0, refl, same refl refl)
strncmp-Compared (suc n) signed m l r [] [] hs ht gs gt =
    (pos 0, rw (load-ok m l hs, load-ok m r ht) refl, same refl refl)
strncmp-Compared (suc n) signed m l r [] (y ∷ t) hs ht gs gt = (
  char_sign signed 0 y,
  rw (load-ok m l hs, load-ok m r ht.0) (ground arith),
  differ_first signed 0 y (take n []) (take n (terminated t)) (omega arith) gt.0
      ((λ e. ht.1 (sym e))),
)
strncmp-Compared (suc n) signed m l r (x ∷ s) [] hs ht gs gt = (
  char_sign signed x 0,
  rw (load-ok m l hs.0, load-ok m r ht) (ground arith),
  differ_first signed x 0 (take n (terminated s)) (take n []) gs.0 (omega arith) (hs.1),
)
strncmp-Compared (suc n) signed m l r (x ∷ s) (y ∷ t) hs ht gs gt = elim (ℕ_discrete x y) [
  | yes q ↦
      let (c, run, rel) = strncmp-Compared n signed m (l + 1) (r + 1) s t hs.2 ht.2 gs.1 gt.1 in
      (
        c,
        rw (load-ok m l hs.0, load-ok m r ht.0) (ground arith),
        subst (λ b. Compared signed (x ∷ take n (terminated s)) (b ∷ take n (terminated t)) c) q
            (Compared-cons x rel),
      )
  | no q ↦ (
    char_sign signed x y,
    rw (load-ok m l hs.0, load-ok m r ht.0) (ground arith),
    differ_first signed x y (take n (terminated s)) (take n (terminated t)) gs.0 gt.0 (q),
  )
]
