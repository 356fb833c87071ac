-- ===== src/Str/Scan/Span.antt =====
-- src/string.c: strspn and strcspn against the longest prefix that passes a test.
use libdeepc.Base.{
  ℕ, zero, suc, ◌+◌, ◌<◌, ◌≡◌, ap, ◌∙◌, ◌≢◌, Bool, false, not, ◌||◌, List, [], ◌∷◌, arith, ◌==◌,
  if◌then◌else◌, length, ok,
}
use libdeepc.Memory.{Mem, Addr}
use libdeepc.Memory.Block.{load-ok}
use libdeepc.Memory.Text.{CString}
use libdeepc.Str.Scan.{strspn_inner, strspn_loop, strspn, strcspn_inner, strcspn_loop, strcspn}

unfoldable pub mem_byte : ℕ → List ℕ → Bool
mem_byte c [] = false
mem_byte c (x ∷ xs) = x == c || mem_byte c xs

unfoldable pub take_while : (ℕ → Bool) → List ℕ → List ℕ
take_while p [] = []
take_while p (x ∷ xs) = if p x then x ∷ take_while p xs else []

strspn_inner-mem :
    (fuel : ℕ) (m : Mem) (p : Addr) (c : ℕ) (t : List ℕ)
    → c ≢ 0
    → CString m p t
    → length t < fuel
    → strspn_inner fuel m p c ≡ ok (mem_byte c t)
unfolding strspn_inner mem_byte
strspn_inner-mem zero m p c t nz h lt = absurd (omega arith)
strspn_inner-mem (suc fuel) m p c [] nz h lt = rw (load-ok m p h) (ground arith)
strspn_inner-mem (suc fuel) m p c (b ∷ t) nz h lt =
    let rec = strspn_inner-mem fuel m (p + 1) c t nz h.2 (omega arith) in
    rw (load-ok m p h.0) (ground (arith, rec, h.1))

strcspn_inner-mem :
    (fuel : ℕ) (m : Mem) (p : Addr) (c : ℕ) (t : List ℕ)
    → CString m p t
    → length t < fuel
    → strcspn_inner fuel m p c ≡ ok (not (mem_byte c t))
unfolding strcspn_inner mem_byte
strcspn_inner-mem zero m p c t h lt = absurd (omega arith)
strcspn_inner-mem (suc fuel) m p c [] h lt = rw (load-ok m p h) (ground arith)
strcspn_inner-mem (suc fuel) m p c (b ∷ t) h lt =
    let rec = strcspn_inner-mem fuel m (p + 1) c t h.2 (omega arith) in
    rw (load-ok m p h.0) (ground (arith, rec, h.1))

module _ (inner : ℕ) (m : Mem) (dest src : Addr) (t : List ℕ) (ht : CString m src t)
    (big : length t < inner) where
  strspn_loop-take_while :
      (fuel : ℕ) (d k : ℕ) (s : List ℕ)
      → dest + k ≡ d
      → CString m d s
      → length s < fuel
      → strspn_loop fuel inner m dest src d ≡ ok (k + length (take_while (λ c. mem_byte c t) s))
  unfolding strspn_loop take_while
  strspn_loop-take_while zero d k s e h lt = absurd (omega arith)
  strspn_loop-take_while (suc fuel) d k [] e h lt = rw (load-ok m d h) (ap ok (omega arith))
  strspn_loop-take_while (suc fuel) d k (c ∷ s) e h lt =
      let rec = strspn_loop-take_while fuel (d + 1) (k + 1) s (omega arith) h.2 (omega arith) in
      let found = strspn_inner-mem inner m src c t h.1 ht big in
      rw (load-ok m d h.0) (ground (arith, rec, found, h.1))

  strcspn_loop-take_while :
      (fuel : ℕ) (d k : ℕ) (s : List ℕ)
      → dest + k ≡ d
      → CString m d s
      → length s < fuel
      → strcspn_loop fuel inner m dest src d
        ≡ ok (k + length (take_while (λ c. not (mem_byte c t)) s))
  unfolding strcspn_loop take_while
  strcspn_loop-take_while zero d k s e h lt = absurd (omega arith)
  strcspn_loop-take_while (suc fuel) d k [] e h lt = rw (load-ok m d h) (ap ok (omega arith))
  strcspn_loop-take_while (suc fuel) d k (c ∷ s) e h lt =
      let rec = strcspn_loop-take_while fuel (d + 1) (k + 1) s (omega arith) h.2 (omega arith) in
      let pass = strcspn_inner-mem inner m src c t ht big in
      rw (load-ok m d h.0) (ground (arith, rec, pass, h.1))

-- strspn on two strings gives the length of the longest prefix of the first made of bytes of the
-- second.
pub strspn-take_while :
    (fuel : ℕ) (m : Mem) (p q : Addr) (s t : List ℕ)
    → CString m p s
    → CString m q t
    → length s < fuel
    → length t < fuel
    → strspn fuel m p q ≡ ok (length (take_while (λ c. mem_byte c t) s))
unfolding strspn
strspn-take_while fuel m p q s t hs ht ls lt =
    strspn_loop-take_while fuel m p q t ht lt fuel p 0 s (omega arith) hs ls ∙ ap ok (omega arith)

-- strcspn on two strings gives the length of the longest prefix of the first with no byte of the
-- second.
pub strcspn-take_while :
    (fuel : ℕ) (m : Mem) (p q : Addr) (s t : List ℕ)
    → CString m p s
    → CString m q t
    → length s < fuel
    → length t < fuel
    → strcspn fuel m p q ≡ ok (length (take_while (λ c. not (mem_byte c t)) s))
unfolding strcspn
strcspn-take_while fuel m p q s t hs ht ls lt =
    strcspn_loop-take_while fuel m p q t ht lt fuel p 0 s (omega arith) hs ls ∙ ap ok (omega arith)
