-- ===== src/Str/Scan/Find.antt =====
-- src/string.c: memchr, strlen, strchr and strrchr against functions on lists of bytes.
use mathlib.Core.Option
use libdeepc.Base.{
  ℕ, zero, suc, ◌+◌, ◌<◌, ◌≡◌, refl, ap, ◌∙◌, inl, inr, Option, none, some, List, [], ◌∷◌, arith,
  ◌==◌, if◌then◌else◌, Bool-cases, length, ℤ, ok,
}
use libdeepc.Memory.{Mem, Addr}
use libdeepc.Memory.Block.{load-ok}
use libdeepc.Memory.Text.{Holds, CString, terminated}
use libdeepc.Str.Block.{to_uchar, memchr_loop, memchr}
use libdeepc.Str.Scan.{strlen_loop, strlen, strchr_loop, strchr, strrchr_loop, strrchr}

-- The place of the first `c` in a list.
unfoldable pub index_of : ℕ → List ℕ → Option ℕ
index_of c [] = none
index_of c (x ∷ xs) = if x == c then some 0 else Option.map suc (index_of c xs)

-- The place of the last `c` in a list.
unfoldable pub last_index_of : ℕ → List ℕ → Option ℕ
last_index_of c [] = none
last_index_of c (x ∷ xs) = elim (last_index_of c xs) [
  | none ↦ if x == c then some 0 else none
  | some i ↦ some (suc i)
]

-- The address `i` bytes from `p`, or NULL.
abbrev pub at_offset : Addr → Option ℕ → Option Addr
at_offset p none = none
at_offset p (some i) = some (p + i)

pub at_offset-suc : (p : Addr) (o : Option ℕ) → at_offset (p + 1) o ≡ at_offset p (Option.map suc o)
at_offset-suc p none = refl
at_offset-suc p (some i) = ap some (omega arith)

memchr_loop-index_of :
    (m : Mem) (p : Addr) (c : ℕ) (bs : List ℕ)
    → Holds m p bs
    → memchr_loop m c p (length bs) ≡ ok (at_offset p (index_of c bs))
unfolding memchr_loop index_of
memchr_loop-index_of m p c [] h = refl
memchr_loop-index_of m p c (b ∷ bs) h = elim (Bool-cases (b == c)) [
  | inl e ↦ rw (load-ok m p h.0, e) (ap (λ a. ok (some a)) (omega arith))
  | inr e ↦
      rw (load-ok m p h.0, e)
        (memchr_loop-index_of m (p + 1) c bs h.1 ∙ ap ok (at_offset-suc p (index_of c bs)))
]

-- memchr on a readable block never faults and gives the address of the first byte that equals the
-- argument as an unsigned char, or NULL if there is none.
pub memchr-index_of :
    (m : Mem) (p : Addr) (ch : ℤ) (bs : List ℕ)
    → Holds m p bs
    → memchr m p ch (length bs) ≡ ok (at_offset p (index_of (to_uchar ch) bs))
unfolding memchr
memchr-index_of m p ch bs h = memchr_loop-index_of m p (to_uchar ch) bs h

strlen_loop-length :
    (fuel : ℕ) (m : Mem) (str len q : ℕ) (s : List ℕ)
    → str + len ≡ q
    → CString m q s
    → length s < fuel
    → strlen_loop fuel m str len ≡ ok (len + length s)
unfolding strlen_loop
strlen_loop-length zero m str len q s e h lt = absurd (omega arith)
strlen_loop-length (suc fuel) m str len q [] e h lt = rw (e, load-ok m q h) (ap ok (omega arith))
strlen_loop-length (suc fuel) m str len q (c ∷ s) e h lt =
    let rec = strlen_loop-length fuel m str (len + 1) (q + 1) s (omega arith) h.2 (omega arith) in
    rw (e, load-ok m q h.0) (ground (arith, rec, h.1))

-- strlen on a string, with more fuel than bytes, gives the number of its bytes before the NUL.
pub strlen-length :
    (fuel : ℕ) (m : Mem) (p : Addr) (s : List ℕ)
    → CString m p s
    → length s < fuel
    → strlen fuel m p ≡ ok (length s)
unfolding strlen
strlen-length fuel m p s h lt =
    strlen_loop-length fuel m p 0 p s (omega arith) h lt ∙ ap ok (omega arith)

pub strchr_loop-index_of :
    (fuel : ℕ) (m : Mem) (p : Addr) (c : ℕ) (s : List ℕ)
    → CString m p s
    → length s < fuel
    → strchr_loop fuel m p c ≡ ok (at_offset p (index_of c (terminated s)))
unfolding strchr_loop index_of
strchr_loop-index_of zero m p c s h lt = absurd (omega arith)
strchr_loop-index_of (suc fuel) m p c [] h lt = rw (load-ok m p h) (ground arith)
strchr_loop-index_of (suc fuel) m p c (b ∷ s) h lt =
    let rec = strchr_loop-index_of fuel m (p + 1) c s h.2 (omega arith) in
    rw (load-ok m p h.0) (ground (arith, rec, h.1, at_offset-suc p (index_of c (terminated s))))

-- strchr on a string gives the address of the first byte that equals the argument as a char, the
-- NUL counted as one of its bytes, or NULL if there is none.
pub strchr-index_of :
    (fuel : ℕ) (m : Mem) (p : Addr) (ch : ℤ) (s : List ℕ)
    → CString m p s
    → length s < fuel
    → strchr fuel m p ch ≡ ok (at_offset p (index_of (to_uchar ch) (terminated s)))
unfolding strchr
strchr-index_of fuel m p ch s = strchr_loop-index_of fuel m p (to_uchar ch) s

abbrev or_else : Option ℕ → Option ℕ → Option ℕ
or_else none b = b
or_else (some a) b = some a

strrchr_loop-last :
    (fuel : ℕ) (m : Mem) (p : Addr) (c : ℕ) (ret : Option Addr) (s : List ℕ)
    → CString m p s
    → length s < fuel
    → strrchr_loop fuel m p c ret ≡ ok (or_else (at_offset p (last_index_of c (terminated s))) ret)
unfolding strrchr_loop last_index_of
strrchr_loop-last zero m p c ret s h lt = absurd (omega arith)
strrchr_loop-last (suc fuel) m p c ret [] h lt = rw (load-ok m p h) (ground arith)
strrchr_loop-last (suc fuel) m p c ret (b ∷ s) h lt =
    let rec =
      strrchr_loop-last fuel m (p + 1) c (if b == c then some p else ret) s h.2 (omega arith) in
    rw (load-ok m p h.0) (ground (arith, rec, h.1))

-- strrchr on a string gives the address of the last byte that equals the argument as a char, the
-- NUL counted as one of its bytes, or NULL if there is none.
pub strrchr-last_index_of :
    (fuel : ℕ) (m : Mem) (p : Addr) (ch : ℤ) (s : List ℕ)
    → CString m p s
    → length s < fuel
    → strrchr fuel m p ch ≡ ok (at_offset p (last_index_of (to_uchar ch) (terminated s)))
unfolding strrchr
strrchr-last_index_of fuel m p ch s h lt =
    ground (arith, strrchr_loop-last fuel m p (to_uchar ch) none s h lt)
