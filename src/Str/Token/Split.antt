-- ===== src/Str/Token/Split.antt =====
-- src/string.c: strtok_r splits the next token off a string.
use libdeepc.Base.{
  ℕ, zero, suc, ◌+◌, ◌≤◌, ◌<◌, ◌≡◌, refl, subst, ◌≢◌, ◌⊎◌, inl, inr, Bool, false, not, some, List,
  [], ◌∷◌, arith, ◌==◌, if◌then◌else◌, Bool-cases, length, take, drop, ok,
}
use libdeepc.Memory.{Mem, Addr, null, write}
use libdeepc.Memory.Block.{load-ok, store-ok}
use libdeepc.Memory.Text.{CString, CString-take, CString-write}
use libdeepc.Str.Scan.{strspn, strcspn}
use libdeepc.Str.Scan.Span.{mem_byte, take_while, strspn-take_while, strcspn-take_while}
use libdeepc.Str.Token.{strtok_r}

-- The string behind the delimiters it starts with, the token there, and what is behind the token.
unfoldable pub behind : List ℕ → List ℕ → List ℕ
behind ds s = drop (length (take_while (λ c. mem_byte c ds) s)) s

unfoldable pub token_of : List ℕ → List ℕ → List ℕ
token_of ds s = take_while (λ c. not (mem_byte c ds)) (behind ds s)

unfoldable pub left_of : List ℕ → List ℕ → List ℕ
left_of ds s = drop (length (token_of ds s)) (behind ds s)

-- The address where the scan starts, and that of the token.
abbrev pub from_of : Addr → Addr → Addr
from_of str state = if str == null then state else str

abbrev pub start_of : Addr → Addr → List ℕ → List ℕ → Addr
start_of str state ds s = from_of str state + length (take_while (λ c. mem_byte c ds) s)

CString-drop :
    (m : Mem) (p n : ℕ) (s : List ℕ) → CString m p s → n ≤ length s → CString m (p + n) (drop n s)
CString-drop m p zero s h le = let q : p + 0 ≡ p = omega arith in rw q h
CString-drop m p (suc n) [] h le = absurd (omega arith)
CString-drop m p (suc n) (c ∷ s) h le =
    let q : p + 1 + n ≡ p + suc n = omega arith in
    subst (λ a. CString m a (drop n s)) q (CString-drop m (p + 1) n s h.2 (omega arith))

length-take_while : (f : ℕ → Bool) (s : List ℕ) → length (take_while f s) ≤ length s
unfolding take_while
length-take_while f [] = omega arith
length-take_while f (c ∷ s) = ground (arith, length-take_while f s)

take_while-take : (f : ℕ → Bool) (s : List ℕ) → take (length (take_while f s)) s ≡ take_while f s
unfolding take_while
take_while-take f [] = refl
take_while-take f (c ∷ s) =
    let q = take_while-take f s in
    elim (Bool-cases (f c)) [ inl b ↦ rw (b, q) refl | inr b ↦ rw b refl ]

-- The bytes that pass a test, in a memory where a NUL stands behind them.
CString-take_while :
    (f : ℕ → Bool) (m k : Mem) (p : Addr) (s : List ℕ)
    → ((a : Addr) → a ≢ p + length (take_while f s) → k a ≡ m a)
    → k (p + length (take_while f s)) ≡ some 0
    → CString m p s
    → CString k p (take_while f s)
CString-take_while f m k p s same stop h =
    let le = length-take_while f s in
    subst (λ t. CString k p t) (take_while-take f s)
      (CString-take m k p p (length (take_while f s)) s (λ i lt _. same (p + i) (λ e. omega arith))
        (λ i e. let q : i ≡ length (take_while f s) = omega arith in rw q stop) h)

module _ (fuel : ℕ) (m : Mem) (str delim state skip : Addr) where
  abbrev from : Addr
  from = from_of str state

  none_run :
      strspn fuel m from delim ≡ ok skip
      → m (from + skip) ≡ some 0
      → strtok_r fuel m str delim state ≡ ok (null, (m, null))
  unfolding strtok_r
  none_run run e = rw (run, load-ok m (from + skip) e) refl

  module _ (len c : ℕ) (run : strspn fuel m from delim ≡ ok skip) (first : m (from + skip) ≡ some c)
      (nz : c ≢ 0) (span : strcspn fuel m (from + skip) delim ≡ ok len) where
    last_run :
        m (from + skip + len) ≡ some 0
        → strtok_r fuel m str delim state ≡ ok (from + skip, (m, from + skip + len))
    unfolding strtok_r
    last_run e =
        let q : (c == 0) ≡ false = ground (arith, nz) in
        rw (run, load-ok m (from + skip) first, q, span, load-ok m (from + skip + len) e) refl

    cut_run :
        (d : ℕ)
        → d ≢ 0
        → m (from + skip + len) ≡ some d
        → strtok_r fuel m str delim state
          ≡ ok (from + skip, (write m (from + skip + len) 0, from + skip + len + 1))
    unfolding strtok_r
    cut_run d dz e =
        let q : (c == 0) ≡ false = ground (arith, nz) in
        let r : (d == 0) ≡ false = ground (arith, dz) in
        rw
          (
            run,
            load-ok m (from + skip) first,
            q,
            span,
            load-ok m (from + skip + len) e,
            r,
            store-ok m (from + skip + len) e 0,
          )
          refl

write_ne : (m : Mem) (p a b : ℕ) → a ≢ p → write m p b a ≡ m a
unfolding write
write_ne m p a b ne = ground (arith, ne)

write_self : (m : Mem) (p b : ℕ) → write m p b p ≡ some b
unfolding write
write_self m p b = ground arith

-- What a call gives, from where the token would be, what is there, its token and what is left behind it.
abbrev Outcome : ℕ → Mem → (str delim state p : Addr) → List ℕ → List ℕ → List ℕ → Type 0
Outcome fuel m str delim state p b tok l =
    ((b ≡ []) × (strtok_r fuel m str delim state ≡ ok (null, (m, null))))
    ⊎ ((b ≢ [])
        × (m' : Mem) × (state' : Addr) × (strtok_r fuel m str delim state ≡ ok (p, (m', state')))
        × CString m' p tok
        × CString m' state' (drop 1 l)
        × ((a : Addr) → a ≢ p + length tok → m' a ≡ m a))

module _ (fuel : ℕ) (m : Mem) (str delim state skip : Addr)
    (run : strspn fuel m (from_of str state) delim ≡ ok skip) (f : ℕ → Bool) where
  abbrev place : Addr
  place = from_of str state + skip

  with_token :
      (c : ℕ) (b l : List ℕ)
      → CString m place (c ∷ b)
      → CString m (place + length (take_while f (c ∷ b))) l
      → strcspn fuel m place delim ≡ ok (length (take_while f (c ∷ b)))
      → Outcome fuel m str delim state place (c ∷ b) (take_while f (c ∷ b)) l
  with_token c b [] hb hl span =
      let n = length (take_while f (c ∷ b)) in
      inr (
        λ e. cc,
        m,
        place + n,
        last_run fuel m str delim state skip n c run hb.0 hb.1 span hl,
        CString-take_while f m m place (c ∷ b) (λ a ne. refl) hl hb,
        hl,
        λ a ne. refl,
      )
  with_token c b (d ∷ l) hb hl span =
      let n = length (take_while f (c ∷ b)) in
      let stop = place + n in
      let same : (a : Addr) → a ≢ stop → write m stop 0 a ≡ m a = λ a ne. write_ne m stop a 0 ne in
      inr (
        λ e. cc,
        write m stop 0,
        stop + 1,
        cut_run fuel m str delim state skip n c run hb.0 hb.1 span d hl.1 hl.0,
        CString-take_while f m (write m stop 0) place (c ∷ b) same (write_self m stop 0) hb,
        CString-write m stop 0 (stop + 1) l (inl (omega arith)) hl.2,
        same,
      )

length-drop : (n : ℕ) (s : List ℕ) → length (drop n s) ≤ length s
length-drop zero s = omega arith
length-drop (suc n) [] = omega arith
length-drop (suc n) (c ∷ s) = omega (arith, length-drop n s)

split :
    (fuel : ℕ) (m : Mem) (str delim state skip : Addr)
    → strspn fuel m (from_of str state) delim ≡ ok skip
    → (ds b : List ℕ) → CString m (from_of str state + skip) b
    → CString m delim ds
    → length b < fuel
    → length ds < fuel
    → Outcome fuel m str delim state
        (from_of str state + skip)
        b
        (take_while (λ c. not (mem_byte c ds)) b)
        (drop (length (take_while (λ c. not (mem_byte c ds)) b)) b)
split fuel m str delim state skip run ds [] hb hd lb ld =
    inl (refl, none_run fuel m str delim state skip run hb)
split fuel m str delim state skip run ds (c ∷ b) hb hd lb ld =
    let f : ℕ → Bool = λ x. not (mem_byte x ds) in
    let p = from_of str state + skip in
    let n = length (take_while f (c ∷ b)) in
    let hl = CString-drop m p n (c ∷ b) hb (length-take_while f (c ∷ b)) in
    let span = strcspn-take_while fuel m p delim (c ∷ b) ds hb hd lb ld in
    with_token fuel m str delim state skip run f c b (drop n (c ∷ b)) hb hl span

-- strtok_r, told a string or the state of the call before, on a string and a set of delimiters: where
-- nothing but delimiters is left it gives NULL. Else it gives the address of the first byte that is no
-- delimiter, a string that is the token stands there, the string behind the delimiter that ended it
-- stands at the new state, and no byte but that delimiter has changed.
pub strtok_r-token :
    (fuel : ℕ) (m : Mem) (str delim state : Addr) (s ds : List ℕ)
    → CString m (from_of str state) s
    → CString m delim ds
    → length s < fuel
    → length ds < fuel
    → ((behind ds s ≡ []) × (strtok_r fuel m str delim state ≡ ok (null, (m, null))))
      ⊎ ((behind ds s ≢ [])
          × (m' : Mem) × (state' : Addr) × (strtok_r fuel m str delim state
              ≡ ok (start_of str state ds s, (m', state')))
          × CString m' (start_of str state ds s) (token_of ds s)
          × CString m' state' (drop 1 (left_of ds s))
          × ((a : Addr) → a ≢ start_of str state ds s + length (token_of ds s) → m' a ≡ m a))
unfolding behind token_of left_of
strtok_r-token fuel m str delim state s ds hs hd ls ld =
    let skip = length (take_while (λ c. mem_byte c ds) s) in
    let p = from_of str state + skip in
    let run = strspn-take_while fuel m (from_of str state) delim s ds hs hd ls ld in
    let le = length-take_while (λ c. mem_byte c ds) s in
    let hb = CString-drop m (from_of str state) skip s hs le in
    let lb = length-drop skip s in
    split fuel m str delim state skip run ds (drop skip s) hb hd (omega arith) ld
