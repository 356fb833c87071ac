-- ===== src/Memory/Bytes.antt =====
-- The memory behind a run of stores at ascending addresses.
use Prim.Native.Nat.{min}
use libdeepc.Base.{
  ℕ, zero, suc, ◌+◌, ◌-◌, ◌≤◌, ◌<◌, ◌≡◌, refl, ap, ◌∙◌, ◌⊎◌, inl, true, false, List, [], ◌∷◌, ◌++◌,
  arith, ◌==◌, ==_refl, length, take,
}
use libdeepc.Memory.{Mem, Addr, write, IsMapped}
use libdeepc.Memory.Text.{Holds}
use libdeepc.Memory.Block.{write-IsMapped}

-- The memory with the bytes from `p` on.
unfoldable pub put_bytes : Mem → Addr → List ℕ → Mem
put_bytes m p [] = m
put_bytes m p (b ∷ bs) = put_bytes (write m p b) (p + 1) bs

pub put_bytes-IsMapped :
    (bs : List ℕ) (m : Mem) (p a n : ℕ) → IsMapped m a n → IsMapped (put_bytes m p bs) a n
unfolding put_bytes
put_bytes-IsMapped [] m p a n h = h
put_bytes-IsMapped (b ∷ bs) m p a n h =
    put_bytes-IsMapped bs (write m p b) (p + 1) a n (write-IsMapped m p b a n h)

pub put_bytes-append :
    (xs ys : List ℕ) (m : Mem) (p : ℕ)
    → put_bytes m p (xs ++ ys) ≡ put_bytes (put_bytes m p xs) (p + length xs) ys
unfolding put_bytes
put_bytes-append [] ys m p = let q : p + 0 ≡ p = omega arith in rw q refl
put_bytes-append (x ∷ xs) ys m p =
    let q : p + suc (length xs) ≡ p + 1 + length xs = omega arith in
    rw q (put_bytes-append xs ys (write m p x) (p + 1))

module _ {ℓ} {A : Type ℓ} where
  pub take-append :
      (n : ℕ) (xs ys : List A) → take n (xs ++ ys) ≡ take n xs ++ take (n - length xs) ys
  take-append zero xs ys = let q : 0 - length xs ≡ 0 = omega arith in rw q refl
  take-append (suc n) [] ys = let q : suc n - 0 ≡ suc n = omega arith in rw q refl
  take-append (suc n) (x ∷ xs) ys =
      let q : suc n - suc (length xs) ≡ n - length xs = omega arith in
      rw q (ap (λ t. x ∷ t) (take-append n xs ys))

  pub take_all : (n : ℕ) (xs : List A) → length xs ≤ n → take n xs ≡ xs
  take_all zero [] h = refl
  take_all zero (x ∷ xs) h = absurd (omega arith)
  take_all (suc n) [] h = refl
  take_all (suc n) (x ∷ xs) h = ap (λ t. x ∷ t) (take_all n xs (omega arith))

  pub length-take : (n : ℕ) (xs : List A) → length (take n xs) ≡ min n (length xs)
  length-take zero xs = omega arith
  length-take (suc n) [] = omega arith
  length-take (suc n) (x ∷ xs) = omega (arith, length-take n xs)

-- The memory outside of the bytes is as before.
pub put_bytes-outside :
    (bs : List ℕ) (m : Mem) (p a : Addr) → (a < p) ⊎ (p + length bs ≤ a) → put_bytes m p bs a ≡ m a
unfolding put_bytes write
put_bytes-outside [] m p a h = refl
put_bytes-outside (b ∷ bs) m p a h =
    let away : (a == p) ≡ false = ground (arith, h) in
    put_bytes-outside bs (write m p b) (p + 1) a (ground (arith, h)) ∙ (rw away refl)

pub put_bytes-Holds : (bs : List ℕ) (m : Mem) (p : Addr) → Holds (put_bytes m p bs) p bs
unfolding put_bytes write
put_bytes-Holds [] m p = tt
put_bytes-Holds (b ∷ bs) m p =
    let self : (p == p) ≡ true = ==_refl p in
    (
      put_bytes-outside bs (write m p b) (p + 1) p (inl (omega arith)) ∙ (rw self refl),
      put_bytes-Holds bs (write m p b) (p + 1),
    )
