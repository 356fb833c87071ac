-- ===== src/Memory/Block.antt =====
-- Whole blocks of memory: what a simultaneous copy and a fill of a block leave behind.
use libdeepc.Base.{
  ℕ, suc, ◌+◌, ◌-◌, ◌≤◌, ◌<◌, ◌≡◌, fun_ext, subst, ◌≢◌, ◌⊎◌, inl, inr, Bool, ◌&&◌, none, some,
  arith, dec_lt, ltb, leb, if◌then◌else◌, Option-cases, ok,
}
use libdeepc.Memory.{Mem, Addr, write, load, store, IsMapped}

-- `a` lies in the `n` bytes from `d`.
abbrev pub within : Addr → Addr → ℕ → Bool
within a d n = leb d a && ltb a (d + n)

-- The `n` bytes at `s`, all read before any is written, now stand at `d`.
unfoldable pub blit : Mem → Addr → Addr → ℕ → Mem
blit m d s n a = if within a d n then m (a - d + s) else m a

-- The `n` bytes at `d` are `c`.
unfoldable pub fill : Mem → Addr → ℕ → ℕ → Mem
fill m d c n a = if within a d n then some c else m a

module _ (m : Mem) (p : Addr) {b : ℕ} (e : m p ≡ some b) where
  pub load-ok : load m p ≡ ok b
  unfolding load
  load-ok = ground arith

  pub store-ok : (c : ℕ) → store m p c ≡ ok (write m p c)
  unfolding store
  store-ok c = ground arith

pub write-IsMapped : (m : Mem) (p c d n : ℕ) → IsMapped m d n → IsMapped (write m p c) d n
unfolding write
write-IsMapped m p c d n h i lt = ground (arith, h i lt)

pub IsMapped-suc : (m : Mem) (d n : ℕ) → IsMapped m d (suc n) → IsMapped m (d + 1) n
IsMapped-suc m d n h i lt =
    let e : d + suc i ≡ d + 1 + i = omega arith in
    subst (λ a. m a ≢ none) e (h (suc i) (omega arith))

pub IsMapped-get : (m : Mem) (p n i : ℕ) → IsMapped m p n → i < n → (b : ℕ) × (m (p + i) ≡ some b)
IsMapped-get m p n i h lt = elim (Option-cases (m (p + i))) [
  | inl e ↦ absurd (h i lt e)
  | inr e ↦ e
]

pub IsMapped-head : (m : Mem) (p n : ℕ) → IsMapped m p (suc n) → (b : ℕ) × (m p ≡ some b)
IsMapped-head m p n h =
    let (b, e) = IsMapped-get m p (suc n) 0 h (omega arith) in
    let q : p + 0 ≡ p = omega arith in (b, subst (λ a. m a ≡ some b) q e)

pub IsMapped-less : (m : Mem) (p n : ℕ) → IsMapped m p (suc n) → IsMapped m p n
IsMapped-less m p n h i lt = h i (omega arith)

-- A forward copy reads nothing that it has written before: the destination starts at or below the
-- source, or the blocks are apart.
abbrev pub ForwardSafe : ℕ → ℕ → ℕ → Type 0
ForwardSafe d s n = (d ≤ s) ⊎ (s + n ≤ d)

pub blit-zero : (m : Mem) (d s : ℕ) → m ≡ blit m d s 0
unfolding blit
blit-zero m d s = fun_ext λ a. ground arith

pub blit-suc :
    (m : Mem) (d s n : ℕ) {c : ℕ}
    → m s ≡ some c
    → ForwardSafe d s (suc n)
    → blit (write m d c) (d + 1) (s + 1) n ≡ blit m d s (suc n)
unfolding blit write
blit-suc m d s n e safe = fun_ext λ a. elim (dec_lt d a) [
  | yes h ↦ let q : a - (d + 1) + (s + 1) ≡ a - d + s = omega arith in rw q (ground arith)
  | no h ↦ elim (dec_lt a d) [
    | yes k ↦ ground arith
    | no k ↦
        let q : a ≡ d = omega arith in
        let r : d - d + s ≡ s = omega arith in rw (q, r) (ground arith)
  ]
]

pub fill-suc : (m : Mem) (d c n : ℕ) → fill (write m d c) (d + 1) c n ≡ fill m d c (suc n)
unfolding fill write
fill-suc m d c n = fun_ext λ a. ground arith

pub fill-zero : (m : Mem) (d c : ℕ) → m ≡ fill m d c 0
unfolding fill
fill-zero m d c = fun_ext λ a. ground arith

-- A byte of the copy.
pub blit-get : (m : Mem) (d s n i : ℕ) → i < n → blit m d s n (d + i) ≡ m (s + i)
unfolding blit
blit-get m d s n i lt = let e : d + i - d + s ≡ s + i = omega arith in ground (arith, e)

pub blit-outside : (m : Mem) (d s n a : ℕ) → (a < d) ⊎ (d + n ≤ a) → blit m d s n a ≡ m a
unfolding blit
blit-outside m d s n a out = ground (arith, out)
