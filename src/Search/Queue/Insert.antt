-- ===== src/Search/Queue/Insert.antt =====
-- src/search.c: an insertion into the linked queue, and its removal.
use libdeepc.Base.{
  ◌≡◌, refl, sym, ◌∙◌, ◌≢◌, ◌⊎◌, inl, inr, true, false, some, arith, ℕ_discrete, ◌==◌,
  if◌then◌else◌, ==_refl, ok,
}
use libdeepc.Memory.{Addr, null}
use libdeepc.Search.Queue.{Link, Heap, put_link, set_next, set_prev, insque, remque, link}

put_self : (h : Heap) (a : Addr) (l : Link) → put_link h a l a ≡ some l
unfolding put_link
put_self h a l = let q = ==_refl a in rw q refl

put_ne : (h : Heap) (a b : Addr) (l : Link) → b ≢ a → put_link h a l b ≡ h b
unfolding put_link
put_ne h a b l ne = let q : (b == a) ≡ false = ground arith in rw q refl

module _ (h : Heap) (a : Addr) {l : Link} (e : h a ≡ some l) where
  set_next-ok : (n : Addr) → set_next h a n ≡ ok (put_link h a (record { next = n; prev = l.prev }))
  set_next-ok n = rw e refl

  set_prev-ok : (n : Addr) → set_prev h a n ≡ ok (put_link h a (record { next = l.next; prev = n }))
  set_prev-ok n = rw e refl

module _ (h : Heap) (e p n pp : Addr) where
  -- What stands behind `p`: nothing, or another element that leads back to it.
  abbrev pub IsSuccessor : Type 0
  IsSuccessor = (n ≡ null) ⊎ ((nn : Addr) × (h n ≡ some (link nn p)) × (n ≢ p) × (n ≢ null))

  -- The element stands between its predecessor and the element that was behind it, and to remove it
  -- gives the heap back, but for its own links.
  abbrev pub Inserted : Heap → Type 0
  Inserted k =
      (k p ≡ some (link e pp))
      × (k e ≡ some (link n p))
      × ((n ≢ null) → (nn : Addr) × (k n ≡ some (link nn e)))
      × ((r : Heap) × (remque k e ≡ ok r) × ((a : Addr) → a ≢ e → r a ≡ h a))

module _ (h : Heap) (e p n pp old : Addr) (x : Addr) (he : h e ≡ some (link x old))
    (hp : h p ≡ some (link n pp)) (apart : e ≢ p) (fresh : e ≢ n) (real : p ≢ null) where
  -- The heap after the links of `e` and `p` are set.
  abbrev linked : Heap
  linked = put_link (put_link (put_link h e (link n old)) p (link e pp)) e (link n p)

  linked-p : linked p ≡ some (link e pp)
  linked-p =
      put_ne (put_link (put_link h e (link n old)) p (link e pp)) e p (link n p)
        (λ q. apart (sym q))
      ∙ put_self (put_link h e (link n old)) p (link e pp)

  linked_other : (a : Addr) → a ≢ e → a ≢ p → linked a ≡ h a
  linked_other a ne np =
      put_ne (put_link (put_link h e (link n old)) p (link e pp)) e a (link n p) ne
      ∙ put_ne (put_link h e (link n old)) p a (link e pp) np
      ∙ put_ne h e a (link n old) ne

  insque-linked : insque h e p ≡ (if n == null then ok linked else set_prev linked n e)
  unfolding insque
  insque-linked =
      let there : (p == null) ≡ false = ground arith in
      let h1 = put_link h e (link n old) in
      let at_p = put_ne h e p (link n old) (λ q. apart (sym q)) ∙ hp in
      let h2 = put_link h1 p (link e pp) in
      let at_e = put_ne h1 p e (link e pp) apart ∙ put_self h e (link n old) in
      rw
        (
          there,
          hp,
          set_next-ok h e he n,
          set_next-ok h1 p at_p e,
          set_prev-ok h2 e at_e p,
          put_self h2 e (link n p),
        )
        refl

  -- A heap that is `h` but for `p` and `e` is `h` again when the link of `p` is set back.
  restored :
      (k : Heap)
      → ((a : Addr) → a ≢ e → a ≢ p → k a ≡ h a)
      → (a : Addr) → a ≢ e
      → put_link k p (link n pp) a ≡ h a
  restored k same a ne = elim (ℕ_discrete a p) [
    | yes q ↦ rw q (put_self k p (link n pp) ∙ sym hp)
    | no np ↦ put_ne k p a (link n pp) np ∙ same a ne np
  ]

  remque-last : n ≡ null → remque linked e ≡ ok (put_link linked p (link n pp))
  unfolding remque
  remque-last z =
      let last : (n == null) ≡ true = ground arith in
      let there : (p == null) ≡ false = ground arith in
      let h2 = put_link (put_link h e (link n old)) p (link e pp) in
      rw
        (
          put_self h2 e (link n p),
          last,
          put_self h2 e (link n p),
          there,
          set_next-ok linked p linked-p n,
        )
        refl

  module _ (nn : Addr) (hn : h n ≡ some (link nn p)) (other : n ≢ p) (more : n ≢ null) where
    abbrev led : Heap
    led = put_link linked n (link nn e)

    led-n : set_prev linked n e ≡ ok led
    led-n = set_prev-ok linked n (linked_other n (λ q. fresh (sym q)) other ∙ hn) e

    led-e : led e ≡ some (link n p)
    led-e =
        put_ne linked n e (link nn e) fresh
        ∙ put_self (put_link (put_link h e (link n old)) p (link e pp)) e (link n p)

    led-p : led p ≡ some (link e pp)
    led-p = put_ne linked n p (link nn e) (λ q. other (sym q)) ∙ linked-p

    abbrev unled : Heap
    unled = put_link led n (link nn p)

    remque-between : remque led e ≡ ok (put_link unled p (link n pp))
    unfolding remque
    remque-between =
        let middle : (n == null) ≡ false = ground arith in
        let there : (p == null) ≡ false = ground arith in
        let at_e = put_ne led n e (link nn p) fresh ∙ led-e in
        let at_p = put_ne led n p (link nn p) (λ q. other (sym q)) ∙ led-p in
        rw
          (
            led-e,
            middle,
            set_prev-ok led n (put_self linked n (link nn e)) p,
            at_e,
            there,
            set_next-ok unled p at_p n,
          )
          refl

    unled_other : (a : Addr) → a ≢ e → a ≢ p → unled a ≡ h a
    unled_other a ne np = elim (ℕ_discrete a n) [
      | yes q ↦ rw q (put_self led n (link nn p) ∙ sym hn)
      | no other_a ↦
          put_ne led n a (link nn p) other_a
          ∙ put_ne linked n a (link nn e) other_a
          ∙ linked_other a ne np
    ]

  -- insque of an element behind a predecessor, whose successor is NULL or an element other than both
  -- that leads back to it, makes no access to an address without a link. It puts the element between
  -- the two, in both directions, and remque of the element then gives the heap as it was, but for the
  -- links of the element itself.
  pub insque-Inserted :
      IsSuccessor h e p n pp → (k : Heap) × (insque h e p ≡ ok k) × Inserted h e p n pp k
  insque-Inserted (inl z) =
      let last : (n == null) ≡ true = ground arith in
      (
        linked,
        insque-linked ∙ (rw last refl),
        (
          linked-p,
          put_self (put_link (put_link h e (link n old)) p (link e pp)) e (link n p),
          λ q. absurd (q z),
          (put_link linked p (link n pp), remque-last z, restored linked linked_other),
        ),
      )
  insque-Inserted (inr (nn, hn, other, more)) =
      let middle : (n == null) ≡ false = ground arith in
      (
        led nn hn other more,
        insque-linked ∙ (rw middle (led-n nn hn other more)),
        (
          led-p nn hn other more,
          led-e nn hn other more,
          λ q. (nn, put_self linked n (link nn e)),
          (
            put_link (unled nn hn other more) p (link n pp),
            remque-between nn hn other more,
            restored (unled nn hn other more) (unled_other nn hn other more),
          ),
        ),
      )
