-- ===== src/Search/Queue.antt =====
-- src/search.c: insque and remque on a heap of links. NULL is 0, and an access to an address where no
-- link stands is a fault.
pub mod Insert
use libdeepc.Base.{
  ℕ, zero, suc, ◌+◌, ◌-◌, ◌*◌, ◌/◌, ◌%◌, ◌^◌, ◌≤◌, ◌<◌, ◌≡◌, refl, sym, ap, ◌∙◌, fun_ext, subst,
  ◌≢◌, ◌↔◌, ◌⊎◌, inl, inr, Bool, true, false, not, ◌&&◌, ◌||◌, Option, none, some, List, [], ◌∷◌,
  ◌++◌, map, arith, dec_lt, dec_le, ℕ_discrete, ltb, leb, ◌==◌, if◌then◌else◌, ltb→lt, lt→ltb,
  ==_iff, ==_refl, Bool-cases, Option-cases, length, get_elem?, set, replicate, take, drop, All,
  length-append, length-set, length-replicate, get_elem?-set_self, get_elem?-set_ne, get_elem?-lt,
  ℤ, pos, negsuc, pos_part, neg_part, sub_ℕ, minus, ◌+ℤ◌, ◌-ℤ◌, ◌*ℤ◌, ◌≤ℤ◌, leb_ℤ, ltb_ℤ, eqb_ℤ,
  Res, ok, fault, out_of_fuel, ◌>>=◌, on_option, lt_wf,
}
use libdeepc.Memory.{Addr, null}

-- queue
pub record Link : Type 0 where
  pub next : Addr
  pub prev : Addr

abbrev pub Heap : Type 0
Heap = Addr → Option Link

unfoldable pub put_link : Heap → Addr → Link → Heap
put_link h a l x = if x == a then some l else h x

abbrev pub link_at : Heap → Addr → Res Link
link_at h a = on_option (h a) fault ok

-- `a->next = n` and `a->prev = n`.
abbrev pub set_next : Heap → Addr → Addr → Res Heap
set_next h a n = on_option (h a) fault (λ l. ok (put_link h a (record { next = n; prev = l.prev })))

abbrev pub set_prev : Heap → Addr → Addr → Res Heap
set_prev h a n = on_option (h a) fault (λ l. ok (put_link h a (record { next = l.next; prev = n })))

unfoldable pub insque : Heap → (element pred : Addr) → Res Heap
insque h e p =
    let alone = (do h1 ← set_next h e null; set_prev h1 e null) in
    let behind = (do
      lp ← link_at h p
      h1 ← set_next h e lp.next
      h2 ← set_next h1 p e
      h3 ← set_prev h2 e p
      le ← link_at h3 e
      if le.next == null then ok h3 else set_prev h3 le.next e) in
    if p == null then alone else behind

unfoldable pub remque : Heap → (element : Addr) → Res Heap
remque h e = do
  l ← link_at h e
  h1 ← if l.next == null then ok h else set_prev h l.next l.prev
  l' ← link_at h1 e
  if l'.prev == null then ok h1 else set_next h1 l'.prev l'.next

abbrev pub link : Addr → Addr → Link
link n p = record { next = n; prev = p }
