-- ===== src/Printf/Buffer/Truncates.antt =====
-- src/printf.c: what vsnprintf leaves in its buffer.
use Prim.Native.Nat.{min}
use libdeepc.Base.{
  ℕ, zero, suc, ◌+◌, ◌-◌, ◌≡◌, refl, sym, ap, ◌∙◌, ◌⊎◌, inl, inr, true, false, ◌||◌, List, [], ◌∷◌,
  ◌++◌, arith, dec_lt, ltb, ◌==◌, if◌then◌else◌, Bool-cases, length, take, length-append, ℤ, ok,
}
use libdeepc.Memory.{Mem, Addr, write, IsMapped}
use libdeepc.Memory.Block.{
  store-ok, write-IsMapped, IsMapped-suc, IsMapped-head, IsMapped-get, IsMapped-less,
}
use libdeepc.Memory.Bytes.{
  put_bytes, put_bytes-IsMapped, put_bytes-append, take-append, take_all, length-take,
}
use libdeepc.Printf.{VprintSpec, vprintf_output_int}
use libdeepc.Printf.Buffer.{Info, copy_in, write_str, str_writer, start_info, end_buffer}
use libdeepc.Printf.Integer.{Appends, vprintf_output_int-format}
use libdeepc.Printf.Field.{format_int}

-- How many bytes a write copies where `n` are left.
abbrev copied : ℕ → List ℕ → ℕ
copied n bs = if ltb (length bs) n then length bs else n

put_bytes-nil : (m : Mem) (p : Addr) → put_bytes m p [] ≡ m
unfolding put_bytes
put_bytes-nil m p = refl

copy_in-put_bytes :
    (bs : List ℕ) (m : Mem) (p : Addr)
    → IsMapped m p (length bs)
    → copy_in m p bs ≡ ok (put_bytes m p bs)
unfolding copy_in put_bytes
copy_in-put_bytes [] m p h = refl
copy_in-put_bytes (b ∷ bs) m p h =
    let (c, e) = IsMapped-head m p (length bs) h in
    rw (store-ok m p e b) (
      copy_in-put_bytes bs (write m p b) (p + 1)
        (write-IsMapped m p b (p + 1) (length bs) (IsMapped-suc m p (length bs) h)))

module _ (m : Mem) (buffer : Addr) (cap : ℕ) where
  -- The bytes `out` are written: the buffer has the first `cap` of them, and all are counted.
  pub record Buffered (i : Info) (out : List ℕ) : Type 0 where
    pub memory : i.mem ≡ put_bytes m buffer (take cap out)
    pub position : i.buffer ≡ buffer + min cap (length out)
    pub room : i.buf_size ≡ cap - length out
    pub count : i.written ≡ length out

  -- What a write keeps from the bytes: what is left of the buffer.
  kept-bytes :
      (i : Info) (out bs : List ℕ)
      → Buffered i out
      → put_bytes m buffer (take cap (out ++ bs)) ≡ put_bytes i.mem i.buffer (take i.buf_size bs)
  kept-bytes i out bs h =
      let e : buffer + min cap (length out) ≡ buffer + length (take cap out) =
        omega (arith, length-take cap out) in
      rw (h.memory, h.position, h.room, take-append cap out bs, e)
        (put_bytes-append (take cap out) (take (cap - length out) bs) m buffer)

  room-IsMapped :
      (i : Info) (out : List ℕ)
      → IsMapped m buffer cap
      → Buffered i out
      → IsMapped i.mem i.buffer i.buf_size
  room-IsMapped i out mapped h j lt =
      let e : i.buffer + j ≡ buffer + (min cap (length out) + j) = omega (arith, h.position) in
      let k = put_bytes-IsMapped (take cap out) m buffer buffer cap mapped in
      rw (h.memory, e) (k (min cap (length out) + j) (omega (arith, h.room, lt)))

  take_nothing : (n : ℕ) (bs : List ℕ) → (n == 0 || length bs == 0) ≡ true → take n bs ≡ []
  take_nothing zero bs h = refl
  take_nothing (suc n) [] h = refl
  take_nothing (suc n) (b ∷ bs) h = absurd (ground (arith, h))

  take-copied : (n : ℕ) (bs : List ℕ) → take (copied n bs) bs ≡ take n bs
  take-copied n bs = elim (dec_lt (length bs) n) [
    | yes h ↦
        let e : ltb (length bs) n ≡ true = ground arith in
        rw e (take_all (length bs) bs (omega arith) ∙ sym (take_all n bs (omega arith)))
    | no h ↦ let e : ltb (length bs) n ≡ false = ground arith in rw e refl
  ]

  write_nothing :
      (i : Info) (bs : List ℕ)
      → (i.buf_size == 0 || length bs == 0) ≡ true
      → write_str i bs ≡ ok (record i { written = i.written + length bs })
  unfolding write_str
  write_nothing i bs e = rw e refl

  write_some :
      (i : Info) (bs : List ℕ) (m' : Mem)
      → (i.buf_size == 0 || length bs == 0) ≡ false
      → copy_in i.mem i.buffer (take (copied i.buf_size bs) bs) ≡ ok m'
      → write_str i bs
        ≡ ok (record i {
          mem = m';
          buffer = i.buffer + copied i.buf_size bs;
          buf_size = i.buf_size - copied i.buf_size bs;
          written = i.written + length bs;
        })
  unfolding write_str
  write_some i bs m' e c = rw (e, c) refl

  pub write_str-Buffered :
      (i : Info) (out bs : List ℕ)
      → IsMapped m buffer cap
      → i.is_ok ≡ true
      → Buffered i out
      → (i' : Info) × (write_str i bs ≡ ok i') × (i'.is_ok ≡ true) × Buffered i' (out ++ bs)
  write_str-Buffered i out bs mapped g h =
      let kept = kept-bytes i out bs h in
      let total = length-append out bs in
      elim (Bool-cases (i.buf_size == 0 || length bs == 0)) [
        | inl e ↦
            let same = kept ∙ ap (λ t. put_bytes i.mem i.buffer t) (take_nothing i.buf_size bs e) in
            let none_left : (cap - length out ≡ 0) ⊎ (length bs ≡ 0) = ground (arith, h.room, e) in
            (
              record i { written = i.written + length bs },
              write_nothing i bs e,
              g,
              record {
                memory = sym (same ∙ put_bytes-nil i.mem i.buffer);
                position = ground (arith, h.position, total, none_left);
                room = ground (arith, h.room, total, none_left);
                count = omega (arith, h.count, total);
              },
            )
        | inr e ↦
            let size : copied i.buf_size bs ≡ min (length bs) i.buf_size = ground arith in
            let fits = length-take i.buf_size bs in
            let inside : IsMapped i.mem i.buffer (length (take i.buf_size bs)) =
              λ j lt. room-IsMapped i out mapped h j (omega (arith, fits, lt)) in
            let run = copy_in-put_bytes (take i.buf_size bs) i.mem i.buffer inside in
            (
              record i {
                mem = put_bytes i.mem i.buffer (take i.buf_size bs);
                buffer = i.buffer + copied i.buf_size bs;
                buf_size = i.buf_size - copied i.buf_size bs;
                written = i.written + length bs;
              },
              write_some i bs (put_bytes i.mem i.buffer (take i.buf_size bs)) e
                  (ap (λ t. copy_in i.mem i.buffer t) (take-copied i.buf_size bs) ∙ run),
              g,
              record {
                memory = sym kept;
                position = omega (arith, size, h.position, h.room, total);
                room = omega (arith, size, h.room, total);
                count = omega (arith, h.count, total);
              },
            )
      ]

pub start-Buffered :
    (m : Mem) (buffer : Addr) (n : ℕ) → Buffered m buffer n (start_info m buffer (suc n)) []
start-Buffered m buffer n =
    let nothing : take {A = ℕ} n [] ≡ [] = take_nothing m buffer n n [] (ground arith) in
    record {
      memory = sym (ap (λ t. put_bytes m buffer t) nothing ∙ put_bytes-nil m buffer);
      position = omega arith;
      room = ground arith;
      count = refl;
    }

pub end-stored :
    (m : Mem) (buffer : Addr) (n : ℕ) (i : Info) (out : List ℕ)
    → IsMapped m buffer (suc n)
    → Buffered m buffer n i out
    → end_buffer i buffer (suc n) ≡ ok (put_bytes m buffer (take n out ++ 0 ∷ []))
unfolding end_buffer put_bytes
end-stored m buffer n i out mapped h =
    let after = put_bytes m buffer (take n out) in
    let size = length-take n out in
    let e : buffer + (suc n - i.buf_size - 1) ≡ buffer + length (take n out) =
      omega (arith, size, h.room) in
    let big : ltb 0 (suc n) ≡ true = ground arith in
    let all = put_bytes-IsMapped (take n out) m buffer buffer (suc n) mapped in
    let (c, there) =
      IsMapped-get after buffer (suc n) (length (take n out)) all (omega (arith, size)) in
    rw (big, e, h.memory, store-ok after (buffer + length (take n out)) there 0)
      (ap ok (sym (put_bytes-append (take n out) (0 ∷ []) m buffer)))

-- vsnprintf of one integer conversion into a buffer of n + 1 mapped bytes makes no access outside it
-- and ends without an error. The buffer gets the first n bytes of the field of the integer and a NUL
-- behind them, the rest of the memory is as before, and the count is the length of the whole field.
pub vsnprintf_int-truncates :
    (m : Mem) (buffer : Addr) (n : ℕ) (s : VprintSpec) (val : ℤ)
    → IsMapped m buffer (suc n)
    → (i : Info) × (vprintf_output_int str_writer (start_info m buffer (suc n)) s val ≡ ok i)
      × (i.is_ok ≡ true)
      × (i.written ≡ length (format_int s val))
      × (end_buffer i buffer (suc n)
          ≡ ok (put_bytes m buffer (take n (format_int s val) ++ 0 ∷ [])))
unfolding end_buffer
vsnprintf_int-truncates m buffer n s val mapped =
    let less = IsMapped-less m buffer n mapped in
    let law : Appends str_writer (Buffered m buffer n) = record {
      write = λ i out bs g o. write_str-Buffered m buffer n i out bs less g o;
    } in
    let (i, run, g, h) =
      vprintf_output_int-format str_writer (Buffered m buffer n) law (start_info m buffer (suc n))
        [] s val refl (start-Buffered m buffer n) in
    (i, run, g, h.count, end-stored m buffer n i (format_int s val) mapped h)
