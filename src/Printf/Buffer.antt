-- ===== src/Printf/Buffer.antt =====
-- src/printf.c: write_str, the writer of vsnprintf, which keeps what fits into the buffer and counts
-- the rest, and the NUL that vsnprintf writes at the end.
pub mod Truncates
use Prim.Native.Nat.{min}
use libdeepc.Base.{
  ℕ, zero, suc, ◌+◌, ◌-◌, ◌*◌, ◌/◌, ◌%◌, ◌^◌, ◌≤◌, ◌<◌, ◌≡◌, refl, sym, ap, ◌∙◌, fun_ext, subst,
  ◌≢◌, ◌↔◌, ◌⊎◌, inl, inr, Bool, true, false, not, ◌&&◌, ◌||◌, Option, none, some, List, [], ◌∷◌,
  ◌++◌, map, arith, dec_lt, dec_le, ℕ_discrete, ltb, leb, ◌==◌, if◌then◌else◌, ltb→lt, lt→ltb,
  ==_iff, ==_refl, Bool-cases, Option-cases, length, get_elem?, set, replicate, take, drop, All,
  length-append, length-set, length-replicate, get_elem?-set_self, get_elem?-set_ne, get_elem?-lt,
  ℤ, pos, negsuc, pos_part, neg_part, sub_ℕ, minus, ◌+ℤ◌, ◌-ℤ◌, ◌*ℤ◌, ◌≤ℤ◌, leb_ℤ, ltb_ℤ, eqb_ℤ,
  Res, ok, fault, out_of_fuel, ◌>>=◌, on_option, lt_wf,
}
use libdeepc.Memory.{Mem, Addr, write, store, IsMapped}
use libdeepc.Printf.{VprintSpec, Writer, vprintf_output_int}

-- The fields of vprintf_info that write_str uses, whether `rc` is OK, and the memory.
pub record Info : Type 0 where
  pub mem : Mem
  pub buffer : Addr
  pub buf_size : ℕ
  pub written : ℕ
  pub is_ok : Bool

-- memcpy from an array of the caller's frame.
unfoldable pub copy_in : Mem → Addr → List ℕ → Res Mem
copy_in m p [] = ok m
copy_in m p (b ∷ bs) = do m' ← store m p b; copy_in m' (p + 1) bs

unfoldable pub write_str : Info → List ℕ → Res Info
write_str info buf =
    let size = length buf in
    let counted = record info { written = info.written + size } in
    let copy = if ltb size info.buf_size then size else info.buf_size in
    let copied = (do
      m' ← copy_in info.mem info.buffer (take copy buf)
      ok (record counted {
        mem = m';
        buffer = info.buffer + copy;
        buf_size = info.buf_size - copy;
      })) in
    if info.buf_size == 0 || size == 0 then ok counted else copied

abbrev pub str_writer : Writer
str_writer = record { State = Info; is_ok = λ i. i.is_ok; write_fn = write_str }

-- What vsnprintf starts with.
abbrev pub start_info : Mem → Addr → ℕ → Info
start_info m buffer buf_size = record {
  mem = m;
  buffer = buffer;
  buf_size = if buf_size == 0 then 0 else buf_size - 1;
  written = 0;
  is_ok = true;
}

-- The NUL at the end of vsnprintf.
unfoldable pub end_buffer : Info → Addr → ℕ → Res Mem
end_buffer info buffer buf_size =
    let stored = store info.mem (buffer + (buf_size - info.buf_size - 1)) 0 in
    if ltb 0 buf_size then stored else ok info.mem
