-- ===== src/File/Open.antt =====
-- src/file.c: the bits of the flags that fopen passes to open.
use Prim.Native.Nat.{bit_and}
use libdeepc.Base.{◌≡◌, ◌||◌, arith, if◌then◌else◌}
use libdeepc.File.{
  ParseMode, is_read, is_append, mode_to_flags, o_rdonly, o_wronly, o_rdwr, o_creat, o_excl,
  o_trunc, o_append, o_cloexec,
}

-- The flags have exactly the bits that the mode asks for: the access bits are those of read-write for
-- a plus, else of reading or writing; a mode that is not for reading creates the file, and appends or
-- truncates; x and e set their own bits.
pub mode_to_flags-bits :
    (info : ParseMode)
    → (bit_and (mode_to_flags info) 0o3
        ≡ (if info.plus_flag then o_rdwr else if is_read info.access then o_rdonly else o_wronly))
      × (bit_and (mode_to_flags info) o_creat ≡ (if is_read info.access then 0 else o_creat))
      × (bit_and (mode_to_flags info) o_append ≡ (if is_append info.access then o_append else 0))
      × (bit_and (mode_to_flags info) o_trunc
          ≡ (if is_read info.access || is_append info.access then 0 else o_trunc))
      × (bit_and (mode_to_flags info) o_excl ≡ (if info.flag_x then o_excl else 0))
      × (bit_and (mode_to_flags info) o_cloexec ≡ (if info.flag_e then o_cloexec else 0))
unfolding mode_to_flags
mode_to_flags-bits info = ground arith
