-- ===== src/Hdat/Api.antt =====
-- The writer's C interface (the extern "C" functions of hdat/chunk_writer.cpp), for clients that fill
-- chunks field by field.
use sas_libclient.Base.{
  ℕ, ◌+◌, ◌-◌, ◌*◌, ◌%◌, ◌^◌, Bool, true, false, List, Option, none, some, ltb, leb, if◌then◌else◌,
  add_u64, u32, u64, Outcome, ok, ◌>>=◌, ℤ, to_u64, to_u32,
}
use sas_libclient.Hdat.Schema.{default_alignment_size, sizeof_aligned8}
use sas_libclient.Hdat.Writer.{
  Writer, has_enough_space, write_int64_numeric, write_int32_numeric, write_word8, write_fixed,
  write_variable, write_row_end,
}
pub mod Laws

-- The operation, if `space` bytes are free; the answer false leaves the writer alone.
abbrev pub if_space : ℕ → (Writer → Outcome Writer) → Writer → Outcome (Bool × Writer)
if_space space op w = has_enough_space space w >>= λ enough.
    if enough then (op w >>= λ w'. ok (true, w')) else ok (false, w)

unfoldable pub api_write_int64 : ℤ → Writer → Outcome (Bool × Writer)
api_write_int64 val w = if_space default_alignment_size (write_int64_numeric val) w

-- `int32_t val4 = (int32_t)val` keeps the low 32 bits.
unfoldable pub api_write_int32 : ℤ → Writer → Outcome (Bool × Writer)
api_write_int32 val w = if_space default_alignment_size (write_int32_numeric val) w

-- A double by its bits.
unfoldable pub api_write_double : ℕ → Writer → Outcome (Bool × Writer)
api_write_double bits w = if_space default_alignment_size (write_word8 bits) w

-- The sizes are of type int64_t, here by their bits.
unfoldable pub api_write_fixed : Option (List ℕ) → ℕ → ℕ → Bool → Writer → Outcome (Bool × Writer)
api_write_fixed val data_size field_size pad_with_zero w =
    if_space (sizeof_aligned8 field_size) (write_fixed val data_size field_size pad_with_zero) w

-- `int space_needed = len + 2 * defaultAlignmentSize` keeps 32 bits, and the call extends the sign.
unfoldable pub space_needed : ℕ → ℕ
space_needed len =
    let low = u32 (len + 2 * default_alignment_size) in
    if ltb low (2 ^ 31) then low else low + (2 ^ 64 - 2 ^ 32)

unfoldable pub api_write_variable : Option (List ℕ) → ℕ → Writer → Outcome (Bool × Writer)
api_write_variable val len w = if_space (space_needed len) (write_variable val len) w

unfoldable pub api_write_row_end : Writer → Outcome Writer
api_write_row_end w = write_row_end w
