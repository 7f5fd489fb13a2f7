-- ===== src/Hdat/Writer.antt =====
-- SuperChunkWriter (hdat/chunk_writer.hpp, hdat/chunk_writer.cpp).
use sas_libclient.Base.{
  ℕ, ◌+◌, Bool, true, false, List, [], ◌∷◌, ◌++◌, Option, none, some, leb, ◌==◌, if◌then◌else◌,
  add_u64, sub_u64, u32, to_u64, to_u32, to_int, ℤ, Outcome, ok, throws, fault, ◌>>=◌, text, Text,
  s2_throw, error_uns_data_type, invalid_argument, to_text,
}
use sas_libclient.Hdat.Schema.{
  int64, int32, double, variable, fixed, time, date, date_time, unsupported, Column, RowSchema,
  Cell, int64_null, int32_null, double_null, sizeof_aligned8, row_size,
}
use sas_libclient.Hdat.SuperChunk.{
  Chunk, SuperChunk, super_chunk, incr_variable_offset, incr_row_count, write_at, write, pad,
  write_typed,
}
use sas_libclient.Hdat.Calendar.{MysqlTime, to_time_cas, to_date_cas, to_date_time_cas}

pub record Writer : Type 0 where
  pub chunk_size : ℕ
  pub row_fixed_size : ℕ
  pub column_count : ℕ
  pub current : SuperChunk
  pub row_offset : ℕ
  pub row_column_count : ℕ
  pub schema : RowSchema

-- Reset, which the constructor calls.
unfoldable pub reset : Chunk → RowSchema → Writer
reset chunk schema = record {
  chunk_size = chunk.size;
  row_fixed_size = 0;
  column_count = 0;
  current = super_chunk chunk;
  row_offset = 0;
  row_column_count = 0;
  schema = schema;
}

-- RecordColumn; the counters are of type uint32_t.
unfoldable pub record_column : Writer → Writer
record_column w = record w {
  column_count = if w.row_fixed_size == 0 then u32 (w.column_count + 1) else w.column_count;
  row_column_count = u32 (w.row_column_count + 1);
}

-- The writer goes on with the chunk that an operation on it returns.
abbrev pub on_chunk : Writer → Outcome SuperChunk → Outcome Writer
on_chunk w r = r >>= λ s. ok (record w { current = s })

-- `fault` is the assert.
unfoldable pub has_enough_space : ℕ → Writer → Outcome Bool
has_enough_space requested w =
    let o = w.current.offset in
    let v = w.current.variable_offset in
    if leb (add_u64 o v) w.chunk_size
    then ok (leb requested (sub_u64 (sub_u64 w.chunk_size v) o))
    else fault

unfoldable pub write_fixed : Option (List ℕ) → ℕ → ℕ → Bool → Writer → Outcome Writer
write_fixed val data_size field_size pad_with_zero w =
    let w' = record_column w in
    on_chunk w' (
      write val data_size w'.current
      >>= pad (sub_u64 (sizeof_aligned8 field_size) data_size) true
          (if pad_with_zero then 0 else b' '))

unfoldable pub write_int64 : Option (List ℕ) → Writer → Outcome Writer
write_int64 val w = let w' = record_column w in on_chunk w' (write val 8 w'.current)

unfoldable pub write_int32 : Option (List ℕ) → Writer → Outcome Writer
write_int32 val w =
    let w' = record_column w in on_chunk w' (write val 4 w'.current >>= pad 4 false b' ')

unfoldable pub write_double : Option (List ℕ) → ℕ → Writer → Outcome Writer
write_double val len w = let w' = record_column w in on_chunk w' (write val 8 w'.current)

unfoldable pub write_variable : Option (List ℕ) → ℕ → Writer → Outcome Writer
write_variable val len w =
    let w' = record_column w in
    let s = incr_variable_offset len w'.current in
    on_chunk w' (
      write_typed 8 s.variable_offset s >>= write_typed 8 len >>= λ t.
      write_at (sub_u64 w.chunk_size t.variable_offset) val len t)

-- WriteInt64Numeric and WriteFloatNumeric write 8 bytes, WriteInt32Numeric 4 and a gap of 4.
unfoldable pub write_word8 : ℕ → Writer → Outcome Writer
write_word8 val w = let w' = record_column w in on_chunk w' (write_typed 8 val w'.current)

unfoldable pub write_word4 : ℕ → Writer → Outcome Writer
write_word4 val w =
    let w' = record_column w in on_chunk w' (write_typed 4 val w'.current >>= pad 4 false b' ')

unfoldable pub write_int64_numeric : ℤ → Writer → Outcome Writer
unfolding write_word8
write_int64_numeric val w = write_word8 (to_u64 val) w

unfoldable pub write_int32_numeric : ℤ → Writer → Outcome Writer
unfolding write_word4
write_int32_numeric val w = write_word4 (to_u32 val) w

unfoldable pub write_int64_null : Writer → Outcome Writer
unfolding write_word8
write_int64_null w = write_word8 int64_null w

unfoldable pub write_int32_null : Writer → Outcome Writer
unfolding write_word4
write_int32_null w = write_word4 int32_null w

unfoldable pub write_double_null : Writer → Outcome Writer
unfolding write_word8
write_double_null w = write_word8 double_null w

-- The size goes through an `int` parameter.
unfoldable pub write_fixed_null : ℕ → Writer → Outcome Writer
write_fixed_null len w =
    let w' = record_column w in
    on_chunk w' (pad (sizeof_aligned8 (to_u64 (to_int len))) true 0 w'.current)

unfoldable pub write_variable_null : Writer → Outcome Writer
unfolding write_variable
write_variable_null w = write_variable none 0 w

-- `fault` is the assert on the first row.
unfoldable pub write_row_end : Writer → Outcome Writer
write_row_end w =
    if w.row_fixed_size == 0
    then (if w.row_offset == 0 then ok (finish w.current.offset) else fault)
    else ok (finish w.row_fixed_size)
  where
    finish : ℕ → Writer
    finish size = record w {
      row_fixed_size = size;
      current = incr_row_count w.current;
      row_offset = w.current.offset;
      row_column_count = 0;
    }

-- The message of the exception for a row that no chunk of this size can hold.
pub too_small : ℕ → ℕ → Text
too_small size required =
    text "chunk size "
    ++ (to_text size ++ (text " is too small. Required at least " ++ to_text required))

-- The client library's MYSQL_TIME behind a field's bytes.
module _ (time_of : List ℕ → MysqlTime) where
  -- The switch of WriteRow for a field that is not NULL.
  unfoldable pub write_value : Column → List ℕ → ℕ → Writer → Outcome Writer
  write_value c v len w = elim c.type [
    | int64 ↦ write_int64 (some v) w
    | int32 ↦ write_int32 (some v) w
    | date_time ↦ to_date_time_cas (time_of v) >>= λ t. write_int64_numeric t w
    | date ↦ to_date_cas (time_of v) >>= λ t. write_int32_numeric t w
    | time ↦ write_int64_numeric (to_time_cas (time_of v)) w
    | double ↦ write_double (some v) len w
    | fixed ↦ write_fixed (some v) len c.size false w
    | variable ↦ write_variable (some v) len w
    | unsupported ↦
        s2_throw error_uns_data_type
          (text "Trying to write unsupported data type to the chunk. Aborted.")
  ]

  -- The switch for NULL.
  unfoldable pub write_null : Column → Writer → Outcome Writer
  write_null c w = elim c.type [
    | int64 ↦ write_int64_null w
    | int32 ↦ write_int32_null w
    | date_time ↦ write_int64_null w
    | date ↦ write_int32_null w
    | time ↦ write_int64_null w
    | double ↦ write_double_null w
    | fixed ↦ write_fixed_null c.size w
    | variable ↦ write_variable_null w
    | unsupported ↦
        s2_throw error_uns_data_type
          (text "Trying to write unsupported data type to the chunk. Aborted.")
  ]

  unfoldable pub write_cell : Column → Cell → Writer → Outcome Writer
  write_cell c x w = elim x.value [ some v ↦ write_value c v x.length w | none ↦ write_null c w ]

  -- The loop over the columns; `fault` is a read past the row.
  unfoldable pub write_cells : RowSchema → List Cell → Writer → Outcome Writer
  write_cells [] row w = ok w
  write_cells (c ∷ cs) [] w = fault
  write_cells (c ∷ cs) (x ∷ xs) w = write_cell c x w >>= write_cells cs xs

  -- WriteRow; an exception leaves behind a writer that every caller resets or drops.
  unfoldable pub write_row : List Cell → Writer → Outcome (Bool × Writer)
  unfolding too_small
  write_row row w = row_size w.schema row >>= λ total. has_enough_space total w >>= λ enough.
      if enough
      then (write_cells w.schema row w >>= write_row_end >>= λ w'. ok (true, w'))
      else if w.current.row_count == 0
      then throws (invalid_argument (too_small w.chunk_size total))
      else ok (false, w)
