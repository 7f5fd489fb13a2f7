-- ===== src/Hdat/Tests.antt =====
-- Runs of the writer and the reader, and the theorems on fields and rows at concrete inputs.
use sas_libclient.Base.{
  leb, if◌then◌else◌, ◌+◌, ◌-◌, ◌/◌, ◌*◌, ◌^◌, ◌≡◌, refl, [], ◌∷◌, some, true, false, ok, throws,
  s2_throw, text, invalid_argument, arith, add_u64, of_bytes, pos, to_u64, to_int,
}
use sas_libclient.Hdat.Schema.{sizeof_aligned8, sizeof_aligned8_lem, row_size}
use sas_libclient.Hdat.SuperChunk.{new_chunk, super_chunk}
use sas_libclient.Hdat.Calendar.{to_date_time_cas}
use sas_libclient.Hdat.Reader.{is_null_buffer}
use sas_libclient.Hdat.Writer.{Writer, reset, write_cell, write_row, too_small}
use sas_libclient.Hdat.Appended.{IsValid}
use sas_libclient.Hdat.RoundTrip.Fields.{Gives}
use sas_libclient.Hdat.RoundTrip.Rows.{read_fields}
use sas_libclient.Hdat.RoundTrip.WriteRow.{row_size_lem, free, write_row-full}
use sas_libclient.Hdat.RoundTrip.ReadBack.{reader_at, write_cell-read, write_row-read}
use sas_libclient.Hdat.Api.{api_write_variable, space_needed}
use sas_libclient.Hdat.Api.Laws.{api_write_variable_lem}
use sas_libclient.Hdat.Samples.{
  midnight, no_time, name_column, two_columns, seven, ab, zeros, empty_reader, writer_of,
  writer_of-IsValid, sample_row-RowSane,
}
use sas_libclient.Tsv.Field.{number, string, read_field}

writer_of-reset : reset (new_chunk zeros 40 0 0) two_columns ≡ writer_of 40 two_columns
unfolding reset new_chunk super_chunk
writer_of-reset = refl

-- 1969-12-31 23:59:59, a valid date: its time is the error value of timegm.
last_second_of_1969 :
    to_date_time_cas (record {
      year = 1969;
      month = 12;
      day = 31;
      hour = 23;
      minute = 59;
      second = 59;
      second_part = 0;
      neg = false;
    })
    ≡ s2_throw 1 (text "Invalid Date read from DB")
unfolding to_date_time_cas
last_second_of_1969 = refl

one_day_later : to_date_time_cas midnight ≡ ok (pos 86400000000)
unfolding to_date_time_cas
one_day_later = refl

aligned_nine : sizeof_aligned8 9 ≡ 16
unfolding sizeof_aligned8
aligned_nine = refl

-- NULL in a CHAR column of 2^32 bytes is written with no bytes at all.
no_bytes_for_null : sizeof_aligned8 (to_u64 (to_int (2 ^ 32))) ≡ 0
unfolding sizeof_aligned8
no_bytes_for_null = refl

-- A buffer with a size of 0 is told by the first byte that differs from its first one.
size_of_zero : is_null_buffer (0 ∷ 7 ∷ []) (pos 0) ≡ ok false
unfolding is_null_buffer
size_of_zero = refl

row_size_lem_example : row_size two_columns (seven ∷ ab ∷ []) ≡ ok 26
row_size_lem_example =
    row_size_lem no_time two_columns (seven ∷ ab ∷ []) sample_row-RowSane (omega arith)

write_cell-read_example :
    (w' : Writer) × (write_cell no_time name_column ab (writer_of 40 two_columns) ≡ ok w')
    × Gives 16
        (string (b'a' ∷ b'b' ∷ []))
        (reader_at w' 0 empty_reader)
        (read_field true name_column (reader_at w' 0 empty_reader))
write_cell-read_example =
    write_cell-read no_time true (writer_of 40 two_columns)
      (writer_of-IsValid 40 two_columns (omega arith)) name_column ab
      (record { fits = omega arith; size_small = omega arith; length_small = omega arith })
      (λ e. omega arith) (omega arith) (string (b'a' ∷ b'b' ∷ [])) empty_reader refl

write_row-read_example :
    (w' : Writer) × (write_row no_time (seven ∷ ab ∷ []) (writer_of 40 two_columns) ≡ ok (true, w'))
    × IsValid w'
    × (w'.current.row_count ≡ add_u64 0 1)
    × Gives 24
        (number 7 ∷ string (b'a' ∷ b'b' ∷ []) ∷ [])
        (reader_at w' 0 empty_reader)
        (read_fields true two_columns (reader_at w' 0 empty_reader))
write_row-read_example =
    write_row-read no_time true (writer_of 40 two_columns)
      (writer_of-IsValid 40 two_columns (omega arith)) (seven ∷ ab ∷ []) sample_row-RowSane
      (tt, (λ e. omega arith, tt)) (omega arith) (number 7 ∷ string (b'a' ∷ b'b' ∷ []) ∷ [])
      empty_reader (unfold of_bytes in refl)

write_row-full_example :
    write_row no_time (seven ∷ ab ∷ []) (writer_of 25 two_columns)
    ≡ throws (invalid_argument (too_small 25 26))
write_row-full_example =
    write_row-full no_time (writer_of 25 two_columns)
      (writer_of-IsValid 25 two_columns (omega arith)) (seven ∷ ab ∷ []) sample_row-RowSane
      (omega arith) (omega arith)

sizeof_aligned8_lem_example : sizeof_aligned8 9 ≡ (9 + 7) / 8 * 8
sizeof_aligned8_lem_example = sizeof_aligned8_lem 9 (omega arith)

-- Of 40 bytes 18 are taken.
api_write_variable_lem_example :
    (w' : Writer) × (api_write_variable (some (b'a' ∷ b'b' ∷ [])) 2 (writer_of 40 two_columns)
      ≡ (if leb (2 + 16) (free (writer_of 40 two_columns)) then ok (true, w') else ok (false, w')))
    × (w'.current.offset + w'.current.variable_offset
        ≡ (if leb (2 + 16) (free (writer_of 40 two_columns)) then 0 + 16 + (0 + 2) else 0 + 0))
api_write_variable_lem_example =
    api_write_variable_lem (writer_of 40 two_columns)
      (writer_of-IsValid 40 two_columns (omega arith)) (b'a' ∷ b'b' ∷ []) 2 (omega arith)
      (omega arith)

-- The length 2^32 - 16 asks for no space at all.
no_space_needed : space_needed (2 ^ 32 - 16) ≡ 0
unfolding space_needed
no_space_needed = refl
