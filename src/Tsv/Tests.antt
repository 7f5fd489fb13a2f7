-- ===== src/Tsv/Tests.antt =====
-- The text of a chunk, and quoting, at concrete values.
use sas_libclient.Base.{
  ◌≡◌, refl, true, false, [], ◌∷◌, ◌++◌, map, take, some, ok, negsuc, text, to_text, ◌-ℤ◌, ℤ, pos,
  arith,
}
use sas_libclient.Hdat.SuperChunk.{new_chunk}
use sas_libclient.Hdat.Reader.{Reader, reset}
use sas_libclient.Hdat.Samples.{two_columns, zeros, seven, ab, empty_reader}
use sas_libclient.Connection.Chunks.{fitting}
use sas_libclient.Connection.Fill.{cells}
use sas_libclient.Connection.Tests.{short_name, two_rows, hundred_bytes-Delivered}
use sas_libclient.Tsv.Table.{show_field, show_number, chunk_to_tsv}
use sas_libclient.Tsv.Render.{render_rows, chunk_to_tsv-Holds}
use sas_libclient.Tsv.Quoted.{quoted, quoted_rest, unquoted-quoted, unquoted, show_int, signed}
use sas_libclient.Hdat.Calendar.{MysqlTime, to_date_time_cas, zero_time_cas, is_error_time}
use sas_libclient.Tsv.RoundTrip.{split_cas-to_date_time_cas}
use sas_libclient.Tsv.Times.{Formats, from_time_cas, split_cas, quot, rem, six_digits}

minus_one_hour : from_time_cas (negsuc 3600999999) ≡ text "-1:0:1.000000"
unfolding from_time_cas show_int signed quot rem six_digits text to_text
minus_one_hour = refl

-- The last microsecond of 1959.
before_1960 : split_cas (negsuc 0) ≡ (negsuc 315619200, 999999)
unfolding split_cas quot rem ◌-ℤ◌
before_1960 = refl

unquoted-quoted_example :
    unquoted (quoted (b'a' ∷ b'"' ∷ 0x5c ∷ []) ++ b'\t' ∷ [])
    ≡ some (b'a' ∷ b'"' ∷ 0x5c ∷ [], b'\t' ∷ [])
unquoted-quoted_example = unquoted-quoted (b'a' ∷ b'"' ∷ 0x5c ∷ []) (b'\t' ∷ [])

abbrev no_formats : Formats
no_formats = record { date = λ t. []; date_time = λ t. []; double = λ bits. [] }

chunk_to_tsv-Holds_example :
    (r' : Reader) × (chunk_to_tsv no_formats true hundred_bytes-Delivered.out.row_count
        (reset hundred_bytes-Delivered.out two_columns empty_reader)
      ≡ ok (
        true,
        r',
        render_rows no_formats true two_columns (
            take
              (fitting two_columns
                (new_chunk zeros 100 0 0).size
                ((seven ∷ ab ∷ []) ∷ map cells (short_name ∷ [])))
              two_rows),
      ))
chunk_to_tsv-Holds_example =
    chunk_to_tsv-Holds no_formats true two_columns
      (fitting two_columns (new_chunk zeros 100 0 0).size
        ((seven ∷ ab ∷ []) ∷ map cells (short_name ∷ [])))
      (take
        (fitting two_columns (new_chunk zeros 100 0 0).size
          ((seven ∷ ab ∷ []) ∷ map cells (short_name ∷ [])))
        two_rows)
      hundred_bytes-Delivered.out empty_reader hundred_bytes-Delivered.holds

two_lines : render_rows no_formats true two_columns two_rows ≡ text "7\t\"ab\"\n7\t\"c\""
unfolding show_field show_number show_int signed quoted quoted_rest text to_text
two_lines = refl

-- 2020-02-29 12:34:56.000789
abbrev leap_day : MysqlTime
leap_day = record {
  year = 2020;
  month = 2;
  day = 29;
  hour = 12;
  minute = 34;
  second = 56;
  second_part = 789;
  neg = false;
}

split_cas-to_date_time_cas_example :
    (v : ℤ) × (to_date_time_cas leap_day ≡ ok v) × (split_cas v ≡ (pos 1582979696, 789))
unfolding zero_time_cas is_error_time
split_cas-to_date_time_cas_example =
    split_cas-to_date_time_cas leap_day refl refl refl (omega arith)
