-- ===== src/Connection/Tests.antt =====
-- NextChunk at concrete rows.
use sas_libclient.Tsv.Quoted.{show_int}
use sas_libclient.Sql.Names.{quoted_name_rest, quoted_name}
use sas_libclient.Base.{
  to_text, ℕ, ◌≡◌, refl, List, [], ◌∷◌, Option, none, some, throws, arith, map, invalid_argument,
  of_bytes, true, Text, text, pos, ok,
}
use sas_libclient.Hdat.SuperChunk.{new_chunk}
use sas_libclient.Hdat.Writer.{too_small}
use sas_libclient.Hdat.Samples.{no_time, two_columns, zeros, seven, ab, sample_row-RowSane}
use sas_libclient.Tsv.Field.{Field, number, string}
use sas_libclient.Connection.Fetch.{row, fetch_cell, next_chunk}
use sas_libclient.Connection.Chunks.{fitting}
use sas_libclient.Connection.Fill.{AllGood, cells}
use sas_libclient.Connection.NextChunk.{
  IsFresh, Delivered, Holds, next_chunk-Delivered, next_chunk-too_small,
}
use sas_libclient.Hdat.SuperChunk.{Chunk}
use sas_libclient.Connection.Rows.{Statements, RowRequest, idle, get_multiple_rows, get_single_row}
use sas_libclient.Connection.SingleRow.{
  Answers, multiple_query, single_request, get_multiple_rows-Delivered, get_single_row_lem,
}
use sas_libclient.Server.ReadType.{column_store_table}
use sas_libclient.Sql.Queries.{make_point_in_time_query}

-- The row (7, 'c').
abbrev pub short_name : List (Option (List ℕ))
short_name = some (7 ∷ 0 ∷ 0 ∷ 0 ∷ 0 ∷ 0 ∷ 0 ∷ 0 ∷ []) ∷ some (b'c' ∷ []) ∷ []

abbrev pub two_rows : List (List Field)
two_rows = (number 7 ∷ string (b'a' ∷ b'b' ∷ []) ∷ []) ∷ (number 7 ∷ string (b'c' ∷ []) ∷ []) ∷ []

pub two_rows-AllGood :
    AllGood true no_time two_columns ((seven ∷ ab ∷ []) ∷ map cells (short_name ∷ [])) two_rows
unfolding fetch_cell of_bytes
two_rows-AllGood = (
  sample_row-RowSane,
  (tt, (λ e. omega arith, tt)),
  omega arith,
  refl,
  (
    (
      record { fits = omega arith; size_small = omega arith; length_small = omega arith },
      (record { fits = omega arith; size_small = omega arith; length_small = omega arith }, tt),
    ),
    (tt, (λ e. omega arith, tt)),
    omega arith,
    refl,
    tt,
  ),
)

fresh_forty : IsFresh (new_chunk zeros 40 0 0)
unfolding new_chunk
fresh_forty = record { no_rows = refl; no_strings = refl; small = omega arith }

fresh_twenty : IsFresh (new_chunk zeros 20 0 0)
unfolding new_chunk
fresh_twenty = record { no_rows = refl; no_strings = refl; small = omega arith }

-- 40 bytes hold the first row only.
next_chunk-Delivered_example :
    Delivered no_time two_columns
      (new_chunk zeros 40 0 0)
      fresh_forty
      true
      (fitting two_columns
        (new_chunk zeros 40 0 0).size
        ((seven ∷ ab ∷ []) ∷ map cells (short_name ∷ [])))
      (seven ∷ ab ∷ [])
      (short_name ∷ [])
      two_rows
      (next_chunk no_time
        (new_chunk zeros 40 0 0)
        two_columns
        (record { last_fetched = some (seven ∷ ab ∷ []); pending = row short_name ∷ [] }))
next_chunk-Delivered_example =
    next_chunk-Delivered no_time two_columns (new_chunk zeros 40 0 0) fresh_forty true
      (seven ∷ ab ∷ []) (short_name ∷ []) two_rows two_rows-AllGood (omega arith)
      (unfold new_chunk in omega arith)

next_chunk-too_small_example :
    next_chunk no_time
      (new_chunk zeros 20 0 0)
      two_columns
      (record { last_fetched = some (seven ∷ ab ∷ []); pending = row short_name ∷ [] })
    ≡ throws (invalid_argument (too_small (new_chunk zeros 20 0 0).size 26))
next_chunk-too_small_example =
    next_chunk-too_small no_time two_columns (new_chunk zeros 20 0 0) fresh_twenty (seven ∷ ab ∷ [])
      (row short_name ∷ []) sample_row-RowSane (omega arith) (unfold new_chunk in omega arith)

-- 100 bytes hold both rows.
pub fresh_hundred : IsFresh (new_chunk zeros 100 0 0)
unfolding new_chunk
fresh_hundred = record { no_rows = refl; no_strings = refl; small = omega arith }

pub hundred_bytes-Delivered :
    Delivered no_time two_columns
      (new_chunk zeros 100 0 0)
      fresh_hundred
      true
      (fitting two_columns
        (new_chunk zeros 100 0 0).size
        ((seven ∷ ab ∷ []) ∷ map cells (short_name ∷ [])))
      (seven ∷ ab ∷ [])
      (short_name ∷ [])
      two_rows
      (next_chunk no_time
        (new_chunk zeros 100 0 0)
        two_columns
        (record { last_fetched = some (seven ∷ ab ∷ []); pending = row short_name ∷ [] }))
hundred_bytes-Delivered =
    next_chunk-Delivered no_time two_columns (new_chunk zeros 100 0 0) fresh_hundred true
      (seven ∷ ab ∷ []) (short_name ∷ []) two_rows two_rows-AllGood (omega arith)
      (unfold new_chunk in omega arith)

-- A database that answers any statement with the row (7, 'c').
abbrev pub one_row : Statements
one_row = record {
  init_failure = none;
  prepare_failure = λ q. none;
  execute_failure = λ q. none;
  has_fields = λ q. true;
  fetches = λ q. row short_name ∷ [];
}

abbrev pub from_t : RowRequest
from_t = record {
  table = text "t";
  select = text "select 1";
  key = text "k";
  partition = 0;
  read_type = column_store_table;
}

pub one_row-Answers : (query : Text) → Answers one_row query (row short_name ∷ [])
one_row-Answers query = record {
  init = refl;
  prepares = refl;
  executes = refl;
  has_result = refl;
  gives = refl;
}

get_multiple_rows-Delivered_example :
    Delivered no_time two_columns
      (new_chunk zeros 100 0 0)
      fresh_hundred
      true
      (fitting two_columns (new_chunk zeros 100 0 0).size (map cells (short_name ∷ [])))
      (cells short_name)
      []
      ((number 7 ∷ string (b'c' ∷ []) ∷ []) ∷ [])
      (get_multiple_rows no_time one_row from_t two_columns (pos 7 ∷ []) (new_chunk zeros 100 0 0))
unfolding fetch_cell
get_multiple_rows-Delivered_example =
    get_multiple_rows-Delivered no_time one_row from_t two_columns true (pos 7 ∷ [])
      (new_chunk zeros 100 0 0) fresh_hundred short_name []
      ((number 7 ∷ string (b'c' ∷ []) ∷ []) ∷ [])
      (one_row-Answers (multiple_query no_time one_row from_t two_columns (pos 7 ∷ [])))
      two_rows-AllGood.4 (omega arith) (unfold new_chunk in omega arith)

pub point_query : Text
point_query = text "SELECT * FROM `t` WHERE partition_id() = 0 AND `k`=7"

pub point_query_lem :
    single_request no_time one_row from_t two_columns (pos 7) (text "8.0.1") ≡ ok point_query
unfolding make_point_in_time_query text point_query quoted_name quoted_name_rest to_text show_int
point_query_lem = refl

get_single_row_lem_example :
    (chunk : Chunk) × (get_single_row no_time one_row
        (λ n. some zeros)
        from_t
        two_columns
        (pos 7)
        (text "8.0.1")
      ≡ ok (chunk, idle))
    × Holds true two_columns 1 ((number 7 ∷ string (b'c' ∷ []) ∷ []) ∷ []) chunk
get_single_row_lem_example =
    get_single_row_lem no_time one_row from_t two_columns true (λ n. some zeros) zeros (pos 7)
      (text "8.0.1") point_query short_name (number 7 ∷ string (b'c' ∷ []) ∷ []) point_query_lem
      (one_row-Answers point_query) refl two_rows-AllGood.4
