-- ===== src/Hdat/Samples.antt =====
-- A schema of an id and a name, a row of it, and a writer on an empty chunk, for the tests.
use sas_libclient.Base.{inl, ℕ, ◌^◌, ◌<◌, refl, List, [], ◌∷◌, some, false, arith}
use sas_libclient.Hdat.Memory.{Memory}
use sas_libclient.Hdat.Schema.{int64, variable, unsupported, Column, RowSchema, Cell}
use sas_libclient.Hdat.Calendar.{MysqlTime}
use sas_libclient.Hdat.Reader.{Reader}
use sas_libclient.Hdat.Writer.{Writer}
use sas_libclient.Hdat.Appended.{IsValid}
use sas_libclient.Hdat.RoundTrip.Rows.{RowSane}

abbrev pub midnight : MysqlTime
midnight = record {
  year = 1960;
  month = 1;
  day = 2;
  hour = 0;
  minute = 0;
  second = 0;
  second_part = 0;
  neg = false;
}

abbrev pub no_time : List ℕ → MysqlTime
no_time v = midnight

abbrev pub id_column : Column
id_column = record { type = int64; size = 8; name = b'i' ∷ b'd' ∷ [] }

abbrev pub name_column : Column
name_column = record { type = variable; size = 0; name = b'n' ∷ [] }

abbrev pub raw_column : Column
raw_column = record { type = unsupported; size = 0; name = b'r' ∷ [] }

abbrev pub two_columns : RowSchema
two_columns = id_column ∷ name_column ∷ []

abbrev pub seven : Cell
seven = record { value = some (7 ∷ 0 ∷ 0 ∷ 0 ∷ 0 ∷ 0 ∷ 0 ∷ 0 ∷ []); length = 8 }

abbrev pub ab : Cell
ab = record { value = some (b'a' ∷ b'b' ∷ []); length = 2 }

abbrev pub zeros : Memory
zeros i = 0

abbrev pub empty_reader : Reader
empty_reader = record {
  current = record {
    chunk = record {
      mem = zeros;
      size = 0;
      row_count = 0;
      consumed_size = 0;
      variable_offset = 0;
      id = 0;
      partition_id = 0;
    };
    offset = 0;
  };
  schema = [];
  error = [];
}

-- A writer on an empty chunk.
abbrev pub writer_of : ℕ → RowSchema → Writer
writer_of size schema = record {
  chunk_size = size;
  row_fixed_size = 0;
  column_count = 0;
  current = record {
    chunk = record {
      mem = zeros;
      size = size;
      row_count = 0;
      consumed_size = 0;
      variable_offset = 0;
      id = 0;
      partition_id = 0;
    };
    offset = 0;
  };
  row_offset = 0;
  row_column_count = 0;
  schema = schema;
}

pub writer_of-IsValid :
    (size : ℕ) (schema : RowSchema) → size < 2 ^ 64 → IsValid (writer_of size schema)
writer_of-IsValid size schema h = record {
  fits = omega arith;
  same_size = refl;
  small = h;
  first = inl refl;
}

pub sample_row-RowSane : RowSane no_time two_columns (seven ∷ ab ∷ [])
sample_row-RowSane = (
  record { fits = omega arith; size_small = omega arith; length_small = omega arith },
  (record { fits = omega arith; size_small = omega arith; length_small = omega arith }, tt),
)
