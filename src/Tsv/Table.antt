-- ===== src/Tsv/Table.antt =====
-- TsvTableWriter::ChunkToTSV (tsv_table_writer.cpp).
use sas_libclient.Base.{
  ℕ, zero, suc, Bool, true, false, [], ◌∷◌, ◌++◌, none, some, if◌then◌else◌, Outcome, ok, ◌>>=◌,
  Text,
}
use sas_libclient.Hdat.Schema.{ColumnType, int64, int32, double, time, date, date_time, RowSchema}
use sas_libclient.Hdat.Reader.{Reader}
use sas_libclient.Tsv.Field.{Field, null_field, number, string, read_field}
use sas_libclient.Tsv.Quoted.{quoted, show_int, signed}
use sas_libclient.Tsv.Times.{Formats, from_time_cas, from_date_cas, from_date_time_cas}

abbrev null_text : Text
null_text = 0x5c ∷ b'N' ∷ []

module _ (formats : Formats) where
  -- What one case of the switch prints.
  unfoldable pub show_number : ColumnType → ℕ → Text
  show_number int64 n = show_int (signed 64 n)
  show_number int32 n = show_int (signed 32 n)
  show_number double n = formats.double n
  show_number date_time n = from_date_time_cas formats (signed 64 n)
  show_number time n = from_time_cas (signed 64 n)
  show_number date n = from_date_cas formats (signed 32 n)
  show_number _ n = []

  unfoldable pub show_field : ColumnType → Field → Text
  unfolding show_number
  show_field ty null_field = null_text
  show_field ty (number n) = show_number ty n
  show_field ty (string s) = quoted s

  module _ (assertions : Bool) where
    -- The inner loop from a column on: the answer, the reader and the text so far.
    unfoldable pub show_columns : Bool → RowSchema → Reader → Text → Outcome (Bool × Reader × Text)
    unfolding show_field
    show_columns first [] r out = ok (true, r, out)
    show_columns first (c ∷ cs) r out =
        let out' = if first then out else out ++ b'\t' ∷ [] in
        read_field assertions c r >>= λ (field, r'). elim field [
          | none ↦ ok (false, r', out')
          | some f ↦ show_columns false cs r' (out' ++ show_field c.type f)
        ]

    -- The outer loop, `rows` rows left.
    unfoldable pub show_rows : Bool → ℕ → RowSchema → Reader → Text → Outcome (Bool × Reader × Text)
    show_rows first zero cs r out = ok (true, r, out)
    show_rows first (suc rows) cs r out =
        show_columns true cs r (if first then out else out ++ b'\n' ∷ []) >>= λ (done, r', out').
        elim done [ true ↦ show_rows false rows cs r' out' | false ↦ ok (false, r', out') ]

    -- The count is an int64_t in the source: a chunk has fewer than 2^63 rows.
    unfoldable pub chunk_to_tsv : ℕ → Reader → Outcome (Bool × Reader × Text)
    unfolding show_rows
    chunk_to_tsv row_count r = show_rows true row_count r.schema r []
