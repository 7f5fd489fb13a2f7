-- ===== src/Schema/Tests.antt =====
-- Schemas read from the text of EXPLAIN.
use sas_libclient.Base.{◌≡◌, refl, [], ◌∷◌, ok, text, Outcome}
use sas_libclient.Hdat.Schema.{int64, fixed, variable, time, RowSchema}
use sas_libclient.Schema.Find.{copy_name, substr, stoi}
use sas_libclient.Sql.Versions.{scan_signed}
use sas_libclient.Schema.Explain.{explain_to_row_schema}

abbrev sample : Outcome RowSchema
sample = explain_to_row_schema (
    text
      "ResultTable db.tmp show_columns:[`i``1` bigint(20) NULL, `c` char(10) CHARACTER SET utf8 NULL, `d` text CHARACTER SET utf8mb4 NULL] local:yes")

sample_columns :
    sample
    ≡ ok (
        record { type = int64; size = 8; name = text "i``1" }
        ∷ record { type = fixed; size = 30; name = text "c" }
        ∷ record { type = variable; size = 0; name = text "d" }
        ∷ [])
unfolding explain_to_row_schema text copy_name substr stoi scan_signed
sample_columns = refl

-- A TIMESTAMP column is taken for a TIME column.
timestamp_as_time :
    explain_to_row_schema (text "ResultTable db.tmp show_columns:[`t` timestamp(6) NULL] local:yes")
    ≡ ok (record { type = time; size = 8; name = text "t" } ∷ [])
unfolding explain_to_row_schema text copy_name substr
timestamp_as_time = refl
