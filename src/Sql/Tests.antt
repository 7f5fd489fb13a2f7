-- ===== src/Sql/Tests.antt =====
-- Queries at concrete values.
use sas_libclient.Base.{
  negsuc, ◌≡◌, refl, false, true, [], ◌∷◌, some, Text, text, ok, pos, arith, to_text,
}
use sas_libclient.Hdat.Schema.{int64, variable, RowSchema}
use sas_libclient.Sql.Names.{join_more, quoted_name_rest, quoted_name, sort_columns}
use sas_libclient.Sql.Versions.{version, compare_versions, compare_versions-version}
use sas_libclient.Sql.Queries.{
  make_read_result_table_query, make_read_column_store_table_query, make_create_table_query,
  regular_table,
}
use sas_libclient.Sql.Load.{Json, tsv, make_load_data_query, make_columns_avro}
use sas_libclient.Sql.ReadBack.{
  read_table, read_table-make_read_result_table_query, read_sorted_table,
  read_sorted_table-make_read_column_store_table_query, read_load, read_load-make_load_data_query,
}

-- A name with a backtick.
abbrev odd_table : Text
odd_table = text "t`1"

abbrev two_columns : RowSchema
two_columns =
    record { type = int64; size = 8; name = text "a" }
    ∷ record { type = variable; size = 0; name = text "b,`c" }
    ∷ []

older : compare_versions (text "7.8.13") (text "7.8.14") ≡ ok (negsuc 0)
unfolding compare_versions text
older = refl

create_text :
    make_create_table_query (text "t") (text "select 1") (text "k") regular_table [] []
    ≡ text "CREATE TABLE `t`( SORT KEY(`k`)) AS select 1"
unfolding make_create_table_query text quoted_name quoted_name_rest
create_text = refl

columns_text :
    (make_columns_avro two_columns false).0 ≡ text "@var_0 <- %::col_0,`b,``c` <- %::col_1"
unfolding make_columns_avro text to_text quoted_name quoted_name_rest
columns_text = refl

compare_versions-version_example : compare_versions (version 7 8 19) (version 7 8 14) ≡ ok (pos 1)
compare_versions-version_example =
    compare_versions-version 7 8 19 7 8 14 (omega arith) (omega arith) (omega arith) (omega arith)
      (omega arith) (omega arith)

read_table-make_read_result_table_query_example :
    (query : Text) × (make_read_result_table_query odd_table 12 (text "7.8.13") ≡ ok query)
    × (read_table (text "SELECT * FROM ::") query ≡ some (odd_table, 12, []))
read_table-make_read_result_table_query_example =
    read_table-make_read_result_table_query odd_table 12 (text "7.8.13") (negsuc 0) older refl

read_sorted_table-make_read_column_store_table_query_example :
    read_sorted_table 3
      (make_read_column_store_table_query odd_table (text "k") (text "a" ∷ text "b" ∷ []) 7)
    ≡ some (odd_table, 7, sort_columns (text "a" ∷ text "b" ∷ []) (text "k"), [])
read_sorted_table-make_read_column_store_table_query_example =
    read_sorted_table-make_read_column_store_table_query 3 odd_table (text "k")
      (text "a" ∷ text "b" ∷ []) 7 (omega arith)

abbrev no_dumps : Json → Text
no_dumps j = []

abbrev load_text : Text
load_text =
    text
      "LOAD DATA LOCAL INFILE 'placeholder' INTO TABLE `t``1`  (`a`,`b,``c`)  FIELDS OPTIONALLY ENCLOSED BY '\"'"

load_query : make_load_data_query no_dumps odd_table two_columns tsv true ≡ ok load_text
unfolding make_load_data_query text quoted_name quoted_name_rest join_more
load_query = refl

read_load-make_load_data_query_example :
    read_load 3 load_text
    ≡ some (odd_table, text "a" ∷ text "b,`c" ∷ [], text ")  FIELDS OPTIONALLY ENCLOSED BY '\"'")
read_load-make_load_data_query_example =
    read_load-make_load_data_query no_dumps 3 odd_table two_columns true load_text (omega arith)
      load_query
