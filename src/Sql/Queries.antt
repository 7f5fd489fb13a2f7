-- ===== src/Sql/Queries.antt =====
-- The query builders of namespace sql (utils.cpp), but those of LOAD DATA.
use sas_libclient.Base.{
  ℕ, Bool, true, false, ◌&&◌, List, [], ◌∷◌, ◌++◌, Option, none, some, ◌==◌, if◌then◌else◌, Text,
  text, to_text, ℤ, Outcome, ok, ◌>>=◌,
}
use sas_libclient.Tsv.Quoted.{show_int}
use sas_libclient.Sql.Names.{quoted_name, join_column_names, build_sort_key}
use sas_libclient.Sql.Versions.{compare_versions}

-- An array of C strings with its number; a number below 1 is the empty list.
abbrev pub Columns : Type 0
Columns = List Text

pub data TableType : Type 0 where
  agg_result_table agg_result_table_materialized regular_table : TableType

unfoldable pub join_ids_more : List ℤ → Text
unfolding show_int
join_ids_more [] = []
join_ids_more (id ∷ ids) = b',' ∷ (show_int id ++ join_ids_more ids)

unfoldable pub join_ids : List ℤ → Text
unfolding join_ids_more
join_ids [] = []
join_ids (id ∷ ids) = show_int id ++ join_ids_more ids

abbrev pub is_empty {ℓ} : {A : Type ℓ} → List A → Bool
is_empty [] = true
is_empty (x ∷ xs) = false

unfoldable pub partition_by : Columns → Columns → Text → TableType → Text
unfolding join_column_names build_sort_key
partition_by by order key regular_table =
    let shard =
      if is_empty by then [] else text "SHARD KEY(" ++ (join_column_names by ++ b')' ∷ []) in
    let start = if is_empty shard then shard else shard ++ b',' ∷ [] in
    b'(' ∷ (start ++ (text " SORT KEY(" ++ (build_sort_key order key ++ (b')' ∷ b')' ∷ []))))
partition_by by order key _ =
    if is_empty by && is_empty order
    then []
    else (if is_empty by then [] else text " PARTITION BY (" ++ (join_column_names by ++ b')' ∷ []))
      ++ (if is_empty order
          then []
          else text " WITH (PARTITION_ORDER_BY = (" ++ (join_column_names order ++ text "))"))

-- The beginning of the query for each type of table.
create_words : TableType → Text
create_words agg_result_table_materialized = text "CREATE MATERIALIZED RESULT TABLE "
create_words agg_result_table = text "CREATE RESULT TABLE "
create_words regular_table = text "CREATE TABLE "

unfoldable pub make_create_table_query : Text → Text → Text → TableType → Columns → Columns → Text
unfolding create_words partition_by
make_create_table_query table select key type by order =
    create_words type
    ++ (quoted_name table ++ (partition_by by order key type ++ (text " AS " ++ select)))

unfoldable pub make_drop_result_query : Text → Text
make_drop_result_query table = text "DROP RESULT TABLE " ++ quoted_name table

unfoldable pub make_drop_table_query : Text → Text
make_drop_table_query table = text "DROP TABLE IF EXISTS " ++ quoted_name table

-- ` WHERE partition_id() = ` and the number.
abbrev pub where_partition : ℕ → Text
where_partition partition = text " WHERE partition_id() = " ++ to_text partition

-- The version is compared, and the sum with the alias thrown away.
unfoldable pub make_read_result_table_query : Text → ℕ → Text → Outcome Text
make_read_result_table_query table partition version =
    compare_versions version (text "7.8.14") >>= λ order.
    ok (text "SELECT * FROM ::" ++ (quoted_name table ++ where_partition partition))

unfoldable pub make_read_column_store_table_query : Text → Text → Columns → ℕ → Text
make_read_column_store_table_query table key order partition =
    text "SELECT * FROM "
    ++ (quoted_name table
        ++ (where_partition partition ++ (text " ORDER BY " ++ build_sort_key order key)))

-- `none` is a null pointer to the sort key of the table.
unfoldable pub make_read_original_table_query : Text → Option Columns → Columns → ℕ → Text
make_read_original_table_query query full_sort_key order partition =
    text "SELECT * FROM ("
    ++ (query
        ++ (b')'
            ∷ (where_partition partition
                ++ order_by (elim full_sort_key [
                  | none ↦ order
                  | some cols ↦ if is_empty cols then order else cols
                ]))))
  where
    order_by : Columns → Text
    order_by cols = if is_empty cols then [] else text " ORDER BY " ++ join_column_names cols

-- The row of one number; `is_result_table` goes with the partition's row number.
unfoldable pub make_point_in_time_query : Text → Text → Text → ℕ → ℤ → Bool → Text → Outcome Text
make_point_in_time_query table select key partition row is_result_table version =
    if is_empty select
    then (if is_result_table
        then (compare_versions version (text "7.8.14") >>= λ order. ok (
            text "SELECT * FROM ::"
            ++ (quoted_name table
                ++ (where_partition partition
                    ++ (text " AND partition_row_id() = " ++ show_int row)))))
        else ok (
            text "SELECT * FROM "
            ++ (quoted_name table
                ++ (where_partition partition
                    ++ (text " AND " ++ (quoted_name key ++ (b'=' ∷ show_int row)))))))
    else ok (
        text "SELECT * FROM ("
        ++ (select
            ++ (b')'
                ∷ (where_partition partition ++ (text " AND " ++ (key ++ (b'=' ∷ show_int row)))))))

unfoldable pub make_row_id_filter_query : Text → Text → Text → ℕ → List ℤ → Text
unfolding join_ids
make_row_id_filter_query table select key partition ids =
    (if is_empty select
      then text "SELECT * FROM " ++ quoted_name table
      else text "SELECT * FROM (" ++ (select ++ b')' ∷ []))
    ++ (where_partition partition
        ++ (text " AND "
            ++ (quoted_name key
                ++ (text " IN "
                    ++ (b'('
                        ∷ (join_ids ids ++ (b')' ∷ (text " ORDER BY " ++ quoted_name key))))))))

unfoldable pub make_select_query_meta : Text → Text
make_select_query_meta table = text "SELECT * FROM " ++ (quoted_name table ++ text " WHERE 1 = 0")

unfoldable pub make_explain_create_result_table_query : Text → Text → Text
make_explain_create_result_table_query select explain_type =
    text "EXPLAIN " ++ (explain_type ++ (text " CREATE RESULT TABLE tmp AS " ++ select))

unfoldable pub make_get_aggregators_query : Text
make_get_aggregators_query =
    text
      "SELECT TYPE, IP_ADDR, PORT, EXTERNAL_HOST, EXTERNAL_PORT FROM information_schema.mv_nodes WHERE TYPE = 'CA' ORDER BY IP_ADDR, PORT, EXTERNAL_HOST, EXTERNAL_PORT"

-- `std::quoted(s, '\'', '\\')`
quoted_value_rest : Text → Text
quoted_value_rest [] = b'\'' ∷ []
quoted_value_rest (c ∷ cs) =
    let rest = quoted_value_rest cs in
    if c == b'\'' then 0x5c ∷ c ∷ rest else if c == 0x5c then 0x5c ∷ c ∷ rest else c ∷ rest

unfoldable pub quoted_value : Text → Text
unfolding quoted_value_rest
quoted_value s = b'\'' ∷ quoted_value_rest s

unfoldable pub make_get_table_keys_query : Text → Text → Text
unfolding quoted_value
make_get_table_keys_query db table =
    text
      "SELECT SEQ_IN_INDEX, COLUMN_NAME, INDEX_TYPE FROM INFORMATION_SCHEMA.STATISTICS WHERE TABLE_SCHEMA = "
    ++ (quoted_value db
        ++ (text " AND TABLE_NAME = "
            ++ (quoted_value table
                ++ text
                    " AND (INDEX_TYPE = 'CLUSTERED COLUMNSTORE' OR INDEX_TYPE = 'SHARD') ORDER BY INDEX_TYPE, SEQ_IN_INDEX")))
