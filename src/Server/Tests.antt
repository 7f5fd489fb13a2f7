-- ===== src/Server/Tests.antt =====
-- The choice of the read type at concrete answers of the database.
use sas_libclient.Sql.Queries.{make_explain_create_result_table_query, make_get_table_keys_query}
use sas_libclient.Base.{
  ◌≡◌, ◌≢◌, ◌↔◌, refl, true, false, List, [], ◌∷◌, map, none, some, if◌then◌else◌, Text, text, pos,
  ok,
}
use sas_libclient.Queues.Collect.{clear_error}
use sas_libclient.Server.Answers.{Row, Server, starts_with}
use sas_libclient.Server.Catalog.{
  TableKeys, get_table_keys, check_explain_operations, check_rows, get_partitions_number,
}
use sas_libclient.Server.ReadType.{
  ParallelReadType, original_table, column_store_table, unknown, get_parallel_read_type,
}
use sas_libclient.Server.Explained.{IsSimple, plan_row, check_rows_lem}
use sas_libclient.Server.Planned.{ShardFits, SortFits, get_parallel_read_type_lem}

-- A plan for EXPLAIN, and keys for any other query.
abbrev rows_of : Text → List Row
rows_of query =
    if starts_with (text "EXPLAIN") query
    then plan_row (text "ResultTable db.tmp") ∷ plan_row (text "ColumnStoreScan db.t") ∷ []
    else (none ∷ some (text "a") ∷ some (text "SHARD") ∷ [])
      ∷ (none ∷ some (text "b") ∷ some (text "CLUSTERED COLUMNSTORE") ∷ [])
      ∷ []

abbrev server : Server
server = record {
  failure = λ q. none;
  stored = λ q. some (rows_of q);
  store_failure = λ q. clear_error;
  affected_rows = λ q. pos 0;
  can_init = true;
  connect_failure = λ c. none;
  statement_failure = λ c. none;
}

abbrev keys : TableKeys
keys = record { shard_key = text "a" ∷ []; sort_key = text "b" ∷ [] }

found_keys : get_table_keys server (text "db") (text "t") ≡ ok keys
unfolding get_table_keys text starts_with make_get_table_keys_query
found_keys = refl

simple_plan : check_explain_operations server (text "select") ≡ ok true
unfolding check_explain_operations text starts_with make_explain_create_result_table_query
simple_plan = refl

two_masters :
    get_partitions_number (record server {
      stored = λ q. some (
          (none ∷ none ∷ none ∷ some (text "Master") ∷ [])
          ∷ (none ∷ none ∷ none ∷ some (text "Slave") ∷ [])
          ∷ (none ∷ none ∷ none ∷ some (text "MASTER") ∷ [])
          ∷ []);
    })
    ≡ ok 2
unfolding get_partitions_number text
two_masters = refl

get_parallel_read_type_lem_example :
    (type : ParallelReadType) × (get_parallel_read_type server
        (text "db")
        (text "select")
        (some (text "t"))
        true
        (text "a" ∷ text "c" ∷ [])
        (text "b" ∷ [])
        unknown
      ≡ ok type)
    × ((type ≡ original_table) ↔ (
        ShardFits (text "a" ∷ text "c" ∷ []) (text "a" ∷ [])
        × SortFits (text "b" ∷ []) (text "b" ∷ [])
        × (true ≡ true)))
    × ((type ≢ original_table) → type ≡ column_store_table)
get_parallel_read_type_lem_example =
    get_parallel_read_type_lem server (text "db") (text "select") (text "t") true
      (text "a" ∷ text "c" ∷ []) (text "b" ∷ []) keys true found_keys simple_plan

abbrev lines : List Text
lines =
    text "WARNING"
    ∷ text "ResultTable db.tmp"
    ∷ text "ColumnStoreFilter x"
    ∷ text "HashGroupBy []"
    ∷ []

check_rows_lem_example : (check_rows false (map plan_row lines) ≡ ok true) ↔ IsSimple lines
check_rows_lem_example = check_rows_lem lines
