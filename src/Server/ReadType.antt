-- ===== src/Server/ReadType.antt =====
-- GetParallelReadType (s2_connection.cpp): from which table a query is read in parallel.
use sas_libclient.Base.{
  Bool, true, false, ◌&&◌, List, [], ◌∷◌, Option, none, some, if◌then◌else◌, Text, is_text, Outcome,
  ok, ◌>>=◌,
}
use sas_libclient.Server.Answers.{Server}
use sas_libclient.Server.Catalog.{get_table_keys, check_explain_operations}
use sas_libclient.Sql.Names.{has_name}
use sas_libclient.Sql.Queries.{Columns, is_empty}

pub data ParallelReadType : Type 0 where
  result_table original_table column_store_table unknown : ParallelReadType

-- Every column of the shard key is in the set of the columns to partition by.
unfoldable pub all_in : List Text → List Text → Bool
unfolding is_text
all_in [] by = true
all_in (col ∷ cols) by = has_name col by && all_in cols by

unfoldable pub shard_key_fits : Columns → List Text → Bool
unfolding all_in
shard_key_fits by shard_key =
    if is_empty by then true else if is_empty shard_key then false else all_in shard_key by

-- The test of the lengths and the loop that compares the columns at each place.
unfoldable pub sort_key_fits : Columns → List Text → Bool
unfolding is_text
sort_key_fits [] sort_key = true
sort_key_fits (col ∷ cols) [] = false
sort_key_fits (col ∷ cols) (key ∷ keys) = is_text key col && sort_key_fits cols keys

-- Where the table itself cannot be read.
unfoldable pub created_table : Bool → ParallelReadType
created_table materialized = if materialized then column_store_table else result_table

-- `none` is a null pointer for the table of a query over more than one. `db` is m_db.
unfoldable pub get_parallel_read_type :
    Server
    → Text
    → Text
    → Option Text
    → Bool
    → Columns
    → Columns
    → ParallelReadType
    → Outcome ParallelReadType
unfolding shard_key_fits sort_key_fits created_table
get_parallel_read_type server db select source materialized by order unknown = elim source [
  | none ↦ ok (created_table materialized)
  | some table ↦ get_table_keys server db table >>= λ keys.
      let scan_ok = shard_key_fits by keys.shard_key && sort_key_fits order keys.sort_key in
      check_explain_operations server select >>= λ simple.
      ok (if scan_ok && simple then original_table else created_table materialized)
]
get_parallel_read_type server db select source materialized by order result_table = ok result_table
get_parallel_read_type server db select source materialized by order original_table =
    ok original_table
get_parallel_read_type server db select source materialized by order column_store_table =
    ok column_store_table
