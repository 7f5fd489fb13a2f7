-- ===== src/Server/Catalog.antt =====
-- GetPartitionsNumber, GetServerVersion, GetAggregators, ExecuteDDL, GetTableKeys and
-- CheckExplainOperations (s2_connection.cpp).
use sas_libclient.Base.{
  ℕ, suc, ◌+◌, ◌-◌, ◌^◌, Bool, true, false, ◌||◌, ◌&&◌, not, List, [], ◌∷◌, ◌++◌, Option, none,
  some, ◌==◌, leb, if◌then◌else◌, Text, text, is_text, map, ℤ, pos, negsuc, Outcome, ok, ◌>>=◌,
  s2_throw, error_unknown_failure,
}
use sas_libclient.Queues.Collect.{AggregatorNode}
use sas_libclient.Server.Answers.{Row, Server, field, value, mysql_query, query_rows, starts_with}
use sas_libclient.Sql.Queries.{
  make_get_aggregators_query, make_get_table_keys_query, make_explain_create_result_table_query,
}
use sas_libclient.Sql.Versions.{scan_int}

abbrev pub to_lower : ℕ → ℕ
to_lower c = if leb b'A' c && leb c b'Z' then c + 32 else c

-- `!strcasecmp(a, b)`
unfoldable pub is_text_nocase : Text → Text → Bool
unfolding is_text
is_text_nocase a b = is_text (map to_lower a) (map to_lower b)

-- The loop over the rows of SHOW PARTITIONS, with the number so far.
unfoldable pub count_masters : List Row → ℕ → Outcome ℕ
unfolding field is_text_nocase
count_masters [] n = ok n
count_masters (row ∷ rows) n = field 3 row >>= λ role. elim role [
  | none ↦
      s2_throw error_unknown_failure
        (text "Failed to get SHOW PARTITIONS result: database returned invalid data")
  | some s ↦ count_masters rows (if is_text_nocase s (text "master") then n + 1 else n)
]

unfoldable pub get_partitions_number : Server → Outcome ℕ
unfolding query_rows count_masters
get_partitions_number server =
    let query = text "SHOW PARTITIONS" in
    query_rows server query (server.store_failure query) >>= λ rows. count_masters rows 0

-- The first row, null if there is none.
first_field : List Row → Outcome (Option Text)
unfolding field
first_field [] = ok none
first_field (row ∷ rows) = field 0 row

unfoldable pub get_server_version : Server → Outcome Text
unfolding query_rows first_field
get_server_version server =
    let query = text "SELECT @@memsql_version" in
    query_rows server query (server.store_failure query) >>= λ rows. first_field rows >>= λ version.
    elim version [
      | none ↦
          s2_throw error_unknown_failure
            (text "Failed to get SELECT @@memsql_version result: database returned no data")
      | some v ↦ ok v
    ]

-- `atoi`, and what becomes of it as a uint32_t port.
atoi : Text → Outcome ℕ
atoi s = scan_int s >>= λ n. elim n [
  | none ↦ ok 0
  | some (v, end) ↦ elim v [ pos n ↦ ok n | negsuc n ↦ ok (2 ^ 32 - suc n) ]
]

port_of : Option Text → Outcome ℕ
unfolding atoi
port_of none = ok 0
port_of (some s) = atoi s

text_or_empty : Option Text → Text
text_or_empty none = []
text_or_empty (some s) = s

unfoldable pub aggregator_of : Row → Outcome AggregatorNode
unfolding field port_of text_or_empty
aggregator_of row = field 1 row >>= λ host. field 2 row >>= λ port. port_of port >>= λ port_number.
    field 3 row >>= λ external. field 4 row >>= λ external_port.
    port_of external_port >>= λ external_number. ok (record {
      host = text_or_empty host;
      port = port_number;
      external_host = text_or_empty external;
      external_port = external_number;
    })

aggregators_of : List Row → Outcome (List AggregatorNode)
unfolding aggregator_of
aggregators_of [] = ok []
aggregators_of (row ∷ rows) =
    aggregator_of row >>= λ node. aggregators_of rows >>= λ nodes. ok (node ∷ nodes)

unfoldable pub get_aggregators : Server → Outcome (List AggregatorNode)
unfolding query_rows aggregators_of
get_aggregators server =
    query_rows server make_get_aggregators_query (record {
      error_code = error_unknown_failure;
      error_message = text "Failed to get the list of aggregators from information_schema.mv_nodes";
    })
    >>= aggregators_of

unfoldable pub execute_ddl : Server → Text → Outcome ℤ
unfolding mysql_query
execute_ddl server query = mysql_query server query >>= λ done. ok (server.affected_rows query)

-- `shard_key` is a set.
pub record TableKeys : Type 0 where
  pub shard_key : List Text
  pub sort_key : List Text

-- The loop over the rows. `strncmp` looks at as many characters as the type has.
unfoldable pub collect_keys : List Row → TableKeys → Outcome TableKeys
unfolding value starts_with
collect_keys [] keys = ok keys
collect_keys (row ∷ rows) keys = value 2 row >>= λ type. value 1 row >>= λ name. collect_keys rows (
    if starts_with type (text "CLUSTERED COLUMNSTORE")
    then record keys { sort_key = keys.sort_key ++ name ∷ [] }
    else record keys { shard_key = keys.shard_key ++ name ∷ [] })

unfoldable pub get_table_keys : Server → Text → Text → Outcome TableKeys
unfolding query_rows collect_keys
get_table_keys server db table =
    let query = make_get_table_keys_query db table in
    query_rows server query (record {
      error_code = error_unknown_failure;
      error_message = text "GetTableKeys failed to get the result of the query: " ++ query;
    })
    >>= λ rows. collect_keys rows (record { shard_key = []; sort_key = [] })

-- `explainRow.substr(0, explainRow.find(" "))`
unfoldable pub operation : Text → Text
operation [] = []
operation (c ∷ cs) = let rest = operation cs in if c == b' ' then [] else c ∷ rest

unfoldable pub is_scan : Text → Bool
unfolding is_text
is_scan op =
    is_text op (text "ColumnStoreScan")
    || is_text op (text "OrderedColumnStoreScan")
    || is_text op (text "ColumnStoreFilter")

-- The loop over the rows of EXPLAIN.
unfoldable pub check_rows : Bool → List Row → Outcome Bool
unfolding value operation is_scan starts_with
check_rows check [] = ok true
check_rows check (row ∷ rows) = value 0 row >>= λ line.
    let next = check_rows (check || starts_with (text "ResultTable") line) rows in
    if check && not (is_scan (operation line)) then ok false else next

unfoldable pub check_explain_operations : Server → Text → Outcome Bool
unfolding query_rows check_rows
check_explain_operations server select =
    let query = make_explain_create_result_table_query select [] in
    query_rows server query (record {
      error_code = error_unknown_failure;
      error_message = text "CheckExplainOperations failed to get the result of query: " ++ query;
    })
    >>= check_rows false
