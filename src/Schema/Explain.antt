-- ===== src/Schema/Explain.antt =====
-- ExplainToRowSchema (utils.cpp) and ExplainRowSchema (s2_connection.cpp).
use sas_libclient.Base.{
  ℕ, zero, suc, true, false, List, [], ◌∷◌, ◌++◌, Option, none, some, ◌==◌, ltb, if◌then◌else◌,
  length, Text, text, Outcome, ok, fault, ◌>>=◌, add_u64, sub_u64, s2_throw, error_unknown_failure,
}
use sas_libclient.Hdat.Schema.{RowSchema}
use sas_libclient.Schema.Find.{npos, find, find_text, char_at}
use sas_libclient.Schema.Columns.{FieldDefSplit, show_columns_to_row_schema}
use sas_libclient.Server.Answers.{Row, Server, value, query_rows, starts_with}
use sas_libclient.Sql.Queries.{make_explain_create_result_table_query, is_empty}

-- `while (explainStr[name_last_backtick + 1] == '`')`, with fuel.
unfoldable pub last_backtick : ℕ → Text → ℕ → Outcome ℕ
unfolding char_at find
last_backtick zero s i = fault
last_backtick (suc fuel) s i = char_at s (add_u64 i 1) >>= λ c.
    let rest = last_backtick fuel s (find b'`' s (add_u64 i 2)) in if c == b'`' then rest else ok i

-- The body of the loop over the fields: where the parts of a field stand.
unfoldable pub split_field : Text → ℕ → ℕ → Outcome FieldDefSplit
unfolding last_backtick find
split_field s end_idx field_end =
    let name_start = add_u64 (find b'`' s field_end) 1 in
    last_backtick (suc (length s)) s (find b'`' s name_start) >>= λ last.
    let name_end = sub_u64 last 1 in
    let type_start = add_u64 name_end 3 in
    let type_end = find b' ' s type_start in
    let comma = find b',' s type_end in
    ok (record {
      name_start = name_start;
      name_end = name_end;
      type_start = type_start;
      type_end = type_end;
      field_end = if comma == npos then end_idx else comma;
    })

-- `while (field_end_idx < end_idx)`, with fuel.
unfoldable pub split_fields : ℕ → Text → ℕ → ℕ → Outcome (List FieldDefSplit)
unfolding split_field
split_fields zero s end_idx field_end = fault
split_fields (suc fuel) s end_idx field_end = elim (ltb field_end end_idx) [
  | false ↦ ok []
  | true ↦ split_field s end_idx field_end >>= λ d.
      split_fields fuel s end_idx d.field_end >>= λ ds. ok (d ∷ ds)
]

-- A text has fewer fields than characters.
unfoldable pub explain_to_row_schema : Text → Outcome RowSchema
unfolding split_fields find find_text show_columns_to_row_schema
explain_to_row_schema s =
    let show_columns = find_text (text " show_columns:[") s 0 in
    let start = find b'[' s show_columns in
    let end_idx = find_text (text "NULL] ") s show_columns in
    split_fields (suc (length s)) s end_idx start >>= show_columns_to_row_schema s

-- The loop over the rows of EXPLAIN: the text of all so far, and the first that starts with
-- ResultTable, if there is one.
result_row : List Row → Text → Outcome (Text × Option Text)
unfolding value starts_with
result_row [] seen = ok (seen, none)
result_row (row ∷ rows) seen = value 0 row >>= λ line.
    let rest = result_row rows (seen ++ (line ++ text "\n\t")) in
    if starts_with (text "ResultTable") line
    then ok (seen ++ (line ++ text "\n\t"), some line)
    else rest

unfoldable pub explain_row_schema : Server → Text → Outcome RowSchema
unfolding query_rows result_row explain_to_row_schema
explain_row_schema server select =
    let query = make_explain_create_result_table_query select (text "EXTENDED") in
    query_rows server query (record {
      error_code = error_unknown_failure;
      error_message = text "ExplainRowSchema failed to get the result of query: " ++ query;
    })
    >>= λ rows. result_row rows [] >>= λ (seen, found). elim found [
      | none ↦ s2_throw error_unknown_failure (
          text "Invalid EXPLAIN result from query: "
          ++ (query ++ (text "\nResult is:\n\t" ++ seen)))
      | some line ↦ explain_to_row_schema line >>= λ schema.
          if is_empty schema
          then s2_throw error_unknown_failure
              (text "Unable to parse EXPLAIN result to get row schema: " ++ line)
          else ok schema
    ]
