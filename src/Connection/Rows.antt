-- ===== src/Connection/Rows.antt =====
-- S2Connection::Prepare, GetMultipleRows and GetSingleRow (s2_connection.cpp).
use sas_libclient.Base.{
  ℕ, Bool, true, false, ◌&&◌, List, [], ◌++◌, Option, none, some, if◌then◌else◌, length, Text, text,
  to_text, ℤ, Outcome, ok, throws, ◌>>=◌, S2ClientError, s2_error, s2_throw, error_inv_arg,
  error_memory_allocation, u64,
}
use sas_libclient.Hdat.Memory.{Memory}
use sas_libclient.Hdat.Schema.{RowSchema, row_size}
use sas_libclient.Hdat.SuperChunk.{Chunk, new_chunk}
use sas_libclient.Hdat.Calendar.{MysqlTime}
use sas_libclient.Hdat.Writer.{reset, write_row}
use sas_libclient.Connection.Fetch.{Fetched, Connection, has_next_row, advance, fill_chunk}
use sas_libclient.Server.ReadType.{ParallelReadType, result_table, original_table}
use sas_libclient.Sql.Queries.{make_row_id_filter_query, make_point_in_time_query}
use sas_libclient.Tsv.Quoted.{show_int}

-- What mysql_stmt_init, mysql_stmt_prepare and mysql_stmt_execute report (`none` is success), by the
-- text of the statement; whether the statement has a result set, and what fetching it gives.
pub record Statements : Type 0 where
  pub init_failure : Option S2ClientError
  pub prepare_failure : Text → Option S2ClientError
  pub execute_failure : Text → Option S2ClientError
  pub has_fields : Text → Bool
  pub fetches : Text → List Fetched

abbrev pub check {ℓ} : {A : Type ℓ} → Option S2ClientError → Outcome A → Outcome A
check none next = next
check (some e) next = throws (s2_error e)

-- No row in hand and none to come.
abbrev pub idle : Connection
idle = record { last_fetched = none; pending = [] }

unfoldable pub prepare : Statements → Text → Bool → Bool → Outcome (Bool × Connection)
unfolding advance
prepare st query execute prefetch = check st.init_failure (
    check (st.prepare_failure query) (
      if execute
      then check (st.execute_failure query) (
          if st.has_fields query
          then (if prefetch
              then (advance (record { last_fetched = none; pending = st.fetches query })
                  >>= λ (more, conn). ok (true, conn))
              else ok (true, record { last_fetched = none; pending = st.fetches query }))
          else ok (false, idle))
      else ok (false, idle)))

-- The query of a point read goes over the select query for a read of the original table.
abbrev pub query_param : ParallelReadType → Text → Text
query_param original_table select = select
query_param _ select = []

abbrev pub reads_result_table : ParallelReadType → Bool
reads_result_table result_table = true
reads_result_table _ = false

-- Which rows of which table are asked for.
pub record RowRequest : Type 0 where
  pub table : Text
  pub select : Text
  pub key : Text
  pub partition : ℕ
  pub read_type : ParallelReadType

module _ (time_of : List ℕ → MysqlTime) (st : Statements) where
  -- The ids are an `int64_t` array; `chunk` is the caller's.
  unfoldable pub get_multiple_rows :
      RowRequest → RowSchema → List ℤ → Chunk → Outcome (Chunk × Connection)
  unfolding prepare fill_chunk
  get_multiple_rows r schema ids chunk =
      let writer = reset chunk schema in
      let query =
        make_row_id_filter_query r.table (query_param r.read_type r.select) r.key r.partition ids in
      prepare st query true true >>= λ (result, conn).
      if result && has_next_row conn
      then (fill_chunk time_of conn.last_fetched conn.pending writer 0 >>= λ (w, n, conn').
          ok (record w.current.chunk { row_count = u64 n }, conn'))
      else s2_throw error_inv_arg (
          text "Failed to get the row with "
          ++ (to_text (length ids) ++ (text " rows from table " ++ r.table)))

  no_row : RowRequest → ℤ → S2ClientError
  unfolding show_int
  no_row r id = record {
    error_code = error_inv_arg;
    error_message =
        text "Failed to get the row with id " ++ (show_int id ++ (text " from table " ++ r.table));
  }

  -- `alloc` is malloc. CleanupStatement leaves no row in hand.
  unfoldable pub get_single_row :
      (ℕ → Option Memory) → RowRequest → RowSchema → ℤ → Text → Outcome (Chunk × Connection)
  unfolding prepare no_row
  get_single_row alloc r schema id server_version =
      make_point_in_time_query r.table (query_param r.read_type r.select) r.key r.partition id
        (reads_result_table r.read_type) server_version
      >>= λ query. prepare st query true true >>= λ (result, conn). elim conn.last_fetched [
        | none ↦ throws (s2_error (no_row r id))
        | some cells ↦
            if result
            then (row_size schema cells >>= λ size. elim (alloc size) [
              | none ↦
                  s2_throw error_memory_allocation
                    (text "GetSingleRow cannot allocate chunk size: " ++ to_text size)
              | some m ↦
                  write_row time_of cells (reset (new_chunk m size 0 r.partition) schema)
                  >>= λ (written, w). ok (w.current.chunk, idle)
            ])
            else throws (s2_error (no_row r id))
      ]
