-- ===== src/Client/Api.antt =====
-- The C functions of parallel_read.cpp.
use sas_libclient.Base.{
  ℕ, Bool, true, false, List, [], ◌∷◌, Option, none, some, if◌then◌else◌, ◌==◌, Text, text, negsuc,
  Outcome, ok, throws, fault, ◌>>=◌, S2ClientError, error_inv_arg,
}
use sas_libclient.Client.State.{Client, Report, set_error, send_ddl, caught_by}
use sas_libclient.Client.Queues.{Request, NewQueue, create_chunk_queue}
use sas_libclient.Hdat.SuperChunk.{Chunk}
use sas_libclient.Queues.Collect.{clear_error}
use sas_libclient.Server.Answers.{Server}
use sas_libclient.Server.ReadType.{
  ParallelReadType, result_table, original_table, column_store_table, unknown,
  get_parallel_read_type,
}
use sas_libclient.Sql.Queries.{
  Columns, TableType, agg_result_table, agg_result_table_materialized, regular_table,
  make_create_table_query, make_drop_result_query, make_drop_table_query,
}

-- The arguments of ParallelReadInit.
pub record InitRequest : Type 0 where
  pub result_table_name : Text
  pub select_query : Text
  pub source_table : Option Text
  pub key_column_name : Text
  pub read_type : ParallelReadType
  pub materialized : Bool
  pub partition_by : Columns
  pub order_by : Columns

-- The table that is created for a read type other than the original table.
unfoldable pub table_type : Bool → ParallelReadType → TableType
table_type materialized column_store_table = regular_table
table_type materialized _ = if materialized then agg_result_table_materialized else agg_result_table

-- The error for a materialized result table is set, and the table is created all the same.
unfoldable pub refuse_materialized : TableType → Client → Client
unfolding set_error
refuse_materialized agg_result_table_materialized client =
    set_error
      (record {
        error_code = error_inv_arg;
        error_message = text "Cannot use Materialized Result Table";
      })
      false client
refuse_materialized _ client = client

unfoldable pub create_table :
    Server → InitRequest → ParallelReadType → Client → Outcome (ParallelReadType × Client)
unfolding table_type refuse_materialized send_ddl caught_by
create_table server r type client =
    let table = table_type r.materialized type in
    let query =
      make_create_table_query r.result_table_name r.select_query r.key_column_name table
        r.partition_by r.order_by in
    let (result, client') = send_ddl server query (refuse_materialized table client) in
    caught_by false (λ c. type) (result >>= λ rows. ok type) client'

-- What follows the choice of the read type. The exception of an unsuccessful choice leaves the
-- argument as the read type.
unfoldable pub init_with :
    Server → InitRequest → Outcome ParallelReadType → Client → Outcome (ParallelReadType × Client)
unfolding create_table caught_by
init_with server r (ok original_table) client = ok (original_table, client)
init_with server r (ok column_store_table) client = create_table server r column_store_table client
init_with server r (ok result_table) client = create_table server r result_table client
init_with server r (ok unknown) client = create_table server r unknown client
init_with server r (throws x) client = caught_by false (λ c. r.read_type) (throws x) client
init_with server r fault client = fault

unfoldable pub parallel_read_init :
    Server → InitRequest → Client → Outcome (ParallelReadType × Client)
unfolding init_with set_error
parallel_read_init server r client =
    init_with server r
      (get_parallel_read_type server client.conn.db r.select_query r.source_table r.materialized
        r.partition_by r.order_by r.read_type)
      (set_error clear_error false client)

unfoldable pub drop_table : Server → Text → Client → Outcome Client
unfolding send_ddl caught_by
drop_table server query client =
    let (result, client') = send_ddl server query client in
    caught_by true (λ c. negsuc 0) result client' >>= λ (rows, after). ok after

unfoldable pub parallel_read_free : Server → Text → ParallelReadType → Client → Outcome Client
unfolding set_error drop_table
parallel_read_free server table result_table client =
    drop_table server (make_drop_result_query table) (set_error clear_error false client)
parallel_read_free server table column_store_table client =
    drop_table server (make_drop_table_query table) (set_error clear_error false client)
parallel_read_free server table _ client = ok (set_error clear_error false client)

-- What ParallelReadGetQueue makes of the outcome of CreateChunkQueue. `none` is a null queue.
queue_or_null : Outcome (Option NewQueue × Client) → Client → Outcome (Option NewQueue × Client)
unfolding caught_by
queue_or_null (ok made) client = ok made
queue_or_null (throws x) client = caught_by true (λ c. none) (throws x) client
queue_or_null fault client = fault

unfoldable pub parallel_read_get_queue :
    Server → Request → Client → Outcome (Option NewQueue × Client)
unfolding create_chunk_queue queue_or_null set_error
parallel_read_get_queue server r client =
    let cleared = set_error clear_error false client in
    queue_or_null (create_chunk_queue server r cleared) cleared

-- utils::MoveChunk: `variable_offset` is not copied.
unfoldable pub move_chunk : Chunk → Chunk → Chunk
move_chunk out in_chunk = record in_chunk { variable_offset = out.variable_offset }

-- GetNextChunk after the queue's Get, with the caller's chunk and its partition: the result, the
-- two out parameters, and the calls of setError. GetChunkMulti, GetChunkRow and GetChunkMultipleRows
-- do the same but for the partition.
unfoldable pub get_next_chunk :
    Option Chunk → S2ClientError → ℕ → Chunk → Bool × ℕ × Chunk × List Report
unfolding move_chunk
get_next_chunk res err partition chunk =
    let reports =
      if err.error_code == 0 then [] else record { error = err; is_warning = false } ∷ [] in
    elim res [
      | none ↦ (false, partition, chunk, reports)
      | some c ↦ (true, c.partition_id, move_chunk chunk c, reports)
    ]
