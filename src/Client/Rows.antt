-- ===== src/Client/Rows.antt =====
-- MultiPassQueue::GetSingleRow and GetMultipleRows (queue/multi_pass_queue.cpp), and the C functions
-- GetChunkRow and GetChunkMultipleRows over them (parallel_read.cpp).
use sas_libclient.Base.{
  ℕ, zero, suc, Bool, true, false, List, [], ◌∷◌, ◌++◌, Option, none, some, if◌then◌else◌, ◌==◌,
  leb, get_elem?, Text, text, to_text, ℤ, pos, negsuc, Outcome, ok, throws, fault, ◌>>=◌,
  S2ClientError, s2_error, error_inv_arg, error_memory_allocation,
}
use sas_libclient.Client.Api.{move_chunk}
use sas_libclient.Client.Readers.{connect_with_retry_ma}
use sas_libclient.Client.State.{Report}
use sas_libclient.Connection.Fetch.{Connection}
use sas_libclient.Connection.Rows.{Statements, RowRequest, get_single_row, get_multiple_rows}
use sas_libclient.Hdat.Calendar.{MysqlTime}
use sas_libclient.Hdat.Memory.{Memory}
use sas_libclient.Hdat.Schema.{RowSchema}
use sas_libclient.Hdat.SuperChunk.{Chunk, new_chunk}
use sas_libclient.Queues.Collect.{Credentials, AggregatorNode, fill_credentials, clear_error}
use sas_libclient.Server.Answers.{Server}
use sas_libclient.Server.ReadType.{ParallelReadType}

-- The members of MultiPassQueue that a read of single rows uses. A consumer is its connection, known
-- by the credentials that it was made with; `none` is a null pointer.
pub record MultiPass : Type 0 where
  pub consumer_threads_num : ℤ
  pub consumers : List (Option Credentials)
  pub credentials : Credentials
  pub aggregators : List AggregatorNode
  pub schema : RowSchema
  pub result_table : Text
  pub query : Text
  pub key_column : Text
  pub read_type : ParallelReadType
  pub server_version : Text

-- What stands outside: the nodes, how each answers statements, MYSQL_TIME, and malloc.
pub record Outside : Type 0 where
  pub server : Server
  pub statements : Credentials → Statements
  pub time_of : List ℕ → MysqlTime
  pub alloc : ℕ → Option Memory

-- What a read gives: the chunk, or a null pointer, the caller's `err`, and the queue.
abbrev pub Found : Type 0
Found = Option Chunk × S2ClientError × MultiPass

abbrev pub too_large : ℕ → S2ClientError
too_large thread = record {
  error_code = error_inv_arg;
  error_message = text "threadId " ++ (to_text thread ++ text " is too large");
}

abbrev pub put : ℕ → Option Credentials → List (Option Credentials) → List (Option Credentials)
put i c [] = []
put zero c (x ∷ xs) = c ∷ xs
put (suc i) c (x ∷ xs) = x ∷ put i c xs

-- The connection of the thread, made if it is null, and the caller's `err`.
unfoldable pub thread_conn :
    Outside
    → ℕ
    → ℕ
    → Option Credentials
    → MultiPass
    → Outcome (Option Credentials × S2ClientError × MultiPass)
unfolding connect_with_retry_ma fill_credentials
thread_conn env partition thread (some conn) q = ok (some conn, clear_error, q)
thread_conn env partition thread none q =
    connect_with_retry_ma env.server (fill_credentials q.aggregators partition q.credentials)
      q.credentials clear_error
    >>= λ (conn, err). ok (conn, err, record q { consumers = put thread conn q.consumers })

-- The catch clause.
unfoldable pub caught_row : Outcome (Chunk × Connection) → MultiPass → Outcome Found
caught_row (ok (chunk, conn)) q = ok (some chunk, clear_error, q)
caught_row (throws (s2_error e)) q = ok (none, e, q)
caught_row (throws x) q = throws x
caught_row fault q = fault

-- `threadId >= m_consumer_threads_num`
unfoldable pub is_beyond : ℤ → ℕ → Bool
is_beyond (pos n) thread = leb n thread
is_beyond (negsuc n) thread = true

-- What both functions do before they read.
unfoldable pub with_conn :
    Outside → ℕ → ℕ → MultiPass → (Credentials → MultiPass → Outcome Found) → Outcome Found
unfolding thread_conn
with_conn env partition thread q read = elim (is_beyond q.consumer_threads_num thread) [
  | true ↦ ok (none, too_large thread, q)
  | false ↦ elim (get_elem? q.consumers thread) [
    | none ↦ fault
    | some cached ↦ thread_conn env partition thread cached q >>= λ (conn, err, q').
        if err.error_code == 0
        then elim conn [ none ↦ fault | some c ↦ read c q' ]
        else ok (none, err, q')
  ]
]

abbrev pub row_request : MultiPass → ℕ → RowRequest
row_request q partition = record {
  table = q.result_table;
  select = q.query;
  key = q.key_column;
  partition = partition;
  read_type = q.read_type;
}

-- The try blocks. The chunk that GetMultipleRows allocates is lost when the read throws.
unfoldable pub read_single : Outside → ℕ → ℤ → Credentials → MultiPass → Outcome Found
unfolding caught_row get_single_row
read_single env partition id c q =
    caught_row
      (get_single_row env.time_of (env.statements c) env.alloc (row_request q partition) q.schema id
        q.server_version)
      q

unfoldable pub read_multiple : Outside → ℕ → ℕ → List ℤ → Credentials → MultiPass → Outcome Found
unfolding caught_row get_multiple_rows
read_multiple env chunk_size partition ids c q = elim (env.alloc chunk_size) [
  | none ↦
      let e : S2ClientError = record {
        error_code = error_memory_allocation;
        error_message = text "GetMultipleRows cannot allocate chunk size: " ++ to_text chunk_size;
      } in
      ok (none, e, q)
  | some m ↦
      caught_row
        (get_multiple_rows env.time_of (env.statements c) (row_request q partition) q.schema ids
          (new_chunk m chunk_size 0 partition))
        q
]

-- MultiPassQueue::GetSingleRow. The `int` thread is not negative: below 0 it is out of bounds.
unfoldable pub queue_single_row : Outside → MultiPass → ℕ → ℤ → ℕ → Outcome Found
unfolding with_conn read_single
queue_single_row env q partition id thread =
    with_conn env partition thread q (read_single env partition id)

-- MultiPassQueue::GetMultipleRows.
unfoldable pub queue_multiple_rows : Outside → MultiPass → ℕ → ℕ → List ℤ → ℕ → Outcome Found
unfolding with_conn read_multiple
queue_multiple_rows env q chunk_size partition ids thread =
    with_conn env partition thread q (read_multiple env chunk_size partition ids)

-- The answer, the caller's chunk, and the calls of setError.
unfoldable pub hand_over : Option Chunk → S2ClientError → Chunk → Bool × Chunk × List Report
unfolding move_chunk
hand_over res err chunk =
    let reports : List Report =
      if err.error_code == 0 then [] else record { error = err; is_warning = false } ∷ [] in
    elim res [ none ↦ (false, chunk, reports) | some c ↦ (true, move_chunk chunk c, reports) ]

-- GetChunkRow and GetChunkMultipleRows on a MultiPassQueue.
unfoldable pub get_chunk_row :
    Outside → MultiPass → ℕ → ℤ → ℕ → Chunk → Outcome ((Bool × Chunk × List Report) × MultiPass)
unfolding queue_single_row hand_over
get_chunk_row env q partition id thread chunk =
    queue_single_row env q partition id thread >>= λ (res, err, q').
    ok (hand_over res err chunk, q')

unfoldable pub get_chunk_multiple_rows :
    Outside
    → MultiPass
    → ℕ
    → List ℤ
    → ℕ
    → Chunk
    → ℕ
    → Outcome ((Bool × Chunk × List Report) × MultiPass)
unfolding queue_multiple_rows hand_over
get_chunk_multiple_rows env q partition ids thread chunk chunk_size =
    queue_multiple_rows env q chunk_size partition ids thread >>= λ (res, err, q').
    ok (hand_over res err chunk, q')
