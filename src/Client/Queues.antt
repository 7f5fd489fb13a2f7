-- ===== src/Client/Queues.antt =====
-- MultiPassQueue::CreateChunkQueue (queue/multi_pass_queue.cpp), and StreamingQueue::CreateChunkQueue
-- for a parallel read (queue/streaming_queue.cpp).
use sas_libclient.Base.{
  ℕ, zero, suc, ◌+◌, Bool, true, List, [], ◌∷◌, Option, none, some, if◌then◌else◌, length, Text,
  text, ℤ, pos, pos_part, Outcome, ok, throws, fault, ◌>>=◌, s2_error, error_inv_arg,
}
use mathlib.Core.Option
use sas_libclient.Client.State.{Client, set_error}
use sas_libclient.Client.Readers.{
  NewReader, ReadQuery, query, refused, no_query, Setup, create_readers,
}
use sas_libclient.Hdat.Schema.{RowSchema}
use sas_libclient.Partition.{worker_partitions, consumer_partitions, partition_consumer}
use sas_libclient.Schema.Explain.{explain_row_schema}
use sas_libclient.Server.Answers.{Server}
use sas_libclient.Server.Catalog.{TableKeys, get_aggregators, get_table_keys}
use sas_libclient.Server.ReadType.{
  ParallelReadType, result_table, original_table, column_store_table, unknown,
}
use sas_libclient.Sql.Queries.{
  Columns, make_read_result_table_query, make_read_column_store_table_query,
  make_read_original_table_query,
}

-- The arguments of CreateChunkQueue.
pub record Request : Type 0 where
  pub result_table_name : Text
  pub select_query : Text
  pub source_table : Text
  pub key_column_name : Text
  pub read_type : ParallelReadType
  pub order_by : Columns
  pub chunk_size : ℕ
  pub n_consumers : ℤ
  pub is_multi_pass : Bool

-- A ChunkQueue with its readers, before they start. `producers` has the partitions that the queue of
-- each consumer is made for; `consumer_threads_num` is `none` where the code does not set it.
pub record NewQueue : Type 0 where
  pub readers : List NewReader
  pub schema : RowSchema
  pub table : List ℤ
  pub producers : List (List ℤ)
  pub consumer_threads_num : Option ℤ

-- The queues for the consumers from `c` on, `n` of them left.
unfoldable pub queue_loop : ℕ → ℕ → ℤ → List ℤ → Outcome (List (List ℤ))
queue_loop zero c n_consumers ps = ok []
queue_loop (suc n) c n_consumers ps = consumer_partitions n_consumers (pos c) ps >>= λ mine.
    queue_loop n (c + 1) n_consumers ps >>= λ rest. ok (mine ∷ rest)

-- The queries of the readers of a multi-pass queue, by the read type.
unfoldable pub multi_pass_query :
    ParallelReadType → Request → TableKeys → Text → ℕ → Outcome ReadQuery
multi_pass_query result_table r keys server_version partition =
    make_read_result_table_query r.result_table_name partition server_version >>= λ q. ok (query q)
multi_pass_query column_store_table r keys server_version partition = ok (
    query (
      make_read_column_store_table_query r.result_table_name r.key_column_name r.order_by
        partition))
multi_pass_query original_table r keys server_version partition = ok (
    query (make_read_original_table_query r.select_query (some keys.sort_key) r.order_by partition))
multi_pass_query unknown r keys server_version partition = ok no_query

-- The queries of the readers of a streaming queue.
unfoldable pub streaming_query : ParallelReadType → Request → Text → ℕ → Outcome ReadQuery
streaming_query result_table r server_version partition =
    make_read_result_table_query r.result_table_name partition server_version >>= λ q. ok (query q)
streaming_query column_store_table r server_version partition = ok (
    refused (record {
      error_code = error_inv_arg;
      error_message = text "Cannot use ReadTypeColumnStoreTable in Single Pass";
    }))
streaming_query original_table r server_version partition =
    ok (query (make_read_original_table_query r.select_query none r.order_by partition))
streaming_query unknown r server_version partition = ok no_query

unfoldable pub reader_query : Request → TableKeys → Client → ℕ → Outcome ReadQuery
unfolding multi_pass_query streaming_query
reader_query r keys client partition =
    if r.is_multi_pass
    then multi_pass_query r.read_type r keys client.server_version partition
    else streaming_query r.read_type r client.server_version partition

-- A call whose S2ClientError is set in the client and makes the queue null.
unfoldable pub or_null :
    {A : Type 0}
    → Outcome A
    → Client
    → (A → Outcome (Option NewQueue × Client))
    → Outcome (Option NewQueue × Client)
unfolding set_error
or_null (ok a) client next = next a
or_null (throws (s2_error e)) client next = ok (none, set_error e true client)
or_null (throws x) client next = throws x
or_null fault client next = fault

-- The keys of the source table, which a multi-pass read of the original table sorts by.
unfoldable pub keys_for : ParallelReadType → Server → Request → Text → Outcome TableKeys
keys_for original_table server r db = get_table_keys server db r.source_table
keys_for _ server r db = ok (record { shard_key = []; sort_key = [] })

unfoldable pub reader_keys : Server → Request → Client → Outcome TableKeys
unfolding keys_for
reader_keys server r client =
    if r.is_multi_pass
    then keys_for r.read_type server r client.conn.db
    else ok (record { shard_key = []; sort_key = [] })

-- Both functions differ in the queries and in what they do after the readers are made. `none` is a
-- null queue.
unfoldable pub create_chunk_queue : Server → Request → Client → Outcome (Option NewQueue × Client)
unfolding queue_loop or_null reader_query reader_keys
create_chunk_queue server r client =
    worker_partitions (pos client.num_workers) (pos client.worker_id) (pos client.num_partitions)
    >>= λ ps. partition_consumer r.n_consumers ps client.num_partitions >>= λ table.
        queue_loop (pos_part r.n_consumers) 0 r.n_consumers ps >>= λ producers.
        or_null (explain_row_schema server r.select_query) client λ schema.
          or_null (get_aggregators server) client λ aggregators.
            reader_keys server r client >>= λ keys.
            let setup : Setup = record {
              server = server;
              query_of = reader_query r keys client;
              master = client.conn;
              aggregators = aggregators;
              table = table;
              queues = length producers;
              chunk_size = r.chunk_size;
            } in
            create_readers setup ps client.conn [] client >>= λ (made, client'). ok (
              Option.map
                  (λ (readers : List NewReader). record {
                    readers = readers;
                    schema = schema;
                    table = table;
                    producers = producers;
                    consumer_threads_num =
                        if r.is_multi_pass
                        then elim readers [ [] ↦ none | x ∷ xs ↦ some r.n_consumers ]
                        else none;
                  })
                  made,
              client',
            )
