-- ===== src/Client/AllRead.antt =====
-- Every partition of a worker is read (CreateChunkQueue of queue/multi_pass_queue.cpp and
-- queue/streaming_queue.cpp).
use sas_libclient.Base.{
  ℕ, ◌+◌, ◌*◌, ◌%◌, ◌^◌, ◌<◌, ◌≤◌, ◌≡◌, refl, ap, sym, ◌∙◌, List, [], ◌∷◌, none, some,
  if◌then◌else◌, length, get_elem?, text, ℤ, pos, pos_part, ok, arith, le→ltb,
}
use native.Mathlib.Nat.{mod-lt}
use mathlib.Core.Path.{subst}
use sas_libclient.Client.State.{Client}
use sas_libclient.Client.Readers.{NewReader, query, Setup, consumer_of}
use sas_libclient.Client.Queues.{
  Request, NewQueue, queue_loop, or_null, reader_query, reader_keys, create_chunk_queue,
}
use sas_libclient.Client.Created.{Ready, AllFit, create_readers_lem}
use sas_libclient.Hdat.Schema.{RowSchema}
use sas_libclient.Partition.{worker_partitions, partition_consumer}
use sas_libclient.Partition.Deal.{strided, worker_partitions-Lists}
use sas_libclient.Partition.Assign.{worker_table, length_le_total, strided-of-lt, strided-below}
use sas_libclient.Partition.Owned.{owner}
use sas_libclient.Queues.Collect.{AggregatorNode}
use sas_libclient.Schema.Explain.{explain_row_schema}
use sas_libclient.Server.Answers.{Server, connect}
use sas_libclient.Server.Catalog.{TableKeys, get_aggregators}
use sas_libclient.Sql.Versions.{compare_versions}
use sas_libclient.Client.Queries.{
  AllReady-of-each, AllFit-at, AllFit-above, consumer_of-owner, queue_loop_total, ok_injective,
  Readable, reader_query_total,
}

-- The `k`-th reader is for the worker's `k`-th partition and fills the queue of consumer `k % c`.
abbrev pub ReaderEach : Request → TableKeys → Client → ℕ → List NewReader → Type 0
ReaderEach r keys client c readers =
    ((k : ℕ)
      → client.worker_id + k * client.num_workers < client.num_partitions
      → (reader : NewReader) × (get_elem? readers k ≡ some reader)
        × (reader.partition ≡ client.worker_id + k * client.num_workers)
        × (reader.consumer ≡ k % c)
        × (reader_query r keys client reader.partition ≡ ok (query reader.query)))
    × ((k : ℕ)
        → client.num_partitions ≤ client.worker_id + k * client.num_workers
        → get_elem? readers k ≡ none)

module _ (server : Server) (r : Request) (client : Client) (c : ℕ) (schema : RowSchema)
    (aggregators : List AggregatorNode) (keys : TableKeys) (order : ℤ)
    (some_worker : 0 < client.num_workers)
    (partitions_fit : client.num_partitions + client.num_workers ≤ 2 ^ 31)
    (consumers : r.n_consumers ≡ pos c) (some_consumer : 0 < c) (consumers_fit : c ≤ 2 ^ 31)
    (has_schema : explain_row_schema server r.select_query ≡ ok schema)
    (has_aggregators : get_aggregators server ≡ ok aggregators)
    (has_keys : reader_keys server r client ≡ ok keys)
    (can_read : Readable r.read_type r.is_multi_pass)
    (has_version : compare_versions client.server_version (text "7.8.14") ≡ ok order)
    (reached : connect server client.conn ≡ ok tt) where
  abbrev n : ℕ
  n = client.num_workers

  abbrev w : ℕ
  w = client.worker_id

  abbrev total : ℕ
  total = client.num_partitions

  module _ (ps t : List ℤ) (queues : List (List ℤ))
      (dealt : worker_partitions (pos n) (pos w) (pos total) ≡ ok ps)
      (at : (k : ℕ) → get_elem? ps k ≡ strided w n total k)
      (table : partition_consumer r.n_consumers ps total ≡ ok t) (size : length t ≡ total)
      (mine : (k : ℕ) → w + k * n < total → owner t (w + k * n) ≡ pos (k % c))
      (queued : queue_loop (pos_part r.n_consumers) 0 r.n_consumers ps ≡ ok queues)
      (queues_size : length queues ≡ c) where
    abbrev setup : Setup
    setup = record {
      server = server;
      query_of = reader_query r keys client;
      master = client.conn;
      aggregators = aggregators;
      table = t;
      queues = length queues;
      chunk_size = r.chunk_size;
    }

    consumer_at :
        (k : ℕ) → w + k * n < total → consumer_of t (length queues) (w + k * n) ≡ ok (k % c)
    consumer_at k below =
        consumer_of-owner t (length queues) (w + k * n) (k % c) (omega arith) (mine k below)
          (omega (arith, mod-lt k {m = c} some_consumer))

    ready : (k : ℕ) (p : ℤ) → get_elem? ps k ≡ some p → Ready setup p
    ready k p e =
        let (here, below) = strided-below n w total some_worker k p (sym (at k) ∙ e) in
        let (q, made) = reader_query_total r keys client order (w + k * n) can_read has_version in
        subst (Ready setup) (sym here) (q, k % c, made, consumer_at k below)

    each_reader : (made : List NewReader) → AllFit setup ps made → ReaderEach r keys client c made
    each_reader made fit = (
      λ k below.
          let (reader, e, (partition, has_query, consumer, chunk_size)) =
            AllFit-at setup ps made k (pos (w + k * n)) fit
              (at k ∙ strided-of-lt n w total some_worker k below) in
          (reader, e, partition, cc (consumer_at k below), rw partition has_query),
      λ k above. AllFit-above setup ps made k fit (at k ∙ rw (le→ltb (w + k * n) total above) refl),
    )

    created :
        (q : NewQueue) × (client' : Client) × (create_chunk_queue server r client
          ≡ ok (some q, client'))
        × (q.schema ≡ schema)
        × ReaderEach r keys client c q.readers
    unfolding create_chunk_queue or_null
    created =
        let (made, client', returns, fit) =
          create_readers_lem setup ps client.conn [] client reached
            (AllReady-of-each setup ps ready) in
        (
          record {
            readers = made;
            schema = schema;
            table = t;
            producers = queues;
            consumer_threads_num =
                if r.is_multi_pass
                then elim made [ [] ↦ none | x ∷ xs ↦ some r.n_consumers ]
                else none;
          },
          client',
          rw (dealt, table, queued, has_schema, has_aggregators, has_keys, returns) refl,
          refl,
          each_reader made fit,
        )

  -- For a positive number of workers and of consumers, a worker number below the number of workers,
  -- at most 2^31 partitions and workers together, when the schema, the aggregators, the keys and
  -- the comparison of versions are answered, the read type can be read (a column store table only
  -- in a multi-pass read), and the client's own node can be connected to, whatever the other nodes
  -- do, CreateChunkQueue returns a queue with that schema, whose k-th reader runs the query of
  -- partition w + k * n, for worker w of n, and fills the queue of consumer k modulo the number of
  -- consumers, and which has no further readers.
  pub create_chunk_queue_lem :
      (q : NewQueue) × (client' : Client) × (create_chunk_queue server r client
        ≡ ok (some q, client'))
      × (q.schema ≡ schema)
      × ReaderEach r keys client c q.readers
  create_chunk_queue_lem =
      let (ps, t, dealt, table, size, mine, others) =
        worker_table n w total some_worker c some_consumer consumers_fit partitions_fit in
      let (ps', dealt', at') = worker_partitions-Lists n w total some_worker partitions_fit in
      let same : ps' ≡ ps = ok_injective ps' ps (sym dealt' ∙ dealt) in
      let at : (k : ℕ) → get_elem? ps k ≡ strided w n total k =
        λ k. ap (λ l. get_elem? l k) (sym same) ∙ at' k in
      let (queues, queued, queues_size) =
        queue_loop_total c 0 c ps some_consumer (omega arith)
          (omega (arith, length_le_total n w total some_worker ps at)) in
      created ps t queues dealt at (ap (λ x. partition_consumer x ps total) consumers ∙ table) size
        mine (ap (λ x. queue_loop (pos_part x) 0 x ps) consumers ∙ queued) queues_size
