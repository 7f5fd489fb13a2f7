-- ===== src/Client/Readers.antt =====
-- ResultTableReader::CreateReader (result_table_reader.cpp), S2Connection::ConnectWithRetryMA
-- (s2_connection.cpp), and the loop of CreateChunkQueue that makes a reader for each partition.
use sas_libclient.Base.{
  ℕ, true, false, List, [], ◌∷◌, ◌++◌, Option, none, some, if◌then◌else◌, get_elem?, ltb, Text,
  text, to_text, ℤ, pos, negsuc, pos_part, Outcome, ok, throws, fault, ◌>>=◌, S2ClientError,
  s2_error,
}
use sas_libclient.Client.State.{Client, report, set_error}
use sas_libclient.Queues.Collect.{Credentials, AggregatorNode, fill_credentials}
use sas_libclient.Server.Answers.{Server, connect}

-- S2C_ERROR_BAD_CONNECTION
abbrev pub error_bad_connection : ℕ
error_bad_connection = 6

-- `none` is a null connection, with the error that the caller's `err` gets; without one it keeps its
-- own. A connection is known by the credentials that it was made with.
unfoldable pub connect_with_retry_ma :
    Server
    → Credentials
    → Credentials
    → S2ClientError
    → Outcome (Option Credentials × S2ClientError)
unfolding connect
connect_with_retry_ma server creds master err = elim (connect server creds) [
  | ok done ↦ ok (some creds, err)
  | throws x ↦ elim x [
    | s2_error e ↦ elim (connect server master) [
      | ok done ↦ ok (some master, err)
      | throws y ↦ elim y [ s2_error e' ↦ ok (none, e') | other ↦ throws other ]
      | fault ↦ fault
    ]
    | other ↦ throws other
  ]
  | fault ↦ fault
]

-- A reader before it starts: its connection, what it is going to read, and the consumer whose queue
-- it fills.
pub record NewReader : Type 0 where
  pub conn : Credentials
  pub query : Text
  pub partition : ℕ
  pub chunk_size : ℕ
  pub consumer : ℕ

abbrev pub not_the_node : Text → ℕ → S2ClientError
not_the_node what partition = record {
  error_code = error_bad_connection;
  error_message =
      text "Cannot connect using data from information_schema.mv_nodes: "
      ++ (what ++ (text " partition: " ++ (to_text partition ++ text "\n")));
}

abbrev not_the_master : Text → S2ClientError
not_the_master what = record {
  error_code = error_bad_connection;
  error_message =
      text "Cannot connect to server using data from CAS worker's S2Client: "
      ++ (what ++ text "\n");
}

-- After the connection to the client's own node, if the one to the partition's node has failed.
after_master : Outcome (Unit {0}) → NewReader → Client → Outcome (Option NewReader × Client)
unfolding report
after_master (ok done) reader client = ok (some reader, client)
after_master (throws (s2_error e)) reader client =
    ok (none, report (not_the_master e.error_message) false client)
after_master (throws x) reader client = throws x
after_master fault reader client = fault

-- After the connection to the node of the partition; `reader` is what is made with it, and
-- `other_reader` with the connection to the client's own node, `master`.
after_node :
    Outcome (Unit {0})
    → Outcome (Unit {0})
    → NewReader
    → NewReader
    → Client
    → Outcome (Option NewReader × Client)
unfolding report after_master
after_node (ok done) master reader other_reader client = ok (some reader, client)
after_node (throws (s2_error e)) master reader other_reader client =
    after_master master other_reader
      (report (not_the_node e.error_message reader.partition) true client)
after_node (throws x) master reader other_reader client = throws x
after_node fault master reader other_reader client = fault

-- `none` is a null reader.
unfoldable pub create_reader :
    Server
    → Credentials
    → Credentials
    → ℕ
    → Text
    → ℕ
    → ℕ
    → Client
    → Outcome (Option NewReader × Client)
unfolding connect after_node after_master
create_reader server creds master consumer query partition chunk_size client =
    let reader : Credentials → NewReader = λ conn. record {
      conn = conn;
      query = query;
      partition = partition;
      chunk_size = chunk_size;
      consumer = consumer;
    } in
    after_node (connect server creds) (connect server master) (reader creds) (reader master) client

-- What the switch over the read type gives for a partition: a query, or a null queue, with an error
-- set or without.
pub data ReadQuery : Type 0 where
  query : Text → ReadQuery
  refused : S2ClientError → ReadQuery
  no_query : ReadQuery

-- `m_consumer_queues[m_partition_consumer[partition]]`, both vectors in bounds.
unfoldable pub consumer_of : List ℤ → ℕ → ℕ → Outcome ℕ
consumer_of table queues partition = elim (get_elem? table partition) [
  | none ↦ fault
  | some c ↦ elim c [ negsuc n ↦ fault | pos n ↦ if ltb n queues then ok n else fault ]
]

-- What the loop over the partitions does not change.
pub record Setup : Type 0 where
  pub server : Server
  pub query_of : ℕ → Outcome ReadQuery
  pub master : Credentials
  pub aggregators : List AggregatorNode
  pub table : List ℤ
  pub queues : ℕ
  pub chunk_size : ℕ

-- The loop over the partitions, with the credentials that FillCredentials changes and the readers
-- so far. `none` is a null queue. The partitions are those of WorkerPartitions, not negative.
unfoldable pub create_readers :
    Setup
    → List ℤ
    → Credentials
    → List NewReader
    → Client
    → Outcome (Option (List NewReader) × Client)
unfolding create_reader consumer_of set_error fill_credentials
create_readers s [] creds readers client = ok (some readers, client)
create_readers s (p ∷ ps) creds readers client = s.query_of (pos_part p) >>= λ read_query.
    elim read_query [
      | no_query ↦ ok (none, client)
      | refused e ↦ ok (none, set_error e true client)
      | query text_of ↦
          let creds' = fill_credentials s.aggregators (pos_part p) creds in
          consumer_of s.table s.queues (pos_part p) >>= λ consumer.
          create_reader s.server creds' s.master consumer text_of (pos_part p) s.chunk_size client
          >>= λ (made, client'). elim made [
            | none ↦ ok (none, client')
            | some reader ↦ create_readers s ps creds' (readers ++ reader ∷ []) client'
          ]
    ]
