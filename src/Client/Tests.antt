-- ===== src/Client/Tests.antt =====
-- A client of a database with one line of EXPLAIN.
use sas_libclient.Base.{◌≡◌, refl, true, List, [], ◌∷◌, none, some, text, pos, ok, arith}
use sas_libclient.Client.State.{Client}
use sas_libclient.Client.Queues.{Request, NewQueue, create_chunk_queue, reader_keys}
use sas_libclient.Client.Api.{InitRequest}
use sas_libclient.Client.AllRead.{ReaderEach, create_chunk_queue_lem}
use sas_libclient.Hdat.Schema.{RowSchema, int64}
use sas_libclient.Queues.Collect.{Credentials, AggregatorNode, clear_error}
use sas_libclient.Schema.Explain.{explain_row_schema}
use sas_libclient.Schema.Find.{substr, copy_name}
use sas_libclient.Server.Answers.{Server, connect}
use sas_libclient.Server.Catalog.{TableKeys, get_aggregators}
use sas_libclient.Server.ReadType.{column_store_table, unknown}
use sas_libclient.Sql.Versions.{compare_versions}

abbrev server : Server
server = record {
  failure = λ q. none;
  stored = λ q. some (
      (some (text "ResultTable show_columns:[`i` bigint(20) NULL] x")
        ∷ none
        ∷ none
        ∷ none
        ∷ none
        ∷ [])
      ∷ []);
  store_failure = λ q. clear_error;
  affected_rows = λ q. pos 0;
  can_init = true;
  connect_failure = λ c. none;
  statement_failure = λ c. none;
}

abbrev creds : Credentials
creds = record {
  host = text "h";
  port = 3306;
  db = text "db";
  user = text "root";
  password = [];
  ssl_ca = none;
}

-- The second of three workers, over eight partitions.
abbrev client : Client
client = record {
  num_partitions = 8;
  server_version = text "8.0.1";
  worker_id = 1;
  num_workers = 3;
  conn = creds;
  error = clear_error;
  reports = [];
  executed = [];
}

abbrev request : Request
request = record {
  result_table_name = text "t";
  select_query = text "select i from s";
  source_table = text "s";
  key_column_name = text "i";
  read_type = column_store_table;
  order_by = [];
  chunk_size = 1000;
  n_consumers = pos 2;
  is_multi_pass = true;
}

abbrev schema : RowSchema
schema = record { type = int64; size = 8; name = text "i" } ∷ []

found_schema : explain_row_schema server request.select_query ≡ ok schema
unfolding explain_row_schema text substr copy_name
found_schema = refl

abbrev nodes : List AggregatorNode
nodes = record { host = []; port = 0; external_host = []; external_port = 0 } ∷ []

found_nodes : get_aggregators server ≡ ok nodes
unfolding get_aggregators
found_nodes = refl

abbrev no_keys : TableKeys
no_keys = record { shard_key = []; sort_key = [] }

found_keys : reader_keys server request client ≡ ok no_keys
unfolding reader_keys
found_keys = refl

higher_version : compare_versions client.server_version (text "7.8.14") ≡ ok (pos 1)
unfolding compare_versions text
higher_version = refl

reached : connect server client.conn ≡ ok tt
unfolding connect
reached = refl

create_chunk_queue_lem_example :
    (q : NewQueue) × (client' : Client) × (create_chunk_queue server request client
      ≡ ok (some q, client'))
    × (q.schema ≡ schema)
    × ReaderEach request no_keys client 2 q.readers
create_chunk_queue_lem_example =
    create_chunk_queue_lem server request client 2 schema nodes no_keys (pos 1) (omega arith)
      (omega arith) refl (omega arith) (omega arith) found_schema found_nodes found_keys refl
      higher_version reached

abbrev init_request : InitRequest
init_request = record {
  result_table_name = text "t";
  select_query = text "select i from s";
  source_table = none;
  key_column_name = text "i";
  read_type = unknown;
  materialized = true;
  partition_by = [];
  order_by = [];
}
