-- ===== src/Client/Paired.antt =====
-- The statements of a parallel read: what ParallelReadInit creates is what ParallelReadFree drops
-- (parallel_read.cpp).
use sas_libclient.Base.{◌≡◌, List, [], ◌∷◌, ◌++◌, none, Text, ok}
use sas_libclient.Client.State.{Client}
use sas_libclient.Client.Api.{InitRequest, table_type, parallel_read_init, parallel_read_free}
use sas_libclient.Queues.Collect.{clear_error}
use sas_libclient.Server.Answers.{Server}
use sas_libclient.Server.ReadType.{
  ParallelReadType, result_table, original_table, column_store_table, unknown,
}
use sas_libclient.Sql.Queries.{
  make_create_table_query, make_drop_result_query, make_drop_table_query,
}

abbrev pub create_words_of : InitRequest → ParallelReadType → Text
create_words_of r type =
    make_create_table_query r.result_table_name r.select_query r.key_column_name
      (table_type r.materialized type) r.partition_by r.order_by

-- The statements for each read type.
abbrev pub statements : InitRequest → ParallelReadType → List Text
statements r result_table =
    create_words_of r result_table ∷ make_drop_result_query r.result_table_name ∷ []
statements r column_store_table =
    create_words_of r column_store_table ∷ make_drop_table_query r.result_table_name ∷ []
statements r original_table = []
statements r unknown = []

-- The database runs all of them.
abbrev pub Runs : Server → List Text → Type 0
Runs server [] = Unit {0}
Runs server (query ∷ queries) = (server.failure query ≡ none) × Runs server queries

-- The client after statements, without an error.
abbrev sent : Client → List Text → Client
sent client queries = record client { error = clear_error; executed = client.executed ++ queries }

-- What the two calls leave.
pub record InitFree (server : Server) (r : InitRequest) (client : Client) (type : ParallelReadType)
    : Type 0 where
  pub started : Client
  pub ended : Client
  pub init : parallel_read_init server r client ≡ ok (type, started)
  pub no_error : started.error ≡ clear_error
  pub free : parallel_read_free server r.result_table_name type started ≡ ok ended
  pub still_no_error : ended.error ≡ clear_error
  pub no_report : ended.reports ≡ client.reports
  pub executed : ended.executed ≡ client.executed ++ statements r type
