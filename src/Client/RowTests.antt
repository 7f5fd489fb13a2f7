-- ===== src/Client/RowTests.antt =====
-- A queue of two threads, at a database whose aggregator cannot be connected to.
use sas_libclient.Base.{true, [], ◌∷◌, none, some, text, pos, S2ClientError, ◌==◌, if◌then◌else◌}
use sas_libclient.Client.Rows.{MultiPass, Outside}
use sas_libclient.Connection.Tests.{one_row}
use sas_libclient.Hdat.Samples.{two_columns, zeros, no_time}
use sas_libclient.Queues.Collect.{Credentials, clear_error}
use sas_libclient.Server.Answers.{Server}
use sas_libclient.Server.ReadType.{column_store_table}

abbrev no_node : S2ClientError
no_node = record { error_code = 2003; error_message = text "no route" }

abbrev one_node : Server
one_node = record {
  failure = λ q. none;
  stored = λ q. none;
  store_failure = λ q. clear_error;
  affected_rows = λ q. pos 0;
  can_init = true;
  connect_failure = λ c. if c.port == 3307 then some no_node else none;
  statement_failure = λ c. none;
}

abbrev master : Credentials
master = record {
  host = text "h";
  port = 3306;
  db = text "db";
  user = text "root";
  password = [];
  ssl_ca = none;
}

abbrev two_threads : MultiPass
two_threads = record {
  consumer_threads_num = pos 2;
  consumers = none ∷ none ∷ [];
  credentials = master;
  aggregators = record { host = text "a"; port = 3307; external_host = []; external_port = 0 } ∷ [];
  schema = two_columns;
  result_table = text "t";
  query = text "select 1";
  key_column = text "k";
  read_type = column_store_table;
  server_version = text "8.0.1";
}

abbrev world : Outside
world = record {
  server = one_node;
  statements = λ c. one_row;
  time_of = no_time;
  alloc = λ n. some zeros;
}
