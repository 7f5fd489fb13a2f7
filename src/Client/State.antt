-- ===== src/Client/State.antt =====
-- S2Client: its state, SetError, Connect and the functions of s2_client.cpp over one query.
use sas_libclient.Base.{
  ℕ, Bool, true, false, List, [], ◌∷◌, ◌++◌, if◌then◌else◌, Text, text, ℤ, negsuc, Outcome, ok,
  throws, fault, ◌>>=◌, S2ClientError, s2_error, bad_alloc, error_memory_allocation,
}
use sas_libclient.Queues.Collect.{Credentials, clear_error}
use sas_libclient.Server.Answers.{Server, connect}
use sas_libclient.Server.Catalog.{
  is_text_nocase, get_partitions_number, get_server_version, execute_ddl,
}

-- A call of the caller's setError.
pub record Report : Type 0 where
  pub error : S2ClientError
  pub is_warning : Bool

-- The fields of S2Client, with the members of its connection that others read; `reports` has the
-- calls of setError and `executed` the statements of ExecuteDDL so far, which the code does not keep.
pub record Client : Type 0 where
  pub num_partitions : ℕ
  pub server_version : Text
  pub worker_id : ℕ
  pub num_workers : ℕ
  pub conn : Credentials
  pub error : S2ClientError
  pub reports : List Report
  pub executed : List Text

unfoldable pub report : S2ClientError → Bool → Client → Client
report e is_warning client = record client {
  reports = client.reports ++ record { error = e; is_warning = is_warning } ∷ [];
}

-- `has_callback` is false for a null callback.
unfoldable pub set_error : S2ClientError → Bool → Client → Client
unfolding report
set_error e has_callback client = record (if has_callback then report e false client else client) {
  error = e;
}

-- S2Client::Connect.
unfoldable pub client_connect : Server → ℕ → ℕ → Credentials → Outcome Client
unfolding connect is_text_nocase get_partitions_number get_server_version
client_connect server worker_id num_workers creds = connect server creds >>= λ connected.
    (if is_text_nocase creds.db (text "information_schema")
      then ok 1
      else get_partitions_number server)
    >>= λ partitions. get_server_version server >>= λ server_version. ok (record {
      num_partitions = partitions;
      server_version = server_version;
      worker_id = worker_id;
      num_workers = num_workers;
      conn = creds;
      error = clear_error;
      reports = [];
      executed = [];
    })

-- ExecuteDDL on the client's connection; the statement is sent whatever comes of it.
unfoldable pub send_ddl : Server → Text → Client → Outcome ℤ × Client
unfolding execute_ddl
send_ddl server query client =
    (execute_ddl server query, record client { executed = client.executed ++ query ∷ [] })

-- The catch clauses of the C functions; an exception of another kind goes through them.
unfoldable pub caught_by {ℓ} :
    {A : Type ℓ} → Bool → (Client → A) → Outcome A → Client → Outcome (A × Client)
unfolding set_error
caught_by has_callback on_error (ok a) client = ok (a, client)
caught_by has_callback on_error (throws (s2_error e)) client =
    let client' = set_error e has_callback client in ok (on_error client', client')
caught_by has_callback on_error (throws bad_alloc) client =
    let e : S2ClientError = record {
      error_code = error_memory_allocation;
      error_message = text "Failed to allocate memory";
    } in
    let client' = set_error e has_callback client in ok (on_error client', client')
caught_by has_callback on_error (throws e) client = throws e
caught_by has_callback on_error fault client = fault

-- The C function ExecuteDDLQuery.
unfoldable pub execute_ddl_query : Server → Text → Client → Outcome (ℤ × Client)
unfolding set_error send_ddl
execute_ddl_query server query client =
    let (result, client') = send_ddl server query (set_error clear_error false client) in
    elim result [
      | ok rows ↦ ok (rows, client')
      | throws x ↦ elim x [
        | s2_error e ↦ ok (negsuc 0, set_error e true client')
        | other ↦ throws other
      ]
      | fault ↦ fault
    ]
