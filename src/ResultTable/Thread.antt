-- ===== src/ResultTable/Thread.antt =====
-- ResultTableReader::PrepareRead over the binary protocol, and Read from its start
-- (result_table_reader.cpp).
use sas_libclient.Base.{
  ℕ, Bool, true, [], Option, none, some, ◌==◌, if◌then◌else◌, Text, text, Outcome, ok, throws,
  fault, S2ClientError, s2_error, error_unknown_failure,
}
use sas_libclient.Connection.Fetch.{Connection}
use sas_libclient.Connection.Rows.{Statements, prepare, idle}
use sas_libclient.Hdat.Schema.{RowSchema}
use sas_libclient.ResultTable.Read.{Settings, Reading, no_error, read}

-- The members of a reader that its thread starts from. `conn` is the connection, which a reader that
-- is not parallel has prepared before.
pub record ResultTableReader : Type 0 where
  pub schema : Option RowSchema
  pub is_parallel : Bool
  pub query : Text
  pub conn : Connection
  pub error : S2ClientError

-- A reader as CreateReader makes it.
abbrev pub new_reader : RowSchema → Text → ResultTableReader
new_reader schema query = record {
  schema = some schema;
  is_parallel = true;
  query = query;
  conn = idle;
  error = no_error;
}

-- m_error and the connection. An exception of another kind goes on.
unfoldable pub prepare_read :
    Statements → Bool → ResultTableReader → Outcome (S2ClientError × Connection)
unfolding prepare
prepare_read st prefetch r = elim (prepare st r.query true prefetch) [
  | ok made ↦ ok (r.error, made.1)
  | throws x ↦ elim x [ s2_error e ↦ ok (e, idle) | other ↦ throws other ]
  | fault ↦ fault
]

-- What follows PrepareRead.
unfoldable pub read_prepared :
    ℕ → Settings → RowSchema → Outcome (S2ClientError × Connection) → Reading
unfolding read
read_prepared fuel env schema (ok (error, conn)) =
    if error.error_code == 0 then read fuel env schema conn else ([], ok error)
read_prepared fuel env schema (throws x) = ([], throws x)
read_prepared fuel env schema fault = ([], fault)

-- The whole thread; in every case it ends with DeleteProducer and SetActive(false).
unfoldable pub run_thread : ℕ → Settings → Statements → ResultTableReader → Reading
unfolding prepare_read read_prepared
run_thread fuel env st r = elim r.schema [
  | none ↦ (
    [],
    ok (record {
      error_code = error_unknown_failure;
      error_message = text "Failed to get RowSchema from the queue";
    }),
  )
  | some schema ↦
      read_prepared fuel env schema
        (if r.is_parallel then prepare_read st true r else ok (r.error, r.conn))
]
