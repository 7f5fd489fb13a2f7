-- ===== src/Load/Write.antt =====
-- S2Connection::WriteChunk and WriteAvro (s2_connection.cpp), and the C functions LoadDataWrite and
-- LoadDataAvro (s2_client.cpp).
use sas_libclient.Base.{
  ℕ, Bool, true, false, List, Option, none, some, if◌then◌else◌, not, Text, text, Outcome, ok,
  throws, fault, S2ClientError, s2_error, s2_throw,
}
use sas_libclient.Avro.Infile.{AvroBuffer}
use sas_libclient.Client.Readers.{error_bad_connection}
use sas_libclient.Client.State.{Client, report}
use sas_libclient.Hdat.Reader.{Reader, reset}
use sas_libclient.Hdat.Schema.{RowSchema}
use sas_libclient.Hdat.SuperChunk.{Chunk}
use sas_libclient.Load.Stream.{Stream, stream_of}
use sas_libclient.Sql.Load.{Json, tsv, avro, make_load_data_query}
use sas_libclient.Tsv.Table.{chunk_to_tsv}
use sas_libclient.Tsv.Times.{Formats}

-- What the callbacks read from: the `caller_data` of mysql_set_local_infile_handler.
pub data Source : Type 0 where
  tsv_source : Stream → Source
  avro_source : AvroBuffer → Source

-- What mysql_get_option reports (`none` is success) and gives for MYSQL_OPT_LOCAL_INFILE, and what
-- mysql_query reports of a statement, whose data it takes from a source.
pub record Loading : Type 0 where
  pub option_failure : Option S2ClientError
  pub infile_enabled : Bool
  pub failure : Text → Source → Option S2ClientError

-- A statement that was sent, and what stood behind its callbacks.
pub record Sent : Type 0 where
  pub query : Text
  pub source : Source

-- What was sent, if anything; whether FreeLastFetched gave up the row in hand; and the outcome.
pub record Written : Type 0 where
  pub sent : Option Sent
  pub freed : Bool
  pub outcome : Outcome (Unit {0})

abbrev pub bad_chunk : ℕ
bad_chunk = 8

abbrev pub infile_disabled : S2ClientError
infile_disabled = record {
  error_code = error_bad_connection;
  error_message = text "LOAD DATA INFILE LOCAL is disabled on the server side";
}

abbrev unsent : Bool → Outcome (Unit {0}) → Written
unsent freed outcome = record { sent = none; freed = freed; outcome = outcome }

-- The two tests in front of the code that loads.
unfoldable pub infile_checked : Loading → Written → Written
infile_checked server next = elim server.option_failure [
  | some e ↦ unsent true (throws (s2_error e))
  | none ↦
      if not server.infile_enabled then unsent true (throws (s2_error infile_disabled)) else next
]

-- The statement goes to the database.
unfoldable pub send_load : Loading → Text → Source → Written
send_load server query source = record {
  sent = some (record { query = query; source = source });
  freed = false;
  outcome = elim (server.failure query source) [ none ↦ ok tt | some e ↦ throws (s2_error e) ];
}

unfoldable pub load_with : Loading → Outcome Text → Source → Written
unfolding send_load
load_with server (ok query) source = send_load server query source
load_with server (throws x) source = unsent false (throws x)
load_with server fault source = unsent false fault

module _ (dumps : Json → Text) where
  module _ (formats : Formats) (assertions : Bool) where
    -- What follows ChunkToTSV.
    after_tsv : Loading → Outcome (Bool × Reader × Text) → RowSchema → Text → Written
    unfolding load_with
    after_tsv server (ok (true, r, out)) schema table =
        load_with server (make_load_data_query dumps table schema tsv true)
          (tsv_source (stream_of out))
    after_tsv server (ok (false, r, out)) schema table = unsent false (s2_throw bad_chunk r.error)
    after_tsv server (throws x) schema table = unsent false (throws x)
    after_tsv server fault schema table = unsent false fault

    -- `r` is m_chunk_reader, which every call resets.
    unfoldable pub write_chunk : Loading → Reader → Chunk → RowSchema → Text → Written
    unfolding infile_checked after_tsv
    write_chunk server r chunk schema table = infile_checked server (
        after_tsv server (chunk_to_tsv formats assertions chunk.row_count (reset chunk schema r))
          schema table)

  unfoldable pub write_avro : Loading → AvroBuffer → RowSchema → Text → Bool → Written
  unfolding infile_checked load_with
  write_avro server source schema table zero_len_null = infile_checked server (
      load_with server (make_load_data_query dumps table schema avro zero_len_null)
        (avro_source source))

-- The catch clause of the C functions: the error goes to the callback alone.
unfoldable pub reported : Outcome (Unit {0}) → Client → Outcome Client
unfolding report
reported (ok done) client = ok client
reported (throws (s2_error e)) client = ok (report e false client)
reported (throws x) client = throws x
reported fault client = fault

module _ (dumps : Json → Text) where
  unfoldable pub load_data_write :
      Formats
      → Bool
      → Loading
      → Reader
      → Chunk
      → RowSchema
      → Text
      → Client
      → Option Sent × Outcome Client
  unfolding write_chunk reported
  load_data_write formats assertions server r chunk schema table client =
      let w = write_chunk dumps formats assertions server r chunk schema table in
      (w.sent, reported w.outcome client)

  -- S2Client::LoadDataAvro makes the buffer.
  unfoldable pub load_data_avro :
      Loading → List ℕ → ℕ → RowSchema → Text → Bool → Client → Option Sent × Outcome Client
  unfolding write_avro reported
  load_data_avro server bytes size schema table zero_len_null client =
      let w =
        write_avro dumps server (record { bytes = bytes; size = size; current_pos = 0 }) schema
          table zero_len_null in
      (w.sent, reported w.outcome client)
