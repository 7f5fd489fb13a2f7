-- ===== src/Load/Tests.antt =====
-- A chunk of two rows and an Avro buffer on their way to the table `t`.
use sas_libclient.Base.{
  ◌++◌, ℕ, ◌≡◌, refl, true, false, [], ◌∷◌, none, some, map, take, text, to_text, ok, arith, Text,
}
use sas_libclient.Client.State.{Client}
use sas_libclient.Connection.Chunks.{fitting}
use sas_libclient.Connection.Fill.{cells}
use sas_libclient.Connection.Tests.{short_name, two_rows, hundred_bytes-Delivered}
use sas_libclient.Hdat.Samples.{two_columns, zeros, seven, ab, empty_reader}
use sas_libclient.Hdat.SuperChunk.{new_chunk}
use sas_libclient.Load.Sent.{Delivers, told, load_data_write_lem, load_data_avro_lem}
use sas_libclient.Load.Stream.{stream_of, tsv_infile_read, tsv_infile_read_all}
use sas_libclient.Load.Write.{Source, Loading, load_data_write, load_data_avro}
use sas_libclient.Queues.Collect.{clear_error}
use sas_libclient.Sql.Load.{Json, tsv, avro, make_load_data_query}
use sas_libclient.Sql.Names.{quoted_name, quoted_name_rest, join_more}
use sas_libclient.Tsv.Quoted.{signed}
use sas_libclient.Tsv.Render.{render_rows}
use sas_libclient.Tsv.Times.{Formats}

abbrev no_dumps : Json → Text
no_dumps j = []

abbrev no_formats : Formats
no_formats = record { date = λ t. []; date_time = λ t. []; double = λ bits. [] }

abbrev enabled : Loading
enabled = record { option_failure = none; infile_enabled = true; failure = λ query source. none }

abbrev client : Client
client = record {
  num_partitions = 8;
  server_version = text "8.0.1";
  worker_id = 1;
  num_workers = 3;
  conn = record { host = []; port = 3306; db = []; user = []; password = []; ssl_ca = none };
  error = clear_error;
  reports = [];
  executed = [];
}

abbrev tsv_text : Text
tsv_text =
    text
      "LOAD DATA LOCAL INFILE 'placeholder' INTO TABLE `t`  (`id`,`n`)  FIELDS OPTIONALLY ENCLOSED BY '\"'"

tsv_query : make_load_data_query no_dumps (text "t") two_columns tsv true ≡ ok tsv_text
unfolding make_load_data_query text quoted_name quoted_name_rest join_more
tsv_query = refl

abbrev avro_text : Text
avro_text =
    text
      "LOAD DATA LOCAL INFILE 'placeholder' INTO TABLE `t`  FORMAT AVRO (@var_0 <- %::col_0,`n` <- %::col_1)"
    ++ text " SCHEMA '' SET `id` = IF(@var_0 != -9223372036854775808,@var_0,NULL)"

avro_query : make_load_data_query no_dumps (text "t") two_columns avro false ≡ ok avro_text
unfolding make_load_data_query text quoted_name quoted_name_rest to_text
avro_query = refl

abbrev room : ℕ
room =
    fitting two_columns (new_chunk zeros 100 0 0).size
      ((seven ∷ ab ∷ []) ∷ map cells (short_name ∷ []))

load_data_write_lem_example :
    (source : Source) × (load_data_write no_dumps no_formats true enabled empty_reader
        hundred_bytes-Delivered.out two_columns
        (text "t")
        client
      ≡ (
        some (record { query = tsv_text; source = source }),
        ok (told (enabled.failure tsv_text source) client),
      ))
    × Delivers source (render_rows no_formats true two_columns (take room two_rows))
load_data_write_lem_example =
    load_data_write_lem no_dumps enabled client tsv_text refl refl no_formats true two_columns room
      (take room two_rows) hundred_bytes-Delivered.out empty_reader (text "t")
      hundred_bytes-Delivered.holds tsv_query

load_data_avro_lem_example :
    (source : Source) × (load_data_avro no_dumps enabled
        (1 ∷ 2 ∷ 3 ∷ [])
        3
        two_columns
        (text "t")
        false
        client
      ≡ (
        some (record { query = avro_text; source = source }),
        ok (told (enabled.failure avro_text source) client),
      ))
    × Delivers source (1 ∷ 2 ∷ 3 ∷ [])
load_data_avro_lem_example =
    load_data_avro_lem no_dumps enabled client avro_text refl refl (1 ∷ 2 ∷ 3 ∷ []) two_columns
      (text "t") false (omega arith) avro_query

-- Five bytes in reads of two, after which the stream has failed.
five_bytes :
    tsv_infile_read_all 4 2 (stream_of (1 ∷ 2 ∷ 3 ∷ 4 ∷ 5 ∷ []))
    ≡ ok (some (1 ∷ 2 ∷ 3 ∷ 4 ∷ 5 ∷ []))
unfolding tsv_infile_read_all tsv_infile_read signed
five_bytes = refl
