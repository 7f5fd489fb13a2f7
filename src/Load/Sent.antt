-- ===== src/Load/Sent.antt =====
-- What the functions that load data give the database (s2_client.cpp, s2_connection.cpp).
use sas_libclient.Base.{
  ℕ, zero, suc, ◌^◌, ◌%◌, ◌<◌, ◌≡◌, refl, ap, sym, ◌∙◌, Bool, true, false, List, [], ◌∷◌, ◌++◌,
  Option, none, some, ltb, lt→ltb, le→ltb, length, take, length-take, ℤ, pos, inl, inr,
  Option-cases, Outcome, ok, Text, S2ClientError, arith,
}
use native.Mathlib.Decide.{dec_le}
use sas_libclient.Avro.Infile.{drop, infile_read_all}
use sas_libclient.Avro.Whole.{length-drop, take-append-drop, drop_nothing, infile_read_all_lem}
use sas_libclient.Client.State.{Client, report}
use sas_libclient.Connection.NextChunk.{Holds}
use sas_libclient.Hdat.Reader.{Reader}
use sas_libclient.Hdat.Schema.{RowSchema}
use sas_libclient.Hdat.SuperChunk.{Chunk}
use sas_libclient.Load.Stream.{Stream, stream_of, tsv_infile_read, tsv_infile_read_all}
use sas_libclient.Load.Write.{
  Source, tsv_source, avro_source, Loading, load_data_write, load_data_avro, reported, send_load,
}
use sas_libclient.Sql.Load.{Json, tsv, avro, make_load_data_query}
use sas_libclient.Tsv.Field.{Field}
use sas_libclient.Tsv.Quoted.{signed}
use sas_libclient.Tsv.Render.{render_rows, chunk_to_tsv-Holds}
use sas_libclient.Tsv.Times.{Formats}

-- A count of bytes that fits an int.
count_pos : (n : ℕ) → n < 2 ^ 31 → signed 32 (n % 2 ^ 32) ≡ pos n
unfolding signed
count_pos n h = let small : n % 2 ^ 32 ≡ n = omega arith in rw (small, lt→ltb n (2 ^ 31) h) refl

-- One call on a stream that has not failed.
one_read :
    (buf_len : ℕ) (rest : Text) (n : ℕ)
    → length (take buf_len rest) ≡ n
    → n < 2 ^ 31
    → tsv_infile_read buf_len (stream_of rest) ≡ (
      pos n,
      take buf_len rest,
      record { rest = drop buf_len rest; fail = ltb (length rest) buf_len; bad = false },
    )
unfolding tsv_infile_read
one_read buf_len rest n size small = rw (size, count_pos n small) refl

after_last :
    (fuel buf_len : ℕ) (rest : Text)
    → tsv_infile_read_all (suc fuel) buf_len (record { rest = rest; fail = true; bad = false })
      ≡ ok (some [])
unfolding tsv_infile_read_all tsv_infile_read signed
after_last fuel buf_len rest = refl

step :
    (fuel buf_len : ℕ) (s s' : Stream) (k : ℕ) (bytes rest : Text)
    → tsv_infile_read buf_len s ≡ (pos (suc k), bytes, s')
    → tsv_infile_read_all fuel buf_len s' ≡ ok (some rest)
    → tsv_infile_read_all (suc fuel) buf_len s ≡ ok (some (bytes ++ rest))
unfolding tsv_infile_read_all
step fuel buf_len s s' k bytes rest one more =
    rw (tsv_infile_read_all, one, one, more)
      (ap (λ (bs : Text). ok (some (bs ++ rest))) (ap (λ (p : ℤ × List ℕ × Stream). p.1) one))

stop :
    (fuel buf_len : ℕ) (s s' : Stream) (bytes : Text)
    → tsv_infile_read buf_len s ≡ (pos 0, bytes, s')
    → tsv_infile_read_all (suc fuel) buf_len s ≡ ok (some [])
unfolding tsv_infile_read_all
stop fuel buf_len s s' bytes one = rw (tsv_infile_read_all, one) refl

abbrev after_read : ℕ → Text → Stream
after_read buf_len rest = record {
  rest = drop buf_len rest;
  fail = ltb (length rest) buf_len;
  bad = false;
}

-- Some bytes are taken while there are some.
taken_some :
    (buf_len x : ℕ) (xs : Text)
    → 0 < buf_len
    → buf_len < 2 ^ 31
    → (k : ℕ) × (length (take buf_len (x ∷ xs)) ≡ suc k) × (suc k < 2 ^ 31)
taken_some (suc n) x xs h small = (length (take n xs), refl, omega (arith, length-take n xs))
taken_some zero x xs h small = absurd (omega arith)

-- Reading the stream by the callback, up to any number of bytes below 2^31 at a time, until it gives
-- none.
read_all :
    (fuel buf_len : ℕ) (rest : Text)
    → 0 < buf_len
    → buf_len < 2 ^ 31
    → length rest < fuel
    → tsv_infile_read_all fuel buf_len (stream_of rest) ≡ ok (some rest)
read_all zero buf_len rest some_room small enough = absurd (omega arith)
read_all (suc fuel) buf_len [] some_room small enough =
    stop fuel buf_len (stream_of []) _ _
      (one_read buf_len [] 0 (omega (arith, length-take {A = ℕ} buf_len [])) (omega arith))
read_all (suc zero) buf_len (x ∷ xs) some_room small enough = absurd (omega arith)
read_all (suc (suc fuel)) buf_len (x ∷ xs) some_room small enough =
    let rest = x ∷ xs in
    let taken = length-take buf_len rest in
    let (k, size, fits) = taken_some buf_len x xs some_room small in
    step (suc fuel) buf_len (stream_of rest) (after_read buf_len rest) k (take buf_len rest)
      (drop buf_len rest) (one_read buf_len rest (suc k) size fits)
      (elim (dec_le buf_len (length rest)) [
        | yes whole ↦ rw (le→ltb (length rest) buf_len whole) (
            read_all (suc fuel) buf_len (drop buf_len rest) some_room small
              (omega (arith, length-drop buf_len rest)))
        | no short ↦
            let none_left =
              drop_nothing (drop buf_len rest) (omega (arith, length-drop buf_len rest)) in
            rw (lt→ltb (length rest) buf_len (omega arith)) (
              after_last fuel buf_len (drop buf_len rest)
              ∙ ap (λ (t : Text). ok (some t)) (sym none_left))
      ])
    ∙ ap (λ (t : Text). ok (some t)) (take-append-drop buf_len rest)

abbrev pub told : Option S2ClientError → Client → Client
told none client = client
told (some e) client = report e false client

-- What a source delivers.
abbrev pub Delivers : Source → Text → Type 0
Delivers (tsv_source s) bytes =
    (fuel buf_len : ℕ)
    → 0 < buf_len
    → buf_len < 2 ^ 31
    → length bytes < fuel
    → tsv_infile_read_all fuel buf_len s ≡ ok (some bytes)
Delivers (avro_source b) bytes =
    (fuel buf_len : ℕ)
    → 0 < buf_len
    → buf_len < 2 ^ 31
    → length bytes < fuel
    → infile_read_all fuel buf_len b ≡ ok bytes

module _ (dumps : Json → Text) (server : Loading) (client : Client) (query : Text)
    (can_ask : server.option_failure ≡ none) (enabled : server.infile_enabled ≡ true) where
  reported-told :
      (source : Source)
      → reported (send_load server query source).outcome client
        ≡ ok (told (server.failure query source) client)
  unfolding reported send_load
  reported-told source = elim (Option-cases (server.failure query source)) [
    | inl e ↦ rw e refl
    | inr (x, e) ↦ rw e refl
  ]

  -- For a chunk that holds rows, a connection on which LOCAL INFILE is enabled, and a schema for
  -- which the statement can be made, LoadDataWrite sends that statement, its read callback, called
  -- for any number of bytes below 2^31 at a time until it gives none, delivers the text of all
  -- rows, and the caller is told of the error that the database reports, or of none.
  pub load_data_write_lem :
      (formats : Formats) (assertions : Bool) (cs : RowSchema) (k : ℕ) (fss : List (List Field))
      (chunk : Chunk) (r : Reader) (table : Text)
      → Holds assertions cs k fss chunk
      → make_load_data_query dumps table cs tsv true ≡ ok query
      → (source : Source) × (load_data_write dumps formats assertions server r chunk cs table client
          ≡ (
            some (record { query = query; source = source }),
            ok (told (server.failure query source) client),
          ))
        × Delivers source (render_rows formats true cs fss)
  unfolding load_data_write send_load
  load_data_write_lem formats assertions cs k fss chunk r table holds made =
      let (r', shown) = chunk_to_tsv-Holds formats assertions cs k fss chunk r holds in
      let source = tsv_source (stream_of (render_rows formats true cs fss)) in
      (
        source,
        rw (can_ask, enabled, shown, made)
            (ap (λ (o : Outcome Client). (some (record { query = query; source = source }), o))
              (reported-told source)),
        λ fuel buf_len. read_all fuel buf_len (render_rows formats true cs fss),
      )

  -- On a connection on which LOCAL INFILE is enabled and for a schema for which the statement can
  -- be made, LoadDataAvro sends that statement, its read callback, called for any number of bytes
  -- below 2^31 at a time until it gives none, delivers all bytes of the caller's buffer, which has
  -- fewer than 2^64, and the caller is told of the error that the database reports, or of none.
  pub load_data_avro_lem :
      (bytes : List ℕ) (schema : RowSchema) (table : Text) (zero_len_null : Bool)
      → length bytes < 2 ^ 64
      → make_load_data_query dumps table schema avro zero_len_null ≡ ok query
      → (source : Source) × (load_data_avro dumps server bytes
            (length bytes)
            schema
            table
            zero_len_null
            client
          ≡ (
            some (record { query = query; source = source }),
            ok (told (server.failure query source) client),
          ))
        × Delivers source bytes
  unfolding load_data_avro send_load
  load_data_avro_lem bytes schema table zero_len_null small made =
      let source = avro_source (record { bytes = bytes; size = length bytes; current_pos = 0 }) in
      (
        source,
        rw (can_ask, enabled, made)
            (ap (λ (o : Outcome Client). (some (record { query = query; source = source }), o))
              (reported-told source)),
        λ fuel buf_len some_room int_room enough.
            infile_read_all_lem bytes buf_len some_room int_room small fuel 0 (omega arith)
              (omega arith),
      )
