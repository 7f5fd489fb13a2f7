-- ===== src/Client/Created.antt =====
-- The readers that CreateChunkQueue makes (queue/multi_pass_queue.cpp, queue/streaming_queue.cpp).
use sas_libclient.Base.{
  ℕ, ◌≡◌, refl, ap, ◌∙◌, true, List, [], ◌∷◌, ◌++◌, some, Text, text, ℤ, pos_part, ok, throws,
  S2ClientError, s2_error, ◌⊎◌, inl, inr, Bool-cases, Option-cases, error_unknown_failure,
}
use mathlib.Core.List.{append_assoc, append-nil}
use sas_libclient.Client.State.{Client, report}
use sas_libclient.Client.Readers.{
  NewReader, query, Setup, create_reader, create_readers, consumer_of, not_the_node,
}
use sas_libclient.Queues.Collect.{Credentials, fill_credentials}
use sas_libclient.Server.Answers.{Server, connect}

abbrev no_connection : S2ClientError
no_connection = record {
  error_code = error_unknown_failure;
  error_message = text "Failed to init a connection using MySQL C client";
}

connect_cases :
    (server : Server) (creds : Credentials)
    → (connect server creds ≡ ok tt)
      ⊎ ((e : S2ClientError) × (connect server creds ≡ throws (s2_error e)))
unfolding connect
connect_cases server creds = elim (Bool-cases server.can_init) [
  | inr e ↦ inr (no_connection, rw e refl)
  | inl e ↦ elim (Option-cases (server.connect_failure creds)) [
    | inr (x, f) ↦ inr (x, rw (e, f, connect) refl)
    | inl f ↦ elim (Option-cases (server.statement_failure creds)) [
      | inr (x, g) ↦ inr (x, rw (e, f, g, connect) refl)
      | inl g ↦ inl (rw (e, f, g, connect) refl)
    ]
  ]
]

-- A reader is made for a partition wherever the client's own node can be reached.
create_reader_lem :
    (server : Server) (creds master : Credentials) (consumer : ℕ) (q : Text) (partition size : ℕ)
    (client : Client)
    → connect server master ≡ ok tt
    → (conn : Credentials) × (client' : Client) × (create_reader server creds master consumer q
          partition size client
        ≡ ok (
          some (record {
            conn = conn;
            query = q;
            partition = partition;
            chunk_size = size;
            consumer = consumer;
          }),
          client',
        ))
unfolding create_reader
create_reader_lem server creds master consumer q partition size client reach =
    elim (connect_cases server creds) [
      | inl e ↦ (creds, client, rw e refl)
      | inr (x, e) ↦
          (master, report (not_the_node x.error_message partition) true client, rw (e, reach) refl)
    ]

-- A partition of the loop has a query and a consumer.
abbrev pub Ready : Setup → ℤ → Type 0
Ready s p =
    (q : Text) × (c : ℕ) × (s.query_of (pos_part p) ≡ ok (query q))
    × (consumer_of s.table s.queues (pos_part p) ≡ ok c)

-- What a reader does for its partition.
abbrev pub Fits : Setup → ℤ → NewReader → Type 0
Fits s p r =
    (r.partition ≡ pos_part p)
    × (s.query_of (pos_part p) ≡ ok (query r.query))
    × (consumer_of s.table s.queues (pos_part p) ≡ ok r.consumer)
    × (r.chunk_size ≡ s.chunk_size)

abbrev pub AllReady : Setup → List ℤ → Type 0
AllReady s [] = Unit {0}
AllReady s (p ∷ ps) = Ready s p × AllReady s ps

-- A reader for each partition, in the order of the partitions.
abbrev pub AllFit : Setup → List ℤ → List NewReader → Type 0
AllFit s [] [] = Unit {0}
AllFit s [] (r ∷ rs) = ⊥
AllFit s (p ∷ ps) [] = ⊥
AllFit s (p ∷ ps) (r ∷ rs) = Fits s p r × AllFit s ps rs

pub create_readers_lem :
    (s : Setup) (ps : List ℤ) (creds : Credentials) (readers : List NewReader) (client : Client)
    → connect s.server s.master ≡ ok tt
    → AllReady s ps
    → (made : List NewReader) × (client' : Client) × (create_readers s ps creds readers client
        ≡ ok (some (readers ++ made), client'))
      × AllFit s ps made
unfolding create_readers
create_readers_lem s [] creds readers client reach ready =
    ([], client, rw (append-nil readers) refl, tt)
create_readers_lem s (p ∷ ps) creds readers client reach ((q, c, has_query, has_consumer), ready) =
    let creds' = fill_credentials s.aggregators (pos_part p) creds in
    let (conn, client', made) =
      create_reader_lem s.server creds' s.master c q (pos_part p) s.chunk_size client reach in
    let reader : NewReader = record {
      conn = conn;
      query = q;
      partition = pos_part p;
      chunk_size = s.chunk_size;
      consumer = c;
    } in
    let (rest, client'', returns, fit) =
      create_readers_lem s ps creds' (readers ++ reader ∷ []) client' reach ready in
    (
      reader ∷ rest,
      client'',
      rw (has_query, create_readers)
          (rw (has_consumer, create_readers)
            (rw made (
              returns
              ∙ ap (λ (rs : List NewReader). ok (some rs, client''))
                  (append_assoc readers (reader ∷ []) rest)))),
      ((refl, has_query, has_consumer, refl), fit),
    )
