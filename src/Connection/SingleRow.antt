-- ===== src/Connection/SingleRow.antt =====
-- The chunks of GetSingleRow and GetMultipleRows (s2_connection.cpp).
use sas_libclient.Base.{
  ℕ, ◌^◌, ◌≤◌, ◌<◌, ◌≡◌, refl, ◌∙◌, ap, sym, true, Bool, List, [], ◌∷◌, map, Option, none, some,
  length, take, Outcome, ok, arith, u64, Text, ℤ, le→leb,
}
use sas_libclient.Hdat.Memory.{Memory}
use sas_libclient.Hdat.Schema.{RowSchema}
use sas_libclient.Hdat.SuperChunk.{Chunk, new_chunk}
use sas_libclient.Hdat.Calendar.{MysqlTime}
use sas_libclient.Hdat.Writer.{Writer, reset, write_row}
use sas_libclient.Hdat.RoundTrip.WriteRow.{row_cost, row_size_lem}
use sas_libclient.Hdat.RoundTrip.ReadBack.{write_row-read}
use sas_libclient.Hdat.Samples.{empty_reader}
use sas_libclient.Hdat.SuperChunk.{super_chunk}
use mathlib.Core.Path.{subst}
use native.Mathlib.Nat.{le_refl}
use sas_libclient.Tsv.Field.{Field}
use sas_libclient.Connection.Fetch.{Fetched, row, Connection, has_next_row, advance, next_chunk}
use sas_libclient.Connection.Chunks.{fitting}
use sas_libclient.Connection.Fill.{AllGood, cells}
use sas_libclient.Connection.NextChunk.{
  IsFresh, reset-IsValid, free_reset, Holds, Delivered, next_chunk-Delivered,
}
use sas_libclient.Connection.Rows.{
  Statements, prepare, idle, RowRequest, query_param, reads_result_table, get_multiple_rows,
  get_single_row,
}
use sas_libclient.Sql.Queries.{make_row_id_filter_query, make_point_in_time_query}

-- A statement that runs and gives these rows.
pub record Answers (st : Statements) (query : Text) (rows : List Fetched) : Type 0 where
  pub init : st.init_failure ≡ none
  pub prepares : st.prepare_failure query ≡ none
  pub executes : st.execute_failure query ≡ none
  pub has_result : st.has_fields query ≡ true
  pub gives : st.fetches query ≡ rows

prepare-row :
    (st : Statements) (query : Text) (values : List (Option (List ℕ))) (rest : List Fetched)
    → Answers st query (row values ∷ rest)
    → prepare st query true true
      ≡ ok (true, record { last_fetched = some (cells values); pending = rest })
unfolding prepare advance
prepare-row st query values rest a = rw (a.init, a.prepares, a.executes, a.has_result, a.gives) refl

out_injective :
    (a b : Chunk) (c d : Connection)
    → ◌≡◌ {A = Outcome (Chunk × Connection)} (ok (a, c)) (ok (b, d))
    → a ≡ b
out_injective a b c d e = cc

module _ (time_of : List ℕ → MysqlTime) (st : Statements) (r : RowRequest) (cs : RowSchema) where
  abbrev pub multiple_query : List ℤ → Text
  multiple_query ids =
      make_row_id_filter_query r.table (query_param r.read_type r.select) r.key r.partition ids

  -- GetMultipleRows of a statement that gives rows is NextChunk on them.
  get_multiple_rows-next_chunk :
      (ids : List ℤ) (chunk : Chunk) (values : List (Option (List ℕ))) (rest : List Fetched)
      → Answers st (multiple_query ids) (row values ∷ rest)
      → get_multiple_rows time_of st r cs ids chunk
        ≡ next_chunk time_of chunk cs
            (record { last_fetched = some (cells values); pending = rest })
  unfolding get_multiple_rows next_chunk has_next_row
  get_multiple_rows-next_chunk ids chunk values rest a =
      rw (prepare-row st (multiple_query ids) values rest a) refl

  -- When the server answers the query for the row numbers with rows that can be converted and read
  -- back, fewer than 2^64, the first of which fits the chunk, GetMultipleRows puts into a fresh
  -- chunk the longest prefix of the rows that fits, whose fields a reader of it reads back. A row
  -- can be read back if its CHAR and BINARY columns are smaller than 2^31 bytes and, where
  -- assertions are compiled in, every NULL or empty VARCHAR or TEXT field in it comes after one
  -- that is not empty.
  pub get_multiple_rows-Delivered :
      (assertions : Bool) (ids : List ℤ) (chunk : Chunk) (fresh : IsFresh chunk)
      (values : List (Option (List ℕ))) (vss : List (List (Option (List ℕ))))
      (fss : List (List Field))
      → Answers st (multiple_query ids) (map row (values ∷ vss))
      → AllGood assertions time_of cs (map cells (values ∷ vss)) fss
      → length (map cells (values ∷ vss)) < 2 ^ 64
      → row_cost cs (cells values) ≤ chunk.size
      → Delivered time_of cs chunk fresh assertions
          (fitting cs chunk.size (map cells (values ∷ vss)))
          (cells values)
          vss
          fss
          (get_multiple_rows time_of st r cs ids chunk)
  get_multiple_rows-Delivered assertions ids chunk fresh values vss fss a good count room =
      rw (get_multiple_rows-next_chunk ids chunk values (map row vss) a) (
        next_chunk-Delivered time_of cs chunk fresh assertions (cells values) vss fss good count
          room)

  abbrev pub single_request : ℤ → Text → Outcome Text
  single_request id version =
      make_point_in_time_query r.table (query_param r.read_type r.select) r.key r.partition id
        (reads_result_table r.read_type) version

  module _ (assertions : Bool) (alloc : ℕ → Option Memory) (m : Memory) (id : ℤ)
      (version query : Text) (values : List (Option (List ℕ))) (fs : List Field)
      (asks : single_request id version ≡ ok query) (a : Answers st query (row values ∷ []))
      (has_memory : alloc (row_cost cs (cells values)) ≡ some m)
      (good : AllGood assertions time_of cs (cells values ∷ []) (fs ∷ [])) where
    abbrev fresh_chunk : Chunk
    fresh_chunk = new_chunk m (row_cost cs (cells values)) 0 r.partition

    fresh_chunk-IsFresh : IsFresh fresh_chunk
    unfolding new_chunk
    fresh_chunk-IsFresh = record { no_rows = refl; no_strings = refl; small = good.2 }

    new_size : row_cost cs (cells values) ≤ fresh_chunk.size
    unfolding new_chunk
    new_size = le_refl (row_cost cs (cells values))

    all_of_it : fitting cs fresh_chunk.size (cells values ∷ []) ≡ 1
    all_of_it = rw (le→leb _ _ new_size) refl

    delivered :
        Delivered time_of cs fresh_chunk fresh_chunk-IsFresh assertions
          (fitting cs fresh_chunk.size (cells values ∷ []))
          (cells values)
          []
          (fs ∷ [])
          (next_chunk time_of fresh_chunk cs
            (record { last_fetched = some (cells values); pending = [] }))
    delivered =
        next_chunk-Delivered time_of cs fresh_chunk fresh_chunk-IsFresh assertions (cells values) []
          (fs ∷ []) good (omega arith) (new_size)

    Holds-next :
        (chunk : Chunk) (conn : Connection)
        → next_chunk time_of fresh_chunk cs
            (record { last_fetched = some (cells values); pending = [] })
          ≡ ok (chunk, conn)
        → Holds assertions cs 1 (fs ∷ []) chunk
    Holds-next chunk conn e =
        let d = delivered in
        let same : d.out ≡ chunk = out_injective _ _ _ _ (sym d.returns ∙ e) in
        subst (λ c. Holds assertions cs 1 (fs ∷ []) c) same
          (subst (λ k. Holds assertions cs k (take k (fs ∷ [])) d.out) all_of_it d.holds)

    written_row :
        (w : Writer) × (write_row time_of (cells values) (reset fresh_chunk cs) ≡ ok (true, w))
        × (w.current.row_count ≡ 1)
    unfolding reset super_chunk new_chunk
    written_row =
        let valid = reset-IsValid time_of cs fresh_chunk fresh_chunk-IsFresh in
        let (w, e, after, count, reads) =
          write_row-read time_of assertions (reset fresh_chunk cs) valid (cells values) good.0
            good.1 (omega (arith, free_reset time_of cs fresh_chunk fresh_chunk-IsFresh, new_size))
            fs empty_reader good.3 in
        (w, e, count)

    next_chunk-of_row :
        (w : Writer)
        → write_row time_of (cells values) (reset fresh_chunk cs) ≡ ok (true, w)
        → next_chunk time_of fresh_chunk cs
            (record { last_fetched = some (cells values); pending = [] })
          ≡ ok (record w.current.chunk { row_count = u64 1 }, idle)
    unfolding next_chunk
    next_chunk-of_row w e = rw e refl

    -- When the request makes a query, the server answers it with one row that can be converted and
    -- read back, and malloc gives memory of the row's size, GetSingleRow returns a chunk with that
    -- one row, from which a reader that is reset to it reads the row's fields, and leaves the
    -- connection without a pending row. A row can be read back if its CHAR and BINARY columns are
    -- smaller than 2^31 bytes and, where assertions are compiled in, every NULL or empty VARCHAR or
    -- TEXT field in it comes after one that is not empty.
    pub get_single_row_lem :
        (chunk : Chunk) × (get_single_row time_of st alloc r cs id version ≡ ok (chunk, idle))
        × Holds assertions cs 1 (fs ∷ []) chunk
    unfolding get_single_row
    get_single_row_lem =
        let (w, e, count) = written_row in
        let same : record w.current.chunk { row_count = u64 1 } ≡ w.current.chunk =
          ap (λ n. record w.current.chunk { row_count = n }) (sym count) in
        let sized = row_size_lem time_of cs (cells values) good.0 good.2 in
        (
          w.current.chunk,
          rw (asks, prepare-row st query values [] a, sized, has_memory, e) refl,
          subst (λ c. Holds assertions cs 1 (fs ∷ []) c) same
              (Holds-next _ idle (next_chunk-of_row w e)),
        )
