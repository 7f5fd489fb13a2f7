-- ===== src/Connection/Fetch.antt =====
-- Advance over the binary protocol, HasNextRow and NextChunk (s2_connection.cpp).
use sas_libclient.Base.{
  ℕ, ◌+◌, Bool, true, false, List, [], ◌∷◌, Option, none, some, length, map, Outcome, ok, throws,
  ◌>>=◌, S2ClientError, s2_error, u64,
}
use sas_libclient.Hdat.Schema.{RowSchema, Cell}
use sas_libclient.Hdat.SuperChunk.{Chunk}
use sas_libclient.Hdat.Calendar.{MysqlTime}
use sas_libclient.Hdat.Writer.{Writer, reset, write_row}

-- What the next mysql_stmt_fetch and mysql_stmt_fetch_column give: a row, `none` for NULL, or an
-- error. The end of the list is MYSQL_NO_DATA.
pub data Fetched : Type 0 where
  row : List (Option (List ℕ)) → Fetched
  failed : S2ClientError → Fetched

-- `m_last_fetched_row` with its lengths, null before the first fetch and after the last, and the
-- fetches to come.
pub record Connection : Type 0 where
  pub last_fetched : Option (List Cell)
  pub pending : List Fetched

-- A column of the row: NULL has the length 0.
unfoldable pub fetch_cell : Option (List ℕ) → Cell
fetch_cell none = record { value = none; length = 0 }
fetch_cell (some v) = record { value = some v; length = length v }

unfoldable pub has_next_row : Connection → Bool
has_next_row conn = elim conn.last_fetched [ none ↦ false | some cells ↦ true ]

unfoldable pub advance : Connection → Outcome (Bool × Connection)
unfolding fetch_cell
advance conn = elim conn.pending [
  | [] ↦ ok (false, record { last_fetched = none; pending = [] })
  | fetched ∷ rest ↦ elim fetched [
    | row values ↦ ok (true, record { last_fetched = some (map fetch_cell values); pending = rest })
    | failed e ↦ throws (s2_error e)
  ]
]

module _ (time_of : List ℕ → MysqlTime) where
  -- The loop of NextChunk and GetMultipleRows, from the row in hand and the fetches to come. Each
  -- clause is the loop's body for what Advance is going to give.
  unfoldable pub fill_chunk :
      Option (List Cell) → List Fetched → Writer → ℕ → Outcome (Writer × ℕ × Connection)
  unfolding advance
  fill_chunk none pending w n = ok (w, n, record { last_fetched = none; pending = pending })
  fill_chunk (some cells) [] w n = write_row time_of cells w >>= λ (written, w'). elim written [
    | true ↦ advance (record { last_fetched = some cells; pending = [] }) >>= λ (more, conn).
        ok (w', n + 1, conn)
    | false ↦ ok (w', n, record { last_fetched = some cells; pending = [] })
  ]
  fill_chunk (some cells) (failed e ∷ rest) w n = write_row time_of cells w >>= λ (written, w').
      elim written [
        | true ↦
            advance (record { last_fetched = some cells; pending = failed e ∷ rest })
            >>= λ (more, conn). ok (w', n + 1, conn)
        | false ↦ ok (w', n, record { last_fetched = some cells; pending = failed e ∷ rest })
      ]
  fill_chunk (some cells) (row values ∷ rest) w n = write_row time_of cells w >>= λ (written, w').
      elim written [
        | true ↦ fill_chunk (some (map fetch_cell values)) rest w' (n + 1)
        | false ↦ ok (w', n, record { last_fetched = some cells; pending = row values ∷ rest })
      ]

  -- The count of type uint64_t goes into the chunk in the end.
  unfoldable pub next_chunk : Chunk → RowSchema → Connection → Outcome (Chunk × Connection)
  unfolding fill_chunk
  next_chunk chunk schema conn =
      fill_chunk conn.last_fetched conn.pending (reset chunk schema) 0 >>= λ (w, n, conn').
      ok (record w.current.chunk { row_count = u64 n }, conn')
