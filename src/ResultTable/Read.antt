-- ===== src/ResultTable/Read.antt =====
-- ResultTableReader::Read, run by the reading thread.
use sas_libclient.Base.{
  ℕ, zero, suc, ◌+◌, ◌^◌, ltb, Bool, ◌||◌, not, List, [], ◌∷◌, ◌++◌, Option, none, some, Outcome,
  ok, throws, fault, ◌==◌, if◌then◌else◌, S2ClientError, invalid_argument, out_of_range, bad_alloc,
  s2_error, text, to_text, error_unknown_failure, error_memory_allocation,
}
use sas_libclient.Hdat.Memory.{Memory}
use sas_libclient.Hdat.Schema.{RowSchema}
use sas_libclient.Hdat.SuperChunk.{Chunk, new_chunk}
use sas_libclient.Hdat.Calendar.{MysqlTime}
use sas_libclient.Connection.Fetch.{Connection, has_next_row, next_chunk}

-- What the thread reads and does not change. `stop` is m_stop_reading as the thread finds it at its
-- tests, and `alloc` is malloc, both by the number of the chunk; `none` is a null pointer.
pub record Settings : Type 0 where
  pub time_of : List ℕ → MysqlTime
  pub chunk_size : ℕ
  pub partition : ℕ
  pub stop : ℕ → Bool
  pub alloc : ℕ → Option Memory

abbrev pub no_error : S2ClientError
no_error = record { error_code = 0; error_message = [] }

-- The chunks pushed, in order, and how the thread's work ends: with what is in m_error, or with an
-- exception out of the try block.
abbrev pub Reading : Type 0
Reading = List Chunk × Outcome S2ClientError

alloc_error : ℕ → S2ClientError
alloc_error size = record {
  error_code = error_memory_allocation;
  error_message = text "ResultTableReader cannot allocate chunk size: " ++ to_text size;
}

-- The while loop. `fault` at no fuel is no outcome of the code; the number of the chunk is an int,
-- and `++chunkId` of the greatest one is undefined.
unfoldable pub read_loop : ℕ → Settings → RowSchema → Connection → ℕ → Reading
unfolding alloc_error
read_loop zero env schema conn id = ([], fault)
read_loop (suc fuel) env schema conn id =
    if env.stop id || not (has_next_row conn) then ([], ok no_error) else elim (env.alloc id) [
      | none ↦ ([], ok (alloc_error env.chunk_size))
      | some m ↦
          elim (next_chunk env.time_of (new_chunk m env.chunk_size id env.partition) schema conn) [
            | ok (chunk, conn') ↦ pushed chunk id (read_loop fuel env schema conn' (id + 1))
            | throws e ↦ ([], throws e)
            | fault ↦ ([], fault)
          ]
    ]
  where
    -- An empty chunk is freed, and the loop left.
    pushed : Chunk → ℕ → Reading → Reading
    pushed chunk id rest =
        if chunk.row_count == 0
        then ([], ok no_error)
        else if ltb (id + 1) (2 ^ 31)
        then (chunk ∷ rest.0, rest.1)
        else (chunk ∷ [], fault)

-- The catch clauses. An exception of another kind would leave the thread's function.
unfoldable pub caught : Outcome S2ClientError → Outcome S2ClientError
caught (ok e) = ok e
caught (throws (invalid_argument what)) =
    ok (record { error_code = error_unknown_failure; error_message = what })
caught (throws bad_alloc) = ok (record {
  error_code = error_memory_allocation;
  error_message = text "Memory allocation error";
})
caught (throws (s2_error e)) = ok e
caught (throws (out_of_range what)) = throws (out_of_range what)
caught fault = fault

-- After the loop the thread calls DeleteProducer and SetActive(false).
unfoldable pub read : ℕ → Settings → RowSchema → Connection → Reading
unfolding caught read_loop
read fuel env schema conn = let r = read_loop fuel env schema conn 0 in (r.0, caught r.1)
