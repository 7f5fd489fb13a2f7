-- ===== src/Connection/NextChunk.antt =====
-- S2Connection::NextChunk (s2_connection.cpp) on a fresh chunk.
use mathlib.Core.Path.{subst}
use sas_libclient.Base.{
  ℕ, inl, ◌+◌, ◌-◌, ◌*◌, ◌^◌, ◌≤◌, ◌<◌, ◌≡◌, refl, ◌∙◌, ap, true, inr, Bool, List, [], ◌∷◌, map,
  Option, some, length, take, Outcome, ok, throws, arith, ◌==◌, u64, le→leb, invalid_argument,
}
use sas_libclient.Hdat.Schema.{RowSchema, Cell}
use sas_libclient.Hdat.SuperChunk.{Chunk, super_chunk}
use sas_libclient.Hdat.Calendar.{MysqlTime}
use sas_libclient.Hdat.Reader.{Reader, reset as reset_reader}
use sas_libclient.Hdat.Writer.{Writer, reset, write_row, too_small}
use sas_libclient.Hdat.Appended.{IsValid}
use sas_libclient.Hdat.RoundTrip.Rows.{row_width, row_tail, RowSane}
use sas_libclient.Hdat.RoundTrip.Fields.{Gives}
use sas_libclient.Hdat.RoundTrip.WriteRow.{row_cost, free, write_row-full}
use sas_libclient.Tsv.Field.{Field}
use sas_libclient.Connection.Fetch.{Fetched, row, failed, Connection, fill_chunk, next_chunk}
use sas_libclient.Connection.Chunks.{fitting, read_rows}
use sas_libclient.Connection.Fill.{AllGood, cells, conn_at, fill_chunk-Filled}

-- A chunk as NewChunk makes it.
pub record IsFresh (chunk : Chunk) : Type 0 where
  pub no_rows : chunk.row_count ≡ 0
  pub no_strings : chunk.variable_offset ≡ 0
  pub small : chunk.size < 2 ^ 64

-- A chunk of `k` rows, which any reader that is reset to it gives back.
pub record Holds (assertions : Bool) (cs : RowSchema) (k : ℕ) (fss : List (List Field))
    (chunk : Chunk) : Type 0 where
  pub counted : chunk.row_count ≡ k
  pub reads :
      (r : Reader)
      → Gives
          (k * row_width cs)
          fss
          (reset_reader chunk cs r)
          (read_rows assertions cs k (reset_reader chunk cs r))

module _ (time_of : List ℕ → MysqlTime) (cs : RowSchema) where
  fitting_le : (xs : List (List Cell)) (space : ℕ) → fitting cs space xs ≤ length xs
  fitting_le [] space = omega arith
  fitting_le (x ∷ xs) space =
      let ih = fitting_le xs (space - (row_width cs + row_tail cs x)) in ground arith

  -- A fresh chunk takes the row in hand, if it is one that fits.
  pub fitting_some :
      (x : List Cell) (xs : List (List Cell)) (space : ℕ)
      → row_cost cs x ≤ space
      → 0 < fitting cs space (x ∷ xs)
  fitting_some x xs space h = rw (le→leb _ _ h) (omega arith)

  module _ (chunk : Chunk) (fresh : IsFresh chunk) where
    pub reset-IsValid : IsValid (reset chunk cs)
    unfolding reset super_chunk
    reset-IsValid = record {
      fits = omega (arith, fresh.no_strings);
      same_size = refl;
      small = fresh.small;
      first = inl refl;
    }

    pub free_reset : free (reset chunk cs) ≡ chunk.size
    unfolding reset super_chunk
    free_reset = omega (arith, fresh.no_strings)

    -- The chunk after the loop.
    abbrev closed : Writer → ℕ → Chunk
    closed w n = record w.current.chunk { row_count = u64 (0 + n) }

    -- The chunk and the connection that NextChunk leaves.
    pub record Delivered (assertions : Bool) (k : ℕ) (x : List Cell)
        (vss : List (List (Option (List ℕ)))) (fss : List (List Field))
        (r : Outcome (Chunk × Connection)) : Type 0 where
      pub out : Chunk
      pub returns : r ≡ ok (out, conn_at k x vss)
      pub holds : Holds assertions cs k (take k fss) out

    -- When all rows, fewer than 2^64, are sane, convert and can be read back, and the one in hand
    -- fits the chunk, NextChunk on a fresh chunk takes the longest run of rows, from the one in
    -- hand on, that passes the space check, sets the row count to their number, leaves the next row
    -- in hand, and any reader that is reset to the chunk gets back the fields of those rows. A row
    -- can be read back if its CHAR and BINARY columns are smaller than 2^31 bytes and, where
    -- assertions are compiled in, every NULL or empty VARCHAR or TEXT field in it comes after one
    -- that is not empty.
    pub next_chunk-Delivered :
        (assertions : Bool) (x : List Cell) (vss : List (List (Option (List ℕ))))
        (fss : List (List Field))
        → AllGood assertions time_of cs (x ∷ map cells vss) fss
        → length (x ∷ map cells vss) < 2 ^ 64
        → row_cost cs x ≤ chunk.size
        → Delivered assertions
            (fitting cs chunk.size (x ∷ map cells vss))
            x
            vss
            fss
            (next_chunk time_of chunk cs (record { last_fetched = some x; pending = map row vss }))
    unfolding next_chunk reset super_chunk
    next_chunk-Delivered assertions x vss fss good count room =
        let f =
          fill_chunk-Filled assertions time_of cs x vss fss (reset chunk cs) 0 reset-IsValid refl
            good (omega (arith, fresh.no_rows, count)) (inr (omega (arith, free_reset, room))) in
        let bound = fitting_le (x ∷ map cells vss) (free (reset chunk cs)) in
        let k_same : fitting cs (free (reset chunk cs)) (x ∷ map cells vss)
            ≡ fitting cs chunk.size (x ∷ map cells vss) =
          ap (λ space. fitting cs space (x ∷ map cells vss)) free_reset in
        subst
          (λ k.
            Delivered assertions k x vss fss (
              next_chunk time_of chunk cs
                (record { last_fetched = some x; pending = map row vss })))
          k_same
          (record {
            out = closed f.out (fitting cs (free (reset chunk cs)) (x ∷ map cells vss));
            returns = rw f.returns refl;
            holds = record {
              counted = omega (arith, bound, count);
              reads = λ r.
                  unfold reset_reader in
                  f.done.reads (reset_reader (closed f.out _) cs r)
                    (f.done.still_valid.same_size ∙ f.done.same_size) refl (λ i a b. refl)
                    (λ i a b. refl);
            };
          })

    -- NextChunk throws std::invalid_argument with both sizes when the row in hand is larger than an
    -- empty chunk, whatever comes after it.
    pub next_chunk-too_small :
        (x : List Cell) (pending : List Fetched)
        → RowSane time_of cs x
        → row_cost cs x < 2 ^ 64
        → chunk.size < row_cost cs x
        → next_chunk time_of chunk cs (record { last_fetched = some x; pending = pending })
          ≡ throws (invalid_argument (too_small chunk.size (row_cost cs x)))
    unfolding next_chunk fill_chunk
    next_chunk-too_small x pending sane small large =
        elim pending
          as (λ p.
            next_chunk time_of chunk cs (record { last_fetched = some x; pending = p })
            ≡ throws (invalid_argument (too_small chunk.size (row_cost cs x)))) [
              | [] ↦ rw refused refl
              | fetched ∷ rest ↦
                  elim fetched
                    as (λ p.
                      next_chunk time_of chunk cs
                        (record { last_fetched = some x; pending = p ∷ rest })
                      ≡ throws (invalid_argument (too_small chunk.size (row_cost cs x)))) [
                        | row values ↦ rw refused refl
                        | failed e ↦ rw refused refl
                      ]
            ]
      where
        refused :
            write_row time_of x (reset chunk cs)
            ≡ throws (invalid_argument (too_small chunk.size (row_cost cs x)))
        refused =
            let empty : ((reset chunk cs).current.row_count == 0) ≡ true =
              unfold reset super_chunk in rw fresh.no_rows in
            unfold reset super_chunk in
            (rw empty at (
              write_row-full time_of (reset chunk cs) reset-IsValid x sane small
                (omega (arith, free_reset, large))))
