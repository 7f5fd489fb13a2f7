-- ===== src/ResultTable/Whole.antt =====
-- The rows of the query and the chunks that ResultTableReader::Read pushes (result_table_reader.cpp).
use mathlib.Core.Path.{subst}
use sas_libclient.Base.{
  ℕ, zero, suc, ◌+◌, ◌^◌, ◌≤◌, ◌<◌, ◌≡◌, refl, ap, sym, Bool, false, ◌⊎◌, inl, inr, List, [], ◌∷◌,
  map, Option, none, some, length, take, ok, arith, lt→ltb, ◌==◌,
}
use sas_libclient.Hdat.Memory.{Memory}
use sas_libclient.Hdat.Schema.{RowSchema, Cell}
use sas_libclient.Hdat.SuperChunk.{Chunk, new_chunk}
use sas_libclient.Hdat.RoundTrip.WriteRow.{row_cost}
use sas_libclient.Tsv.Field.{Field}
use sas_libclient.Connection.Fetch.{Fetched, row, Connection, has_next_row, next_chunk}
use sas_libclient.Connection.Chunks.{fitting}
use sas_libclient.Connection.Fill.{AllGood, cells, conn_at}
use sas_libclient.Connection.NextChunk.{IsFresh, Holds, next_chunk-Delivered, fitting_some}
use sas_libclient.ResultTable.Read.{Settings, no_error, read_loop, caught, read}

abbrev pub drop {ℓ} : {A : Type ℓ} → ℕ → List A → List A
drop zero xs = xs
drop (suc n) [] = []
drop (suc n) (x ∷ xs) = drop n xs

-- The chunks, none of them empty, hold the rows `fss` one after the other.
abbrev pub HoldAll : Bool → RowSchema → List (List Field) → List Chunk → Type 0
HoldAll assertions cs fss [] = fss ≡ []
HoldAll assertions cs fss (c ∷ chunks) =
    (0 < c.row_count)
    × Holds assertions cs c.row_count (take c.row_count fss) c
    × HoldAll assertions cs (drop c.row_count fss) chunks

module _ (assertions : Bool) (env : Settings) (cs : RowSchema) where
  -- Every row fits into an empty chunk.
  abbrev pub AllFit : List (List Cell) → Type 0
  AllFit [] = Unit {0}
  AllFit (x ∷ xs) = (row_cost cs x ≤ env.chunk_size) × AllFit xs

  -- The connection has the rows that give `fss` before it.
  abbrev pub Ready : List (List Field) → Connection → Type 0
  Ready fss conn =
      ((conn ≡ record { last_fetched = none; pending = [] }) × (fss ≡ []))
      ⊎ ((x : List Cell) × (vss : List (List (Option (List ℕ)))) × (conn
            ≡ record { last_fetched = some x; pending = map row vss })
          × AllGood assertions env.time_of cs (x ∷ map cells vss) fss
          × AllFit (x ∷ map cells vss))

  good_length :
      (xs : List (List Cell)) (fss : List (List Field))
      → AllGood assertions env.time_of cs xs fss
      → length xs ≡ length fss
  good_length [] [] g = refl
  good_length [] (fs ∷ fss) g = absurd g
  good_length (x ∷ xs) [] g = absurd g
  good_length (x ∷ xs) (fs ∷ fss) (a, b, c, d, g) = ap suc (good_length xs fss g)

  drop_nil : (k : ℕ) → drop {A = List Field} k [] ≡ []
  drop_nil zero = refl
  drop_nil (suc k) = refl

  Ready-after :
      (k : ℕ) (x : List Cell) (vss : List (List (Option (List ℕ)))) (fss : List (List Field))
      → AllGood assertions env.time_of cs (x ∷ map cells vss) fss
      → AllFit (x ∷ map cells vss)
      → Ready (drop k fss) (conn_at k x vss)
  Ready-after zero x vss fss g f = inr (x, vss, refl, g, f)
  Ready-after (suc k) x vss [] g f = absurd g
  Ready-after (suc k) x [] (fs ∷ []) g f = inl (refl, drop_nil k)
  Ready-after (suc k) x [] (fs ∷ fs' ∷ fss) (a, b, c, d, g) f = absurd g
  Ready-after (suc k) x (v ∷ vss) (fs ∷ fss) (a, b, c, d, g) (p, f) =
      Ready-after k (cells v) vss fss g f

  length-drop :
      (k : ℕ) (fss : List (List Field)) → 0 < k → 0 < length fss → length (drop k fss) < length fss
  length-drop zero fss p q = absurd (omega arith)
  length-drop (suc k) [] p q = absurd (omega arith)
  length-drop (suc zero) (fs ∷ fss) p q = omega arith
  length-drop (suc (suc k)) (fs ∷ []) p q = omega arith
  length-drop (suc (suc k)) (fs ∷ fs' ∷ fss) p q =
      omega (arith, length-drop (suc k) (fs' ∷ fss) (omega arith) (omega arith))

  new_chunk-IsFresh :
      (m : Memory) (id : ℕ)
      → env.chunk_size < 2 ^ 64
      → IsFresh (new_chunk m env.chunk_size id env.partition)
  unfolding new_chunk
  new_chunk-IsFresh m id small = record { no_rows = refl; no_strings = refl; small = small }

  -- The next chunk has the rows that fit, and at least one.
  first_chunk :
      (m : Memory) (id : ℕ) (x : List Cell) (vss : List (List (Option (List ℕ))))
      (fss : List (List Field)) (k : ℕ)
      → env.chunk_size < 2 ^ 64
      → AllGood assertions env.time_of cs (x ∷ map cells vss) fss
      → AllFit (x ∷ map cells vss)
      → length fss < 2 ^ 64
      → fitting cs env.chunk_size (x ∷ map cells vss) ≡ k
      → (out : Chunk) × (next_chunk env.time_of
            (new_chunk m env.chunk_size id env.partition)
            cs
            (record { last_fetched = some x; pending = map row vss })
          ≡ ok (out, conn_at k x vss))
        × (0 < k)
        × Holds assertions cs k (take k fss) out
  unfolding new_chunk
  first_chunk m id x vss fss k small good (fit, fits) bound e =
      let d =
        next_chunk-Delivered env.time_of cs _ (new_chunk-IsFresh m id small) assertions x vss fss
          good (omega (arith, good_length (x ∷ map cells vss) fss good)) fit in
      let pos = fitting_some env.time_of cs x (map cells vss) env.chunk_size fit in
      rw (← e) (d.out, d.returns, pos, d.holds)

  module _ (never : (n : ℕ) → env.stop n ≡ false) where
    -- The connection has no more rows.
    ends :
        (fuel id : ℕ)
        → read_loop (suc fuel) env cs (record { last_fetched = none; pending = [] }) id
          ≡ ([], ok no_error)
    unfolding read_loop has_next_row
    ends fuel id = rw (never id) refl

    -- One chunk more.
    goes_on :
        (fuel id : ℕ) (x : List Cell) (pending : List Fetched) (m : Memory) (out : Chunk)
        (conn' : Connection)
        → env.alloc id ≡ some m
        → next_chunk env.time_of
            (new_chunk m env.chunk_size id env.partition)
            cs
            (record { last_fetched = some x; pending = pending })
          ≡ ok (out, conn')
        → 0 < out.row_count
        → id + 1 < 2 ^ 31
        → read_loop (suc fuel) env cs (record { last_fetched = some x; pending = pending }) id ≡ (
          out ∷ (read_loop fuel env cs conn' (id + 1)).0,
          (read_loop fuel env cs conn' (id + 1)).1,
        )
    unfolding read_loop has_next_row
    goes_on fuel id x pending m out conn' a e p in_int =
        let some_rows : (out.row_count == 0) ≡ false = ground arith in
        rw (never id, a, e, some_rows, lt→ltb _ _ in_int) refl

    module _ (small : env.chunk_size < 2 ^ 64)
        (memory : (n : ℕ) → (m : Memory) × (env.alloc n ≡ some m)) where
      pub read_loop-HoldAll :
          (fuel : ℕ) (fss : List (List Field)) (conn : Connection) (id : ℕ)
          → Ready fss conn
          → id + length fss < 2 ^ 31
          → length fss < fuel
          → ((read_loop fuel env cs conn id).1 ≡ ok no_error)
            × HoldAll assertions cs fss (read_loop fuel env cs conn id).0
      read_loop-HoldAll zero fss conn id ready bound enough = absurd (omega arith)
      read_loop-HoldAll (suc fuel) fss conn id (inl (e, nothing)) bound enough =
          rw (e, ends fuel id) (refl, nothing)
      read_loop-HoldAll (suc fuel) fss conn id (inr (x, vss, e, good, fit)) bound enough =
          let (m, a) = memory id in
          let k = fitting cs env.chunk_size (x ∷ map cells vss) in
          let (out, returns, pos, holds) =
            first_chunk m id x vss fss k small good fit (omega arith) refl in
          let some_rows : 0 < out.row_count = omega (arith, pos, holds.counted) in
          let same = good_length (x ∷ map cells vss) fss good in
          let fewer = length-drop k fss pos (omega (arith, same)) in
          let ih =
            read_loop-HoldAll fuel (drop k fss) (conn_at k x vss) (id + 1)
              (Ready-after k x vss fss good fit) (omega (arith, fewer)) (omega (arith, fewer)) in
          let (here, later) =
            subst
              (λ n.
                Holds assertions cs n (take n fss) out
                × HoldAll assertions cs (drop n fss)
                    (read_loop fuel env cs (conn_at k x vss) (id + 1)).0)
              (sym holds.counted) (holds, ih.1) in
          rw
            (
              e,
              goes_on fuel id x (map row vss) m out (conn_at k x vss) a returns some_rows
                  (omega (arith, fewer)),
            )
            (ih.0, (some_rows, here, later))

      -- On a connection whose rows, fewer than 2^31, are sane, all convert, can be read back and
      -- each fit into an empty chunk, with memory for every chunk and no request to stop, the
      -- reading thread ends without an error, with fuel above the number of rows, and the chunks it
      -- has pushed, none of them empty, hold exactly the rows of the query, in order, as the
      -- readers give them back. A row can be read back if its CHAR and BINARY columns are smaller
      -- than 2^31 bytes and, where assertions are compiled in, every NULL or empty VARCHAR or TEXT
      -- field in it comes after one that is not empty.
      pub read-HoldAll :
          (fuel : ℕ) (fss : List (List Field)) (conn : Connection)
          → Ready fss conn
          → length fss < 2 ^ 31
          → length fss < fuel
          → ((read fuel env cs conn).1 ≡ ok no_error)
            × HoldAll assertions cs fss (read fuel env cs conn).0
      unfolding read
      read-HoldAll fuel fss conn ready bound enough =
          let (e, held) = read_loop-HoldAll fuel fss conn 0 ready (omega arith) enough in
          (rw e (unfold caught in refl), held)
