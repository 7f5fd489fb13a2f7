-- ===== src/ResultTable/AllRows.antt =====
-- From the query of a reader to the chunks that its thread pushes (result_table_reader.cpp,
-- s2_connection.cpp).
use sas_libclient.Base.{
  ℕ, ◌^◌, ◌<◌, ◌≡◌, refl, Bool, true, false, inl, inr, List, [], ◌∷◌, Option, none, some, map,
  length, Text, ok,
}
use sas_libclient.Connection.Fetch.{row, Connection, advance}
use sas_libclient.Connection.Fill.{AllGood, cells}
use sas_libclient.Connection.Rows.{Statements, prepare}
use sas_libclient.Connection.SingleRow.{Answers}
use sas_libclient.Hdat.Memory.{Memory}
use sas_libclient.Hdat.Schema.{RowSchema}
use sas_libclient.ResultTable.Read.{Settings, no_error}
use sas_libclient.ResultTable.Thread.{new_reader, prepare_read, read_prepared, run_thread}
use sas_libclient.ResultTable.Whole.{HoldAll, AllFit, Ready, read-HoldAll}
use sas_libclient.Tsv.Field.{Field}

-- The connection after the first fetch.
abbrev at_first : List (List (Option (List ℕ))) → Connection
at_first [] = record { last_fetched = none; pending = [] }
at_first (values ∷ rest) = record { last_fetched = some (cells values); pending = map row rest }

prepare-Answers :
    (st : Statements) (query : Text) (vss : List (List (Option (List ℕ))))
    → Answers st query (map row vss)
    → prepare st query true true ≡ ok (true, at_first vss)
unfolding prepare advance
prepare-Answers st query [] a = rw (a.init, a.prepares, a.executes, a.has_result, a.gives) refl
prepare-Answers st query (values ∷ rest) a =
    rw (a.init, a.prepares, a.executes, a.has_result, a.gives) refl

Ready-at_first :
    (assertions : Bool) (env : Settings) (cs : RowSchema) (vss : List (List (Option (List ℕ))))
    (fss : List (List Field))
    → AllGood assertions env.time_of cs (map cells vss) fss
    → AllFit assertions env cs (map cells vss)
    → Ready assertions env cs fss (at_first vss)
Ready-at_first assertions env cs [] [] good fits = inl (refl, refl)
Ready-at_first assertions env cs [] (fs ∷ fss) good fits = absurd good
Ready-at_first assertions env cs (values ∷ rest) fss good fits =
    inr (cells values, rest, refl, good, fits)

module _ (env : Settings) (st : Statements) (cs : RowSchema) (query : Text) where
  prepared :
      (vss : List (List (Option (List ℕ))))
      → Answers st query (map row vss)
      → prepare_read st true (new_reader cs query) ≡ ok (no_error, at_first vss)
  unfolding prepare_read
  prepared vss answers = rw (prepare_read, prepare-Answers st query vss answers) refl

  -- When the server answers the query of a new reader of a parallel read with rows that can be
  -- converted and read back, fewer than 2^31, each of which fits an empty chunk, the thread is not
  -- told to stop and malloc gives memory, the thread ends without an error, with fuel above the
  -- number of rows, after pushing chunks, none of them empty, that hold all the rows in order. A
  -- row can be read back if its CHAR and BINARY columns are smaller than 2^31 bytes and, where
  -- assertions are compiled in, every NULL or empty VARCHAR or TEXT field in it comes after one
  -- that is not empty.
  pub run_thread-HoldAll :
      (assertions : Bool) (fuel : ℕ) (vss : List (List (Option (List ℕ)))) (fss : List (List Field))
      → Answers st query (map row vss)
      → AllGood assertions env.time_of cs (map cells vss) fss
      → AllFit assertions env cs (map cells vss)
      → ((n : ℕ) → env.stop n ≡ false)
      → env.chunk_size < 2 ^ 64
      → ((n : ℕ) → (m : Memory) × (env.alloc n ≡ some m))
      → length fss < 2 ^ 31
      → length fss < fuel
      → ((run_thread fuel env st (new_reader cs query)).1 ≡ ok no_error)
        × HoldAll assertions cs fss (run_thread fuel env st (new_reader cs query)).0
  unfolding run_thread read_prepared
  run_thread-HoldAll assertions fuel vss fss answers good fits never small memory bound enough =
      rw (prepared vss answers) (
        read-HoldAll assertions env cs never small memory fuel fss (at_first vss)
          (Ready-at_first assertions env cs vss fss good fits) bound enough)
