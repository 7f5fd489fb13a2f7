-- ===== src/ResultTable/Tests.antt =====
-- The reading thread at two rows and a chunk size that holds one.
use sas_libclient.Base.{◌≡◌, refl, inr, true, false, [], ◌∷◌, some, ok, arith, text}
use sas_libclient.Hdat.Samples.{no_time, two_columns, zeros, seven, ab}
use sas_libclient.Connection.Fetch.{row, Connection, fetch_cell}
use sas_libclient.Connection.Tests.{
  short_name, two_rows, two_rows-AllGood, one_row, one_row-Answers,
}
use sas_libclient.ResultTable.Read.{Settings, no_error, read}
use sas_libclient.ResultTable.AllRows.{run_thread-HoldAll}
use sas_libclient.ResultTable.Thread.{new_reader, run_thread}
use sas_libclient.Tsv.Field.{number, string}
use sas_libclient.ResultTable.Whole.{HoldAll, read-HoldAll}

abbrev env : Settings
env = record {
  time_of = no_time;
  chunk_size = 40;
  partition = 0;
  stop = λ n. false;
  alloc = λ n. some zeros;
}

abbrev conn : Connection
conn = record { last_fetched = some (seven ∷ ab ∷ []); pending = row short_name ∷ [] }

read-HoldAll_example :
    ((read 3 env two_columns conn).1 ≡ ok no_error)
    × HoldAll true two_columns two_rows (read 3 env two_columns conn).0
unfolding fetch_cell
read-HoldAll_example =
    read-HoldAll true env two_columns (λ n. refl) (omega arith) (λ n. (zeros, refl)) 3 two_rows conn
      (inr (
        seven ∷ ab ∷ [],
        short_name ∷ [],
        refl,
        two_rows-AllGood,
        (omega arith, (omega arith, tt)),
      ))
      (omega arith) (omega arith)

run_thread-HoldAll_example :
    ((run_thread 3 env one_row (new_reader two_columns (text "select 1"))).1 ≡ ok no_error)
    × HoldAll true two_columns
        ((number 7 ∷ string (b'c' ∷ []) ∷ []) ∷ [])
        (run_thread 3 env one_row (new_reader two_columns (text "select 1"))).0
unfolding fetch_cell
run_thread-HoldAll_example =
    run_thread-HoldAll env one_row two_columns (text "select 1") true 3 (short_name ∷ [])
      ((number 7 ∷ string (b'c' ∷ []) ∷ []) ∷ []) (one_row-Answers (text "select 1"))
      two_rows-AllGood.4 (omega arith, tt) (λ n. refl) (omega arith) (λ n. (zeros, refl))
      (omega arith) (omega arith)
