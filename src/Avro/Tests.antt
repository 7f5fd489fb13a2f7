-- ===== src/Avro/Tests.antt =====
-- A buffer of five bytes, read two at a time.
use sas_libclient.Base.{ℕ, ◌≡◌, List, [], ◌∷◌, ok, arith}
use sas_libclient.Avro.Infile.{drop, infile_read_all}
use sas_libclient.Avro.Whole.{infile_read_all_lem}

abbrev five : List ℕ
five = 1 ∷ 2 ∷ 3 ∷ 4 ∷ 5 ∷ []

infile_read_all_lem_example :
    infile_read_all 5 2 (record { bytes = five; size = 5; current_pos = 1 }) ≡ ok (drop 1 five)
infile_read_all_lem_example =
    infile_read_all_lem five 2 (omega arith) (omega arith) (omega arith) 5 1 (omega arith)
      (omega arith)
