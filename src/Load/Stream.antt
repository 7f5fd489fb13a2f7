-- ===== src/Load/Stream.antt =====
-- ss_local_infile_read and ss_local_infile_error of TsvTableWriter (tsv_table_writer.cpp), over a
-- std::stringstream.
use sas_libclient.Base.{
  ℕ, zero, suc, ◌^◌, ◌%◌, Bool, true, false, List, [], ◌++◌, Option, none, some, ltb, if◌then◌else◌,
  length, take, ℤ, pos, negsuc, Outcome, ok, fault, ◌>>=◌, Text, text, error_inv_arg,
  error_unknown_failure,
}
use sas_libclient.Avro.Infile.{drop, io_error}
use sas_libclient.Tsv.Quoted.{signed}

-- What a stringstream has left to read, and its failbit and badbit. Reading from memory does not set
-- the badbit.
pub record Stream : Type 0 where
  pub rest : Text
  pub fail : Bool
  pub bad : Bool

-- `read(buf, n)`: nothing in a state that is not good; otherwise up to `n` bytes, and fewer of them
-- set the failbit.
unfoldable pub stream_read : ℕ → Stream → List ℕ × Stream
stream_read n s =
    if s.fail
    then ([], s)
    else (if s.bad
        then ([], record s { fail = true })
        else (take n s.rest, record s { rest = drop n s.rest; fail = ltb (length s.rest) n }))

-- The count, which is an `int`, and the bytes that are in the buffer.
unfoldable pub tsv_infile_read : ℕ → Stream → ℤ × List ℕ × Stream
unfolding stream_read
tsv_infile_read buf_len s =
    let (bytes, s') = stream_read buf_len s in
    if s'.bad then (negsuc 0, bytes, s') else (signed 32 (length bytes % 2 ^ 32), bytes, s')

-- The client library calls for `buf_len` bytes until the count is not positive; `none` is an error.
unfoldable pub tsv_infile_read_all : ℕ → ℕ → Stream → Outcome (Option Text)
tsv_infile_read_all zero buf_len s = fault
tsv_infile_read_all (suc fuel) buf_len s =
    let (count, bytes, s') = tsv_infile_read buf_len s in
    elim count [
      | negsuc n ↦ ok none
      | pos n ↦ elim n [
        | zero ↦ ok (some [])
        | suc k ↦ tsv_infile_read_all fuel buf_len s' >>= λ rest.
            ok (elim rest [ none ↦ none | some xs ↦ some (bytes ++ xs) ])
      ]
    ]

-- The code and the message; `none` is a null pointer.
unfoldable pub tsv_infile_error : Option Stream → ℕ × Text
tsv_infile_error none = (error_inv_arg, text "invalid *caller_data pointer")
tsv_infile_error (some s) =
    if s.bad
    then (io_error, text "Read/write error on i/o operation")
    else (error_unknown_failure, text "Unknown error in LOAD DATA LOCAL INFILE")

-- The stream that ChunkToTSV leaves.
abbrev pub stream_of : Text → Stream
stream_of out = record { rest = out; fail = false; bad = false }
