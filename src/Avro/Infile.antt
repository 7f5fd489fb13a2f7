-- ===== src/Avro/Infile.antt =====
-- ss_local_infile_read and ss_local_infile_error of AvroTableWriter.
use sas_libclient.Base.{
  ℕ, zero, suc, ◌+◌, ◌-◌, ◌^◌, ◌&&◌, List, [], ◌∷◌, ◌++◌, Option, none, some, leb, ltb,
  if◌then◌else◌, length, take, Outcome, ok, fault, ◌>>=◌, Text, text, error_inv_arg,
  error_unknown_failure,
}

-- `bytes` is what `m_ptr` points to.
pub record AvroBuffer : Type 0 where
  pub bytes : List ℕ
  pub size : ℕ
  pub current_pos : ℕ

abbrev pub drop : ℕ → List ℕ → List ℕ
drop zero xs = xs
drop (suc n) [] = []
drop (suc n) (x ∷ xs) = drop n xs

-- Past the end the count is negative. It is an `int`, so that one from 2^31 on turns negative too. The
-- copy is then out of bounds.
unfoldable pub infile_read : ℕ → AvroBuffer → Outcome (List ℕ × AvroBuffer)
infile_read buf_len b =
    let left = b.size - b.current_pos in
    let n_bytes = if leb buf_len left then buf_len else left in
    if leb b.current_pos b.size
      && ltb n_bytes (2 ^ 31)
      && leb (b.current_pos + n_bytes) (length b.bytes)
    then ok (
      take n_bytes (drop b.current_pos b.bytes),
      record b { current_pos = b.current_pos + n_bytes },
    )
    else fault

-- The client library calls for `buf_len` bytes until it gets none.
unfoldable pub infile_read_all : ℕ → ℕ → AvroBuffer → Outcome (List ℕ)
infile_read_all zero buf_len b = fault
infile_read_all (suc fuel) buf_len b = infile_read buf_len b >>= λ (bytes, b'). elim bytes [
  | [] ↦ ok []
  | c ∷ cs ↦ infile_read_all fuel buf_len b' >>= λ rest. ok ((c ∷ cs) ++ rest)
]

-- S2C_IO_ERROR
abbrev pub io_error : ℕ
io_error = 7

-- The code and the message; `none` is a null pointer.
unfoldable pub infile_error : Option AvroBuffer → ℕ × Text
infile_error none = (error_inv_arg, text "Invalid *caller_data pointer")
infile_error (some b) =
    if ltb b.size b.current_pos
    then (io_error, text "Invalid operation on source buffer")
    else (error_unknown_failure, text "Unknown error in LOAD DATA LOCAL INFILE")
