-- ===== src/Hdat/SuperChunk.antt =====
-- Chunks (chunk_extern.h, NewChunk of hdat/common.hpp) and SuperChunk (hdat/super_chunk.hpp).
use sas_libclient.Base.{
  ℕ, ◌+◌, Bool, true, false, ◌&&◌, List, Option, none, some, ltb, leb, ◌==◌, if◌then◌else◌, length,
  take, add_u64, sub_u64, to_bytes, of_bytes, Outcome, ok, fault, ◌>>=◌,
}
use sas_libclient.Hdat.Memory.{Memory, store, fill, load}
use sas_libclient.Hdat.Schema.{sizeof_aligned8}

-- `mem` is the block at `m_ptr`, by offset; `size` is `m_size`.
pub record Chunk : Type 0 where
  pub mem : Memory
  pub size : ℕ
  pub row_count : ℕ
  pub consumed_size : ℕ
  pub variable_offset : ℕ
  pub id : ℕ
  pub partition_id : ℕ

-- A fresh block has whatever bytes `malloc` left in it.
unfoldable pub new_chunk : Memory → ℕ → ℕ → ℕ → Chunk
new_chunk ptr size id partition = record {
  mem = ptr;
  size = size;
  row_count = 0;
  consumed_size = 0;
  variable_offset = 0;
  id = id;
  partition_id = partition;
}

-- `m_chunk` and `m_offset`. The chunk is held by one SuperChunk at a time.
pub record SuperChunk : Type 0 where
  pub chunk : Chunk
  pub open chunk use *
  pub offset : ℕ

unfoldable pub super_chunk : Chunk → SuperChunk
super_chunk c = record { chunk = c; offset = 0 }

unfoldable pub incr_variable_offset : ℕ → SuperChunk → SuperChunk
incr_variable_offset len s = record s {
  chunk = record s.chunk { variable_offset = add_u64 s.variable_offset len };
}

unfoldable pub incr_row_count : SuperChunk → SuperChunk
incr_row_count s = record s { chunk = record s.chunk { row_count = add_u64 s.row_count 1 } }

-- The fields that a write into the block changes.
abbrev written : Memory → ℕ → SuperChunk → SuperChunk
written m len s = record s {
  chunk = record s.chunk { mem = m; consumed_size = add_u64 s.consumed_size len };
}

abbrev advance : ℕ → SuperChunk → SuperChunk
advance len s = record s { offset = add_u64 s.offset len }

copy_in : Option (List ℕ) → ℕ → ℕ → SuperChunk → Outcome SuperChunk
copy_in none o len s = fault
copy_in (some src) o len s =
    if ltb o s.size && leb (add_u64 o len) s.size && leb len (length src)
    then ok (written (store s.mem o (take len src)) len s)
    else fault

-- `src` is `none` for NULL; `len` bytes are read from it.
unfoldable pub write_at : ℕ → Option (List ℕ) → ℕ → SuperChunk → Outcome SuperChunk
unfolding copy_in
write_at o src len s = if len == 0 then ok s else copy_in src o len s

unfoldable pub write : Option (List ℕ) → ℕ → SuperChunk → Outcome SuperChunk
unfolding write_at
write src len s = write_at s.offset src len s >>= λ s'. ok (advance len s')

-- `Pad` has no check of its own: a fill past the block is undefined.
unfoldable pub pad : ℕ → Bool → ℕ → SuperChunk → Outcome SuperChunk
pad len true c s =
    if leb (s.offset + len) s.size
    then ok (advance len (written (fill s.mem s.offset len c) len s))
    else fault
pad len false c s = ok (advance len (written s.mem len s))

-- Write8Typed and Write4Typed: `k` is 8 or 4, and the value is its bit pattern.
unfoldable pub write_typed : ℕ → ℕ → SuperChunk → Outcome SuperChunk
write_typed k val s =
    if leb (s.offset + k) s.size
    then ok (advance k (written (store s.mem s.offset (to_bytes k val)) k s))
    else fault

-- Read8 and Read4: the value read, as a bit pattern.
unfoldable pub read : ℕ → SuperChunk → Outcome (ℕ × SuperChunk)
read k s =
    if leb (s.offset + k) s.size then ok (of_bytes (load s.mem s.offset k), advance k s) else fault

-- A pointer into the block is its offset.
unfoldable pub ptr_at : ℕ → SuperChunk → Outcome ℕ
ptr_at o s = if ltb o s.size then ok o else fault

-- `none` is the answer false.
unfoldable pub read_aligned8 : ℕ → SuperChunk → Outcome (Option ℕ × SuperChunk)
unfolding ptr_at
read_aligned8 len s =
    let aligned = sizeof_aligned8 len in
    if ltb (sub_u64 s.size s.offset) aligned
    then ok (none, s)
    else (ptr_at s.offset s >>= λ p. ok (some p, advance aligned s))
