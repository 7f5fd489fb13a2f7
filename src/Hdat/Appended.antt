-- ===== src/Hdat/Appended.antt =====
-- What each write operation of SuperChunkWriter appends, while there is room.
use sas_libclient.Base.{
  ℕ, ◌⊎◌, ◌+◌, ◌-◌, ◌*◌, ◌/◌, ◌^◌, ◌≤◌, ◌<◌, ◌≡◌, refl, false, List, some, none, add_u64, sub_u64,
  length, take, to_bytes, arith, to_u64-to_int, Outcome, ok, Option, ◌>>=◌,
}
use sas_libclient.Hdat.Memory.{Memory, store, fill}
use sas_libclient.Hdat.Schema.{sizeof_aligned8, sizeof_aligned8_lem}
use sas_libclient.Hdat.SuperChunk.{SuperChunk, incr_variable_offset, write_at, write, pad}
use sas_libclient.Hdat.Ops.{
  Moved, write_any_ok, put, write_ok, write_typed_ok, write_at_ok, pad_gap_ok, pad-fill_ok,
}
use sas_libclient.Hdat.Writer.{
  Writer, record_column, write_fixed, write_int64, write_int32, write_double, write_variable,
  write_word8, write_word4, write_fixed_null, write_variable_null,
}

-- The writer between two operations: the fixed part and the variable part do not meet.
pub record IsValid (w : Writer) : Type 0 where
  pub fits : w.current.offset + w.current.variable_offset ≤ w.chunk_size
  pub same_size : w.current.size ≡ w.chunk_size
  pub small : w.chunk_size < 2 ^ 64
  pub first : (w.row_offset ≡ 0) ⊎ (0 < w.row_fixed_size)

-- `r` is a normal result: the block is now `m`, the fixed part is `k` bytes longer and the variable
-- part `n`, and nothing else that later rows depend on has changed.
pub record Appended (w : Writer) (k n : ℕ) (m : Memory) (r : Outcome Writer) : Type 0 where
  pub out : Writer
  pub returns : r ≡ ok out
  pub mem : (i : ℕ) → out.current.mem i ≡ m i
  pub offset : out.current.offset ≡ w.current.offset + k
  pub variable : out.current.variable_offset ≡ w.current.variable_offset + n
  pub size : out.current.size ≡ w.current.size
  pub row_count : out.current.row_count ≡ w.current.row_count
  pub chunk_size : out.chunk_size ≡ w.chunk_size
  pub row_fixed_size : out.row_fixed_size ≡ w.row_fixed_size
  pub row_offset : out.row_offset ≡ w.row_offset
  pub schema : out.schema ≡ w.schema

module _ (w : Writer) where
  -- The operation puts the chunk `s` in the place of the writer's.
  Appended-chunk :
      (k n : ℕ) (m : Memory) (s : SuperChunk) {r : Outcome Writer}
      → r ≡ ok (record (record_column w) { current = s })
      → ((i : ℕ) → s.mem i ≡ m i)
      → s.offset ≡ w.current.offset + k
      → s.variable_offset ≡ w.current.variable_offset + n
      → s.size ≡ w.current.size
      → s.row_count ≡ w.current.row_count
      → Appended w k n m r
  unfolding record_column
  Appended-chunk k n m s e mem offset variable size row_count = record {
    out = record (record_column w) { current = s };
    returns = e;
    mem = mem;
    offset = offset;
    variable = variable;
    size = size;
    row_count = row_count;
    chunk_size = refl;
    row_fixed_size = refl;
    row_offset = refl;
    schema = refl;
  }

  Appended-put :
      (k : ℕ) (m : Memory) {r : Outcome Writer}
      → r ≡ ok (record (record_column w) { current = put k m w.current })
      → Appended w k 0 m r
  Appended-put k m e =
      Appended-chunk k 0 m (put k m w.current) e (λ i. refl) refl (omega arith) refl refl

  -- Four bytes and a gap of four.
  Appended-half :
      (m : Memory) {r : Outcome Writer}
      → r ≡ ok (record (record_column w) { current = put 4 m (put 4 m w.current) })
      → Appended w 8 0 m r
  Appended-half m e =
      Appended-chunk 8 0 m (put 4 m (put 4 m w.current)) e (λ i. refl) (omega arith) (omega arith)
        refl refl

module _ (w : Writer) (valid : IsValid w) where
  abbrev here : Memory → List ℕ → Memory
  here m bs = store m w.current.offset bs

  block_small : w.current.size < 2 ^ 64
  block_small = omega (arith, valid.same_size, valid.small)

  module _ (room : w.current.offset + 8 ≤ w.chunk_size) where
    fits_block : w.current.offset + 8 ≤ w.current.size
    fits_block = omega (arith, valid.same_size)

    pub write_int64-Appended :
        (v : List ℕ)
        → 8 ≤ length v
        → Appended w 8 0 (here w.current.mem (take 8 v)) (write_int64 (some v) w)
    write_int64-Appended v h = Appended-put w 8 _ (
        unfold write_int64 record_column in
        rw (write_ok w.current 8 block_small fits_block v (omega arith) h))

    pub write_double-Appended :
        (v : List ℕ) (len : ℕ)
        → 8 ≤ length v
        → Appended w 8 0 (here w.current.mem (take 8 v)) (write_double (some v) len w)
    write_double-Appended v len h = Appended-put w 8 _ (
        unfold write_double record_column in
        rw (write_ok w.current 8 block_small fits_block v (omega arith) h))

    pub write_word8-Appended :
        (n : ℕ) → Appended w 8 0 (here w.current.mem (to_bytes 8 n)) (write_word8 n w)
    write_word8-Appended n = Appended-put w 8 _ (
        unfold write_word8 record_column in
        rw (write_typed_ok w.current 8 block_small fits_block n))

    gap : (m : Memory) → pad 4 false b' ' (put 4 m w.current) ≡ ok (put 4 m (put 4 m w.current))
    gap m = pad_gap_ok (put 4 m w.current) 4 block_small (omega (arith, fits_block)) b' '

    pub write_int32-Appended :
        (v : List ℕ)
        → 4 ≤ length v
        → Appended w 8 0 (here w.current.mem (take 4 v)) (write_int32 (some v) w)
    write_int32-Appended v h = Appended-half w _ (
        unfold write_int32 record_column in
        rw (write_ok w.current 4 block_small (omega (arith, fits_block)) v (omega arith) h, gap _))

    pub write_word4-Appended :
        (n : ℕ) → Appended w 8 0 (here w.current.mem (to_bytes 4 n)) (write_word4 n w)
    write_word4-Appended n = Appended-half w _ (
        unfold write_word4 record_column in
        rw (write_typed_ok w.current 4 block_small (omega (arith, fits_block)) n, gap _))

  -- The bytes of a CHAR or BINARY value and its padding with blanks.
  abbrev pub padded : ℕ → ℕ → List ℕ → Memory
  padded k aligned v =
      fill (here w.current.mem (take k v)) (w.current.offset + k) (aligned - k) b' '

  pub write_fixed-Appended :
      (size k : ℕ) (v : List ℕ)
      → size + 7 < 2 ^ 64
      → k ≤ size
      → k ≤ length v
      → w.current.offset + (size + 7) / 8 * 8 ≤ w.chunk_size
      → Appended w
          ((size + 7) / 8 * 8)
          0
          (padded k ((size + 7) / 8 * 8) v)
          (write_fixed (some v) k size false w)
  write_fixed-Appended size k v sb ks kv room =
      let (s, e, moved) =
        write_any_ok w.current k block_small (omega (arith, valid.same_size)) v kv in
      let left : ℕ = (size + 7) / 8 * 8 - k in
      Appended-chunk w _ 0 _ (put left (fill s.mem s.offset left b' ') s) (returns s e moved)
        (λ i. filled s moved i) (omega (arith, moved.offset)) (omega (arith, moved.variable))
        moved.size moved.row_count
    where
      left : ℕ
      left = (size + 7) / 8 * 8 - k

      returns :
          (s : SuperChunk)
          → write (some v) k w.current ≡ ok s
          → Moved k (here w.current.mem (take k v)) w.current s
          → write_fixed (some v) k size false w
            ≡ ok (record (record_column w) { current = put left (fill s.mem s.offset left b' ') s })
      returns s e moved =
          let amount : sub_u64 (sizeof_aligned8 size) k ≡ left =
            omega (arith, sizeof_aligned8_lem size sb) in
          let room' : s.offset + left ≤ s.size =
            omega (arith, moved.offset, moved.size, valid.same_size) in
          let padding = pad-fill_ok s left (omega (arith, block_small, moved.size)) room' b' ' in
          unfold write_fixed record_column in rw (e, amount, padding)

      filled :
          (s : SuperChunk)
          → Moved k (here w.current.mem (take k v)) w.current s
          → (i : ℕ) → fill s.mem s.offset left b' ' i ≡ padded k ((size + 7) / 8 * 8) v i
      filled s moved i = unfold fill in rw (moved.offset, moved.mem i)

  pub write_fixed_null-Appended :
      (size : ℕ)
      → size < 2 ^ 31
      → w.current.offset + (size + 7) / 8 * 8 ≤ w.chunk_size
      → Appended w
          ((size + 7) / 8 * 8)
          0
          (fill w.current.mem w.current.offset ((size + 7) / 8 * 8) 0)
          (write_fixed_null size w)
  write_fixed_null-Appended size sb room = Appended-put w _ _ (
      unfold write_fixed_null record_column in
      rw (
        to_u64-to_int size sb,
        sizeof_aligned8_lem size (omega arith),
        pad-fill_ok w.current ((size + 7) / 8 * 8) block_small (omega (arith, valid.same_size)) 0,
      ))

  module _ (len : ℕ)
      (room : w.current.offset + 16 + w.current.variable_offset + len ≤ w.chunk_size) where
    abbrev new_variable : ℕ
    new_variable = w.current.variable_offset + len

    -- The two words of the fixed part: the new variable offset and the length.
    abbrev pub with_words : Memory
    with_words =
        store (here w.current.mem (to_bytes 8 new_variable)) (w.current.offset + 8) (to_bytes 8 len)

    -- incr_variable_offset with the sum that does not wrap.
    grown : SuperChunk
    grown = record w.current {
      chunk = record w.current.chunk { variable_offset = w.current.variable_offset + len };
    }

    abbrev worded : SuperChunk
    worded = put 8 with_words (put 8 (here w.current.mem (to_bytes 8 new_variable)) grown)

    write_variable_words :
        (val : Option (List ℕ))
        → write_variable val len w ≡ (
            write_at (w.chunk_size - new_variable) val len worded >>= λ s.
            ok (record (record_column w) { current = s }))
    unfolding write_variable record_column incr_variable_offset grown
    write_variable_words val =
        let sum : add_u64 w.current.variable_offset len ≡ w.current.variable_offset + len =
          omega (arith, valid.small) in
        let diff : sub_u64 w.chunk_size new_variable ≡ w.chunk_size - new_variable =
          omega (arith, valid.small) in
        let one =
          write_typed_ok grown 8 block_small (omega (arith, valid.same_size)) new_variable in
        let two =
          write_typed_ok (put 8 (here w.current.mem (to_bytes 8 new_variable)) grown) 8 block_small
            (omega (arith, valid.same_size)) len in
        rw (sum, one, two, diff)

    pub write_variable-Appended :
        (v : List ℕ)
        → len ≤ length v
        → Appended w 16 len
            (store with_words (w.chunk_size - new_variable) (take len v))
            (write_variable (some v) len w)
    unfolding grown
    write_variable-Appended v h =
        let (s, e, moved) =
          write_at_ok worded (w.chunk_size - new_variable) len v block_small
            (omega (arith, valid.same_size)) h in
        Appended-chunk w 16 len _ s (rw (write_variable_words (some v), e)) moved.mem
          (omega (arith, moved.offset)) moved.variable moved.size moved.row_count

  pub write_variable_null-Appended :
      (room : w.current.offset + 16 + w.current.variable_offset + 0 ≤ w.chunk_size)
      → Appended w 16 0 (with_words 0 room) (write_variable_null w)
  unfolding write_variable_null grown
  write_variable_null-Appended room =
      Appended-chunk w 16 0 _ (worded 0 room)
        (rw (write_variable_words 0 room none) (unfold write_at in refl)) (λ i. refl) (omega arith)
        refl refl refl
