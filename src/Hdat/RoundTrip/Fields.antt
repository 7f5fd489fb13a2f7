-- ===== src/Hdat/RoundTrip/Fields.antt =====
-- Reading one field whose bytes are known (chunk_reader.cpp under the switch of ChunkToTSV).
use native.Mathlib.Decide.{dec_lt}
use sas_libclient.Base.{
  ℕ, zero, suc, ◌+◌, ◌-◌, ◌*◌, ◌/◌, ◌^◌, ◌≤◌, ◌<◌, ◌≡◌, refl, ap, Bool, true, false, List, [], ◌∷◌,
  some, length, replicate, of_bytes, to_bytes, of_bytes-to_bytes, ok, ◌>>=◌, ◌==◌, ◌&&◌,
  if◌then◌else◌, add_u64, sub_u64, arith, leb, ltb, le→leb, lt→ltb, le→ltb, Bool-cases, inl, inr,
}
use sas_libclient.Hdat.Memory.{load}
use sas_libclient.Hdat.Schema.{int64_null, int32_null, sizeof_aligned8_lem}
use sas_libclient.Hdat.SuperChunk.{ptr_at, read_aligned8}
use sas_libclient.Hdat.Ops.{put, read_ok, pad_gap_ok}
use sas_libclient.Hdat.Reader.{
  Reader, Read, is_nan, read_int64, read_int32, read_float, read_variable, read_slice, read_fixed,
  is_blank, is_blank_zeros, is_null_buffer_lem, null_slice, slice,
}
use sas_libclient.Tsv.Field.{Field, null_field, number, string, number_field, slice_field}

-- The reader after `k` more bytes; ReadInt32 counts its gap as consumed.
pub record Passed (k : ℕ) (r r' : Reader) : Type 0 where
  pub mem : r'.current.mem ≡ r.current.mem
  pub size : r'.current.size ≡ r.current.size
  pub offset : r'.current.offset ≡ r.current.offset + k
  pub schema : r'.schema ≡ r.schema

-- A normal result with a value, `k` bytes further on.
pub record Gives {A : Type 0} (k : ℕ) (f : A) (r : Reader) (result : Read A) : Type 0 where
  pub next : Reader
  pub returns : result ≡ ok (some f, next)
  pub passed : Passed k r next

abbrev pub int_field : ℕ → ℕ → Field
int_field null n = if n == null then null_field else number n

abbrev forward : ℕ → Reader → Reader
forward k r = record r { current = record r.current { offset = r.current.offset + k } }

Passed-forward : (k : ℕ) (r : Reader) → Passed k r (forward k r)
Passed-forward k r = record { mem = refl; size = refl; offset = refl; schema = refl }

module _ (r : Reader) (bs : List ℕ) (small : r.current.size < 2 ^ 64) where
  can :
      (k : ℕ)
      → r.current.offset + k ≤ r.current.size
      → leb (add_u64 r.current.offset k) r.current.size ≡ true
  can k room = le→leb _ _ (omega arith)

  module _ (room : r.current.offset + 8 ≤ r.current.size) where
    pub read_int64-Gives :
        load r.current.mem r.current.offset 8 ≡ bs
        → Gives 8 (int_field int64_null (of_bytes bs)) r (read_int64 r >>= number_field)
    read_int64-Gives h = record {
      next = forward 8 r;
      returns =
          unfold read_int64 number_field in rw (can 8 room, read_ok r.current 8 small room, h);
      passed = Passed-forward 8 r;
    }

    pub read_float-Gives :
        load r.current.mem r.current.offset 8 ≡ bs
        → Gives 8
            (if is_nan (of_bytes bs) then null_field else number (of_bytes bs))
            r
            (read_float r >>= number_field)
    read_float-Gives h = record {
      next = forward 8 r;
      returns =
          unfold read_float number_field in rw (can 8 room, read_ok r.current 8 small room, h);
      passed = Passed-forward 8 r;
    }

    pub read_int32-Gives :
        load r.current.mem r.current.offset 4 ≡ bs
        → Gives 8 (int_field int32_null (of_bytes bs)) r (read_int32 r >>= number_field)
    read_int32-Gives h =
        let s = record r.current { offset = r.current.offset + 4 } in
        record {
          next = record r { current = put 4 s.mem s };
          returns =
              unfold read_int32 number_field in
              rw (
                can 8 room,
                read_ok r.current 4 small (omega arith),
                pad_gap_ok s 4 small (omega arith) b' ',
                h,
              );
          passed = record { mem = refl; size = refl; offset = omega arith; schema = refl };
        }

-- The stored words of a VARCHAR field: its place from the end of the chunk and its length.
module _ (r : Reader) (stored len : ℕ) (small : r.current.size < 2 ^ 64)
    (room : r.current.offset + 16 ≤ r.current.size) (in_block : stored ≤ r.current.size)
    (long_enough : len ≤ stored)
    (first_word : load r.current.mem r.current.offset 8 ≡ to_bytes 8 stored)
    (second_word : load r.current.mem (r.current.offset + 8) 8 ≡ to_bytes 8 len) where
  word_stored : of_bytes (to_bytes 8 stored) ≡ stored
  word_stored = of_bytes-to_bytes 8 stored (omega arith)

  word_len : of_bytes (to_bytes 8 len) ≡ len
  word_len = of_bytes-to_bytes 8 len (omega arith)

  abbrev pub variable_field : Field
  variable_field =
      if len == 0 then null_field else string (load r.current.mem (r.current.size - stored) len)

  abbrev after_words : Reader
  after_words = forward 8 (forward 8 r)

  words :
      (assertions : Bool)
      → (assertions ≡ true → 0 < stored)
      → read_variable assertions r ≡ (
          if len == 0 then ok (some null_slice, after_words) else read_slice stored len after_words)
  words assertions ne =
      let one = read_ok r.current 8 small (omega arith) in
      let two = read_ok (forward 8 r).current 8 small (omega arith) in
      unfold read_variable in
      rw (can_two, one, first_word, word_stored, passes assertions ne, two, second_word, word_len)
    where
      can_two : leb (add_u64 r.current.offset 16) r.current.size ≡ true
      can_two = le→leb _ _ (omega arith)

      passes : (a : Bool) → (a ≡ true → 0 < stored) → (a && stored == 0) ≡ false
      passes true ne = ground (arith, ne refl)
      passes false ne = refl

  found :
      0 < len
      → read_slice stored len after_words
        ≡ ok (some (slice (r.current.size - stored) len false), after_words)
  found pos = unfold read_slice ptr_at in ground arith

  pub read_variable-Gives :
      (assertions : Bool)
      → (assertions ≡ true → 0 < stored)
      → Gives 16 variable_field r (read_variable assertions r >>= slice_field)
  read_variable-Gives assertions ne = record {
    next = after_words;
    returns = returns;
    passed = record { mem = refl; size = refl; offset = omega arith; schema = refl };
  }
    where
      returns : (read_variable assertions r >>= slice_field) ≡ ok (some variable_field, after_words)
      returns = elim (Bool-cases (len == 0)) [
        | inl e ↦ rw (words assertions ne, e) (unfold slice_field in refl)
        | inr e ↦ rw (words assertions ne, e, found (ground arith)) (unfold slice_field in refl)
      ]

-- A CHAR or BINARY value of blanks only, or of zero bytes only, is null; so is one of no bytes.
abbrev pub fixed_field : List ℕ → Field
fixed_field bs = if is_blank bs then null_field else string bs

fixed_field-nil : (bs : List ℕ) → length bs ≡ 0 → null_field ≡ fixed_field bs
unfolding is_blank
fixed_field-nil [] h = refl
fixed_field-nil (b ∷ bs) h = absurd (omega arith)

module _ (r : Reader) (size : ℕ) (bs : List ℕ) (small : r.current.size < 2 ^ 64)
    (size_small : size < 2 ^ 31) (room : r.current.offset + (size + 7) / 8 * 8 ≤ r.current.size)
    (long : length bs ≡ size) (bytes : load r.current.mem r.current.offset size ≡ bs) where
  abbrev after_fixed : Reader
  after_fixed = forward ((size + 7) / 8 * 8) r

  aligned_ok :
      0 < size → read_aligned8 size r.current ≡ ok (some r.current.offset, after_fixed.current)
  aligned_ok p =
      let enough : ltb (sub_u64 r.current.size r.current.offset) ((size + 7) / 8 * 8) ≡ false =
        le→ltb _ _ (omega arith) in
      let inside : ltb r.current.offset r.current.size ≡ true = lt→ltb _ _ (omega arith) in
      let sum : add_u64 r.current.offset ((size + 7) / 8 * 8)
          ≡ r.current.offset + (size + 7) / 8 * 8 =
        omega arith in
      unfold read_aligned8 ptr_at in
      rw (sizeof_aligned8_lem size (omega arith), enough, inside, sum)

  pub read_fixed-Gives :
      Gives ((size + 7) / 8 * 8) (fixed_field bs) r (read_fixed size r >>= slice_field)
  read_fixed-Gives = elim (dec_lt 0 size) [
    | yes p ↦ record { next = after_fixed; returns = full p; passed = Passed-forward _ r }
    | no p ↦ record {
      next = r;
      returns = empty p;
      passed = record { mem = refl; size = refl; offset = omega arith; schema = refl };
    }
  ]
    where
      full :
          0 < size → (read_fixed size r >>= slice_field) ≡ ok (some (fixed_field bs), after_fixed)
      full p =
          let nonzero : (size == 0) ≡ false = ground arith in
          let flag = is_null_buffer_lem size bs p size_small long in
          unfold read_fixed slice_field in rw (nonzero, aligned_ok p, bytes, flag) (rw bytes)

      empty : ¬ (0 < size) → (read_fixed size r >>= slice_field) ≡ ok (some (fixed_field bs), r)
      empty p =
          let zero_size : (size == 0) ≡ true = ground arith in
          unfold read_fixed slice_field in
          rw zero_size
            (ap (λ (f : Field). ok (some f, r)) (fixed_field-nil bs (omega (arith, long))))

-- The zero bytes that the writer puts for NULL.
pub fixed_field_zeros : (n : ℕ) → fixed_field (replicate n 0) ≡ null_field
fixed_field_zeros zero = unfold is_blank in refl
fixed_field_zeros (suc n) = rw (is_blank_zeros n)
