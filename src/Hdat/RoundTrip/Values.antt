-- ===== src/Hdat/RoundTrip/Values.antt =====
-- What each write operation of a value leaves to read (hdat/chunk_writer.cpp, hdat/chunk_reader.cpp).
use mathlib.Core.Path.{subst}
use sas_libclient.Base.{
  ℕ, ◌+◌, ◌-◌, ◌^◌, ◌≤◌, ◌<◌, ◌≡◌, refl, List, ◌++◌, none, some, length, take, length-take,
  replicate, of_bytes, to_bytes, of_bytes-to_bytes, length-to_bytes, to_u64, to_u32, Outcome, ok,
  throws, fault, ◌>>=◌, ◌==◌, if◌then◌else◌, arith, s2_throw, text, error_uns_data_type, ℤ, pos,
  negsuc, ◌≢◌,
}
use sas_libclient.Hdat.Schema.{
  int64, int32, double, variable, fixed, time, date, date_time, unsupported, Column, Cell,
  int64_null, int32_null,
}
use sas_libclient.Hdat.Calendar.{MysqlTime, to_time_cas, to_date_cas, to_date_time_cas}
use sas_libclient.Hdat.Reader.{is_nan, read_int64, read_int32, read_float}
use sas_libclient.Hdat.Writer.{
  Writer, write_int64, write_int32, write_double, write_word8, write_word4, write_int64_numeric,
  write_int32_numeric,
}
use sas_libclient.Hdat.Appended.{
  IsValid, write_int64-Appended, write_double-Appended, write_word8-Appended, write_int32-Appended,
  write_word4-Appended,
}
use sas_libclient.Hdat.RoundTrip.Fields.{
  int_field, fixed_field, read_int64-Gives, read_int32-Gives, read_float-Gives,
}
use sas_libclient.Hdat.RoundTrip.Wrote.{Written, Wrote-Written, word-Wrote}
use sas_libclient.Tsv.Field.{Field, null_field, number, string, number_field}

abbrev double_field : ℕ → Field
double_field n = if is_nan n then null_field else number n

abbrev unsupported_type {ℓ} : {A : Type ℓ} → Outcome A
unsupported_type =
    s2_throw error_uns_data_type
      (text "Trying to write unsupported data type to the chunk. Aborted.")

module _ (time_of : List ℕ → MysqlTime) where
  -- The value of a field that the database sent, as a client of the reader sees it: the least
  -- integers and the not-a-numbers stand for null, and so do empty and blank strings.
  abbrev expected_value : Column → List ℕ → ℕ → Outcome Field
  expected_value c v len = elim c.type [
    | int64 ↦ ok (int_field int64_null (of_bytes (take 8 v)))
    | int32 ↦ ok (int_field int32_null (of_bytes (take 4 v)))
    | double ↦ ok (double_field (of_bytes (take 8 v)))
    | date_time ↦ to_date_time_cas (time_of v) >>= λ t. ok (int_field int64_null (to_u64 t))
    | date ↦ to_date_cas (time_of v) >>= λ t. ok (int_field int32_null (to_u32 t))
    | time ↦ ok (int_field int64_null (to_u64 (to_time_cas (time_of v))))
    | variable ↦ ok (if len == 0 then null_field else string (take len v))
    | fixed ↦ ok (fixed_field (take len v ++ replicate (c.size - len) b' '))
    | unsupported ↦ unsupported_type
  ]

  abbrev pub expected : Column → Cell → Outcome Field
  expected c x = elim x.value [
    | some v ↦ expected_value c v x.length
    | none ↦ elim c.type [ unsupported ↦ unsupported_type | _ ↦ ok null_field ]
  ]

pub to_u64-lt : (t : ℤ) → to_u64 t < 2 ^ 64
to_u64-lt (pos n) = omega arith
to_u64-lt (negsuc n) = omega arith

to_u32-lt : (t : ℤ) → to_u32 t < 2 ^ 32
to_u32-lt (pos n) = omega arith
to_u32-lt (negsuc n) = omega arith

module _ (w : Writer) (valid : IsValid w)
    (room : w.current.offset + 8 + w.current.variable_offset ≤ w.chunk_size) where
  abbrev near : w.current.offset + 8 ≤ w.chunk_size
  near = omega arith

  abbrev Int64Written : Outcome Writer → Field → Type 0
  Int64Written r f = Written 8 0 (λ r. read_int64 r >>= number_field) w r (ok f)

  abbrev Int32Written : Outcome Writer → Field → Type 0
  Int32Written r f = Written 8 0 (λ r. read_int32 r >>= number_field) w r (ok f)

  abbrev DoubleWritten : Outcome Writer → Field → Type 0
  DoubleWritten r f = Written 8 0 (λ r. read_float r >>= number_field) w r (ok f)

  exact_take : (k : ℕ) (v : List ℕ) → k ≤ length v → length (take k v) ≡ k
  exact_take k v h = omega (arith, length-take k v)

  pub write_int64-Written :
      (v : List ℕ)
      → 8 ≤ length v
      → Int64Written (write_int64 (some v) w) (int_field int64_null (of_bytes (take 8 v)))
  write_int64-Written v h =
      let a = write_int64-Appended w valid near v h in
      Wrote-Written a (
        word-Wrote w valid room 8 (take 8 v) (exact_take 8 v h) (omega arith) _ _
          (λ r small fits l. read_int64-Gives r (take 8 v) small fits l) a)

  pub write_double-Written :
      (v : List ℕ) (len : ℕ)
      → 8 ≤ length v
      → DoubleWritten (write_double (some v) len w) (double_field (of_bytes (take 8 v)))
  write_double-Written v len h =
      let a = write_double-Appended w valid near v len h in
      Wrote-Written a (
        word-Wrote w valid room 8 (take 8 v) (exact_take 8 v h) (omega arith) _ _
          (λ r small fits l. read_float-Gives r (take 8 v) small fits l) a)

  pub write_int32-Written :
      (v : List ℕ)
      → 4 ≤ length v
      → Int32Written (write_int32 (some v) w) (int_field int32_null (of_bytes (take 4 v)))
  write_int32-Written v h =
      let a = write_int32-Appended w valid near v h in
      Wrote-Written a (
        word-Wrote w valid room 4 (take 4 v) (exact_take 4 v h) (omega arith) _ _
          (λ r small fits l. read_int32-Gives r (take 4 v) small fits l) a)

  pub word8-Written : (n : ℕ) → n < 2 ^ 64 → Int64Written (write_word8 n w) (int_field int64_null n)
  word8-Written n h =
      let a = write_word8-Appended w valid near n in
      subst (λ x. Int64Written (write_word8 n w) (int_field int64_null x)) (of_bytes-to_bytes 8 n h)
        (Wrote-Written a (
          word-Wrote w valid room 8 (to_bytes 8 n) (length-to_bytes 8 n) (omega arith) _ _
            (λ r small fits l. read_int64-Gives r (to_bytes 8 n) small fits l) a))

  pub word8-Written_double : (n : ℕ) → n < 2 ^ 64 → DoubleWritten (write_word8 n w) (double_field n)
  word8-Written_double n h =
      let a = write_word8-Appended w valid near n in
      subst (λ x. DoubleWritten (write_word8 n w) (double_field x)) (of_bytes-to_bytes 8 n h)
        (Wrote-Written a (
          word-Wrote w valid room 8 (to_bytes 8 n) (length-to_bytes 8 n) (omega arith) _ _
            (λ r small fits l. read_float-Gives r (to_bytes 8 n) small fits l) a))

  pub word4-Written : (n : ℕ) → n < 2 ^ 32 → Int32Written (write_word4 n w) (int_field int32_null n)
  word4-Written n h =
      let a = write_word4-Appended w valid near n in
      subst (λ x. Int32Written (write_word4 n w) (int_field int32_null x)) (of_bytes-to_bytes 4 n h)
        (Wrote-Written a (
          word-Wrote w valid room 4 (to_bytes 4 n) (length-to_bytes 4 n) (omega arith) _ _
            (λ r small fits l. read_int32-Gives r (to_bytes 4 n) small fits l) a))

  pub date_time-Written :
      (t : Outcome ℤ)
      → t ≢ fault
      → Written 8 0
          (λ r. read_int64 r >>= number_field)
          w
          (t >>= λ t. write_int64_numeric t w)
          (t >>= λ t. ok (int_field int64_null (to_u64 t)))
  unfolding write_int64_numeric
  date_time-Written (ok t) h = word8-Written (to_u64 t) (to_u64-lt t)
  date_time-Written (throws e) h = refl
  date_time-Written fault h = absurd (h refl)

  pub date-Written :
      (t : Outcome ℤ)
      → t ≢ fault
      → Written 8 0
          (λ r. read_int32 r >>= number_field)
          w
          (t >>= λ t. write_int32_numeric t w)
          (t >>= λ t. ok (int_field int32_null (to_u32 t)))
  unfolding write_int32_numeric
  date-Written (ok t) h = word4-Written (to_u32 t) (to_u32-lt t)
  date-Written (throws e) h = refl
  date-Written fault h = absurd (h refl)
