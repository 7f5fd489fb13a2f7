-- ===== src/Hdat/RoundTrip/Cells.antt =====
-- One field of SuperChunkWriter::WriteRow (hdat/chunk_writer.cpp), of every type.
use mathlib.Core.Path.{subst}
use sas_libclient.Base.{
  ℕ, ◌+◌, ◌-◌, ◌*◌, ◌/◌, ◌^◌, ◌≤◌, ◌<◌, ◌≡◌, refl, ◌∙◌, ap, sym, ◌⊎◌, inl, inr, Bool, List, [],
  ◌++◌, Option, none, some, length, take, length-take, replicate, length-replicate, length-append,
  ok, arith, Text,
}
use sas_libclient.Hdat.Memory.{store, load, load-store, load-fill, store_outside, fill_outside}
use sas_libclient.Hdat.Schema.{
  ColumnType, int64, int32, double, variable, fixed, time, date, date_time, unsupported, Column,
  Cell, int64_null, int32_null, double_null,
}
use sas_libclient.Hdat.Calendar.{MysqlTime, to_date_cas, to_date_cas_defined, to_date_time_cas}
use sas_libclient.Hdat.Reader.{is_nan}
use sas_libclient.Hdat.Writer.{
  Writer, write_cell, write_value, write_null, write_fixed_null, write_int64_numeric,
  write_int64_null, write_int32_null, write_double_null,
}
use sas_libclient.Hdat.Appended.{
  IsValid, write_fixed-Appended, write_fixed_null-Appended, write_variable-Appended,
  write_variable_null-Appended, with_words,
}
use sas_libclient.Hdat.RoundTrip.Readable.{Readable}
use sas_libclient.Hdat.Fits.{width, tail_size, IsSane}
use sas_libclient.Hdat.RoundTrip.Fields.{fixed_field_zeros}
use sas_libclient.Hdat.RoundTrip.Wrote.{Written, Wrote-Written}
use sas_libclient.Hdat.RoundTrip.Strings.{fixed-Wrote, padded-frame, padded_spells, variable-Wrote}
use sas_libclient.Tsv.Field.{read_field}
use sas_libclient.Hdat.RoundTrip.Values.{
  expected, to_u64-lt, write_int64-Written, write_double-Written, write_int32-Written,
  word8-Written, word8-Written_double, word4-Written, date_time-Written, date-Written,
}

abbrev col : ColumnType → ℕ → Text → Column
col ty size name = record { type = ty; size = size; name = name }

module _ (time_of : List ℕ → MysqlTime) (assertions : Bool) (w : Writer) (valid : IsValid w)
    (size : ℕ) (name : Text) where
  abbrev Room : ColumnType → Cell → Type 0
  Room ty x =
      w.current.offset
        + width (col ty size name)
        + w.current.variable_offset
        + tail_size (col ty size name) x
      ≤ w.chunk_size

  abbrev CanRead : ColumnType → Cell → Type 0
  CanRead ty x =
      Readable assertions (col ty size name)
        (w.current.variable_offset + tail_size (col ty size name) x)

  abbrev CellWritten : ColumnType → Cell → Type 0
  CellWritten ty x =
      Written (width (col ty size name)) (tail_size (col ty size name) x)
        (read_field assertions (col ty size name)) w (write_cell time_of (col ty size name) x w)
        (expected time_of (col ty size name) x)

  module _ (v : List ℕ) (len : ℕ) where
    abbrev cell : Cell
    cell = record { value = some v; length = len }

    beside :
        (i : ℕ)
        → (i < w.chunk_size - (w.current.variable_offset + len))
          ⊎ (w.chunk_size - w.current.variable_offset ≤ i)
        → w.current.offset + 16 + w.current.variable_offset + len ≤ w.chunk_size
        → len ≤ length v
        → (i < w.chunk_size - (w.current.variable_offset + len))
          ⊎ (w.chunk_size - (w.current.variable_offset + len) + length (take len v) ≤ i)
    beside i (inl l) room h = inl l
    beside i (inr l) room h = inr (omega (arith, length-take len v))

    spells :
        (room : w.current.offset + 16 + w.current.variable_offset + len ≤ w.chunk_size)
        → len ≤ length v
        → load
            (store
              (with_words w valid len room)
              (w.chunk_size - (w.current.variable_offset + len))
              (take len v))
            (w.chunk_size - (w.current.variable_offset + len))
            len
          ≡ take len v
    spells room h =
        let exact : length (take len v) ≡ len = omega (arith, length-take len v) in
        ap (load (store (with_words w valid len room) _ (take len v)) _) (sym exact)
        ∙ load-store (with_words w valid len room) _ (take len v)

    whole : len ≤ size → len ≤ length v → length (take len v ++ replicate (size - len) b' ') ≡ size
    whole short held = omega (
      arith,
      length-append (take len v) (replicate (size - len) b' '),
      length-take len v,
      length-replicate {A = ℕ} (size - len) b' ',
    )

    value-Written :
        (ty : ColumnType)
        → IsSane time_of (col ty size name) cell
        → CanRead ty cell
        → Room ty cell
        → CellWritten ty cell
    unfolding write_cell write_value read_field write_int64_numeric
    value-Written int64 s can room = write_int64-Written w valid (omega arith) v s.fits
    value-Written int32 s can room = write_int32-Written w valid (omega arith) v s.fits
    value-Written double s can room = write_double-Written w valid (omega arith) v len s.fits
    value-Written variable s can room =
        let room' : w.current.offset + 16 + w.current.variable_offset + len ≤ w.chunk_size =
          omega arith in
        let a = write_variable-Appended w valid len room' v s.fits in
        Wrote-Written a (
          variable-Wrote w valid len room' assertions can _ (take len v)
            (λ i p.
              store_outside (with_words w valid len room') _ (take len v) i
                (beside i p room' s.fits))
            (spells room' s.fits) a)
    value-Written fixed s can room =
        let (short, held) = s.fits in
        let size_small : size + 7 < 2 ^ 64 = omega (arith, s.size_small) in
        let room' : w.current.offset + (size + 7) / 8 * 8 + w.current.variable_offset
            ≤ w.chunk_size =
          omega arith in
        let a = write_fixed-Appended w valid size len v size_small short held (omega arith) in
        Wrote-Written a (
          fixed-Wrote w valid size can room' _ (take len v ++ replicate (size - len) b' ')
            (whole short held) (padded-frame w valid size can room' len v short)
            (padded_spells w valid size can room' len v short held) a)
    value-Written time s can room = word8-Written w valid (omega arith) _ (to_u64-lt _)
    value-Written date s can room =
        date-Written w valid (omega arith) (to_date_cas (time_of v))
          (to_date_cas_defined (time_of v))
    value-Written date_time s can room =
        date_time-Written w valid (omega arith) (to_date_time_cas (time_of v)) s.fits
    value-Written unsupported s can room = refl

  module _ (len : ℕ) where
    abbrev no_cell : Cell
    no_cell = record { value = none; length = len }

    null-Written :
        (ty : ColumnType)
        → IsSane time_of (col ty size name) no_cell
        → CanRead ty no_cell
        → Room ty no_cell
        → CellWritten ty no_cell
    unfolding write_cell write_null read_field write_int64_null write_int32_null write_double_null
        is_nan
    null-Written int64 s can room = word8-Written w valid (omega arith) int64_null (omega arith)
    null-Written int32 s can room = word4-Written w valid (omega arith) int32_null (omega arith)
    null-Written double s can room =
        word8-Written_double w valid (omega arith) double_null (omega arith)
    null-Written variable s can room =
        let room' : w.current.offset + 16 + w.current.variable_offset + 0 ≤ w.chunk_size =
          omega arith in
        let a = write_variable_null-Appended w valid room' in
        Wrote-Written a (
          variable-Wrote w valid 0 room' assertions can (with_words w valid 0 room') []
            (λ i p. refl) (unfold load in refl) a)
    null-Written fixed s can room =
        let room' : w.current.offset + (size + 7) / 8 * 8 + w.current.variable_offset
            ≤ w.chunk_size =
          omega arith in
        let a = write_fixed_null-Appended w valid size can (omega arith) in
        subst
          (λ f.
            Written ((size + 7) / 8 * 8) 0 (read_field assertions (col fixed size name)) w
              (write_fixed_null size w) (ok f))
          (fixed_field_zeros size)
          (Wrote-Written a (
            fixed-Wrote w valid size can room' _ (replicate size 0) (length-replicate size 0)
              (λ i p. fill_outside w.current.mem w.current.offset _ 0 i p)
              (load-fill w.current.mem w.current.offset _ 0 size (omega arith)) a))
    null-Written time s can room = word8-Written w valid (omega arith) int64_null (omega arith)
    null-Written date s can room = word4-Written w valid (omega arith) int32_null (omega arith)
    null-Written date_time s can room = word8-Written w valid (omega arith) int64_null (omega arith)
    null-Written unsupported s can room = refl

  write_value_or_null-Written :
      (ty : ColumnType) (value : Option (List ℕ)) (len : ℕ)
      → IsSane time_of (col ty size name) (record { value = value; length = len })
      → CanRead ty (record { value = value; length = len })
      → Room ty (record { value = value; length = len })
      → CellWritten ty (record { value = value; length = len })
  write_value_or_null-Written ty (some v) len s can room = value-Written v len ty s can room
  write_value_or_null-Written ty none len s can room = null-Written len ty s can room

-- A field of any type, NULL or not: the write appends what the readers give back.
pub write_cell-Written :
    (time_of : List ℕ → MysqlTime) (assertions : Bool) (w : Writer)
    → IsValid w
    → (c : Column) (x : Cell) → IsSane time_of c x
    → Readable assertions c (w.current.variable_offset + tail_size c x)
    → w.current.offset + width c + w.current.variable_offset + tail_size c x ≤ w.chunk_size
    → Written
        (width c)
        (tail_size c x)
        (read_field assertions c)
        w
        (write_cell time_of c x w)
        (expected time_of c x)
write_cell-Written time_of assertions w valid c x s can room =
    write_value_or_null-Written time_of assertions w valid c.size c.name c.type x.value x.length s
      can room
