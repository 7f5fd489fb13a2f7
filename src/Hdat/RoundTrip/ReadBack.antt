-- ===== src/Hdat/RoundTrip/ReadBack.antt =====
-- Reading back what has just been written, field by field and row by row.
use mathlib.Core.Path.{subst}
use sas_libclient.Base.{
  ℕ, ◌+◌, ◌≤◌, ◌≡◌, refl, ◌∙◌, true, false, Bool, List, Outcome, ok, throws, fault, add_u64,
}
use sas_libclient.Hdat.Schema.{Column, Cell}
use sas_libclient.Hdat.Calendar.{MysqlTime}
use sas_libclient.Hdat.Reader.{Reader}
use sas_libclient.Hdat.Writer.{Writer, write_cell, write_row}
use sas_libclient.Hdat.Appended.{IsValid}
use sas_libclient.Hdat.RoundTrip.Readable.{RowReadable, Readable}
use sas_libclient.Hdat.Fits.{width, tail_size, IsSane}
use sas_libclient.Hdat.RoundTrip.Fields.{Gives}
use sas_libclient.Hdat.RoundTrip.Wrote.{Written}
use sas_libclient.Hdat.RoundTrip.Cells.{write_cell-Written}
use sas_libclient.Hdat.RoundTrip.Values.{expected}
use sas_libclient.Hdat.RoundTrip.Rows.{read_fields, row_width, RowSane, expected_row}
use sas_libclient.Hdat.RoundTrip.WriteRow.{row_cost, free, RowWritten, write_row-Written}
use sas_libclient.Tsv.Field.{Field, read_field}

-- A reader over the writer's chunk, at the offset `o`.
abbrev pub reader_at : Writer → ℕ → Reader → Reader
reader_at w o r = record r { current = record w.current { offset = o } }

module _ (time_of : List ℕ → MysqlTime) (assertions : Bool) (w : Writer) (valid : IsValid w) where
  module _ (c : Column) (x : Cell) (sane : IsSane time_of c x)
      (can : Readable assertions c (w.current.variable_offset + tail_size c x))
      (room : w.current.offset + width c + w.current.variable_offset + tail_size c x
        ≤ w.chunk_size) where
    of_Written :
        (f : Field) (r : Reader) (res : Outcome Writer) (e : Outcome Field)
        → Written (width c) (tail_size c x) (read_field assertions c) w res e
        → e ≡ ok f
        → (w' : Writer) × (res ≡ ok w')
          × Gives
              (width c)
              f
              (reader_at w' w.current.offset r)
              (read_field assertions c (reader_at w' w.current.offset r))
    of_Written f r (ok w') (ok f') h e =
        let same : f' ≡ f = cc in
        (
          w',
          refl,
          subst
              (λ y.
                Gives (width c) y (reader_at w' w.current.offset r)
                  (read_field assertions c (reader_at w' w.current.offset r)))
              same
              (h.reads (reader_at w' w.current.offset r) (h.extends.size ∙ valid.same_size) refl
                (λ i a b. refl) (λ i a b. refl)),
        )
    of_Written f r (ok w') (throws y) h e = absurd h
    of_Written f r (ok w') fault h e = absurd h
    of_Written f r (throws y) (ok f') h e = absurd h
    of_Written f r (throws y) (throws y') h e = cc
    of_Written f r (throws y) fault h e = absurd h
    of_Written f r fault e' h e = absurd h

    -- For a column of any type and a sane field, NULL or not, that has room, converts and can be
    -- read back, the writer's case of the switch succeeds, and the reader's case for the type, from
    -- the same offset, gives the value back and moves on by the width of the column; least
    -- integers, not-a-numbers and empty or blank strings come back as null. A field can be read
    -- back unless it is in a CHAR or BINARY column of 2^31 bytes or more or, where assertions are
    -- compiled in, a VARCHAR or TEXT field after which the variable part is still empty.
    pub write_cell-read :
        (f : Field) (r : Reader)
        → expected time_of c x ≡ ok f
        → (w' : Writer) × (write_cell time_of c x w ≡ ok w')
          × Gives
              (width c)
              f
              (reader_at w' w.current.offset r)
              (read_field assertions c (reader_at w' w.current.offset r))
    write_cell-read f r e =
        of_Written f r (write_cell time_of c x w) (expected time_of c x)
          (write_cell-Written time_of assertions w valid c x sane can room) e

  module _ (xs : List Cell) (sane : RowSane time_of w.schema xs)
      (can : RowReadable assertions 0 w.schema xs) (room : row_cost w.schema xs ≤ free w) where
    of_row :
        (fs : List Field) (r : Reader) (res : Outcome (Bool × Writer)) (e : Outcome (List Field))
        → RowWritten assertions w.schema xs w res e
        → e ≡ ok fs
        → (w' : Writer) × (res ≡ ok (true, w'))
          × IsValid w'
          × (w'.current.row_count ≡ add_u64 w.current.row_count 1)
          × Gives
              (row_width w.schema)
              fs
              (reader_at w' w.current.offset r)
              (read_fields assertions w.schema (reader_at w' w.current.offset r))
    of_row fs r (ok (true, w')) (ok fs') (t, h) e =
        let same : fs' ≡ fs = cc in
        (
          w',
          refl,
          h.still_valid,
          h.counted,
          subst
              (λ y.
                Gives (row_width w.schema) y (reader_at w' w.current.offset r)
                  (read_fields assertions w.schema (reader_at w' w.current.offset r)))
              same
              (h.reads (reader_at w' w.current.offset r) (h.still_valid.same_size ∙ h.same_size)
                refl (λ i a b. refl) (λ i a b. refl)),
        )
    of_row fs r (ok (false, w')) (ok fs') (t, h) e = cc
    of_row fs r (ok p) (throws y) h e = absurd h
    of_row fs r (ok p) fault h e = absurd h
    of_row fs r (throws y) (ok f') h e = absurd h
    of_row fs r (throws y) (throws y') h e = cc
    of_row fs r (throws y) fault h e = absurd h
    of_row fs r fault e' h e = absurd h

    -- WriteRow on a valid writer with room for a sane row whose values all convert and can be read
    -- back returns true, keeps the writer valid, counts one row more, and the readers called column
    -- by column from the row's start give back the value of every field. A row can be read back if
    -- its CHAR and BINARY columns are smaller than 2^31 bytes and, where assertions are compiled
    -- in, every NULL or empty VARCHAR or TEXT field in it comes after one that is not empty.
    pub write_row-read :
        (fs : List Field) (r : Reader)
        → expected_row time_of w.schema xs ≡ ok fs
        → (w' : Writer) × (write_row time_of xs w ≡ ok (true, w'))
          × IsValid w'
          × (w'.current.row_count ≡ add_u64 w.current.row_count 1)
          × Gives
              (row_width w.schema)
              fs
              (reader_at w' w.current.offset r)
              (read_fields assertions w.schema (reader_at w' w.current.offset r))
    write_row-read fs r e =
        of_row fs r (write_row time_of xs w) (expected_row time_of w.schema xs)
          (write_row-Written time_of w valid xs sane assertions can room) e
