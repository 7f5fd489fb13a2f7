-- ===== src/Hdat/RoundTrip/WriteRow.antt =====
-- SuperChunkWriter::WriteRow: its room check (rowSize, HasEnoughSpace), its loop and WriteRowEnd.
use native.Mathlib.Decide.{dec_lt}
use sas_libclient.Base.{
  ℕ, ◌+◌, ◌-◌, ◌*◌, ◌/◌, ◌^◌, ◌≤◌, ◌<◌, ◌≡◌, refl, ◌∙◌, ap, false, true, Bool, ◌⊎◌, inl, inr, List,
  [], ◌∷◌, Option, none, some, Outcome, ok, throws, fault, ◌>>=◌, arith, leb, ◌==◌, if◌then◌else◌,
  add_u64, sub_u64, invalid_argument, le→leb, ==_iff, Bool-cases,
}
use sas_libclient.Hdat.Memory.{Same}
use sas_libclient.Hdat.Schema.{
  ColumnType, int64, int32, double, variable, fixed, time, date, date_time, unsupported, Column,
  RowSchema, Cell, column_size, row_size, row_size_from, sizeof_aligned8_lem,
}
use sas_libclient.Hdat.SuperChunk.{incr_row_count}
use sas_libclient.Hdat.Calendar.{MysqlTime}
use sas_libclient.Hdat.Reader.{Reader}
use sas_libclient.Hdat.Writer.{
  Writer, write_cells, write_row, write_row_end, has_enough_space, too_small,
}
use sas_libclient.Hdat.Appended.{IsValid}
use sas_libclient.Hdat.RoundTrip.Readable.{RowReadable, RowReadable-more}
use sas_libclient.Hdat.Fits.{width, tail_size, IsSane, Extends-IsValid}
use sas_libclient.Hdat.RoundTrip.Fields.{Gives}
use sas_libclient.Hdat.RoundTrip.Wrote.{Wrote, Written}
use sas_libclient.Hdat.RoundTrip.Rows.{
  read_fields, row_width, row_tail, RowSane, expected_row, write_cells-Written,
}
use sas_libclient.Tsv.Field.{Field}

-- What a field counts for in rowSize, with sums that do not wrap.
abbrev pub cost : Column → Cell → ℕ
cost c x = elim c.type [ variable ↦ 16 + x.length | fixed ↦ (c.size + 7) / 8 * 8 | _ ↦ 8 ]

abbrev pub row_cost : RowSchema → List Cell → ℕ
row_cost [] xs = 0
row_cost (c ∷ cs) [] = 0
row_cost (c ∷ cs) (x ∷ xs) = cost c x + row_cost cs xs

-- The room between the two parts of the chunk.
abbrev pub free : Writer → ℕ
free w = w.chunk_size - w.current.variable_offset - w.current.offset

module _ (time_of : List ℕ → MysqlTime) where
  column_size_lem :
      (c : Column) (x : Cell) → IsSane time_of c x → column_size c.type c.size x.length ≡ cost c x
  unfolding column_size
  column_size_lem c x s = by_type c.type c.size x.length s.size_small s.length_small
    where
      by_type :
          (ty : ColumnType) (size len : ℕ)
          → size < 2 ^ 63
          → len < 2 ^ 63
          → column_size ty size len
            ≡ cost
                (record { type = ty; size = size; name = [] })
                (record { value = none; length = len })
      by_type variable size len p q = omega arith
      by_type fixed size len p q = sizeof_aligned8_lem size (omega arith)
      by_type int64 size len p q = refl
      by_type int32 size len p q = refl
      by_type double size len p q = refl
      by_type time size len p q = refl
      by_type date size len p q = refl
      by_type date_time size len p q = refl
      by_type unsupported size len p q = refl

  row_size_from_lem :
      (cs : RowSchema) (xs : List Cell) (total : ℕ)
      → RowSane time_of cs xs
      → total + row_cost cs xs < 2 ^ 64
      → row_size_from cs xs total ≡ ok (total + row_cost cs xs)
  unfolding row_size_from
  row_size_from_lem [] xs total sane h = ap ok (omega arith)
  row_size_from_lem (c ∷ cs) [] total sane h = absurd sane
  row_size_from_lem (c ∷ cs) (x ∷ xs) total (s, ss) h =
      let sum : add_u64 total (column_size c.type c.size x.length) ≡ total + cost c x =
        omega (arith, column_size_lem c x s) in
      rw sum (row_size_from_lem cs xs (total + cost c x) ss (omega arith) ∙ ap ok (omega arith))

  -- rowSize is the sum over the columns of 16 and the length of a variable value, the size of a
  -- fixed one rounded up to a multiple of eight, and 8 for every other type, as long as that sum is
  -- below 2^64.
  pub row_size_lem :
      (cs : RowSchema) (xs : List Cell)
      → RowSane time_of cs xs
      → row_cost cs xs < 2 ^ 64
      → row_size cs xs ≡ ok (row_cost cs xs)
  unfolding row_size
  row_size_lem cs xs sane h = row_size_from_lem cs xs 0 sane (omega arith) ∙ ap ok (omega arith)

  tail_le_cost : (c : Column) (x : Cell) → width c + tail_size c x ≤ cost c x
  tail_le_cost c x = by_type c.type x.value
    where
      by_type :
          (ty : ColumnType) (v : Option (List ℕ))
          → width (record { type = ty; size = c.size; name = [] })
              + tail_size
                  (record { type = ty; size = c.size; name = [] })
                  (record { value = v; length = x.length })
            ≤ cost (record { type = ty; size = c.size; name = [] }) x
      by_type variable none = omega arith
      by_type variable (some v) = omega arith
      by_type fixed v = omega arith
      by_type int64 v = omega arith
      by_type int32 v = omega arith
      by_type double v = omega arith
      by_type time v = omega arith
      by_type date v = omega arith
      by_type date_time v = omega arith
      by_type unsupported v = omega arith

  -- The row takes no more room than rowSize says.
  pub row_within_cost :
      (cs : RowSchema) (xs : List Cell)
      → RowSane time_of cs xs
      → row_width cs + row_tail cs xs ≤ row_cost cs xs
  row_within_cost [] xs sane = omega arith
  row_within_cost (c ∷ cs) [] sane = absurd sane
  row_within_cost (c ∷ cs) (x ∷ xs) (s, ss) =
      omega (arith, tail_le_cost c x, row_within_cost cs xs ss)

pub has_enough_space_lem :
    (n : ℕ) (w : Writer) → IsValid w → has_enough_space n w ≡ ok (leb n (free w))
unfolding has_enough_space
has_enough_space_lem n w valid =
    let fits : leb (add_u64 w.current.offset w.current.variable_offset) w.chunk_size ≡ true =
      le→leb _ _ (omega (arith, valid.small, valid.fits)) in
    let room : sub_u64 (sub_u64 w.chunk_size w.current.variable_offset) w.current.offset ≡ free w =
      omega (arith, valid.small, valid.fits) in
    rw (fits, room)

-- A whole row: the writer is valid again, counts one row more, and the readers give `fs` back.
pub record RowDone (assertions : Bool) (cs : RowSchema) (xs : List Cell) (fs : List Field)
    (w w' : Writer) : Type 0 where
  pub wrote_width : w'.current.offset ≡ w.current.offset + row_width cs
  pub wrote_tail : w'.current.variable_offset ≡ w.current.variable_offset + row_tail cs xs
  pub counted : w'.current.row_count ≡ add_u64 w.current.row_count 1
  pub still_valid : IsValid w'
  pub same_schema : w'.schema ≡ w.schema
  pub same_size : w'.chunk_size ≡ w.chunk_size
  pub row_fixed_size :
      w'.row_fixed_size ≡ (if w.row_fixed_size == 0 then w'.current.offset else w.row_fixed_size)
  pub frame :
      (i : ℕ)
      → (i < w.current.offset) ⊎ (w.chunk_size - w.current.variable_offset ≤ i)
      → w'.current.mem i ≡ w.current.mem i
  pub reads :
      (r : Reader)
      → r.current.size ≡ w.chunk_size
      → r.current.offset ≡ w.current.offset
      → Same r.current.mem w'.current.mem w.current.offset w'.current.offset
      → Same r.current.mem w'.current.mem
          (w.chunk_size - w'.current.variable_offset)
          (w.chunk_size - w.current.variable_offset)
      → Gives (row_width cs) fs r (read_fields assertions cs r)

-- A row is written as a whole, or the exception is the one that the values give.
abbrev pub RowWritten :
    Bool → RowSchema → List Cell → Writer → Outcome (Bool × Writer) → Outcome (List Field) → Type 0
RowWritten assertions cs xs w (ok (b, w')) (ok fs) = (b ≡ true) × RowDone assertions cs xs fs w w'
RowWritten assertions cs xs w (throws e) (throws e') = e ≡ e'
RowWritten assertions cs xs w _ _ = ⊥

module _ (assertions : Bool) (cs : RowSchema) (xs : List Cell) (w : Writer) (valid : IsValid w)
    (room : w.current.offset + row_width cs + w.current.variable_offset + row_tail cs xs
      ≤ w.chunk_size) where
  -- The writer after WriteRowEnd, with the row size that it keeps.
  abbrev ended : ℕ → Writer → Writer
  ended size w' = record w' {
    row_fixed_size = size;
    current = incr_row_count w'.current;
    row_offset = w'.current.offset;
    row_column_count = 0;
  }

  ended-RowDone :
      (fs : List Field) (w' : Writer) (size : ℕ)
      → Wrote (row_width cs) (row_tail cs xs) (read_fields assertions cs) fs w w'
      → size ≡ (if w.row_fixed_size == 0 then w'.current.offset else w.row_fixed_size)
      → RowDone assertions cs xs fs w (ended size w')
  unfolding incr_row_count
  ended-RowDone fs w' size h e =
      let x = h.extends in
      let v = Extends-IsValid {k = row_width cs} {n = row_tail cs xs} valid room x in
      record {
        wrote_width = x.offset;
        wrote_tail = x.variable;
        counted = ap (λ n. add_u64 n 1) x.row_count;
        still_valid = record {
          fits = v.fits;
          same_size = v.same_size;
          small = v.small;
          first = elim (dec_lt 0 size) [ yes p ↦ inr p | no p ↦ inl (starts e (omega arith)) ];
        };
        same_schema = x.schema;
        same_size = x.chunk_size;
        row_fixed_size = e;
        frame = x.frame;
        reads = h.reads;
      }
    where
      starts :
          size ≡ (if w.row_fixed_size == 0 then w'.current.offset else w.row_fixed_size)
          → size ≡ 0
          → w'.current.offset ≡ 0
      starts e p = ground arith

  first_row : w.row_fixed_size ≡ 0 → w.row_offset ≡ 0
  first_row e = elim valid.first [ inl p ↦ p | inr p ↦ absurd (omega arith) ]

  end_row :
      (fs : List Field) (w' : Writer)
      → Wrote (row_width cs) (row_tail cs xs) (read_fields assertions cs) fs w w'
      → RowWritten assertions cs xs w (write_row_end w' >>= λ w''. ok (true, w'')) (ok fs)
  unfolding write_row_end
  end_row fs w' h =
      let same = h.extends.row_fixed_size in
      elim (Bool-cases (w.row_fixed_size == 0)) [
        | inl t ↦
            let t' : (w'.row_fixed_size == 0) ≡ true = rw same t in
            let start : (w'.row_offset == 0) ≡ true =
              (==_iff _ _).1 (h.extends.row_offset ∙ first_row ((==_iff _ _).0 t)) in
            rw (t', start) (refl, ended-RowDone fs w' w'.current.offset h (rw t refl))
        | inr f ↦
            let f' : (w'.row_fixed_size == 0) ≡ false = rw same f in
            rw f' (refl, ended-RowDone fs w' w'.row_fixed_size h (rw f same))
      ]

  finish_row :
      (r : Outcome Writer) (e : Outcome (List Field))
      → Written (row_width cs) (row_tail cs xs) (read_fields assertions cs) w r e
      → RowWritten assertions cs xs w (r >>= write_row_end >>= λ w''. ok (true, w'')) e
  finish_row (ok w') (ok fs) h = end_row fs w' h
  finish_row (throws x) (throws x') h = h
  finish_row (ok w') (throws x) h = absurd h
  finish_row (ok w') fault h = absurd h
  finish_row (throws x) (ok fs) h = absurd h
  finish_row (throws x) fault h = absurd h
  finish_row fault e h = absurd h

module _ (time_of : List ℕ → MysqlTime) (w : Writer) (valid : IsValid w) (xs : List Cell)
    (sane : RowSane time_of w.schema xs) where
  pub write_row-Written :
      (assertions : Bool)
      → RowReadable assertions 0 w.schema xs
      → row_cost w.schema xs ≤ free w
      → RowWritten assertions w.schema xs w
          (write_row time_of xs w)
          (expected_row time_of w.schema xs)
  unfolding write_row
  write_row-Written assertions can room =
      let size = row_size_lem time_of w.schema xs sane (omega (arith, valid.small)) in
      let enough = has_enough_space_lem (row_cost w.schema xs) w valid in
      let room' : w.current.offset
            + row_width w.schema
            + w.current.variable_offset
            + row_tail w.schema xs
          ≤ w.chunk_size =
        omega (arith, valid.fits, row_within_cost time_of w.schema xs sane) in
      rw (size, enough, le→leb _ _ room)
        (finish_row assertions w.schema xs w valid room' (write_cells time_of w.schema xs w)
          (expected_row time_of w.schema xs)
          (write_cells-Written time_of assertions w.schema xs w valid sane
            (RowReadable-more assertions w.schema xs 0 w.current.variable_offset (omega arith) can)
            room'))

  -- When the space left is less than the size of a sane row, WriteRow throws std::invalid_argument
  -- if the chunk has no rows, and otherwise returns false with the writer unchanged.
  pub write_row-full :
      row_cost w.schema xs < 2 ^ 64
      → free w < row_cost w.schema xs
      → write_row time_of xs w ≡ (
          if w.current.row_count == 0
          then throws (invalid_argument (too_small w.chunk_size (row_cost w.schema xs)))
          else ok (false, w))
  unfolding write_row
  write_row-full small full =
      let size = row_size_lem time_of w.schema xs sane small in
      let enough = has_enough_space_lem (row_cost w.schema xs) w valid in
      let no_room : leb (row_cost w.schema xs) (free w) ≡ false = ground arith in
      rw (size, enough, no_room)
