-- ===== src/Hdat/RoundTrip/Rows.antt =====
-- One row: the loop of SuperChunkWriter::WriteRow, and the readers called column by column.
use mathlib.Core.Path.{subst}
use sas_libclient.Base.{
  ℕ, ◌+◌, ◌-◌, ◌≤◌, refl, ◌∙◌, ap, sym, Bool, inl, inr, List, [], ◌∷◌, none, some, Outcome, ok,
  throws, fault, ◌>>=◌, arith,
}
use sas_libclient.Hdat.Memory.{Memory, Same}
use sas_libclient.Hdat.Schema.{RowSchema, Cell}
use sas_libclient.Hdat.Calendar.{MysqlTime}
use sas_libclient.Hdat.Reader.{Reader, Read}
use sas_libclient.Hdat.Writer.{Writer, write_cell, write_cells}
use sas_libclient.Hdat.Appended.{IsValid}
use sas_libclient.Hdat.Fits.{width, tail_size, IsSane, Extends, Extends-IsValid, Extends-trans}
use sas_libclient.Hdat.RoundTrip.Wrote.{Wrote, Written}
use sas_libclient.Hdat.RoundTrip.Readable.{RowReadable}
use sas_libclient.Hdat.RoundTrip.Cells.{write_cell-Written}
use sas_libclient.Hdat.RoundTrip.Values.{expected}
use sas_libclient.Tsv.Field.{Field, read_field}

-- One value, then more of them.
abbrev pub and_then :
    (Reader → Read Field) → (Reader → Read (List Field)) → Reader → Read (List Field)
and_then get rest r = get r >>= λ (f, r'). elim f [
  | none ↦ ok (none, r')
  | some f ↦
      rest r' >>= λ (fs, r''). elim fs [ none ↦ ok (none, r'') | some fs ↦ ok (some (f ∷ fs), r'') ]
]

-- The fields of a row, one after the other, without the text.
abbrev pub read_fields : Bool → RowSchema → Reader → Read (List Field)
read_fields assertions [] r = ok (some [], r)
read_fields assertions (c ∷ cs) r = and_then (read_field assertions c) (read_fields assertions cs) r

abbrev pub row_width : RowSchema → ℕ
row_width [] = 0
row_width (c ∷ cs) = width c + row_width cs

abbrev pub row_tail : RowSchema → List Cell → ℕ
row_tail [] xs = 0
row_tail (c ∷ cs) [] = 0
row_tail (c ∷ cs) (x ∷ xs) = tail_size c x + row_tail cs xs

abbrev pub and_fields : Outcome Field → Outcome (List Field) → Outcome (List Field)
and_fields e es = e >>= λ f. es >>= λ fs. ok (f ∷ fs)

module _ (time_of : List ℕ → MysqlTime) where
  -- A field for every column, each one sane.
  abbrev pub RowSane : RowSchema → List Cell → Type 0
  RowSane [] xs = Unit {0}
  RowSane (c ∷ cs) [] = ⊥
  RowSane (c ∷ cs) (x ∷ xs) = IsSane time_of c x × RowSane cs xs

  abbrev pub expected_row : RowSchema → List Cell → Outcome (List Field)
  expected_row [] xs = ok []
  expected_row (c ∷ cs) [] = fault
  expected_row (c ∷ cs) (x ∷ xs) = and_fields (expected time_of c x) (expected_row cs xs)

module _ {k n : ℕ} (k' n' : ℕ) {get : Reader → Read Field} (rest : Reader → Read (List Field))
    {f : Field} {w w' : Writer} (fits : w.current.variable_offset ≤ w.chunk_size)
    (h : Wrote k n get f w w') where
  both-Wrote :
      {fs : List Field} {w'' : Writer}
      → Wrote k' n' rest fs w' w''
      → Wrote (k + k') (n + n') (and_then get rest) (f ∷ fs) w w''
  both-Wrote {fs} {w''} h' = record {
    extends = Extends-trans fits h.extends h'.extends;
    reads = λ r size place front back.
        let one = h.reads r size place (front1 r front) (back1 r back) in
        let p = one.passed in
        let two =
          h'.reads one.next (p.size ∙ size ∙ sym h.extends.chunk_size)
            (omega (arith, p.offset, place, h.extends.offset))
            (λ i a b. ap (λ (m : Memory). m i) p.mem ∙ front i (omega (arith, h.extends.offset)) b)
            (λ i a b.
              ap (λ (m : Memory). m i) p.mem
              ∙ back i (omega (arith, h.extends.chunk_size))
                  (omega (arith, h.extends.chunk_size, h.extends.variable))) in
        record {
          next = two.next;
          returns = rw (one.returns, two.returns);
          passed = record {
            mem = two.passed.mem ∙ p.mem;
            size = two.passed.size ∙ p.size;
            offset = omega (arith, two.passed.offset, p.offset);
            schema = two.passed.schema ∙ p.schema;
          };
        };
  }
    where
      front1 :
          (r : Reader)
          → Same r.current.mem w''.current.mem w.current.offset w''.current.offset
          → Same r.current.mem w'.current.mem w.current.offset w'.current.offset
      front1 r front i a b =
          front i a (omega (arith, h'.extends.offset)) ∙ h'.extends.frame i (inl b)

      back1 :
          (r : Reader)
          → Same r.current.mem w''.current.mem
              (w.chunk_size - w''.current.variable_offset)
              (w.chunk_size - w.current.variable_offset)
          → Same r.current.mem w'.current.mem
              (w.chunk_size - w'.current.variable_offset)
              (w.chunk_size - w.current.variable_offset)
      back1 r back i a b =
          back i (omega (arith, h'.extends.variable)) b
          ∙ h'.extends.frame i (inr (omega (arith, h.extends.chunk_size)))

  both-Written :
      (r : Outcome Writer) (e : Outcome (List Field))
      → Written k' n' rest w' r e
      → Written (k + k') (n + n') (and_then get rest) w r (and_fields (ok f) e)
  both-Written (ok w'') (ok fs) h' = both-Wrote h'
  both-Written (throws x) (throws x') h' = h'
  both-Written (ok w'') (throws x) h' = h'
  both-Written (ok w'') fault h' = h'
  both-Written (throws x) (ok fs) h' = h'
  both-Written (throws x) fault h' = h'
  both-Written fault e h' = absurd h'

nil-Written :
    (assertions : Bool) (w : Writer) → Written 0 0 (read_fields assertions []) w (ok w) (ok [])
nil-Written assertions w = record {
  extends = record {
    offset = omega arith;
    variable = omega arith;
    frame = λ i p. refl;
    size = refl;
    row_count = refl;
    chunk_size = refl;
    row_fixed_size = refl;
    row_offset = refl;
    schema = refl;
  };
  reads = λ r size place front back. record {
    next = r;
    returns = refl;
    passed = record { mem = refl; size = refl; offset = omega arith; schema = refl };
  };
}

module _ (w : Writer) (fits : w.current.variable_offset ≤ w.chunk_size) (k n k' n' : ℕ)
    (get : Reader → Read Field) (rest : Reader → Read (List Field)) where
  -- A field and then the others, by what the first one comes to.
  field-Written :
      (r : Outcome Writer) (e : Outcome Field) (g : Writer → Outcome Writer)
      (es : Outcome (List Field))
      → Written k n get w r e
      → ((w' : Writer) → Extends k n w w' → Written k' n' rest w' (g w') es)
      → Written (k + k') (n + n') (and_then get rest) w (r >>= g) (and_fields e es)
  field-Written (ok w') (ok f) g es h next =
      both-Written k' n' rest fits h (g w') es (next w' h.extends)
  field-Written (throws x) (throws x') g es h next = h
  field-Written (ok w') (throws x) g es h next = absurd h
  field-Written (ok w') fault g es h next = absurd h
  field-Written (throws x) (ok f) g es h next = absurd h
  field-Written (throws x) fault g es h next = absurd h
  field-Written fault e g es h next = absurd h

module _ (time_of : List ℕ → MysqlTime) (assertions : Bool) where
  pub write_cells-Written :
      (cs : RowSchema) (xs : List Cell) (w : Writer)
      → IsValid w
      → RowSane time_of cs xs
      → RowReadable assertions w.current.variable_offset cs xs
      → w.current.offset + row_width cs + w.current.variable_offset + row_tail cs xs ≤ w.chunk_size
      → Written
          (row_width cs)
          (row_tail cs xs)
          (read_fields assertions cs)
          w
          (write_cells time_of cs xs w)
          (expected_row time_of cs xs)
  unfolding write_cells
  write_cells-Written [] xs w valid sane can room = nil-Written assertions w
  write_cells-Written (c ∷ cs) [] w valid sane can room = absurd sane
  write_cells-Written (c ∷ cs) (x ∷ xs) w valid (s, ss) (can, cans) room =
      field-Written w (omega (arith, valid.fits)) (width c) (tail_size c x) (row_width cs)
        (row_tail cs xs) (read_field assertions c) (read_fields assertions cs)
        (write_cell time_of c x w) (expected time_of c x) (write_cells time_of cs xs)
        (expected_row time_of cs xs)
        (write_cell-Written time_of assertions w valid c x s can (omega arith))
        λ w' e.
          write_cells-Written cs xs w' (Extends-IsValid valid (omega arith) e) ss
            (subst (λ v. RowReadable assertions v cs xs) (sym e.variable) cans)
            (omega (arith, e.offset, e.variable, e.chunk_size))
