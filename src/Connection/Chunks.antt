-- ===== src/Connection/Chunks.antt =====
-- The rows of a chunk, as NextChunk writes and SuperChunkReader reads them.
use sas_libclient.Base.{
  ℕ, zero, suc, ◌+◌, ◌-◌, ◌*◌, ◌^◌, ◌≤◌, ◌<◌, ◌≡◌, refl, ◌∙◌, ap, sym, ◌⊎◌, inl, inr, Bool, List,
  [], ◌∷◌, none, some, ok, ◌>>=◌, arith, leb, if◌then◌else◌, add_u64,
}
use sas_libclient.Hdat.Memory.{Memory, Same}
use sas_libclient.Hdat.Schema.{RowSchema, Cell}
use sas_libclient.Hdat.Reader.{Reader, Read}
use sas_libclient.Hdat.Writer.{Writer}
use sas_libclient.Hdat.Appended.{IsValid}
use sas_libclient.Hdat.RoundTrip.Fields.{Gives}
use sas_libclient.Hdat.RoundTrip.Rows.{read_fields, row_width, row_tail}
use sas_libclient.Hdat.RoundTrip.WriteRow.{row_cost, RowDone}
use sas_libclient.Tsv.Field.{Field}

-- The rows of a chunk, read one after the other.
abbrev pub read_rows : Bool → RowSchema → ℕ → Reader → Read (List (List Field))
read_rows assertions cs zero r = ok (some [], r)
read_rows assertions cs (suc k) r = read_fields assertions cs r >>= λ (f, r'). elim f [
  | none ↦ ok (none, r')
  | some f ↦ read_rows assertions cs k r' >>= λ (fs, r''). elim fs [
    | none ↦ ok (none, r'')
    | some fs ↦ ok (some (f ∷ fs), r'')
  ]
]

-- The number of rows, from the first on, that a chunk with `space` bytes left takes: the test counts
-- a row at its cost in rowSize, and the row then takes what it needs.
abbrev pub fitting : RowSchema → ℕ → List (List Cell) → ℕ
fitting cs space [] = 0
fitting cs space (x ∷ xs) =
    let rest = fitting cs (space - (row_width cs + row_tail cs x)) xs in
    if leb (row_cost cs x) space then suc rest else 0

-- `k` rows more in the chunk, and what a reader gets for them.
pub record RowsDone (assertions : Bool) (cs : RowSchema) (k : ℕ) (fss : List (List Field))
    (w w' : Writer) : Type 0 where
  pub offset : w'.current.offset ≡ w.current.offset + k * row_width cs
  pub variable : w.current.variable_offset ≤ w'.current.variable_offset
  pub counted : w'.current.row_count ≡ add_u64 w.current.row_count k
  pub still_valid : IsValid w'
  pub same_schema : w'.schema ≡ w.schema
  pub same_size : w'.chunk_size ≡ w.chunk_size
  pub frame :
      (i : ℕ)
      → (i < w.current.offset) ⊎ (w.chunk_size - w.current.variable_offset ≤ i)
      → w'.current.mem i ≡ w.current.mem i
  pub reads :
      (r : Reader)
      → r.current.size ≡ w.chunk_size
      → r.current.offset ≡ w.current.offset
      → Same r.current.mem w'.current.mem w.current.offset w'.current.offset
      → Same r.current.mem w'.current.mem
          (w.chunk_size - w'.current.variable_offset)
          (w.chunk_size - w.current.variable_offset)
      → Gives (k * row_width cs) fss r (read_rows assertions cs k r)

module _ (assertions : Bool) (cs : RowSchema) where
  pub no_rows :
      (w : Writer) → IsValid w → w.current.row_count < 2 ^ 64 → RowsDone assertions cs 0 [] w w
  no_rows w valid small = record {
    offset = omega arith;
    variable = omega arith;
    counted = omega arith;
    still_valid = valid;
    same_schema = refl;
    same_size = refl;
    frame = λ i p. refl;
    reads = λ r size place front back. record {
      next = r;
      returns = refl;
      passed = record { mem = refl; size = refl; offset = omega arith; schema = refl };
    };
  }

  module _ {x : List Cell} {fs : List Field} {w w' : Writer} (h : RowDone assertions cs x fs w w')
      (fits : w.current.variable_offset ≤ w.chunk_size) where
    pub one_more :
        (k : ℕ) {fss : List (List Field)} {w'' : Writer}
        → RowsDone assertions cs k fss w' w''
        → RowsDone assertions cs (suc k) (fs ∷ fss) w w''
    one_more k {fss} {w''} h' = record {
      offset = omega (arith, h.wrote_width, h'.offset, mul_suc);
      variable = omega (arith, h.wrote_tail, h'.variable);
      counted = omega (arith, h.counted, h'.counted);
      still_valid = h'.still_valid;
      same_schema = h'.same_schema ∙ h.same_schema;
      same_size = h'.same_size ∙ h.same_size;
      frame = λ i p. h'.frame i (outside i p) ∙ h.frame i p;
      reads = λ r size place front back.
          let one = h.reads r size place (front1 r front) (back1 r back) in
          let p = one.passed in
          let two =
            h'.reads one.next (p.size ∙ size ∙ sym h.same_size)
              (omega (arith, p.offset, place, h.wrote_width))
              (λ i a b. ap (λ (m : Memory). m i) p.mem ∙ front i (omega (arith, h.wrote_width)) b)
              (λ i a b.
                ap (λ (m : Memory). m i) p.mem
                ∙ back i (omega (arith, h.same_size)) (omega (arith, h.same_size, h.wrote_tail))) in
          record {
            next = two.next;
            returns = rw (one.returns, two.returns);
            passed = record {
              mem = two.passed.mem ∙ p.mem;
              size = two.passed.size ∙ p.size;
              offset = omega (arith, two.passed.offset, p.offset, mul_suc);
              schema = two.passed.schema ∙ p.schema;
            };
          };
    }
      where
        mul_suc : suc k * row_width cs ≡ row_width cs + k * row_width cs
        mul_suc = omega arith

        outside :
            (i : ℕ)
            → (i < w.current.offset) ⊎ (w.chunk_size - w.current.variable_offset ≤ i)
            → (i < w'.current.offset) ⊎ (w'.chunk_size - w'.current.variable_offset ≤ i)
        outside i (inl l) = inl (omega (arith, h.wrote_width))
        outside i (inr l) = inr (omega (arith, h.wrote_tail, h.same_size))

        front1 :
            (r : Reader)
            → Same r.current.mem w''.current.mem w.current.offset w''.current.offset
            → Same r.current.mem w'.current.mem w.current.offset w'.current.offset
        front1 r front i a b = front i a (omega (arith, h'.offset)) ∙ h'.frame i (inl b)

        back1 :
            (r : Reader)
            → Same r.current.mem w''.current.mem
                (w.chunk_size - w''.current.variable_offset)
                (w.chunk_size - w.current.variable_offset)
            → Same r.current.mem w'.current.mem
                (w.chunk_size - w'.current.variable_offset)
                (w.chunk_size - w.current.variable_offset)
        back1 r back i a b =
            back i (omega (arith, h'.variable)) b ∙ h'.frame i (inr (omega (arith, h.same_size)))
