-- ===== src/Hdat/Fits.antt =====
-- The fields that the writer takes, the room they need, and what a write leaves alone.
use sas_libclient.Base.{
  ℕ, ◌+◌, ◌-◌, ◌*◌, ◌/◌, ◌^◌, ◌≤◌, ◌<◌, ◌≡◌, ◌≢◌, ◌∙◌, ◌⊎◌, inl, inr, List, none, some, length,
  Outcome, fault, arith,
}
use sas_libclient.Hdat.Memory.{Memory}
use sas_libclient.Hdat.Schema.{
  int64, int32, double, variable, fixed, time, date, date_time, unsupported, Column, Cell,
}
use sas_libclient.Hdat.Calendar.{MysqlTime, to_date_time_cas}
use sas_libclient.Hdat.Writer.{Writer}
use sas_libclient.Hdat.Appended.{IsValid, Appended}

-- The bytes that a column takes in the fixed part of a row.
abbrev pub width : Column → ℕ
width c = elim c.type [ variable ↦ 16 | fixed ↦ (c.size + 7) / 8 * 8 | _ ↦ 8 ]

-- The bytes that a field takes in the variable part.
abbrev pub tail_size : Column → Cell → ℕ
tail_size c x = elim c.type [ variable ↦ elim x.value [ none ↦ 0 | some v ↦ x.length ] | _ ↦ 0 ]

module _ (time_of : List ℕ → MysqlTime) where
  -- The buffer behind a field holds as many bytes as its column and its length say; a CHAR or BINARY
  -- value is no longer than its column; a DATETIME is not before 1960, where the conversion of the
  -- source is undefined.
  abbrev pub ValueFits : Column → List ℕ → ℕ → Type 0
  ValueFits c v len = elim c.type [
    | int64 ↦ 8 ≤ length v
    | int32 ↦ 4 ≤ length v
    | double ↦ 8 ≤ length v
    | variable ↦ len ≤ length v
    | fixed ↦ (len ≤ c.size) × (len ≤ length v)
    | date_time ↦ to_date_time_cas (time_of v) ≢ fault
    | date ↦ Unit {0}
    | time ↦ Unit {0}
    | unsupported ↦ Unit {0}
  ]

  abbrev pub CellFits : Column → Cell → Type 0
  CellFits c x = elim x.value [ none ↦ Unit {0} | some v ↦ ValueFits c v x.length ]

  -- Lengths and sizes are far below 2^64, so that their sums do not wrap.
  pub record IsSane (c : Column) (x : Cell) : Type 0 where
    pub fits : CellFits c x
    pub size_small : c.size < 2 ^ 63
    pub length_small : x.length < 2 ^ 63

-- `w'` is `w` with `k` bytes more in the fixed part and `n` more in the variable part; the bytes
-- that were there already are still there.
pub record Extends (k n : ℕ) (w w' : Writer) : Type 0 where
  pub offset : w'.current.offset ≡ w.current.offset + k
  pub variable : w'.current.variable_offset ≡ w.current.variable_offset + n
  pub frame :
      (i : ℕ)
      → (i < w.current.offset) ⊎ (w.chunk_size - w.current.variable_offset ≤ i)
      → w'.current.mem i ≡ w.current.mem i
  pub size : w'.current.size ≡ w.current.size
  pub row_count : w'.current.row_count ≡ w.current.row_count
  pub chunk_size : w'.chunk_size ≡ w.chunk_size
  pub row_fixed_size : w'.row_fixed_size ≡ w.row_fixed_size
  pub row_offset : w'.row_offset ≡ w.row_offset
  pub schema : w'.schema ≡ w.schema

pub Appended-Extends :
    {k n : ℕ} {m : Memory} {w : Writer} {r : Outcome Writer} (a : Appended w k n m r)
    → ((i : ℕ)
        → (i < w.current.offset) ⊎ (w.chunk_size - w.current.variable_offset ≤ i)
        → m i ≡ w.current.mem i)
    → Extends k n w a.out
Appended-Extends a h = record {
  offset = a.offset;
  variable = a.variable;
  frame = λ i p. a.mem i ∙ h i p;
  size = a.size;
  row_count = a.row_count;
  chunk_size = a.chunk_size;
  row_fixed_size = a.row_fixed_size;
  row_offset = a.row_offset;
  schema = a.schema;
}

pub Extends-IsValid :
    {k n : ℕ} {w w' : Writer}
    → IsValid w
    → w.current.offset + k + w.current.variable_offset + n ≤ w.chunk_size
    → Extends k n w w'
    → IsValid w'
Extends-IsValid v room e = record {
  fits = omega (arith, e.offset, e.variable, e.chunk_size);
  same_size = omega (arith, e.size, e.chunk_size, v.same_size);
  small = omega (arith, e.chunk_size, v.small);
  first = elim v.first [
    | inl p ↦ inl (e.row_offset ∙ p)
    | inr p ↦ inr (omega (arith, e.row_fixed_size, p))
  ];
}

pub Extends-trans :
    {k n k' n' : ℕ} {w w' w'' : Writer}
    → w.current.variable_offset ≤ w.chunk_size
    → Extends k n w w'
    → Extends k' n' w' w''
    → Extends (k + k') (n + n') w w''
Extends-trans {k} {n} {k'} {n'} {w} {w'} {w''} h e f = record {
  offset = omega (arith, e.offset, f.offset);
  variable = omega (arith, e.variable, f.variable);
  frame = λ i p. f.frame i (outside i p) ∙ e.frame i p;
  size = f.size ∙ e.size;
  row_count = f.row_count ∙ e.row_count;
  chunk_size = f.chunk_size ∙ e.chunk_size;
  row_fixed_size = f.row_fixed_size ∙ e.row_fixed_size;
  row_offset = f.row_offset ∙ e.row_offset;
  schema = f.schema ∙ e.schema;
}
  where
    outside :
        (i : ℕ)
        → (i < w.current.offset) ⊎ (w.chunk_size - w.current.variable_offset ≤ i)
        → (i < w'.current.offset) ⊎ (w'.chunk_size - w'.current.variable_offset ≤ i)
    outside i (inl l) = inl (omega (arith, e.offset))
    outside i (inr l) = inr (omega (arith, e.variable, e.chunk_size))
