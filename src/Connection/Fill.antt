-- ===== src/Connection/Fill.antt =====
-- The loop of NextChunk and GetMultipleRows: how many rows it takes, and where it stops.
use mathlib.Core.Path.{subst}
use native.Mathlib.Decide.{dec_le}
use sas_libclient.Base.{
  ℕ, zero, suc, ◌+◌, ◌-◌, ◌^◌, ◌≤◌, ◌<◌, ◌≡◌, refl, ◌∙◌, ap, false, true, Bool, ◌⊎◌, inl, List, [],
  ◌∷◌, map, Option, none, some, length, take, Outcome, ok, throws, fault, arith, leb, ◌==◌, le→leb,
}
use sas_libclient.Hdat.Schema.{RowSchema, Cell}
use sas_libclient.Hdat.Calendar.{MysqlTime}
use sas_libclient.Hdat.Writer.{Writer, write_row}
use sas_libclient.Hdat.Appended.{IsValid}
use sas_libclient.Hdat.RoundTrip.Readable.{RowReadable}
use sas_libclient.Hdat.RoundTrip.Rows.{row_width, row_tail, RowSane, expected_row}
use sas_libclient.Hdat.RoundTrip.WriteRow.{
  row_cost, free, RowDone, RowWritten, write_row-Written, write_row-full,
}
use sas_libclient.Tsv.Field.{Field}
use sas_libclient.Connection.Fetch.{row, Connection, fetch_cell, advance, fill_chunk}
use sas_libclient.Connection.Chunks.{fitting, RowsDone, no_rows, one_more}

module _ (assertions : Bool) (time_of : List ℕ → MysqlTime) (cs : RowSchema) where
  -- Sane rows whose values all convert, with the fields that they give, and that can be read back
  -- wherever they stand in a chunk.
  abbrev pub AllGood : List (List Cell) → List (List Field) → Type 0
  AllGood [] [] = Unit {0}
  AllGood [] (fs ∷ fss) = ⊥
  AllGood (x ∷ xs) [] = ⊥
  AllGood (x ∷ xs) (fs ∷ fss) =
      RowSane time_of cs x
      × RowReadable assertions 0 cs x
      × (row_cost cs x < 2 ^ 64)
      × (expected_row time_of cs x ≡ ok fs)
      × AllGood xs fss

abbrev pub cells : List (Option (List ℕ)) → List Cell
cells values = map fetch_cell values

-- The connection after `k` rows more.
abbrev pub conn_at : ℕ → List Cell → List (List (Option (List ℕ))) → Connection
conn_at zero x vss = record { last_fetched = some x; pending = map row vss }
conn_at (suc k) x [] = record { last_fetched = none; pending = [] }
conn_at (suc k) x (v ∷ vss) = conn_at k (cells v) vss

-- The loop took the rows that fit, and no more.
pub record Filled (assertions : Bool) (cs : RowSchema) (k : ℕ) (x : List Cell)
    (vss : List (List (Option (List ℕ)))) (fss : List (List Field)) (w : Writer) (n : ℕ)
    (r : Outcome (Writer × ℕ × Connection)) : Type 0 where
  pub out : Writer
  pub returns : r ≡ ok (out, n + k, conn_at k x vss)
  pub done : RowsDone assertions cs k (take k fss) w out

module _ (assertions : Bool) (time_of : List ℕ → MysqlTime) (cs : RowSchema) (w : Writer)
    (x : List Cell) (valid : IsValid w) (same : w.schema ≡ cs) (sane : RowSane time_of cs x)
    (can : RowReadable assertions 0 cs x) where
  from_written :
      (fs : List Field) (r : Outcome (Bool × Writer)) (e : Outcome (List Field))
      → RowWritten assertions cs x w r e
      → e ≡ ok fs
      → (w' : Writer) × (r ≡ ok (true, w')) × RowDone assertions cs x fs w w'
  from_written fs (ok (true, w')) (ok fs') (t, h) e =
      let same_fields : fs' ≡ fs = cc in
      (w', refl, subst (λ y. RowDone assertions cs x y w w') same_fields h)
  from_written fs (ok (false, w')) (ok fs') (t, h) e = cc
  from_written fs (throws x) (throws x') h e = cc
  from_written fs (ok w') (throws x) h e = absurd h
  from_written fs (ok w') fault h e = absurd h
  from_written fs (throws x) (ok fs') h e = absurd h
  from_written fs (throws x) fault h e = absurd h
  from_written fs fault e' h e = absurd h

  row_fits :
      (fs : List Field)
      → expected_row time_of cs x ≡ ok fs
      → row_cost cs x ≤ free w
      → (w' : Writer) × (write_row time_of x w ≡ ok (true, w')) × RowDone assertions cs x fs w w'
  row_fits fs e room =
      from_written fs (write_row time_of x w) (expected_row time_of cs x) (written room) e
    where
      written :
          row_cost cs x ≤ free w
          → RowWritten assertions cs x w (write_row time_of x w) (expected_row time_of cs x)
      written room =
          subst
            (λ s.
              RowSane time_of s x
              → RowReadable assertions 0 s x
              → row_cost s x ≤ free w
              → RowWritten assertions s x w (write_row time_of x w) (expected_row time_of s x))
            same (λ sane can room. write_row-Written time_of w valid x sane assertions can room)
            sane can room

  row_waits :
      row_cost cs x < 2 ^ 64
      → free w < row_cost cs x
      → 0 < w.current.row_count
      → write_row time_of x w ≡ ok (false, w)
  row_waits small full some_rows =
      subst
        (λ s.
          RowSane time_of s x
          → row_cost s x < 2 ^ 64
          → free w < row_cost s x
          → write_row time_of x w ≡ ok (false, w))
        same
        (λ sane small full.
          let counted : (w.current.row_count == 0) ≡ false = ground arith in
          write_row-full time_of w valid x sane small full ∙ rw counted)
        sane small full

module _ (assertions : Bool) (time_of : List ℕ → MysqlTime) (cs : RowSchema) where
  -- The row in hand does not fit, and the chunk has rows.
  stops :
      (x : List Cell) (vss : List (List (Option (List ℕ)))) (fss : List (List Field)) (w : Writer)
      (n : ℕ)
      → IsValid w
      → w.current.row_count < 2 ^ 64
      → write_row time_of x w ≡ ok (false, w)
      → Filled assertions cs 0 x vss fss w n (fill_chunk time_of (some x) (map row vss) w n)
  unfolding fill_chunk
  stops x [] fss w n valid small e = record {
    out = w;
    returns = rw e (ap (λ m. ok (w, m, conn_at 0 x [])) (omega arith));
    done = no_rows assertions cs w valid small;
  }
  stops x (v ∷ vss) fss w n valid small e = record {
    out = w;
    returns = rw e (ap (λ m. ok (w, m, conn_at 0 x (v ∷ vss))) (omega arith));
    done = no_rows assertions cs w valid small;
  }

  -- The row in hand was the last one, or the loop goes on with `k` rows of the others.
  ends :
      (x : List Cell) (fs : List Field) (fss : List (List Field)) (w w' : Writer) (n : ℕ)
      → w.current.variable_offset ≤ w.chunk_size
      → write_row time_of x w ≡ ok (true, w')
      → RowDone assertions cs x fs w w'
      → Filled assertions cs 1 x [] (fs ∷ fss) w n (fill_chunk time_of (some x) [] w n)
  unfolding fill_chunk advance
  ends x fs fss w w' n fits e h = record {
    out = w';
    returns = rw e refl;
    done =
        one_more assertions cs h fits 0
          (no_rows assertions cs w' h.still_valid (omega (arith, h.counted)));
  }

  goes_on :
      (x : List Cell) (v : List (Option (List ℕ))) (vss : List (List (Option (List ℕ))))
      (fs : List Field) (fss : List (List Field)) (w w' : Writer) (n k : ℕ)
      → w.current.variable_offset ≤ w.chunk_size
      → write_row time_of x w ≡ ok (true, w')
      → RowDone assertions cs x fs w w'
      → Filled assertions cs k
          (cells v)
          vss
          fss
          w'
          (n + 1)
          (fill_chunk time_of (some (cells v)) (map row vss) w' (n + 1))
      → Filled assertions cs
          (suc k)
          x
          (v ∷ vss)
          (fs ∷ fss)
          w
          n
          (fill_chunk time_of (some x) (map row (v ∷ vss)) w n)
  unfolding fill_chunk
  goes_on x v vss fs fss w w' n k fits e h rest = record {
    out = rest.out;
    returns =
        rw e (rest.returns ∙ ap (λ m. ok (rest.out, m, conn_at k (cells v) vss)) (omega arith));
    done = one_more assertions cs h fits k rest.done;
  }

  -- What is left of the room after a row, as `fitting` counts it.
  free_after :
      {x : List Cell} {fs : List Field} {w w' : Writer} (h : RowDone assertions cs x fs w w')
      → free w' ≡ free w - (row_width cs + row_tail cs x)
  free_after h = omega (arith, h.wrote_width, h.wrote_tail, h.same_size)

  -- The row in hand is written, or the chunk is closed, by the room that it has.
  by_room :
      (x : List Cell) (vss : List (List (Option (List ℕ)))) (fs : List Field)
      (fss : List (List Field)) (w : Writer) (n : ℕ)
      → IsValid w
      → w.schema ≡ cs
      → AllGood assertions time_of cs (x ∷ map cells vss) (fs ∷ fss)
      → w.current.row_count < 2 ^ 64
      → (0 < w.current.row_count) ⊎ (row_cost cs x ≤ free w)
      → ((w' : Writer)
          → write_row time_of x w ≡ ok (true, w')
          → RowDone assertions cs x fs w w'
          → Filled assertions cs
              (suc (fitting cs (free w - (row_width cs + row_tail cs x)) (map cells vss)))
              x
              vss
              (fs ∷ fss)
              w
              n
              (fill_chunk time_of (some x) (map row vss) w n))
      → Filled assertions cs
          (fitting cs (free w) (x ∷ map cells vss))
          x
          vss
          (fs ∷ fss)
          w
          n
          (fill_chunk time_of (some x) (map row vss) w n)
  by_room x vss fs fss w n valid same (s, can, c, e, rest) count starts more =
      elim (dec_le (row_cost cs x) (free w)) [
        | yes room ↦
            let (w', returns, h) = row_fits assertions time_of cs w x valid same s can fs e room in
            rw (le→leb _ _ room) (more w' returns h)
        | no full ↦
            let no_room : leb (row_cost cs x) (free w) ≡ false = ground arith in
            let some_rows : 0 < w.current.row_count = ground arith in
            rw no_room (
              stops x vss (fs ∷ fss) w n valid count
                (row_waits assertions time_of cs w x valid same s can c (omega arith) some_rows))
      ]

  pub fill_chunk-Filled :
      (x : List Cell) (vss : List (List (Option (List ℕ)))) (fss : List (List Field)) (w : Writer)
      (n : ℕ)
      → IsValid w
      → w.schema ≡ cs
      → AllGood assertions time_of cs (x ∷ map cells vss) fss
      → w.current.row_count + length (x ∷ map cells vss) < 2 ^ 64
      → (0 < w.current.row_count) ⊎ (row_cost cs x ≤ free w)
      → Filled assertions cs
          (fitting cs (free w) (x ∷ map cells vss))
          x
          vss
          fss
          w
          n
          (fill_chunk time_of (some x) (map row vss) w n)
  fill_chunk-Filled x vss [] w n valid same good count starts = absurd good
  fill_chunk-Filled x [] (fs ∷ fss) w n valid same good count starts =
      by_room x [] fs fss w n valid same good (omega (arith, count)) starts
        (λ w' returns h. ends x fs fss w w' n (omega (arith, valid.fits)) returns h)
  fill_chunk-Filled x (v ∷ vss) (fs ∷ fss) w n valid same (s, can, c, e, rest) count starts =
      by_room x (v ∷ vss) fs fss w n valid same (s, can, c, e, rest) (omega (arith, count)) starts
        λ w' returns h. goes_on x v vss fs fss w w' n _ (omega (arith, valid.fits)) returns h (
          subst
            (λ space.
              Filled assertions cs (fitting cs space (cells v ∷ map cells vss)) (cells v) vss fss w'
                (n + 1) (fill_chunk time_of (some (cells v)) (map row vss) w' (n + 1)))
            (free_after h)
            (fill_chunk-Filled (cells v) vss fss w' (n + 1) h.still_valid (h.same_schema ∙ same)
              rest (omega (arith, h.counted, count)) (inl (omega (arith, h.counted, count)))))
