-- ===== src/Tsv/Render.antt =====
-- The text that ChunkToTSV writes for the rows that a chunk holds.
use mathlib.Core.List.{append_assoc, append-nil}
use sas_libclient.Base.{
  ℕ, zero, suc, ◌≡◌, refl, ◌∙◌, ap, sym, Bool, true, false, List, [], ◌∷◌, ◌++◌, Option, none, some,
  if◌then◌else◌, ok, throws, fault, ◌>>=◌, Text,
}
use sas_libclient.Hdat.Schema.{RowSchema}
use sas_libclient.Hdat.SuperChunk.{Chunk}
use sas_libclient.Hdat.Reader.{Reader, Read, reset}
use sas_libclient.Hdat.RoundTrip.Rows.{read_fields}
use sas_libclient.Connection.Chunks.{read_rows}
use sas_libclient.Connection.NextChunk.{Holds}
use sas_libclient.Tsv.Field.{Field, read_field}
use sas_libclient.Tsv.Times.{Formats}
use sas_libclient.Tsv.Table.{show_field, show_columns, show_rows, chunk_to_tsv}

-- A value and then more of them: what both of them gave.
abbrev prepend : {A : Type 0} → A → Option (List A) × Reader → Read (List A)
prepend f (fs, r) = elim fs [ none ↦ ok (none, r) | some fs ↦ ok (some (f ∷ fs), r) ]

abbrev both : {A : Type 0} → Read A → (Reader → Read (List A)) → Read (List A)
both m rest = m >>= λ (f, r'). elim f [ none ↦ ok (none, r') | some f ↦ rest r' >>= prepend f ]

second_some :
    {A : Type 0} (f : A) (m : Read (List A)) (fs : List A) (r' : Reader)
    → (m >>= prepend f) ≡ ok (some fs, r')
    → (gs : List A) × (m ≡ ok (some gs, r')) × (fs ≡ f ∷ gs)
second_some f (ok (none, r1)) fs r' e = cc
second_some f (ok (some gs, r1)) fs r' e =
    let same : r1 ≡ r' = cc in
    let fields : f ∷ gs ≡ fs = cc in (gs, ap (λ x. ok (some gs, x)) same, sym fields)
second_some f (throws x) fs r' e = cc
second_some f fault fs r' e = cc

first_some :
    {A : Type 0} (m : Read A) (rest : Reader → Read (List A)) (fs : List A) (r' : Reader)
    → both m rest ≡ ok (some fs, r')
    → (f : A) × (r1 : Reader) × (gs : List A) × (m ≡ ok (some f, r1))
      × (rest r1 ≡ ok (some gs, r'))
      × (fs ≡ f ∷ gs)
first_some (ok (none, r1)) rest fs r' e = cc
first_some (ok (some f, r1)) rest fs r' e =
    let (gs, more, fields) = second_some f (rest r1) fs r' e in (f, r1, gs, refl, more, fields)
first_some (throws x) rest fs r' e = cc
first_some fault rest fs r' e = cc

module _ (formats : Formats) where
  -- The text of a row from a column on, and of rows: what stands between them is a tab or a line feed.
  abbrev pub render_columns : Bool → RowSchema → List Field → Text
  render_columns first [] fs = []
  render_columns first (c ∷ cs) [] = []
  render_columns first (c ∷ cs) (f ∷ fs) =
      (if first then [] else b'\t' ∷ [])
      ++ (show_field formats c.type f ++ render_columns false cs fs)

  abbrev pub render_rows : Bool → RowSchema → List (List Field) → Text
  render_rows first cs [] = []
  render_rows first cs (fs ∷ fss) =
      (if first then [] else b'\n' ∷ []) ++ (render_columns true cs fs ++ render_rows false cs fss)

  -- What has been written, a separator unless it is the first, and the rest.
  separated :
      (first : Bool) (out sep one rest : Text)
      → (if first then out else out ++ sep) ++ one ++ rest
        ≡ out ++ ((if first then [] else sep) ++ (one ++ rest))
  separated true out sep one rest = append_assoc out one rest
  separated false out sep one rest =
      append_assoc (out ++ sep) one rest ∙ append_assoc out sep (one ++ rest)

  show_columns_lem :
      (assertions : Bool) (cs : RowSchema) (first : Bool) (r r' : Reader) (fs : List Field)
      (out : Text)
      → read_fields assertions cs r ≡ ok (some fs, r')
      → show_columns formats assertions first cs r out
        ≡ ok (true, r', out ++ render_columns first cs fs)
  unfolding show_columns
  show_columns_lem assertions [] first r r' fs out e =
      let same : r ≡ r' = cc in
      ap (λ x. ok (true, x, out)) same ∙ ap (λ t. ok (true, r', t)) (sym (append-nil out))
  show_columns_lem assertions (c ∷ cs) first r r' fs out e =
      let (f, r1, gs, one, more, fields) =
        first_some (read_field assertions c r) (read_fields assertions cs) fs r' e in
      rw (one, fields)
        (show_columns_lem assertions cs false r1 r' gs _ more
          ∙ ap (λ t. ok (true, r', t)) (separated first out (b'\t' ∷ []) _ _))

  show_rows_lem :
      (assertions : Bool) (k : ℕ) (cs : RowSchema) (first : Bool) (r r' : Reader)
      (fss : List (List Field)) (out : Text)
      → read_rows assertions cs k r ≡ ok (some fss, r')
      → show_rows formats assertions first k cs r out
        ≡ ok (true, r', out ++ render_rows first cs fss)
  unfolding show_rows
  show_rows_lem assertions zero cs first r r' fss out e =
      let same : r ≡ r' = cc in
      let none_left : [] ≡ fss = cc in
      ap (λ x. ok (true, x, out)) same
      ∙ ap (λ t. ok (true, r', t)) (sym (append-nil out))
      ∙ ap (λ xs. ok (true, r', out ++ render_rows first cs xs)) none_left
  show_rows_lem assertions (suc k) cs first r r' fss out e =
      let (fs, r1, gss, one, more, rows) =
        first_some (read_fields assertions cs r) (read_rows assertions cs k) fss r' e in
      rw
        (
          show_columns_lem assertions cs true r r1 fs (if first then out else out ++ b'\n' ∷ [])
              one,
          rows,
        )
        (show_rows_lem assertions k cs false r1 r' gss _ more
          ∙ ap (λ t. ok (true, r', t)) (separated first out (b'\n' ∷ []) _ _))

  -- For a chunk that holds rows, ChunkToTSV over a reader that is reset to it, with the assertions
  -- with which the rows are read, compiled in or not, succeeds and writes the text of all rows: the
  -- fields of a row with tabs between them, and line feeds between the rows.
  pub chunk_to_tsv-Holds :
      (assertions : Bool) (cs : RowSchema) (k : ℕ) (fss : List (List Field)) (chunk : Chunk)
      (r : Reader)
      → Holds assertions cs k fss chunk
      → (r' : Reader) × (chunk_to_tsv formats assertions chunk.row_count (reset chunk cs r)
          ≡ ok (true, r', render_rows true cs fss))
  unfolding chunk_to_tsv reset
  chunk_to_tsv-Holds assertions cs k fss chunk r h =
      let g = h.reads r in
      (
        g.next,
        ap (λ n. chunk_to_tsv formats assertions n (reset chunk cs r)) h.counted
            ∙ (show_rows_lem assertions k cs true (reset chunk cs r) g.next fss [] g.returns),
      )
