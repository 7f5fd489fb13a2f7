-- ===== src/Hdat/RoundTrip/Wrote.antt =====
-- A write and the reads that give it back; the fields of one word.
use sas_libclient.Base.{
  ℕ, ◌+◌, ◌-◌, ◌^◌, ◌≤◌, ◌<◌, ◌≡◌, ◌∙◌, ap, sym, ◌⊎◌, inl, inr, List, length, Outcome, ok, throws,
  arith,
}
use sas_libclient.Hdat.Memory.{Memory, store, load, load-Same, load-store, Same, store_outside}
use sas_libclient.Hdat.Reader.{Reader, Read}
use sas_libclient.Hdat.Writer.{Writer}
use sas_libclient.Hdat.Appended.{IsValid, Appended}
use sas_libclient.Hdat.Fits.{Extends, Appended-Extends}
use sas_libclient.Hdat.RoundTrip.Fields.{Gives}
use sas_libclient.Tsv.Field.{Field}

-- The writer went from `w` to `w'`, `k` bytes in the fixed part and `n` in the variable part, and any
-- reader at the place of the field, over a block that still has the bytes written, gets `field`.
pub record Wrote {A : Type 0} (k n : ℕ) (get : Reader → Read A) (field : A) (w w' : Writer)
    : Type 0 where
  pub extends : Extends k n w w'
  pub reads :
      (r : Reader)
      → r.current.size ≡ w.chunk_size
      → r.current.offset ≡ w.current.offset
      → Same r.current.mem w'.current.mem w.current.offset w'.current.offset
      → Same r.current.mem w'.current.mem
          (w.chunk_size - w'.current.variable_offset)
          (w.chunk_size - w.current.variable_offset)
      → Gives k field r (get r)

-- The outcome of a write agrees with the expected value: the field, or the exception.
abbrev pub Written :
    {A : Type 0} → ℕ → ℕ → (Reader → Read A) → Writer → Outcome Writer → Outcome A → Type 0
Written k n get w (ok w') (ok f) = Wrote k n get f w w'
Written k n get w (throws e) (throws e') = e ≡ e'
Written k n get w _ _ = ⊥

-- From what an operation appended to its result.
pub Wrote-Written :
    {A : Type 0} {k n : ℕ} {get : Reader → Read A} {f : A} {w : Writer} {m : Memory}
    {r : Outcome Writer} (a : Appended w k n m r)
    → Wrote k n get f w a.out
    → Written k n get w r (ok f)
Wrote-Written a h = rw a.returns h

module _ (w : Writer) (valid : IsValid w) where
  -- A write at the end of the fixed part disturbs nothing before it and nothing in the variable part.
  pub front_frame :
      (k i : ℕ)
      → w.current.offset + k + w.current.variable_offset ≤ w.chunk_size
      → (i < w.current.offset) ⊎ (w.chunk_size - w.current.variable_offset ≤ i)
      → (i < w.current.offset) ⊎ (w.current.offset + k ≤ i)
  front_frame k i room (inl l) = inl l
  front_frame k i room (inr l) = inr (omega arith)

  module _ (room : w.current.offset + 8 + w.current.variable_offset ≤ w.chunk_size) (k : ℕ)
      (bs : List ℕ) (exact : length bs ≡ k) (short : k ≤ 8) where
    pub word-Wrote :
        (get : Reader → Read Field) (f : Field)
        → ((r : Reader)
            → r.current.size < 2 ^ 64
            → r.current.offset + 8 ≤ r.current.size
            → load r.current.mem r.current.offset k ≡ bs
            → Gives 8 f r (get r))
        → {r : Outcome Writer} (a : Appended w 8 0 (store w.current.mem w.current.offset bs) r)
        → Wrote 8 0 get f w a.out
    word-Wrote get f reads a = record {
      extends = Appended-Extends a λ i p.
          store_outside w.current.mem w.current.offset bs i (narrow i (front_frame 8 i room p));
      reads = λ r size place same _.
          reads r (omega (arith, valid.small)) (omega arith) (loaded r place same);
    }
      where
        narrow :
            (i : ℕ)
            → (i < w.current.offset) ⊎ (w.current.offset + 8 ≤ i)
            → (i < w.current.offset) ⊎ (w.current.offset + length bs ≤ i)
        narrow i (inl l) = inl l
        narrow i (inr l) = inr (omega arith)

        loaded :
            (r : Reader)
            → r.current.offset ≡ w.current.offset
            → Same r.current.mem a.out.current.mem w.current.offset a.out.current.offset
            → load r.current.mem r.current.offset k ≡ bs
        loaded r place same = rw place (
            load-Same r.current.mem (store w.current.mem w.current.offset bs) w.current.offset k
              (λ i p q. same i p (omega (arith, a.offset)) ∙ a.mem i)
            ∙ ap (load (store w.current.mem w.current.offset bs) w.current.offset) (sym exact)
            ∙ load-store w.current.mem w.current.offset bs)
