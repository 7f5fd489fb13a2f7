-- ===== src/Hdat/RoundTrip/Strings.antt =====
-- The fields of strings: CHAR and BINARY in the fixed part, VARCHAR and TEXT in the variable part.
use mathlib.Core.Path.{ap₂}
use sas_libclient.Base.{
  ℕ, ◌+◌, ◌-◌, ◌*◌, ◌/◌, ◌^◌, ◌≤◌, ◌<◌, ◌≡◌, ◌∙◌, ap, sym, ◌⊎◌, inl, inr, Bool, true, List, ◌++◌,
  length, take, length-take, replicate, to_bytes, length-to_bytes, Outcome, ◌>>=◌, ◌==◌,
  if◌then◌else◌, arith,
}
use sas_libclient.Hdat.Memory.{
  Memory, store, load, load-Same, load-append, load-store, load-fill, Same, store_outside,
  fill_outside,
}
use sas_libclient.Hdat.Reader.{Reader, read_fixed, read_variable}
use sas_libclient.Hdat.Writer.{Writer}
use sas_libclient.Hdat.Appended.{IsValid, Appended, padded, with_words}
use sas_libclient.Hdat.Fits.{Appended-Extends}
use sas_libclient.Hdat.RoundTrip.Fields.{fixed_field, read_fixed-Gives, read_variable-Gives}
use sas_libclient.Hdat.RoundTrip.Wrote.{Wrote, front_frame}
use sas_libclient.Tsv.Field.{null_field, string, slice_field}

module _ (w : Writer) (valid : IsValid w) where
  abbrev o : ℕ
  o = w.current.offset

  module _ (size : ℕ) (size_small : size < 2 ^ 31)
      (room : o + (size + 7) / 8 * 8 + w.current.variable_offset ≤ w.chunk_size) where
    abbrev aligned : ℕ
    aligned = (size + 7) / 8 * 8

    -- A block `m` that agrees with the writer's outside the field and spells `bs` in it.
    pub fixed-Wrote :
        (m : Memory) (bs : List ℕ)
        → length bs ≡ size
        → ((i : ℕ) → (i < o) ⊎ (o + aligned ≤ i) → m i ≡ w.current.mem i)
        → load m o size ≡ bs
        → {r : Outcome Writer} (a : Appended w aligned 0 m r)
        → Wrote aligned 0 (λ r. read_fixed size r >>= slice_field) (fixed_field bs) w a.out
    fixed-Wrote m bs long frame spells a = record {
      extends = Appended-Extends a (λ i p. frame i (front_frame w valid aligned i room p));
      reads = λ r same_size place same _.
          read_fixed-Gives r size bs (omega (arith, valid.small)) size_small (omega arith) long (
            rw place (
              load-Same r.current.mem m o size
                (λ i p q. same i p (omega (arith, a.offset)) ∙ a.mem i)
              ∙ spells));
    }

    pub padded-frame :
        (k : ℕ) (v : List ℕ)
        → k ≤ size
        → (i : ℕ) → (i < o) ⊎ (o + aligned ≤ i)
        → padded w valid k aligned v i ≡ w.current.mem i
    padded-frame k v h i p =
        fill_outside (store w.current.mem o (take k v)) (o + k) (aligned - k) b' ' i (after p)
        ∙ store_outside w.current.mem o (take k v) i (outside p)
      where
        after : (i < o) ⊎ (o + aligned ≤ i) → (i < o + k) ⊎ (o + k + (aligned - k) ≤ i)
        after (inl l) = inl (omega arith)
        after (inr l) = inr (omega arith)

        outside : (i < o) ⊎ (o + aligned ≤ i) → (i < o) ⊎ (o + length (take k v) ≤ i)
        outside (inl l) = inl l
        outside (inr l) = inr (omega (arith, length-take k v))

    pub padded_spells :
        (k : ℕ) (v : List ℕ)
        → k ≤ size
        → k ≤ length v
        → load (padded w valid k aligned v) o size ≡ take k v ++ replicate (size - k) b' '
    padded_spells k v h kv =
        let split : size ≡ k + (size - k) = omega arith in
        ap (load (padded w valid k aligned v) o) split
        ∙ load-append (padded w valid k aligned v) o k (size - k)
        ∙ ap₂ ◌++◌ front (load-fill _ (o + k) (aligned - k) b' ' (size - k) (omega arith))
      where
        exact : length (take k v) ≡ k
        exact = omega (arith, length-take k v)

        front : load (padded w valid k aligned v) o k ≡ take k v
        front =
            load-Same (padded w valid k aligned v) (store w.current.mem o (take k v)) o k (λ i p q.
              fill_outside (store w.current.mem o (take k v)) (o + k) (aligned - k) b' ' i (inl q))
            ∙ ap (load (store w.current.mem o (take k v)) o) (sym exact)
            ∙ load-store w.current.mem o (take k v)

module _ (w : Writer) (valid : IsValid w) (len : ℕ)
    (room : w.current.offset + 16 + w.current.variable_offset + len ≤ w.chunk_size) where
  abbrev start : ℕ
  start = w.current.offset

  abbrev total : ℕ
  total = w.current.variable_offset + len

  abbrev words : Memory
  words = with_words w valid len room

  first_word : load words start 8 ≡ to_bytes 8 total
  first_word =
      load-Same words (store w.current.mem start (to_bytes 8 total)) start 8 (λ i p q.
        store_outside (store w.current.mem start (to_bytes 8 total)) (start + 8) (to_bytes 8 len) i
          (inl q))
      ∙ ap (load (store w.current.mem start (to_bytes 8 total)) start)
          (sym (length-to_bytes 8 total))
      ∙ load-store w.current.mem start (to_bytes 8 total)

  second_word : load words (start + 8) 8 ≡ to_bytes 8 len
  second_word =
      ap (load words (start + 8)) (sym (length-to_bytes 8 len))
      ∙ load-store (store w.current.mem start (to_bytes 8 total)) (start + 8) (to_bytes 8 len)

  words_frame : (i : ℕ) → (i < start) ⊎ (start + 16 ≤ i) → words i ≡ w.current.mem i
  words_frame i p =
      store_outside (store w.current.mem start (to_bytes 8 total)) (start + 8) (to_bytes 8 len) i
        (second p)
      ∙ store_outside w.current.mem start (to_bytes 8 total) i (first p)
    where
      second :
          (i < start) ⊎ (start + 16 ≤ i)
          → (i < start + 8) ⊎ (start + 8 + length (to_bytes 8 len) ≤ i)
      second (inl l) = inl (omega arith)
      second (inr l) = inr (omega (arith, length-to_bytes 8 len))

      first : (i < start) ⊎ (start + 16 ≤ i) → (i < start) ⊎ (start + length (to_bytes 8 total) ≤ i)
      first (inl l) = inl l
      first (inr l) = inr (omega (arith, length-to_bytes 8 total))

  -- The block `m` has the two words, and the bytes `bs` at the new end of the variable part.
  pub variable-Wrote :
      (assertions : Bool)
      → (assertions ≡ true → 0 < total)
      → (m : Memory) (bs : List ℕ)
      → ((i : ℕ)
          → (i < w.chunk_size - total) ⊎ (w.chunk_size - w.current.variable_offset ≤ i)
          → m i ≡ words i)
      → load m (w.chunk_size - total) len ≡ bs
      → {r : Outcome Writer} (a : Appended w 16 len m r)
      → Wrote 16 len
          (λ r. read_variable assertions r >>= slice_field)
          (if len == 0 then null_field else string bs)
          w
          a.out
  variable-Wrote assertions not_first m bs frame spells a = record {
    extends = Appended-Extends a λ i p. frame i (away i p) ∙ words_frame i (front_frame16 i p);
    reads = λ r size place front back. rw (← contents r size back) (
        read_variable-Gives r total len (omega (arith, valid.small)) (omega arith) (omega arith)
          (omega arith) (word_one r place front) (word_two r place front) assertions not_first);
  }
    where
      away :
          (i : ℕ)
          → (i < start) ⊎ (w.chunk_size - w.current.variable_offset ≤ i)
          → (i < w.chunk_size - total) ⊎ (w.chunk_size - w.current.variable_offset ≤ i)
      away i (inl l) = inl (omega arith)
      away i (inr l) = inr l

      front_frame16 :
          (i : ℕ)
          → (i < start) ⊎ (w.chunk_size - w.current.variable_offset ≤ i)
          → (i < start) ⊎ (start + 16 ≤ i)
      front_frame16 i p = front_frame w valid 16 i (omega arith) p

      -- The reader's block has the words of `words` in the fixed part.
      near :
          (r : Reader)
          → Same r.current.mem a.out.current.mem start a.out.current.offset
          → Same r.current.mem words start (start + 16)
      near r front i p q =
          front i p (omega (arith, a.offset)) ∙ a.mem i ∙ frame i (inl (omega arith))

      word_one :
          (r : Reader)
          → r.current.offset ≡ start
          → Same r.current.mem a.out.current.mem start a.out.current.offset
          → load r.current.mem r.current.offset 8 ≡ to_bytes 8 total
      word_one r place front = rw place (
          load-Same r.current.mem words start 8 (λ i p q. near r front i p (omega arith))
          ∙ first_word)

      word_two :
          (r : Reader)
          → r.current.offset ≡ start
          → Same r.current.mem a.out.current.mem start a.out.current.offset
          → load r.current.mem (r.current.offset + 8) 8 ≡ to_bytes 8 len
      word_two r place front = rw place (
          load-Same r.current.mem words (start + 8) 8
            (λ i p q. near r front i (omega arith) (omega arith))
          ∙ second_word)

      contents :
          (r : Reader)
          → r.current.size ≡ w.chunk_size
          → Same r.current.mem a.out.current.mem
              (w.chunk_size - a.out.current.variable_offset)
              (w.chunk_size - w.current.variable_offset)
          → load r.current.mem (r.current.size - total) len ≡ bs
      contents r size back = rw size (
          load-Same r.current.mem m (w.chunk_size - total) len
            (λ i p q. back i (omega (arith, a.variable)) (omega arith) ∙ a.mem i)
          ∙ spells)
