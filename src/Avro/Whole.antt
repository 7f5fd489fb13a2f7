-- ===== src/Avro/Whole.antt =====
-- The callback of AvroTableWriter called over and over (avro_table_writer.cpp).
use native.Mathlib.Decide.{dec_lt, dec_le}
use sas_libclient.Base.{
  ℕ, zero, suc, ◌+◌, ◌-◌, ◌^◌, ◌≤◌, ◌<◌, ◌≡◌, refl, ◌∙◌, ap, sym, ◌⊎◌, inl, inr, true, List, [],
  ◌∷◌, ◌++◌, leb, ltb, if◌then◌else◌, length, take, length-take, ok, arith, le→leb,
}
use sas_libclient.Avro.Infile.{AvroBuffer, drop, infile_read, infile_read_all}

pub length-drop : (n : ℕ) (xs : List ℕ) → length (drop n xs) ≡ length xs - n
length-drop zero xs = omega arith
length-drop (suc n) [] = omega arith
length-drop (suc n) (x ∷ xs) = omega (arith, length-drop n xs)

pub take-append-drop : (k : ℕ) (xs : List ℕ) → take k xs ++ drop k xs ≡ xs
take-append-drop zero xs = refl
take-append-drop (suc k) [] = refl
take-append-drop (suc k) (x ∷ xs) = ap (λ ys. x ∷ ys) (take-append-drop k xs)

drop-drop : (n k : ℕ) (xs : List ℕ) → drop (n + k) xs ≡ drop k (drop n xs)
drop-drop zero k xs = let e : 0 + k ≡ k = omega arith in rw e refl
drop-drop (suc n) zero [] = let e : suc n + 0 ≡ suc n = omega arith in rw e refl
drop-drop (suc n) (suc k) [] = let e : suc n + suc k ≡ suc (n + suc k) = omega arith in rw e refl
drop-drop (suc n) k (x ∷ xs) =
    let e : suc n + k ≡ suc (n + k) = omega arith in rw e (drop-drop n k xs)

pub drop_nothing : (xs : List ℕ) → length xs ≡ 0 → xs ≡ []
drop_nothing [] h = refl
drop_nothing (x ∷ xs) h = absurd (omega arith)

module _ (b : AvroBuffer) (within : b.current_pos ≤ b.size) (whole : b.size ≡ length b.bytes)
    (small : b.size < 2 ^ 64) (buf_len : ℕ) (int_room : buf_len < 2 ^ 31) where
  -- What one call gives: all that is left, or a full buffer.
  read_ok :
      (n : ℕ)
      → ((n ≡ buf_len) × (buf_len ≤ b.size - b.current_pos))
        ⊎ ((n ≡ b.size - b.current_pos) × (b.size - b.current_pos < buf_len))
      → infile_read buf_len b
        ≡ ok (take n (drop b.current_pos b.bytes), record b { current_pos = b.current_pos + n })
  unfolding infile_read
  read_ok n h =
      let before : leb b.current_pos b.size ≡ true = le→leb _ _ within in
      let count : (if leb buf_len (b.size - b.current_pos) then buf_len else b.size - b.current_pos)
          ≡ n =
        ground arith in
      let fits : ltb n (2 ^ 31) ≡ true = ground arith in
      let inside : leb (b.current_pos + n) (length b.bytes) ≡ true = ground arith in
      rw (before, count, fits, inside) refl

ends :
    (fuel buf_len : ℕ) (b b' : AvroBuffer)
    → infile_read buf_len b ≡ ok ([], b')
    → infile_read_all (suc fuel) buf_len b ≡ ok []
unfolding infile_read_all
ends fuel buf_len b b' e = rw e refl

goes_on :
    (fuel buf_len : ℕ) (b b' : AvroBuffer) (bs rest : List ℕ)
    → infile_read buf_len b ≡ ok (bs, b')
    → 0 < length bs
    → infile_read_all fuel buf_len b' ≡ ok rest
    → infile_read_all (suc fuel) buf_len b ≡ ok (bs ++ rest)
unfolding infile_read_all
goes_on fuel buf_len b b' [] rest e h more = absurd (omega arith)
goes_on fuel buf_len b b' (c ∷ cs) rest e h more = rw (e, more) refl

module _ (bytes : List ℕ) (buf_len : ℕ) (some_room : 0 < buf_len) (int_room : buf_len < 2 ^ 31)
    (small : length bytes < 2 ^ 64) where
  abbrev at : ℕ → AvroBuffer
  at pos = record { bytes = bytes; size = length bytes; current_pos = pos }

  step_of :
      (left : ℕ) → (n : ℕ) × (((n ≡ buf_len) × (buf_len ≤ left)) ⊎ ((n ≡ left) × (left < buf_len)))
  step_of left = elim (dec_le buf_len left) [
    | yes h ↦ (buf_len, inl (refl, h))
    | no h ↦ (left, inr (refl, omega arith))
  ]

  -- Reading an Avro buffer by the callback, up to any number of bytes below 2^31 at a time, until
  -- it gives none, delivers all bytes from the current position on, once and in order, after at
  -- most as many calls as there are bytes, and one more.
  pub infile_read_all_lem :
      (fuel pos : ℕ)
      → pos ≤ length bytes
      → length bytes - pos < fuel
      → infile_read_all fuel buf_len (at pos) ≡ ok (drop pos bytes)
  infile_read_all_lem zero pos within enough = absurd (omega arith)
  infile_read_all_lem (suc fuel) pos within enough =
      let (n, how) = step_of (length bytes - pos) in
      let one = read_ok (at pos) within refl small buf_len int_room n how in
      let left = length-drop pos bytes in
      elim (dec_lt 0 (length bytes - pos)) [
        | no none_left ↦
            let nothing = drop_nothing (drop pos bytes) (omega arith) in
            let n_zero : n ≡ 0 = ground arith in
            ends fuel buf_len (at pos) (at (pos + n))
              (one ∙ ap (λ xs. ok (xs, at (pos + n))) (ap (λ m. take m (drop pos bytes)) n_zero))
            ∙ ap ok (sym nothing)
        | yes more ↦
            let taken = length-take n (drop pos bytes) in
            goes_on fuel buf_len (at pos) (at (pos + n)) (take n (drop pos bytes))
              (drop (pos + n) bytes) one (ground arith)
              (infile_read_all_lem fuel (pos + n) (ground arith) (ground arith))
            ∙ ap ok (
                ap (λ xs. take n (drop pos bytes) ++ xs) (drop-drop pos n bytes)
                ∙ take-append-drop n (drop pos bytes))
      ]
