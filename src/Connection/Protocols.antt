-- ===== src/Connection/Protocols.antt =====
-- The text protocol against the binary protocol (s2_connection.cpp).
use sas_libclient.Base.{
  ℕ, suc, ◌-◌, ◌^◌, ◌<◌, ◌≤◌, ◌≡◌, refl, ap, sym, ◌∙◌, true, List, [], ◌∷◌, Option, none, some,
  length, map, ltb, Text, to_text, ℤ, pos, negsuc, to_u64, to_u32, to_bytes, length-to_bytes,
  int_max, Outcome, ok, Bool-cases, inl, inr, arith,
}
use mathlib.Core.List.{append-nil}
use sas_libclient.Connection.Fetch.{Fetched, row, fetch_cell, advance}
use sas_libclient.Connection.TextRows.{
  TextType, string_type, long, long_long, TextFetched, text_row, long_long_max, number_cell,
  text_cell, text_cells, advance_text,
}
use sas_libclient.Hdat.Schema.{Cell}
use sas_libclient.Sql.Versions.{scan_signed, scan_signed-to_text, scan_signed-minus}
use sas_libclient.Tsv.Quoted.{show_int, signed}

scan_signed-show_int_pos :
    (bound n : ℕ) → n ≤ bound → scan_signed bound (show_int (pos n)) ≡ ok (some (pos n, []))
unfolding show_int
scan_signed-show_int_pos bound n h =
    ap (scan_signed bound) (sym (append-nil (to_text n))) ∙ scan_signed-to_text bound n [] h tt

scan_signed-show_int_negsuc :
    (bound n : ℕ) → n ≤ bound → scan_signed bound (show_int (negsuc n)) ≡ ok (some (negsuc n, []))
unfolding show_int
scan_signed-show_int_negsuc bound n h =
    ap (λ (s : Text). scan_signed bound (b'-' ∷ s)) (sym (append-nil (to_text (suc n))))
    ∙ scan_signed-minus bound n [] h tt

-- The text of a word, scanned.
word32 :
    (w : ℕ)
    → w < 2 ^ 32
    → (z : ℤ) × (scan_signed int_max (show_int (signed 32 w)) ≡ ok (some (z, []))) × (to_u32 z ≡ w)
unfolding signed
word32 w h = elim (Bool-cases (ltb w (2 ^ 31))) [
  | inl e ↦ rw e (pos w, scan_signed-show_int_pos int_max w (ground arith), omega arith)
  | inr e ↦ rw e (
    negsuc (2 ^ 32 - 1 - w),
    scan_signed-show_int_negsuc int_max (2 ^ 32 - 1 - w) (ground arith),
    omega arith,
  )
]

word64 :
    (w : ℕ)
    → w < 2 ^ 64
    → (z : ℤ) × (scan_signed long_long_max (show_int (signed 64 w)) ≡ ok (some (z, [])))
      × (to_u64 z ≡ w)
unfolding signed
word64 w h = elim (Bool-cases (ltb w (2 ^ 63))) [
  | inl e ↦ rw e (pos w, scan_signed-show_int_pos long_long_max w (ground arith), omega arith)
  | inr e ↦ rw e (
    negsuc (2 ^ 64 - 1 - w),
    scan_signed-show_int_negsuc long_long_max (2 ^ 64 - 1 - w) (ground arith),
    omega arith,
  )
]

-- A value of a column, as the text protocol and as the binary protocol give it.
pub data Same : TextType → Option Text → Option (List ℕ) → Type 0 where
  null : (ty : TextType) → Same ty none none
  bytes : (s : Text) → Same string_type (some s) (some s)
  int : (w : ℕ) → w < 2 ^ 32 → Same long (some (show_int (signed 32 w))) (some (to_bytes 4 w))
  bigint :
      (w : ℕ) → w < 2 ^ 64 → Same long_long (some (show_int (signed 64 w))) (some (to_bytes 8 w))

pub data AllSame : List TextType → List (Option Text) → List (Option (List ℕ)) → Type 0 where
  ends : AllSame [] [] []
  also :
      {ty : TextType} {t : Option Text} {v : Option (List ℕ)} {types : List TextType}
      {ts : List (Option Text)} {vs : List (Option (List ℕ))}
      → Same ty t v
      → AllSame types ts vs
      → AllSame (ty ∷ types) (t ∷ ts) (v ∷ vs)

number_cell-word :
    (size : ℕ) (word : ℤ → ℕ) (scanned : Outcome (Option (ℤ × Text))) (z : ℤ) (w : ℕ)
    → scanned ≡ ok (some (z, []))
    → word z ≡ w
    → number_cell size word scanned
      ≡ ok (record { value = some (to_bytes size w); length = length (to_bytes size w) })
unfolding number_cell
number_cell-word size word scanned z w e h = rw (e, h, length-to_bytes size w) refl

module _ (double : Text → Option ℕ) (unset : ℕ) where
  text_cell-Same :
      (ty : TextType) (t : Option Text) (v : Option (List ℕ))
      → Same ty t v
      → text_cell double unset ty t ≡ ok (fetch_cell v)
  unfolding text_cell fetch_cell
  text_cell-Same ty t v (null _) = refl
  text_cell-Same ty t v (bytes s) = refl
  text_cell-Same ty t v (int w h) =
      let (z, scanned, word) = word32 w h in number_cell-word 4 to_u32 _ z w scanned word
  text_cell-Same ty t v (bigint w h) =
      let (z, scanned, word) = word64 w h in number_cell-word 8 to_u64 _ z w scanned word

  text_cells-AllSame :
      (types : List TextType) (ts : List (Option Text)) (vs : List (Option (List ℕ)))
      → AllSame types ts vs
      → text_cells double unset types ts ≡ ok (map fetch_cell vs)
  unfolding text_cells
  text_cells-AllSame types ts vs ends = refl
  text_cells-AllSame types ts vs (also one more) =
      rw (text_cell-Same _ _ _ one, text_cells-AllSame _ _ _ more) refl

  -- For a row of strings, of 32-bit and 64-bit integers in decimal and of NULLs, Advance over the
  -- text protocol puts the same values with the same lengths into the connection as Advance over
  -- the binary protocol, which gets the integers as bytes.
  pub advance_text-advance :
      (types : List TextType) (ts : List (Option Text)) (vs : List (Option (List ℕ)))
      (last : Option (List Cell)) (text_rest : List TextFetched) (rest : List Fetched)
      → AllSame types ts vs
      → (cells : List Cell) × (advance_text double unset
            (record { last_fetched = last; fields = some types; pending = text_row ts ∷ text_rest })
          ≡ ok (
            true,
            record { last_fetched = some cells; fields = some types; pending = text_rest },
          ))
        × (advance (record { last_fetched = last; pending = row vs ∷ rest })
            ≡ ok (true, record { last_fetched = some cells; pending = rest }))
  unfolding advance_text advance
  advance_text-advance types ts vs last text_rest rest same =
      (map fetch_cell vs, rw (text_cells-AllSame types ts vs same) refl, refl)
