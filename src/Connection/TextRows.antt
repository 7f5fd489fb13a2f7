-- ===== src/Connection/TextRows.antt =====
-- Execute and Advance over the text protocol (s2_connection.cpp).
use sas_libclient.Base.{
  ℕ, ◌-◌, ◌^◌, Bool, true, false, List, [], ◌∷◌, Option, none, some, length, ◌==◌, if◌then◌else◌,
  Text, text, ℤ, to_u64, to_u32, to_bytes, int_max, Outcome, ok, throws, fault, ◌>>=◌,
  S2ClientError, s2_error, s2_throw, error_unknown_failure,
}
use sas_libclient.Hdat.Schema.{Cell}
use sas_libclient.Sql.Versions.{scan_signed}

-- The types of fields that the switch tells apart.
pub data TextType : Type 0 where
  string_type long long_long double_type date_type other_type : TextType

-- What mysql_fetch_row gives: a row, with its values as texts, or a null pointer and an error. The
-- end of the list is a null pointer without one.
pub data TextFetched : Type 0 where
  text_row : List (Option Text) → TextFetched
  text_failed : S2ClientError → TextFetched

-- m_last_fetched_row with its lengths, the fields of m_res (`none` is a null pointer), and the rows
-- to come.
pub record TextConnection : Type 0 where
  pub last_fetched : Option (List Cell)
  pub fields : Option (List TextType)
  pub pending : List TextFetched

-- The largest `long long`.
abbrev pub long_long_max : ℕ
long_long_max = 2 ^ 63 - 1

-- The bytes of the number that was read; a text that is none leaves them unset.
unfoldable pub number_cell : ℕ → (ℤ → ℕ) → Outcome (Option (ℤ × Text)) → Outcome Cell
number_cell size word scanned = scanned >>= λ n. elim n [
  | none ↦ fault
  | some (z, rest) ↦ ok (record { value = some (to_bytes size (word z)); length = size })
]

-- `double` is the conversion %lf, by the bits of the double, and `unset` the length that nobody sets:
-- a date or a time leaves the value null, and the length as the memory had it.
module _ (double : Text → Option ℕ) (unset : ℕ) where
  unfoldable pub text_cell : TextType → Option Text → Outcome Cell
  unfolding number_cell scan_signed
  text_cell ty none = ok (record { value = none; length = 0 })
  text_cell string_type (some s) = ok (record { value = some s; length = length s })
  text_cell long (some s) = number_cell 4 to_u32 (scan_signed int_max s)
  text_cell long_long (some s) = number_cell 8 to_u64 (scan_signed long_long_max s)
  text_cell double_type (some s) = elim (double s) [
    | none ↦ fault
    | some bits ↦ ok (record { value = some (to_bytes 8 bits); length = 8 })
  ]
  text_cell date_type (some s) = ok (record { value = none; length = unset })
  text_cell other_type (some s) = fault

  -- The loop over the columns.
  unfoldable pub text_cells : List TextType → List (Option Text) → Outcome (List Cell)
  unfolding text_cell
  text_cells [] values = ok []
  text_cells (ty ∷ types) [] = fault
  text_cells (ty ∷ types) (v ∷ values) =
      text_cell ty v >>= λ cell. text_cells types values >>= λ cells. ok (cell ∷ cells)

  unfoldable pub advance_text : TextConnection → Outcome (Bool × TextConnection)
  unfolding text_cells
  advance_text conn = elim conn.fields [
    | none ↦ s2_throw error_unknown_failure (text "Failed to get text result set fields")
    | some types ↦ elim conn.pending [
      | [] ↦ ok (false, record conn { last_fetched = none })
      | fetched ∷ rest ↦ elim fetched [
        | text_failed e ↦ throws (s2_error e)
        | text_row values ↦ text_cells types values >>= λ cells.
            ok (true, record { last_fetched = some cells; fields = some types; pending = rest })
      ]
    ]
  ]

  -- What mysql_query and mysql_use_result report (`none` is success), the number of fields, and the
  -- result.
  pub record TextAnswers : Type 0 where
    pub failure : Text → Option S2ClientError
    pub use_failure : Text → Option S2ClientError
    pub fields_num : Text → ℕ
    pub result : Text → TextConnection

  -- Advance follows whatever `prefetch` is.
  unfoldable pub execute : TextAnswers → Text → Bool → Outcome (Bool × TextConnection)
  unfolding advance_text
  execute answers query prefetch = elim (answers.failure query) [
    | some e ↦ throws (s2_error e)
    | none ↦ elim (answers.use_failure query) [
      | some e ↦ throws (s2_error e)
      | none ↦
          if answers.fields_num query == 0
          then ok (false, answers.result query)
          else advance_text (answers.result query) >>= λ (more, conn). ok (true, conn)
    ]
  ]
