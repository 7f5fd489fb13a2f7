-- ===== src/Schema/Columns.antt =====
-- ShowColumnsToRowSchemaHelper (utils.cpp): a column from where its parts stand in the text.
use sas_libclient.Base.{
  ℕ, suc, ◌+◌, ◌-◌, ◌*◌, ◌^◌, Bool, ◌||◌, List, [], ◌∷◌, ◌==◌, leb, if◌then◌else◌, map, Text, text,
  ℤ, pos, negsuc, Outcome, ok, fault, ◌>>=◌, add_u64, sub_u64, int_max,
}
use sas_libclient.Hdat.Schema.{
  ColumnType, int64, int32, double, variable, fixed, time, date, date_time, unsupported, Column,
  RowSchema,
}
use sas_libclient.Schema.Find.{npos, find_text, substr, copy_name, stoi}
use sas_libclient.Server.Answers.{starts_with}
use sas_libclient.Server.Catalog.{to_lower}

pub record FieldDefSplit : Type 0 where
  pub name_start : ℕ
  pub name_end : ℕ
  pub type_start : ℕ
  pub type_end : ℕ
  pub field_end : ℕ

-- The types that are stored with an offset and a length.
abbrev pub is_variable : Text → Bool
is_variable t =
    starts_with (text "varchar") t
    || starts_with (text "varbinary") t
    || starts_with (text "longtext") t
    || starts_with (text "longblob") t
    || starts_with (text "mediumblob") t
    || starts_with (text "blob") t
    || starts_with (text "tinyblob") t
    || starts_with (text "mediumtext") t
    || starts_with (text "text") t
    || starts_with (text "tinytext") t

-- An `int` in the `int64_t` size, as a word.
size_word : ℤ → ℕ
size_word (pos n) = n
size_word (negsuc n) = 2 ^ 64 - suc n

-- The product of `int`s; overflow is undefined. A negative number of characters is multiplied too.
char_bytes : ℤ → ℕ → Outcome ℕ
char_bytes (pos n) k = if leb (n * k) int_max then ok (n * k) else fault
char_bytes (negsuc n) k = if leb (suc n * k) (int_max + 1) then ok (2 ^ 64 - suc n * k) else fault

module _ (s : Text) (d : FieldDefSplit) where
  -- The part of the field after the type, in lower case, names the character set.
  char_size : Outcome ℕ
  char_size = substr s d.type_end (add_u64 (sub_u64 d.field_end d.type_end) 1) >>= λ collation.
      ok (if find_text (text "utf8mb4") (map to_lower collation) 0 == npos then 3 else 4)

  -- The chain of tests of the type `t`, in lower case.
  pub type_and_size : Text → Outcome (ColumnType × ℕ)
  unfolding size_word char_bytes char_size
  type_and_size t =
      if starts_with (text "bigint") t
      then ok (int64, 8)
      else if starts_with (text "int") t
      then ok (int32, 4)
      else if starts_with (text "double") t
      then ok (double, 8)
      else if starts_with (text "datetime") t
      then ok (date_time, 8)
      else if starts_with (text "date") t
      then ok (date, 4)
      else if starts_with (text "time") t
      then ok (time, 8)
      else if starts_with (text "binary") t
      then (substr s (add_u64 d.type_start 7) (sub_u64 (sub_u64 d.type_end d.type_start) 8)
          >>= stoi
          >>= λ n. ok (fixed, size_word n))
      else if starts_with (text "char") t
      then (substr s (add_u64 d.type_start 5) (sub_u64 (sub_u64 d.type_end d.type_start) 6)
          >>= stoi
          >>= λ n. char_size >>= char_bytes n >>= λ bytes. ok (fixed, bytes))
      else if is_variable t
      then ok (variable, 0)
      else ok (unsupported, 0)

  -- The size of an unsupported column is not set by the code; 0 stands for it.
  pub show_column : Outcome Column
  unfolding type_and_size
  show_column = copy_name s d.name_start (add_u64 (sub_u64 d.name_end d.name_start) 1) >>= λ name.
      substr s d.type_start (add_u64 (sub_u64 d.type_end d.type_start) 1) >>= λ t.
      type_and_size (map to_lower t) >>= λ (type, size).
      ok (record { type = type; size = size; name = name })

unfoldable pub show_columns_to_row_schema : Text → List FieldDefSplit → Outcome RowSchema
unfolding show_column
show_columns_to_row_schema s [] = ok []
show_columns_to_row_schema s (d ∷ ds) =
    show_column s d >>= λ c. show_columns_to_row_schema s ds >>= λ cs. ok (c ∷ cs)
