-- ===== src/Schema/Fields.antt =====
-- FieldsToRowSchema (utils.cpp) and GetRowSchema (s2_connection.cpp).
use sas_libclient.Base.{
  ℕ, Bool, List, map, if◌then◌else◌, Text, Option, none, some, Outcome, ok, throws, S2ClientError,
  s2_error,
}
use sas_libclient.Hdat.Schema.{
  ColumnType, int64, int32, double, variable, fixed, time, date, date_time, unsupported, Column,
  RowSchema,
}

-- enum_field_types, as far as the code names them.
pub data FieldType : Type 0 where
  long long_long double_type string var_string long_blob medium_blob blob tiny_blob : FieldType
  datetime date_type time_type new_date datetime2 other : FieldType

-- MYSQL_FIELD.
pub record Field : Type 0 where
  pub name : Text
  pub org_name : Text
  pub type : FieldType
  pub length : ℕ

-- The switch: the type and the size, which memset made 0.
unfoldable pub column_type : FieldType → ℕ → ColumnType × ℕ
column_type long n = (int32, 4)
column_type long_long n = (int64, 8)
column_type double_type n = (double, 8)
column_type string n = (fixed, n)
column_type var_string n = (variable, 0)
column_type long_blob n = (variable, 0)
column_type medium_blob n = (variable, 0)
column_type blob n = (variable, 0)
column_type tiny_blob n = (variable, 0)
column_type datetime n = (date_time, 8)
column_type date_type n = (date, 4)
column_type time_type n = (time, 8)
column_type new_date n = (unsupported, 0)
column_type datetime2 n = (unsupported, 0)
column_type other n = (unsupported, 0)

column_of : Bool → Field → Column
unfolding column_type
column_of use_original_name f =
    let (t, n) = column_type f.type f.length in
    record { type = t; size = n; name = if use_original_name then f.org_name else f.name }

unfoldable pub fields_to_row_schema : List Field → Bool → RowSchema
unfolding column_of
fields_to_row_schema fields use_original_name = map (column_of use_original_name) fields

-- The metadata of the statement (null on an error), or of the text result.
pub data ResultFields : Type 0 where
  statement : Option (List Field) → S2ClientError → ResultFields
  result : List Field → ResultFields

unfoldable pub get_row_schema : ResultFields → Bool → Outcome RowSchema
unfolding fields_to_row_schema
get_row_schema (statement none e) use_original_name = throws (s2_error e)
get_row_schema (statement (some fields) e) use_original_name =
    ok (fields_to_row_schema fields use_original_name)
get_row_schema (result fields) use_original_name =
    ok (fields_to_row_schema fields use_original_name)
