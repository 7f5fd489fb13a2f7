-- ===== src/Sql/Load.antt =====
-- MakeColumnsAvro, MakeAvroJsonSchema and MakeLoadDataQuery (utils.cpp).
use sas_libclient.Base.{
  ℕ, ◌+◌, Bool, [], ◌∷◌, ◌++◌, if◌then◌else◌, ◌==◌, Text, text, to_text, map, Outcome, ok, fault,
  ◌>>=◌, s2_throw, error_inv_arg,
}
use sas_libclient.Hdat.Schema.{
  ColumnType, int64, int32, double, variable, fixed, time, date, date_time, unsupported, Column,
  RowSchema,
}
use sas_libclient.Sql.Names.{quoted_name, join_more}
use sas_libclient.Sql.Queries.{is_empty}

unfoldable pub make_avro_field_name : ℕ → Text
make_avro_field_name i = text "col_" ++ to_text i

unfoldable pub make_avro_var_name : ℕ → Text
make_avro_var_name i = text "@var_" ++ to_text i

-- The part of SET for a column; empty where the column is mapped without one.
unfoldable pub computing_column : Bool → ℕ → Column → Text
unfolding make_avro_var_name
computing_column zero_len_null i c =
    let v = make_avro_var_name i in
    let name = quoted_name c.name in
    elim c.type [
      | int64 ↦
          name
          ++ (text " = IF(" ++ (v ++ (text " != -9223372036854775808," ++ (v ++ text ",NULL)"))))
      | int32 ↦ name ++ (text " = IF(" ++ (v ++ (text " != -2147483648," ++ (v ++ text ",NULL)"))))
      | date_time ↦
          name ++ (text " = ADDDATE(\"1960-01-01\", INTERVAL " ++ (v ++ text " MICROSECOND)"))
      | time ↦
          name
          ++ (text "= IF("
              ++ (v
                  ++ (text "= -9223372036854775808,NULL,CONCAT(IF("
                      ++ (v
                          ++ (text "> 0, '', '-'),ADDTIME(SEC_TO_TIME(FLOOR(ABS("
                              ++ (v
                                  ++ (text "/1000000))),CONCAT('00:00:00.',LPAD(ABS("
                                      ++ (v ++ text ") % 1000000 :> TEXT, 6, '0')))))"))))))))
      | date ↦ name ++ (text " = ADDDATE(\"1960-01-01\", INTERVAL " ++ (v ++ text " DAY)"))
      | fixed ↦
          if zero_len_null
          then name ++ (text " = IF(LENGTH(" ++ (v ++ (text ") = 0, NULL," ++ (v ++ text ")"))))
          else []
      | variable ↦
          if zero_len_null
          then name ++ (text " = IF(LENGTH(" ++ (v ++ (text ") = 0, NULL," ++ (v ++ text ")"))))
          else []
      | double ↦ []
      | unsupported ↦ []
    ]

-- The body of the loop of MakeColumnsAvro after the comma between fields.
unfoldable pub mapping_field : Bool → ℕ → Column → Text
unfolding computing_column make_avro_field_name
mapping_field zero_len_null i c =
    let target =
      if is_empty (computing_column zero_len_null i c)
      then quoted_name c.name
      else make_avro_var_name i in
    target ++ (text " <- %::" ++ make_avro_field_name i)

-- The two texts so far, from column `i` on.
unfoldable pub columns_from : Bool → ℕ → RowSchema → Text → Text → Text × Text
unfolding mapping_field computing_column
columns_from zero_len_null i [] fields computing = (fields, computing)
columns_from zero_len_null i (c ∷ cs) fields computing =
    let set = computing_column zero_len_null i c in
    columns_from zero_len_null (i + 1) cs
      ((if i == 0 then fields else fields ++ b',' ∷ []) ++ mapping_field zero_len_null i c)
      (if is_empty set
        then computing
        else (if is_empty computing then text "SET " else computing ++ b',' ∷ []) ++ set)

unfoldable pub make_columns_avro : RowSchema → Bool → Text × Text
unfolding columns_from
make_columns_avro schema zero_len_null = columns_from zero_len_null 0 schema [] []

-- The objects of libjansson that are made: members keep their order.
mutual
  pub data Json : Type 0 where
    string : Text → Json
    array : Items → Json
    object : Members → Json

  pub data Items : Type 0 where
    nil : Items
    item : Json → Items → Items

  pub data Members : Type 0 where
    end : Members
    member : Text → Json → Members → Members

unfoldable pub avro_type : ColumnType → Outcome Text
avro_type int64 = ok (text "long")
avro_type date_time = ok (text "long")
avro_type time = ok (text "long")
avro_type int32 = ok (text "int")
avro_type date = ok (text "int")
avro_type double = ok (text "double")
avro_type variable = ok (text "bytes")
avro_type fixed = ok (text "bytes")
avro_type unsupported = s2_throw error_inv_arg (text "Unsupported data type: 8")

unfoldable pub avro_fields : ℕ → RowSchema → Outcome Items
unfolding avro_type make_avro_field_name
avro_fields i [] = ok nil
avro_fields i (c ∷ cs) = avro_type c.type >>= λ type. avro_fields (i + 1) cs >>= λ rest. ok (
    item
      (object (
        member (text "name") (string (make_avro_field_name i))
          (member (text "type") (string type) end)))
      rest)

pub data WriteBufferType : Type 0 where
  tsv avro : WriteBufferType

abbrev load_data : Text → Text
load_data table =
    text "LOAD DATA LOCAL INFILE 'placeholder' INTO TABLE " ++ (quoted_name table ++ b' ' ∷ [])

-- `ColumnInfo[0]` of no columns is out of bounds.
unfoldable pub tsv_columns : RowSchema → Outcome Text
tsv_columns [] = fault
tsv_columns (c ∷ cs) =
    ok (text " (" ++ (quoted_name c.name ++ (join_more (map (λ x. x.name) cs) ++ text ") ")))

-- `dumps` is json_dumps with no flags.
module _ (dumps : Json → Text) where
  unfoldable pub make_avro_json_schema : RowSchema → Outcome Text
  unfolding avro_fields
  make_avro_json_schema schema = avro_fields 0 schema >>= λ fields. ok (
      dumps (
        object (
          member (text "type") (string (text "record")) (
            member (text "name") (string (text "schema_name"))
              (member (text "fields") (array fields) end)))))

  unfoldable pub make_load_data_query : Text → RowSchema → WriteBufferType → Bool → Outcome Text
  unfolding make_columns_avro make_avro_json_schema tsv_columns
  make_load_data_query table schema tsv zero_len_null = tsv_columns schema >>= λ columns.
      ok (load_data table ++ (columns ++ text " FIELDS OPTIONALLY ENCLOSED BY '\"'"))
  make_load_data_query table schema avro zero_len_null =
      let (fields, computing) = make_columns_avro schema zero_len_null in
      make_avro_json_schema schema >>= λ json. ok (
        load_data table
        ++ (text " FORMAT AVRO ("
            ++ (fields ++ (text ") SCHEMA '" ++ (json ++ (text "' " ++ computing))))))
