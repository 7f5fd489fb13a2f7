-- ===== src/Sql/ReadBack.antt =====
-- What SQL finds in the queries of utils.cpp: the table, the partition, the columns.
use sas_libclient.Base.{
  ℕ, suc, ◌<◌, ◌≡◌, refl, Bool, true, false, List, [], ◌∷◌, ◌++◌, Option, none, some, ◌==◌,
  if◌then◌else◌, arith, length, map, Text, text, to_text, ok, ap, ℤ, pos, ltb_ℤ, sym, ◌∙◌,
}
use mathlib.Core.List.{append_assoc, append-nil}
use sas_libclient.Hdat.Schema.{Column, RowSchema}
use sas_libclient.Sql.Names.{
  quoted_name, join_column_names, join_more, build_sort_key, sort_columns, Ends, read_name,
  read_names, read_name-quoted_name, read_names-join, read_names-build_sort_key,
}
use sas_libclient.Sql.Numbers.{EndsDigits, read_digits, read_digits-to_text}
use sas_libclient.Sql.Versions.{compare_versions}
use sas_libclient.Sql.Queries.{
  Columns, where_partition, make_read_result_table_query, make_read_column_store_table_query,
}
use sas_libclient.Sql.Load.{Json, tsv, make_load_data_query, tsv_columns}

-- The text after a prefix.
pub after : Text → Text → Option Text
after [] s = some s
after (c ∷ cs) [] = none
after (c ∷ cs) (d ∷ ds) = let rest = after cs ds in if c == d then rest else none

after-append : (p s : Text) → after p (p ++ s) ≡ some s
unfolding after
after-append [] s = refl
after-append (c ∷ cs) s =
    let same : (c == c) ≡ true = ground arith in rw (same, after-append cs s) refl

infixl 5 ◌then_read◌
abbrev ◌then_read◌ {ℓ κ} : {A : Type ℓ} {B : Type κ} → Option A → (A → Option B) → Option B
none then_read next = none
some a then_read next = next a

-- The table between backticks, and the number of the partition.
pub read_table : Text → Text → Option (Text × ℕ × Text)
unfolding after
read_table start s = after start s then_read λ s1. read_name s1 then_read λ (name, s2).
    after (text " WHERE partition_id() = ") s2 then_read λ s3.
    let (n, end) = read_digits 0 s3 in some (name, n, end)

Ends-where : (s : Text) → Ends b'`' (text " WHERE partition_id() = " ++ s)
unfolding text
Ends-where s = refl

read_table-start :
    (start table : Text) (partition : ℕ) (end : Text)
    → EndsDigits end
    → read_table start (start ++ (quoted_name table ++ (where_partition partition ++ end)))
      ≡ some (table, partition, end)
unfolding read_table
read_table-start start table partition end h =
    let place = text " WHERE partition_id() = " in
    let whole : where_partition partition ++ end ≡ place ++ (to_text partition ++ end) =
      append_assoc place (to_text partition) end in
    rw (whole, after-append start (quoted_name table ++ (place ++ (to_text partition ++ end))))
      (rw
        (read_name-quoted_name table (place ++ (to_text partition ++ end))
          (Ends-where (to_text partition ++ end)))
        (rw (after-append place (to_text partition ++ end))
          (rw (read_digits-to_text partition end h) refl)))

-- For a server version that can be compared with 7.8.14 and is not above it, where no alias is
-- meant, the query of a reader of a result table is made, and is read by the quoting rule of SQL as
-- naming that table and that partition and nothing more, whatever characters the name has.
pub read_table-make_read_result_table_query :
    (table : Text) (partition : ℕ) (server_version : Text) (order : ℤ)
    → compare_versions server_version (text "7.8.14") ≡ ok order
    → ltb_ℤ (pos 0) order ≡ false
    → (query : Text) × (make_read_result_table_query table partition server_version ≡ ok query)
      × (read_table (text "SELECT * FROM ::") query ≡ some (table, partition, []))
unfolding make_read_result_table_query
read_table-make_read_result_table_query table partition v order compared older =
    let whole : where_partition partition ++ [] ≡ where_partition partition =
      append-nil (where_partition partition) in
    (
      text "SELECT * FROM ::" ++ (quoted_name table ++ where_partition partition),
      rw compared refl,
      ap
            (λ w.
              read_table (text "SELECT * FROM ::")
                (text "SELECT * FROM ::" ++ (quoted_name table ++ w)))
            (sym whole)
          ∙ read_table-start (text "SELECT * FROM ::") table partition [] tt,
    )

ends_order : (s : Text) → EndsDigits (text " ORDER BY " ++ s)
unfolding text
ends_order s = refl

-- The table, the number of the partition and the columns to sort by, up to `fuel`.
pub read_sorted_table : ℕ → Text → Option (Text × ℕ × List Text × Text)
unfolding read_table
read_sorted_table fuel s = read_table (text "SELECT * FROM ") s then_read λ (table, partition, s1).
    after (text " ORDER BY ") s1 then_read λ s2.
    read_names fuel s2 then_read λ (names, end). some (table, partition, names, end)

-- The query of a reader of a column store table is read, by the quoting rule of SQL and with fuel
-- above the number of columns to sort by, as naming that table, that partition, and the columns to
-- sort by followed by the key column if it is none of them, whatever characters the names have.
pub read_sorted_table-make_read_column_store_table_query :
    (fuel : ℕ) (table key : Text) (order : Columns) (partition : ℕ)
    → length order < fuel
    → read_sorted_table fuel (make_read_column_store_table_query table key order partition)
      ≡ some (table, partition, sort_columns order key, [])
unfolding read_sorted_table make_read_column_store_table_query
read_sorted_table-make_read_column_store_table_query fuel table key order partition h =
    let key_names = build_sort_key order key in
    rw
      (read_table-start (text "SELECT * FROM ") table partition (text " ORDER BY " ++ key_names)
        (ends_order key_names))
      (rw (after-append (text " ORDER BY ") key_names) (
        rw
          (ap (read_names fuel) (sym (append-nil key_names))
            ∙ read_names-build_sort_key fuel order key [] h tt tt)
          refl))

-- The table, and up to `fuel` columns.
pub read_load : ℕ → Text → Option (Text × List Text × Text)
unfolding after
read_load fuel s = after (text "LOAD DATA LOCAL INFILE 'placeholder' INTO TABLE ") s then_read λ s1.
    read_name s1 then_read λ (table, s2). after (text "  (") s2 then_read λ s3.
    read_names fuel s3 then_read λ (names, end). some (table, names, end)

length-map : (cs : RowSchema) → length (map (λ (c : Column). c.name) cs) ≡ length cs
length-map [] = refl
length-map (c ∷ cs) = ap suc (length-map cs)

abbrev load_text : Text → Text → Text → Text → Text
load_text start table first rest =
    (start ++ (table ++ b' ' ∷ []))
    ++ ((text " (" ++ (first ++ (rest ++ text ") "))) ++ text " FIELDS OPTIONALLY ENCLOSED BY '\"'")

load_shape :
    (start table first rest : Text)
    → load_text start table first rest
      ≡ start
        ++ (table
            ++ (text "  (" ++ ((first ++ rest) ++ text ")  FIELDS OPTIONALLY ENCLOSED BY '\"'")))
unfolding text
load_shape start table first rest = simp append_assoc

Ends-columns : (s : Text) → Ends b'`' (text "  (" ++ s)
unfolding text
Ends-columns s = refl

end_plain :
    Ends b'`' (text ")  FIELDS OPTIONALLY ENCLOSED BY '\"'")
    × Ends b',' (text ")  FIELDS OPTIONALLY ENCLOSED BY '\"'")
unfolding text
end_plain = (refl, refl)

read_load-text :
    (fuel : ℕ) (table name : Text) (names : List Text) (end : Text)
    → length names < fuel
    → Ends b'`' end
    → Ends b',' end
    → read_load fuel (
        text "LOAD DATA LOCAL INFILE 'placeholder' INTO TABLE "
        ++ (quoted_name table ++ (text "  (" ++ ((quoted_name name ++ join_more names) ++ end))))
      ≡ some (table, name ∷ names, end)
unfolding read_load join_column_names
read_load-text fuel table name names end h p q =
    let columns = (quoted_name name ++ join_more names) ++ end in
    rw
      (after-append (text "LOAD DATA LOCAL INFILE 'placeholder' INTO TABLE ")
        (quoted_name table ++ (text "  (" ++ columns)))
      (rw (read_name-quoted_name table (text "  (" ++ columns) (Ends-columns columns)) (
        rw (after-append (text "  (") columns)
          (rw (read_names-join fuel name names end h p q) refl)))

-- The statement that MakeLoadDataQuery makes for text of a table with columns is read, by the
-- quoting rule of SQL and with fuel above the number of columns, as loading into that table the
-- columns of the schema in order, whatever characters the names have.
pub read_load-make_load_data_query :
    (dumps : Json → Text) (fuel : ℕ) (table : Text) (schema : RowSchema) (zero_len_null : Bool)
    (query : Text)
    → length schema < fuel
    → make_load_data_query dumps table schema tsv zero_len_null ≡ ok query
    → read_load fuel query
      ≡ some (table, map (λ c. c.name) schema, text ")  FIELDS OPTIONALLY ENCLOSED BY '\"'")
unfolding make_load_data_query tsv_columns
read_load-make_load_data_query dumps fuel table [] z query f h = cc
read_load-make_load_data_query dumps fuel table (c ∷ cs) z query f h =
    let start = text "LOAD DATA LOCAL INFILE 'placeholder' INTO TABLE " in
    let names = map (λ x. x.name) cs in
    let end = text ")  FIELDS OPTIONALLY ENCLOSED BY '\"'" in
    let made : load_text start (quoted_name table) (quoted_name c.name) (join_more names) ≡ query =
      cc in
    rw (← made, load_shape start (quoted_name table) (quoted_name c.name) (join_more names))
      (read_load-text fuel table c.name names end (omega (arith, length-map cs)) end_plain.0
        end_plain.1)
