-- ===== src/Tsv/Field.antt =====
-- The reading half of the switch in TsvTableWriter::ChunkToTSV (tsv_table_writer.cpp).
use sas_libclient.Base.{ℕ, Bool, List, Option, none, some, if◌then◌else◌, Outcome, ok, ◌>>=◌}
use sas_libclient.Hdat.Memory.{load}
use sas_libclient.Hdat.Schema.{
  int64, int32, double, variable, fixed, time, date, date_time, unsupported, Column,
}
use sas_libclient.Hdat.Reader.{
  Reader, Read, Slice, null_slice, slice, read_int64, read_int32, read_float, read_variable,
  read_fixed,
}

-- A value on its way to the text: a null, a number as its bits, or a string.
pub data Field : Type 0 where
  null_field : Field
  number : ℕ → Field
  string : List ℕ → Field

unfoldable pub number_field : Option (ℕ × Bool) × Reader → Outcome (Option Field × Reader)
number_field (none, r) = ok (none, r)
number_field (some (n, is_null), r) = ok (some (if is_null then null_field else number n), r)

-- `std::string(buf, len)` copies from the block.
unfoldable pub slice_field : Option Slice × Reader → Outcome (Option Field × Reader)
slice_field (none, r) = ok (none, r)
slice_field (some null_slice, r) = ok (some null_field, r)
slice_field (some (slice p len is_null), r) =
    ok (some (if is_null then null_field else string (load r.current.mem p len)), r)

module _ (assertions : Bool) where
  unfoldable pub read_field : Column → Reader → Read Field
  unfolding number_field slice_field
  read_field c r = elim c.type [
    | int64 ↦ read_int64 r >>= number_field
    | int32 ↦ read_int32 r >>= number_field
    | double ↦ read_float r >>= number_field
    | variable ↦ read_variable assertions r >>= slice_field
    | fixed ↦ read_fixed c.size r >>= slice_field
    | date_time ↦ read_int64 r >>= number_field
    | time ↦ read_int64 r >>= number_field
    | date ↦ read_int32 r >>= number_field
    | unsupported ↦ ok (none, r)
  ]
