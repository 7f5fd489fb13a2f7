-- ===== src/Hdat/Schema.antt =====
-- chunk_extern.h (columns, row schema, null values), and sizeofAligned8 and rowSize of
-- hdat/common.hpp.
use Prim.Native.Nat.{bit_and}
use sas_libclient.Base.{
  ℕ, ◌+◌, ◌*◌, ◌-◌, ◌/◌, ◌^◌, ◌<◌, ◌≡◌, List, [], ◌∷◌, Option, arith, add_u64, Outcome, ok, fault,
  Text,
}
use sas_libclient.Base.Bits.{bit_and_clear_three}

pub data ColumnType : Type 0 where
  int64 int32 double variable fixed time date date_time unsupported : ColumnType

pub record Column : Type 0 where
  pub type : ColumnType
  pub size : ℕ
  pub name : Text

-- `ColumnInfo` with its `numColumns`.
abbrev pub RowSchema : Type 0
RowSchema = List Column

-- A field of a fetched row: `row[i]` (`none` is NULL) and `lengths[i]`.
pub record Cell : Type 0 where
  pub value : Option (List ℕ)
  pub length : ℕ

-- Null values as bit patterns.
abbrev pub int64_null : ℕ
int64_null = 0x8000_0000_0000_0000

abbrev pub int32_null : ℕ
int32_null = 0x8000_0000

-- The little-endian bytes 00 00 00 00 00 fe ff ff.
abbrev pub double_null : ℕ
double_null = 0xffff_fe00_0000_0000

abbrev pub default_alignment_size : ℕ
default_alignment_size = 8

-- `~(defaultAlignmentSize - 1)` is the word 2^64 - 8.
unfoldable pub sizeof_aligned8 : ℕ → ℕ
sizeof_aligned8 len = bit_and (add_u64 len (default_alignment_size - 1)) (2 ^ 64 - 8)

-- sizeofAligned8, with its mask, rounds a length up to the next multiple of eight, as long as the
-- sum with seven does not wrap.
pub sizeof_aligned8_lem : (len : ℕ) → len + 7 < 2 ^ 64 → sizeof_aligned8 len ≡ (len + 7) / 8 * 8
unfolding sizeof_aligned8
sizeof_aligned8_lem len h = omega (arith, bit_and_clear_three (add_u64 len 7) (omega arith))

-- What one column adds to `total_size`.
unfoldable pub column_size : ColumnType → ℕ → ℕ → ℕ
column_size variable size len = add_u64 len (2 * default_alignment_size)
column_size fixed size len = sizeof_aligned8 size
column_size _ size len = default_alignment_size

-- The loop of rowSize at one column, with the sum so far; `fault` is a read past `lengths`.
unfoldable pub row_size_from : RowSchema → List Cell → ℕ → Outcome ℕ
unfolding column_size
row_size_from [] row total = ok total
row_size_from (c ∷ cs) [] total = fault
row_size_from (c ∷ cs) (x ∷ xs) total =
    row_size_from cs xs (add_u64 total (column_size c.type c.size x.length))

unfoldable pub row_size : RowSchema → List Cell → Outcome ℕ
unfolding row_size_from
row_size schema row = row_size_from schema row 0
