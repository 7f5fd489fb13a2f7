-- ===== src/Hdat/RoundTrip/Readable.antt =====
-- Which fields SuperChunkReader gives back (hdat/chunk_reader.cpp): its assert, and its int parameter.
use sas_libclient.Base.{ℕ, ◌+◌, ◌^◌, ◌≤◌, ◌<◌, ◌≡◌, Bool, true, List, [], ◌∷◌, arith}
use sas_libclient.Hdat.Schema.{
  ColumnType, int64, int32, double, variable, fixed, time, date, date_time, unsupported, Column,
  RowSchema, Cell,
}
use sas_libclient.Hdat.Fits.{tail_size}

-- What reading a field back needs, for a variable part of `total` bytes after it: where assertions
-- are compiled in, the variable part is not empty after a VARCHAR or TEXT field; the size of a CHAR
-- or BINARY column is an int.
abbrev pub Readable : Bool → Column → ℕ → Type 0
Readable assertions c total = elim c.type [
  | variable ↦ assertions ≡ true → 0 < total
  | fixed ↦ c.size < 2 ^ 31
  | _ ↦ Unit {0}
]

-- Every field of a row can be read back, the variable part having `v` bytes before the row.
abbrev pub RowReadable : Bool → ℕ → RowSchema → List Cell → Type 0
RowReadable assertions v [] xs = Unit {0}
RowReadable assertions v (c ∷ cs) [] = Unit {0}
RowReadable assertions v (c ∷ cs) (x ∷ xs) =
    Readable assertions c (v + tail_size c x) × RowReadable assertions (v + tail_size c x) cs xs

-- More bytes before the row leave it readable.
Readable-more :
    (assertions : Bool) (c : Column) (v w : ℕ)
    → v ≤ w
    → Readable assertions c v
    → Readable assertions c w
Readable-more assertions c v w h can = by_type c.type can
  where
    by_type :
        (ty : ColumnType)
        → Readable assertions (record { type = ty; size = c.size; name = [] }) v
        → Readable assertions (record { type = ty; size = c.size; name = [] }) w
    by_type variable can = λ e. omega (arith, can e)
    by_type fixed can = can
    by_type int64 can = tt
    by_type int32 can = tt
    by_type double can = tt
    by_type time can = tt
    by_type date can = tt
    by_type date_time can = tt
    by_type unsupported can = tt

pub RowReadable-more :
    (assertions : Bool) (cs : RowSchema) (xs : List Cell) (v w : ℕ)
    → v ≤ w
    → RowReadable assertions v cs xs
    → RowReadable assertions w cs xs
RowReadable-more assertions [] xs v w h can = tt
RowReadable-more assertions (c ∷ cs) [] v w h can = tt
RowReadable-more assertions (c ∷ cs) (x ∷ xs) v w h (can, cans) = (
  Readable-more assertions c (v + tail_size c x) (w + tail_size c x) (omega arith) can,
  RowReadable-more assertions cs xs (v + tail_size c x) (w + tail_size c x) (omega arith) cans,
)
