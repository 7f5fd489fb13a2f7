-- ===== src/Hdat/RoundTrip.antt =====
-- SuperChunkWriter (hdat/chunk_writer.cpp) against SuperChunkReader (hdat/chunk_reader.cpp).
pub mod Fields
pub mod Readable
pub mod Wrote
pub mod Strings
pub mod Values
pub mod Cells
pub mod Rows
pub mod WriteRow
pub mod ReadBack
