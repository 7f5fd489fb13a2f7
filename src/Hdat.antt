-- ===== src/Hdat.antt =====
-- The hdat format (hdat/): chunks of rows, their writer and their reader.
pub mod Schema
pub mod Memory
pub mod SuperChunk
pub mod Calendar
pub mod Writer
pub mod Reader
pub mod Ops
pub mod Appended
pub mod Fits
pub mod RoundTrip
pub mod Api
pub mod Samples
mod Tests
