-- ===== src/Tsv.antt =====
-- From a chunk to the rows of LOAD DATA (tsv_table_writer.cpp).
pub mod Field
pub mod Quoted
pub mod Times
pub mod Table
pub mod Render
pub mod RoundTrip
mod Tests
