-- ===== src/Schema.antt =====
-- The row schema of a query: from the fields of a result, and from the text of EXPLAIN (utils.cpp,
-- s2_connection.cpp).
pub mod Fields
pub mod Find
pub mod Columns
pub mod Explain
mod Tests
