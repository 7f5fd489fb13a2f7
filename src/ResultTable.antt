-- ===== src/ResultTable.antt =====
-- ResultTableReader (result_table_reader.cpp): the thread that reads one partition.
pub mod Read
pub mod Whole
pub mod Thread
pub mod AllRows
mod Tests
