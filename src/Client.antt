-- ===== src/Client.antt =====
-- The client and its C interface (s2_client.cpp, parallel_read.cpp), and how a chunk queue is set up
-- for it (queue/, result_table_reader.cpp).
pub mod State
pub mod Readers
pub mod Queues
pub mod Api
pub mod Created
pub mod Queries
pub mod AllRead
pub mod Paired
pub mod Rows
pub mod RowRead
mod Tests
mod RowTests
