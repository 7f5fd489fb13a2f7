-- ===== src/Connection.antt =====
-- S2Connection (s2_connection.cpp): the rows that the server sends, and the chunks made of them.
pub mod Fetch
pub mod Chunks
pub mod Fill
pub mod NextChunk
pub mod Rows
pub mod SingleRow
pub mod TextRows
pub mod Protocols
mod TextTests
pub mod Tests
