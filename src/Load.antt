-- ===== src/Load.antt =====
-- LOAD DATA: WriteChunk and WriteAvro (s2_connection.cpp) and the C functions over them
-- (s2_client.cpp).
pub mod Stream
pub mod Write
pub mod Sent
mod Tests
