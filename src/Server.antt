-- ===== src/Server.antt =====
-- What the library asks the database for (s2_connection.cpp), over the MySQL client library.
pub mod Answers
pub mod Catalog
pub mod ReadType
pub mod Planned
pub mod Explained
mod Tests
