-- ===== src/Sql.antt =====
-- The SQL text that the library sends (namespace sql of utils.cpp) and CompareVersions.
pub mod Names
pub mod Numbers
pub mod Versions
pub mod Queries
pub mod Load
pub mod ReadBack
mod Tests
