-- ===== src/Queues.antt =====
-- The queues between the reading threads and the consumers (queue/).
pub mod Simple
pub mod Batch
pub mod Collect
mod Tests
