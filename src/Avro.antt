-- ===== src/Avro.antt =====
-- AvroTableWriter (avro_table_writer.cpp): the callbacks that feed LOAD DATA from a buffer.
pub mod Infile
pub mod Whole
mod Tests
