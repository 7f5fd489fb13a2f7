-- ===== src/Lib.antt =====
-- sas_libclient: libs2client, the library by which the SAS back end reads from and writes to
-- SingleStore in parallel.
--
-- The program. One reading thread per database partition (result_table_reader.cpp) runs a query
-- on a connection of its own (s2_connection.cpp), puts the rows into chunks of the hdat format
-- (hdat/), and pushes the chunks into a bounded queue (queue/), from which the consumer that the
-- partition is dealt to (utils.cpp, queue/) pops them. On the way back a chunk is turned into text for
-- LOAD DATA (tsv_table_writer.cpp).
--
-- The files.
--   Base: shared names, the native integers and words, byte lists, exceptions and outcomes. A result
--     `fault` is a failed assert or an access that C++ leaves undefined; `throws` is an exception.
--   Partition: WorkerPartitions and ConsumerPartitions (utils.cpp) and the table m_partition_consumer
--     that the CreateChunkQueue functions fill (queue/streaming_queue.cpp, queue/multi_pass_queue.cpp).
--   Hdat/Schema, Memory, SuperChunk: columns, the row size (hdat/common.hpp), the block of bytes, and
--     the operations of SuperChunk (hdat/super_chunk.hpp).
--   Hdat/Calendar: dates and times on their way into a chunk (hdat/common.hpp).
--   Hdat/Writer, Hdat/Api: SuperChunkWriter and its C interface (hdat/chunk_writer.cpp).
--   Hdat/Reader: SuperChunkReader (hdat/chunk_reader.cpp) and IsNullBuffer (utils.cpp).
--   Hdat/Ops, Appended, Fits: what every write operation appends, and what it leaves alone.
--   Hdat/RoundTrip: fields, strings, cells, rows; what is written is what is read.
--   Connection: Execute and Advance over both protocols, NextChunk, Prepare, GetMultipleRows and
--     GetSingleRow (s2_connection.cpp).
--   Sql: the texts of the queries, with their quoting, the JSON schema of Avro, and CompareVersions
--     (utils.cpp); Sql/ReadBack reads the texts by the quoting rule of SQL.
--   Schema: the row schema of a result's fields, of SHOW COLUMNS and of EXPLAIN (utils.cpp).
--   Server: what the functions of s2_connection.cpp ask the database about partitions, aggregators,
--     keys and plans, and GetParallelReadType.
--   Load: the callbacks of TsvTableWriter (tsv_table_writer.cpp), WriteChunk and WriteAvro
--     (s2_connection.cpp), LoadDataWrite and LoadDataAvro (s2_client.cpp).
--   Client: S2Client (s2_client.cpp), CreateReader (result_table_reader.cpp), CreateChunkQueue of both
--     queues (queue/), and the C functions of parallel_read.cpp.
--   ResultTable: ResultTableReader::PrepareRead and Read (result_table_reader.cpp).
--   Queues/Simple: ThreadSafeSimpleQueue (queue/thread_safe_simple_queue.hpp), its operations as
--     critical sections and the threads that sleep on its condition variables.
--   Queues/Batch: the operations of ThreadSafeBatchQueue (queue/thread_safe_batch_queue.hpp).
--   Queues/Collect: the reader errors that ChunkQueue::Get collects, StopReaders
--     (queue/chunk_queue.hpp), and FillCredentials (utils.cpp).
--   Avro: the callbacks of AvroTableWriter (avro_table_writer.cpp).
--   Tsv: ChunkToTSV (tsv_table_writer.cpp), std::quoted, and dates and times on their way out of a
--     chunk (hdat/common.hpp).
--
-- State. A SuperChunkWriter and a SuperChunkReader are records of their members, with the chunk that
-- they hold inside; the block of a chunk is a function from offsets to bytes, and a pointer into it is
-- an offset. Every operation takes the record and returns an outcome with the record after it. The
-- database is a record of answers (Server, Statements), which name for each query the error or the
-- rows; the client keeps a log of the statements that it has executed. The threads at a queue
-- are counts of sleepers and of woken threads, and a schedule is a list of turns, each the code between
-- taking the mutex and giving it up or waiting.
--
-- Numbers. Words of 64 and 32 bits wrap around (add_u64, sub_u64, u32); doubles are their bits. Signed
-- values are ℤ over the native numbers. A value that the source passes to an int or an int64_t
-- parameter is narrowed (to_int, to_int64).
--
-- Assertions. A failed assert is a fault. `assert(offset)` of ReadVariable (hdat/chunk_reader.cpp), which
-- a NULL or empty string at the start of the variable part fails, depends on a flag that says whether
-- assertions are compiled in; RowReadable (Hdat/RoundTrip/Readable) is what a row needs for either value.
--
-- Fuel. The loops over partitions carry as fuel the length of the range plus one. The loop of the
-- reading thread carries fuel that its theorem asks to be more than the number of rows, since every
-- turn takes at least one row. Reading the Avro buffer or the stream carries more fuel than there are
-- bytes left, and FreeBatchData more than there are items to read. The loops over an EXPLAIN text
-- carry as fuel the length of the text, in which every turn advances.
--
-- Parameters. MYSQL_TIME behind the bytes of a field, the rows that the MySQL client library fetches and
-- the errors that it reports, what malloc returns, the stop flag, json_dumps of libjansson, and the
-- formats of strftime, and of sprintf and sscanf for doubles.
--
-- Not modelled: the read that is not parallel, so that NextChunk is over the binary protocol, and the
-- threads asleep at a ThreadSafeBatchQueue.
pub mod Base
pub mod Sql
pub mod Partition
pub mod Hdat
pub mod Tsv
pub mod Load
pub mod Avro
pub mod Connection
pub mod ResultTable
pub mod Queues
pub mod Server
pub mod Schema
pub mod Client
