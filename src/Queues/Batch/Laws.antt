-- ===== src/Queues/Batch/Laws.antt =====
-- Push and Get of ThreadSafeBatchQueue (queue/thread_safe_batch_queue.hpp).
