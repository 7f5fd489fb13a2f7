-- ===== src/Partition.antt =====
-- How partitions are dealt out: WorkerPartitions and ConsumerPartitions of utils.cpp, and the loop
-- of MultiPassQueue and StreamingQueue::CreateChunkQueue (queue/) that fills m_partition_consumer.
pub mod Deal
pub mod Owned
pub mod Assign
mod Tests
use sas_libclient.Base.{
  ℕ, zero, suc, ◌+◌, Bool, ◌&&◌, true, false, List, [], ◌∷◌, ltb, leb, if◌then◌else◌, length,
  get_elem?, set, ℤ, pos, negsuc, pos_part, ltb_ℤ, leb_ℤ, ◌+ℤ◌, ◌-ℤ◌, int_max, add_u64, to_u64,
  Option, none, some, text, Outcome, ok, fault, ◌>>=◌, s2_throw, error_inv_arg, replicate,
}

-- `int` addition; overflow is undefined.
abbrev add_int : ℤ → ℤ → Outcome ℤ
add_int a b =
    let s = a +ℤ b in if leb_ℤ s (pos int_max) && leb_ℤ (negsuc int_max) s then ok s else fault

-- `for (int i = workerId; i < totalPartitions; i += numWorkers)`, with fuel.
worker_loop : ℕ → ℤ → ℤ → ℤ → Outcome (List ℤ)
unfolding ◌+ℤ◌
worker_loop zero i n total = fault
worker_loop (suc f) i n total = elim (ltb_ℤ i total) [
  | true ↦ add_int i n >>= λ j. worker_loop f j n total >>= λ rest. ok (i ∷ rest)
  | false ↦ ok []
]

pub worker_partitions : ℤ → ℤ → ℤ → Outcome (List ℤ)
unfolding ◌-ℤ◌
worker_partitions num_workers worker_id total =
    if leb_ℤ num_workers (pos 0)
    then s2_throw error_inv_arg (text "received negative numWorkers")
    else worker_loop (suc (pos_part (total -ℤ worker_id))) worker_id num_workers total

-- `for (uint64_t i = consumerId; i < workerPartitions.size(); i += nConsumers)`, with fuel.
consumer_loop : ℕ → ℕ → ℕ → List ℤ → Outcome (List ℤ)
consumer_loop zero i n ps = fault
consumer_loop (suc f) i n ps = elim (get_elem? ps i) [
  | some p ↦ consumer_loop f (add_u64 i n) n ps >>= λ rest. ok (p ∷ rest)
  | none ↦ ok []
]

-- The vector is indexed under the test `i < size`, so the read is in range exactly when it passes.
pub consumer_partitions : ℤ → ℤ → List ℤ → Outcome (List ℤ)
consumer_partitions n_consumers consumer_id ps =
    if leb_ℤ n_consumers (pos 0)
    then s2_throw error_inv_arg (text "received negative nConsumers")
    else consumer_loop (suc (length ps)) (to_u64 consumer_id) (to_u64 n_consumers) ps

-- `for (auto p : consumer_partitions) m_partition_consumer[p] = consumer_id;`
assign : List ℤ → ℤ → List ℤ → Outcome (List ℤ)
assign [] c table = ok table
assign (negsuc p ∷ ps) c table = fault
assign (pos p ∷ ps) c table = if ltb p (length table) then assign ps c (set table p c) else fault

-- The consumers from `c` on, `n` of them left.
assign_loop : ℕ → ℕ → ℤ → List ℤ → List ℤ → Outcome (List ℤ)
assign_loop zero c n_consumers ps table = ok table
assign_loop (suc n) c n_consumers ps table = consumer_partitions n_consumers (pos c) ps >>= λ mine.
    assign mine (pos c) table >>= assign_loop n (c + 1) n_consumers ps

-- The table that both CreateChunkQueue functions build.
pub partition_consumer : ℤ → List ℤ → ℕ → Outcome (List ℤ)
partition_consumer n_consumers ps num_partitions =
    assign_loop (pos_part n_consumers) 0 n_consumers ps (replicate num_partitions (negsuc 0))
