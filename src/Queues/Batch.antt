-- ===== src/Queues/Batch.antt =====
-- ThreadSafeBatchQueue (queue/thread_safe_batch_queue.hpp): its operations, each under its mutex.
use sas_libclient.Base.{
  ℕ, zero, suc, ◌+◌, ◌-◌, ◌*◌, ◌/◌, ◌%◌, Bool, true, false, not, ◌&&◌, ◌||◌, List, [], ◌∷◌, ◌++◌,
  Option, none, some, ltb, ◌==◌, if◌then◌else◌, length, get_or, set, replicate, map, u32, to_int,
  to_u64, ℤ, pos, negsuc, sub_ℕ, Text, text,
}
pub mod Laws
pub mod Counted
pub mod Calls
pub mod Free

-- What the queue reads of a `Chunk`.
pub record Item (A : Type 0) : Type 0 where
  pub id : ℕ
  pub partition_id : ℕ
  pub value : A

-- The counts are of type int, here by their bits. A DataContainer is `none` while it is not set. `producer_ids` has the partitions by number.
pub record BatchQueue (A : Type 0) : Type 0 where
  pub queue : List (Item A)
  pub batch_size : ℕ
  pub active_producers : ℕ
  pub producer_active : List Bool
  pub producer_ids : List ℕ
  pub data_array : List (Option (Item A))
  pub current_batch : ℕ
  pub read_in_batch : List ℕ
  pub items_to_read : ℕ

-- One turn with the lock held: a wait, std::out_of_range, a failed assert or an access out of bounds,
-- or the result.
pub data Turn (A : Type 0) : Type 0 where
  waits : Turn A
  out_of_range_error : Turn A
  failed_assert : Turn A
  done : A → Turn A

-- m_partitionIdToNumber: a later producer with the same partition wins, and a partition without a
-- producer gets the number 0.
number_from : List ℕ → ℕ → ℕ → ℕ → ℕ
number_from [] next partition found = found
number_from (p ∷ ps) next partition found =
    number_from ps (next + 1) partition (if p == partition then next else found)

-- The loop of isBatchFinished.
all_read : ℕ → List Bool → List ℕ → Bool
all_read batch_size [] counts = true
all_read batch_size (a ∷ rest) [] = true
all_read batch_size (a ∷ rest) (n ∷ counts) =
    not (a && not (n == batch_size)) && all_read batch_size rest counts

module _ {A : Type 0} where
  unfoldable pub batch_queue : ℕ → List ℕ → BatchQueue A
  batch_queue batch_size producers = record {
    queue = [];
    batch_size = batch_size;
    active_producers = length producers;
    producer_active = replicate (length producers) true;
    producer_ids = producers;
    data_array = replicate (length producers * batch_size) none;
    current_batch = 0;
    read_in_batch = replicate (length producers) 0;
    items_to_read = 0;
  }

  -- The key is an int, compared here by its bits.
  unfoldable pub number_of : ℕ → BatchQueue A → ℕ
  unfolding number_from
  number_of partition q = number_from q.producer_ids 0 (u32 partition) 0

  -- targetIndex, as the vector takes it: the number of the value is an int, with the remainder that
  -- C++ gives it, and an index below 0 is one far out of bounds.
  unfoldable pub target_index : ℕ → ℕ → BatchQueue A → ℕ
  target_index partition id q =
      let start = number_of partition q * q.batch_size in
      elim (to_int id) [
        | pos n ↦ start + n % q.batch_size
        | negsuc n ↦ to_u64 (sub_ℕ start (suc n % q.batch_size))
      ]

  -- `batchNum > m_currentBatch`, of ints; the division is of 64 bits.
  unfoldable pub is_ahead : ℕ → BatchQueue A → Bool
  is_ahead id q = elim (to_int (id / q.batch_size)) [
    | pos n ↦ ltb q.current_batch n
    | negsuc n ↦ false
  ]

  -- `valueId / m_batchSize == m_currentBatch`, of ints.
  unfoldable pub is_current : ℕ → BatchQueue A → Bool
  is_current id q = elim (to_int id) [
    | pos n ↦ n / q.batch_size == q.current_batch
    | negsuc n ↦ suc n / q.batch_size == 0 && q.current_batch == 0
  ]

  unfoldable pub is_batch_finished : BatchQueue A → Bool
  unfolding all_read
  is_batch_finished q =
      all_read q.batch_size q.producer_active q.read_in_batch && q.items_to_read == 0

  -- Wakes up all producers that wait for the batch, and all consumers that wait for a chunk.
  unfoldable pub reset_batch : BatchQueue A → BatchQueue A
  reset_batch q = record q {
    read_in_batch = map (λ n. 0) q.read_in_batch;
    current_batch = q.current_batch + 1;
  }

  unfoldable pub finish_batch : BatchQueue A → BatchQueue A
  unfolding is_batch_finished reset_batch
  finish_batch q = if is_batch_finished q then reset_batch q else q

  unfoldable pub read_value : ℕ → BatchQueue A → BatchQueue A
  read_value index q =
      let number = index / q.batch_size in
      record q {
        items_to_read = u32 (q.items_to_read + 0xffff_ffff);
        data_array = set q.data_array index none;
        read_in_batch = set q.read_in_batch number (get_or q.read_in_batch number 0 + 1);
      }

  unfoldable pub push : Item A → BatchQueue A → Turn (BatchQueue A)
  push val q =
      let index = target_index val.partition_id val.id q in
      if is_ahead val.id q
      then waits
      else if ltb index (length q.data_array)
      then elim (get_or q.data_array index none) [
        | some old ↦ failed_assert
        | none ↦ done (record q {
          data_array = set q.data_array index (some val);
          queue = q.queue ++ val ∷ [];
          items_to_read = u32 (q.items_to_read + 1);
        })
      ]
      else failed_assert

  -- `m_queue.pop()` drops the front, whatever value was read.
  unfoldable pub pop_front : BatchQueue A → BatchQueue A
  pop_front q = record q { queue = elim q.queue [ [] ↦ [] | x ∷ xs ↦ xs ] }

  unfoldable pub pop : BatchQueue A → Turn (Item A × BatchQueue A)
  pop q =
      if q.items_to_read == 0
      then (if q.active_producers == 0 then out_of_range_error else waits)
      else elim q.queue [
        | [] ↦ failed_assert
        | res ∷ rest ↦
            done (
              res,
              finish_batch (pop_front (read_value (target_index res.partition_id res.id q) q)),
            )
      ]

  unfoldable pub get : ℕ → ℕ → BatchQueue A → Turn (Item A × BatchQueue A)
  get producer_id value_id q =
      if q.items_to_read == 0 && q.active_producers == 0
      then out_of_range_error
      else let index = target_index producer_id value_id q in
        let here = is_current value_id q in
        let active = get_or q.producer_active (number_of producer_id q) false in
        elim (get_or q.data_array index none) [
          | none ↦ if active then waits else out_of_range_error
          | some res ↦
              if not here && active
              then waits
              else done (res, finish_batch (pop_front (read_value index q)))
        ]

  unfoldable pub delete_producer : ℕ → BatchQueue A → BatchQueue A
  unfolding finish_batch
  delete_producer producer_id q = finish_batch (record q {
    producer_active = set q.producer_active (number_of producer_id q) false;
    active_producers = u32 (q.active_producers + 0xffff_ffff);
  })
