-- ===== src/Queues/Tests.antt =====
-- Schedules of a queue of one place.
use sas_libclient.Base.{
  ℕ, ◌+◌, ◌≤◌, ◌<◌, ◌≡◌, refl, List, [], ◌∷◌, ◌++◌, none, some, true, false, length, replicate,
  arith,
}
use sas_libclient.Queues.Simple.{simple_queue, push, pop, empty, delete_producer}
use sas_libclient.Queues.Simple.Threads.{
  System, Action, calling, woken, pushes, pops, deletes, delete_turn, notify_poppers, system, run,
  step, push_turn, pop_turn, notify_popper, notify_pusher,
}
use sas_libclient.Queues.Batch
use sas_libclient.Queues.Batch.{
  BatchQueue, Item, Turn, done, batch_queue, target_index, number_of, is_ahead, is_current,
  finish_batch, pop_front, read_value, is_batch_finished,
}
use sas_libclient.Queues.Batch.Counted.{count_set}
use sas_libclient.Queues.Batch.Calls.{Call, calls, calls_counted}
use sas_libclient.Queues.Batch.Free.{free_batch_data, free_batch_data_lem}
use sas_libclient.Queues.Collect.{get_error, get_error-code, clear_error}
use sas_libclient.Queues.Simple.Drain.{run_drained}
use sas_libclient.Queues.Simple.Safe.{run_fifo, sleeping_consumer, sleeping_producer}

-- A consumer comes first and sleeps, a producer wakes it, and a second consumer is faster.
abbrev overtaken : List (Action ℕ)
overtaken = pops calling ∷ pops calling ∷ pushes calling 5 ∷ []

abbrev after_overtaken : System ℕ
after_overtaken = record {
  queue = record { items = 5 ∷ []; capacity = 1; producers = 1 };
  push_sleeping = 0;
  push_woken = 0;
  pop_sleeping = 1;
  pop_woken = 1;
  given = 5 ∷ [];
  taken = [];
}

overtaken_runs : run overtaken (system 1 1) ≡ some after_overtaken
unfolding run step push_turn pop_turn notify_popper push pop system simple_queue
overtaken_runs = refl

-- A producer fills the queue, and the next one sleeps.
abbrev filled : List (Action ℕ)
filled = pushes calling 5 ∷ pushes calling 6 ∷ pops calling ∷ pushes woken 6 ∷ pushes calling 7 ∷ []

abbrev after_filled : System ℕ
after_filled = record {
  queue = record { items = 6 ∷ []; capacity = 1; producers = 1 };
  push_sleeping = 1;
  push_woken = 0;
  pop_sleeping = 0;
  pop_woken = 0;
  given = 5 ∷ 6 ∷ [];
  taken = 5 ∷ [];
}

filled_runs : run filled (system 1 1) ≡ some after_filled
unfolding run step push_turn pop_turn notify_popper notify_pusher push pop system simple_queue
filled_runs = refl

run_fifo_example :
    (after_filled.given ≡ after_filled.taken ++ after_filled.queue.items)
    × (length after_filled.queue.items ≤ after_filled.queue.capacity)
run_fifo_example = run_fifo 1 1 filled after_filled filled_runs

sleeping_consumer_example :
    (length after_overtaken.queue.items ≤ after_overtaken.pop_woken)
    × (0 < after_overtaken.queue.producers)
sleeping_consumer_example =
    sleeping_consumer 1 1 overtaken after_overtaken overtaken_runs (omega arith)

sleeping_producer_example :
    after_filled.queue.capacity ≤ length after_filled.queue.items + after_filled.push_woken
sleeping_producer_example = sleeping_producer 1 1 filled after_filled filled_runs (omega arith)

-- The last producer goes while an item is left.
abbrev ended : List (Action ℕ)
ended = pushes calling 5 ∷ pushes calling 6 ∷ pops calling ∷ deletes ∷ []

abbrev after_ended : System ℕ
after_ended = record {
  queue = record { items = 6 ∷ []; capacity = 2; producers = 0 };
  push_sleeping = 0;
  push_woken = 0;
  pop_sleeping = 0;
  pop_woken = 0;
  given = 5 ∷ 6 ∷ [];
  taken = 5 ∷ [];
}

ended_runs : run ended (system 2 1) ≡ some after_ended
unfolding run step push_turn pop_turn delete_turn delete_producer notify_popper notify_pusher
    notify_poppers push pop system simple_queue
ended_runs = refl

run_drained_example :
    (s' : System ℕ) × (run (replicate 1 (pops calling)) after_ended ≡ some s')
    × (s'.taken ≡ 5 ∷ 6 ∷ [])
    × (pop s'.queue ≡ empty)
    × (s'.pop_sleeping ≡ 0)
run_drained_example = run_drained 2 1 ended after_ended ended_runs refl

-- A batch queue of two slots for each of the partitions 4 and 9.
abbrev batches : BatchQueue ℕ
batches = batch_queue 2 (4 ∷ 9 ∷ [])

abbrev item : Item ℕ
item = record { id = 1; partition_id = 9; value = 77 }

-- Two chunks come, and the first of them is read.
abbrev one_read : List (Call ℕ)
one_read =
    Call.pushes item
    ∷ Call.pushes (record { id = 0; partition_id = 4; value = 78 })
    ∷ Call.gets 9 1
    ∷ []

abbrev one_left : BatchQueue ℕ
one_left = record {
  queue = record { id = 0; partition_id = 4; value = 78 } ∷ [];
  batch_size = 2;
  active_producers = 2;
  producer_active = true ∷ true ∷ [];
  producer_ids = 4 ∷ 9 ∷ [];
  data_array = some (record { id = 0; partition_id = 4; value = 78 }) ∷ none ∷ none ∷ none ∷ [];
  current_batch = 0;
  read_in_batch = 0 ∷ 1 ∷ [];
  items_to_read = 1;
}

one_read_runs : calls one_read batches ≡ some one_left
unfolding calls batch_queue Batch.push Batch.get finish_batch pop_front read_value is_batch_finished
    target_index number_of is_ahead is_current
one_read_runs = refl

calls_counted_example :
    (count_set one_left.data_array ≡ 1)
    × (length one_left.queue ≡ 1)
    × (1 ≤ length one_left.data_array)
calls_counted_example = calls_counted 2 (4 ∷ 9 ∷ []) one_read one_left (omega arith) one_read_runs

-- The same queue after both producers have gone.
abbrev all_gone : BatchQueue ℕ
all_gone = record one_left { active_producers = 0; producer_active = false ∷ false ∷ [] }

free_batch_data_lem_example :
    (q' : BatchQueue ℕ) × (free_batch_data 2 all_gone
      ≡ done (record { id = 0; partition_id = 4; value = 78 } ∷ [], q'))
    × (q'.items_to_read ≡ 0)
free_batch_data_lem_example =
    free_batch_data_lem 2 all_gone (record { slots = omega arith; counted = refl; queued = refl })
      refl (omega arith)

get_error-code_example :
    (get_error (clear_error ∷ record { error_code = 3; error_message = [] } ∷ [])).error_code ≡ 5
get_error-code_example =
    get_error-code (clear_error ∷ record { error_code = 3; error_message = [] } ∷ [])
