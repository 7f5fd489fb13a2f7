-- ===== src/Partition/Tests.antt =====
-- Runs of the dealing functions, and the theorems at concrete inputs.
use sas_libclient.Base.{
  ◌/◌, ◌==◌, if◌then◌else◌, ◌%◌, ◌≡◌, refl, List, [], ◌∷◌, length, ℤ, pos, negsuc, ◌-ℤ◌, ok, arith,
  text, s2_throw, error_inv_arg,
}
use sas_libclient.Partition.{
  worker_loop, worker_partitions, consumer_loop, consumer_partitions, assign, assign_loop,
  partition_consumer,
}
use sas_libclient.Partition.Deal.{
  Lists, strided, every, worker_partitions-Lists, consumer_partitions-Lists,
}
use sas_libclient.Partition.Assign.{worker_owner}
use sas_libclient.Partition.Owned.{owner}

worker_one_of_three : worker_partitions (pos 3) (pos 1) (pos 8) ≡ ok (pos 1 ∷ pos 4 ∷ pos 7 ∷ [])
unfolding worker_partitions worker_loop ◌-ℤ◌
worker_one_of_three = refl

no_workers :
    worker_partitions (pos 0) (pos 1) (pos 8)
    ≡ s2_throw error_inv_arg (text "received negative numWorkers")
unfolding worker_partitions
no_workers = refl

table_of_five :
    partition_consumer (pos 2) (pos 1 ∷ pos 4 ∷ pos 3 ∷ []) 5
    ≡ ok (negsuc 0 ∷ pos 0 ∷ negsuc 0 ∷ pos 0 ∷ pos 1 ∷ [])
unfolding partition_consumer assign_loop assign consumer_partitions consumer_loop
table_of_five = refl

worker_partitions-Lists_example : Lists (worker_partitions (pos 3) (pos 1) (pos 8)) (strided 1 3 8)
worker_partitions-Lists_example = worker_partitions-Lists 3 1 8 (omega arith) (omega arith)

consumer_partitions-Lists_example :
    Lists
      (consumer_partitions (pos 2) (pos 1) (pos 1 ∷ pos 4 ∷ pos 7 ∷ []))
      (every 1 2 (pos 1 ∷ pos 4 ∷ pos 7 ∷ []))
consumer_partitions-Lists_example =
    consumer_partitions-Lists 2 1 (pos 1 ∷ pos 4 ∷ pos 7 ∷ []) (omega arith) (omega arith)
      (omega arith)

worker_owner_example :
    (ps t : List ℤ) × (worker_partitions (pos 3) (pos 1) (pos 8) ≡ ok ps)
    × (partition_consumer (pos 2) ps 8 ≡ ok t)
    × (length t ≡ 8)
    × (owner t 7 ≡ (if 7 % 3 == 1 then pos (7 / 3 % 2) else negsuc 0))
worker_owner_example =
    worker_owner 3 1 8 (omega arith) 2 7 (omega arith) (omega arith) (omega arith) (omega arith)
      (omega arith)
