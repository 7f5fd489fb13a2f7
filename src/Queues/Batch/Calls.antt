-- ===== src/Queues/Batch/Calls.antt =====
-- Schedules of calls at a ThreadSafeBatchQueue (queue/thread_safe_batch_queue.hpp).
use mathlib.Core.Path.{subst}
use sas_libclient.Base.{
  ℕ, ◌^◌, ◌*◌, ◌<◌, ◌≤◌, ◌≡◌, refl, List, ◌∷◌, [], Option, none, some, length, length-replicate,
  arith,
}
use sas_libclient.Queues.Batch.{
  Item, BatchQueue, Turn, done, waits, out_of_range_error, failed_assert, batch_queue, push, get,
  delete_producer,
}
use sas_libclient.Queues.Batch.Counted.{
  count_set, count_set_le, count_set-replicate, Counted, Leaves, CountedAfter, push-Counted,
  get-Counted, delete_producer-Counted,
}

-- A call of Push, Get or DeleteProducer.
pub data Call (A : Type 0) : Type 0 where
  pushes : Item A → Call A
  gets : ℕ → ℕ → Call A
  deletes : ℕ → Call A

module _ {A : Type 0} where
  -- The queue after a turn; a wait or an exception leaves it as it is, and `none` is a failed assert.
  abbrev after : BatchQueue A → Turn (BatchQueue A) → Option (BatchQueue A)
  after q (done q') = some q'
  after q waits = some q
  after q out_of_range_error = some q
  after q failed_assert = none

  abbrev without_item : Turn (Item A × BatchQueue A) → Turn (BatchQueue A)
  without_item (done r) = done r.1
  without_item waits = waits
  without_item out_of_range_error = out_of_range_error
  without_item failed_assert = failed_assert

  abbrev pub call : Call A → BatchQueue A → Option (BatchQueue A)
  call (pushes val) q = after q (push val q)
  call (gets p id) q = after q (without_item (get p id q))
  call (deletes p) q = some (delete_producer p q)

  unfoldable pub calls : List (Call A) → BatchQueue A → Option (BatchQueue A)
  calls [] q = some q
  calls (c ∷ cs) q = elim (call c q) [ none ↦ none | some q' ↦ calls cs q' ]

  abbrev CountedOr : Option (BatchQueue A) → Type 0
  CountedOr none = Unit {0}
  CountedOr (some q) = Counted q

  after-Counted :
      (q : BatchQueue A) (t : Turn (BatchQueue A))
      → Counted q
      → Leaves Counted t
      → CountedOr (after q t)
  after-Counted q (done q') c l = l
  after-Counted q waits c l = c
  after-Counted q out_of_range_error c l = c
  after-Counted q failed_assert c l = tt

  without_item-Counted :
      (t : Turn (Item A × BatchQueue A)) → Leaves CountedAfter t → Leaves Counted (without_item t)
  without_item-Counted (done r) l = l
  without_item-Counted waits l = tt
  without_item-Counted out_of_range_error l = tt
  without_item-Counted failed_assert l = tt

  call-Counted : (c : Call A) (q : BatchQueue A) → Counted q → CountedOr (call c q)
  call-Counted (pushes val) q h = after-Counted q (push val q) h (push-Counted val q h)
  call-Counted (gets p id) q h =
      after-Counted q (without_item (get p id q)) h
        (without_item-Counted (get p id q) (get-Counted p id q h))
  call-Counted (deletes p) q h = delete_producer-Counted p q h

  calls-Counted : (cs : List (Call A)) (q : BatchQueue A) → Counted q → CountedOr (calls cs q)
  unfolding calls
  calls-Counted [] q h = h
  calls-Counted (c ∷ cs) q h =
      step (λ q' h'. calls-Counted cs q' h') (call c q) (call-Counted c q h)
    where
      step :
          ((q' : BatchQueue A) → Counted q' → CountedOr (calls cs q'))
          → (r : Option (BatchQueue A)) → CountedOr r
          → CountedOr (elim r [ none ↦ none | some q' ↦ calls cs q' ])
      step more none h' = tt
      step more (some q') h' = more q' h'

  -- Under every schedule of calls of Push, Get and DeleteProducer at a ThreadSafeBatchQueue with
  -- fewer than 2^31 slots that fails no assert, m_itemsToRead is the number of slots that are set,
  -- m_queue has as many entries, and there are no more of them than slots.
  pub calls_counted :
      (batch_size : ℕ) (partitions : List ℕ) (cs : List (Call A)) (q : BatchQueue A)
      → length partitions * batch_size < 2 ^ 31
      → calls cs (batch_queue batch_size partitions) ≡ some q
      → (count_set q.data_array ≡ q.items_to_read)
        × (length q.queue ≡ q.items_to_read)
        × (q.items_to_read ≤ length q.data_array)
  unfolding batch_queue
  calls_counted batch_size partitions cs q small e =
      let slots = length-replicate {A = Option (Item A)} (length partitions * batch_size) none in
      let start : Counted {A = A} (batch_queue batch_size partitions) = record {
        slots = omega (arith, slots);
        counted = count_set-replicate (Item A) (length partitions * batch_size);
        queued = refl;
      } in
      let c : Counted q =
        subst CountedOr e (calls-Counted cs (batch_queue batch_size partitions) start) in
      (c.counted, c.queued, omega (arith, c.counted, count_set_le q.data_array))
