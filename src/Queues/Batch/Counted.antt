-- ===== src/Queues/Batch/Counted.antt =====
-- The count of chunks to read in a ThreadSafeBatchQueue (queue/thread_safe_batch_queue.hpp).
use sas_libclient.Base.{
  ℕ, zero, suc, ◌^◌, ◌+◌, ◌-◌, ◌<◌, ◌≤◌, ◌≡◌, refl, ap, ◌∙◌, Bool, true, false, ◌&&◌, not, inl, inr,
  Bool-cases, Option-cases, List, ◌∷◌, [], Option, none, some, ltb, ltb→lt, ◌==◌, if◌then◌else◌,
  length, length-append, length-set, replicate, get_or, set, arith, u32,
}
use sas_libclient.Queues.Batch.{
  Item, BatchQueue, Turn, done, waits, out_of_range_error, failed_assert, target_index, number_of,
  is_ahead, is_current, push, get, finish_batch, pop_front, read_value, delete_producer,
  reset_batch, is_batch_finished,
}

module _ {A : Type 0} where
  -- How many slots are set.
  abbrev pub count_set : List (Option A) → ℕ
  count_set [] = 0
  count_set (none ∷ xs) = count_set xs
  count_set (some x ∷ xs) = suc (count_set xs)

  pub count_set_le : (xs : List (Option A)) → count_set xs ≤ length xs
  count_set_le [] = omega arith
  count_set_le (none ∷ xs) = omega (arith, count_set_le xs)
  count_set_le (some x ∷ xs) = omega (arith, count_set_le xs)

  count_set-set-some :
      (xs : List (Option A)) (i : ℕ) (v : A)
      → i < length xs
      → get_or xs i none ≡ none
      → count_set (set xs i (some v)) ≡ suc (count_set xs)
  count_set-set-some [] i v h e = absurd (omega arith)
  count_set-set-some (none ∷ xs) zero v h e = refl
  count_set-set-some (some x ∷ xs) zero v h e = cc
  count_set-set-some (none ∷ xs) (suc i) v h e = count_set-set-some xs i v (omega arith) e
  count_set-set-some (some x ∷ xs) (suc i) v h e =
      ap suc (count_set-set-some xs i v (omega arith) e)

  count_set-set-none :
      (xs : List (Option A)) (i : ℕ) (v : A)
      → get_or xs i none ≡ some v
      → suc (count_set (set xs i none)) ≡ count_set xs
  count_set-set-none [] i v e = cc
  count_set-set-none (none ∷ xs) zero v e = cc
  count_set-set-none (some x ∷ xs) zero v e = refl
  count_set-set-none (none ∷ xs) (suc i) v e = count_set-set-none xs i v e
  count_set-set-none (some x ∷ xs) (suc i) v e = ap suc (count_set-set-none xs i v e)

-- What a turn leaves, if it is done.
abbrev pub Leaves : {B : Type 0} → (B → Type 0) → Turn B → Type 0
Leaves P (done b) = P b
Leaves P waits = Unit {0}
Leaves P out_of_range_error = Unit {0}
Leaves P failed_assert = Unit {0}

pub count_set-replicate : (A : Type 0) (n : ℕ) → count_set {A = A} (replicate n none) ≡ 0
count_set-replicate A zero = refl
count_set-replicate A (suc n) = count_set-replicate A n

-- The items to read are the slots that are set, and each has an entry in m_queue.
pub record Counted {A : Type 0} (q : BatchQueue A) : Type 0 where
  pub slots : length q.data_array < 2 ^ 31
  pub counted : count_set q.data_array ≡ q.items_to_read
  pub queued : length q.queue ≡ q.items_to_read

module _ {A : Type 0} where
  pub finish_batch-Counted : (q : BatchQueue A) → Counted q → Counted (finish_batch q)
  unfolding finish_batch reset_batch
  finish_batch-Counted q c = elim (Bool-cases (is_batch_finished q)) [
    | inl e ↦ rw e (record { slots = c.slots; counted = c.counted; queued = c.queued })
    | inr e ↦ rw e c
  ]

  shorter :
      (xs : List (Item A))
      → 0 < length xs
      → length (elim xs [ [] ↦ [] | y ∷ ys ↦ ys ]) ≡ length xs - 1
  shorter [] h = absurd (omega arith)
  shorter (y ∷ ys) h = omega arith

  -- A set slot is read, and the front of m_queue dropped.
  pub read-Counted :
      (q : BatchQueue A) (index : ℕ) (v : Item A)
      → Counted q
      → get_or q.data_array index none ≡ some v
      → Counted (pop_front (read_value index q))
  unfolding pop_front read_value
  read-Counted q index v c e =
      let fewer = count_set-set-none q.data_array index v e in
      let small = count_set_le q.data_array in
      record {
        slots = omega (arith, length-set q.data_array index none, c.slots);
        counted = omega (arith, c.counted, c.slots);
        queued =
            shorter q.queue (omega (arith, c.queued, c.counted))
            ∙ omega (arith, c.queued, c.counted, c.slots);
      }

  pub push-Counted : (val : Item A) (q : BatchQueue A) → Counted q → Leaves Counted (push val q)
  unfolding push
  push-Counted val q c =
      let index = target_index val.partition_id val.id q in
      elim (Bool-cases (is_ahead val.id q)) [
        | inl later ↦ rw later tt
        | inr now ↦ elim (Bool-cases (ltb index (length q.data_array))) [
          | inl inside ↦ elim (Option-cases (get_or q.data_array index none)) [
            | inl free ↦
                rw (now, inside, free)
                  (record {
                    slots = omega (arith, length-set q.data_array index (some val), c.slots);
                    counted =
                        count_set-set-some q.data_array index val (ltb→lt _ _ inside) free
                        ∙ omega (arith, c.counted, c.slots, count_set_le q.data_array);
                    queued =
                        length-append q.queue (val ∷ [])
                        ∙ omega (arith, c.counted, c.queued, c.slots, count_set_le q.data_array);
                  })
            | inr (old, held) ↦ rw (now, inside, held) tt
          ]
          | inr outside ↦ rw (now, outside) tt
        ]
      ]

  -- The queue of a Get.
  abbrev pub CountedAfter : Item A × BatchQueue A → Type 0
  CountedAfter r = Counted r.1

  pub get-Counted : (p id : ℕ) (q : BatchQueue A) → Counted q → Leaves CountedAfter (get p id q)
  unfolding get
  get-Counted p id q c =
      let index = target_index p id q in
      elim (Bool-cases (q.items_to_read == 0 && q.active_producers == 0)) [
        | inl over ↦ rw over tt
        | inr going ↦ elim (Option-cases (get_or q.data_array index none)) [
          | inl free ↦ rw (going, free) (waiting (get_or q.producer_active (number_of p q) false))
          | inr (v, held) ↦
              rw (going, held)
                (reading (not (is_current id q) && get_or q.producer_active (number_of p q) false) v
                  _ (finish_batch-Counted _ (read-Counted q index v c held)))
        ]
      ]
    where
      waiting : (active : Bool) → Leaves CountedAfter (if active then waits else out_of_range_error)
      waiting true = tt
      waiting false = tt

      reading :
          (wait : Bool) (v : Item A) (q : BatchQueue A)
          → Counted q
          → Leaves CountedAfter (if wait then waits else done (v, q))
      reading true v q c = tt
      reading false v q c = c

  pub delete_producer-Counted :
      (p : ℕ) (q : BatchQueue A) → Counted q → Counted (delete_producer p q)
  unfolding delete_producer
  delete_producer-Counted p q c =
      let left : BatchQueue A = record q {
        producer_active = set q.producer_active (number_of p q) false;
        active_producers = u32 (q.active_producers + 0xffff_ffff);
      } in
      finish_batch-Counted left (record { slots = c.slots; counted = c.counted; queued = c.queued })
