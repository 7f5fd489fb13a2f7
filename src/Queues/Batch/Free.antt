-- ===== src/Queues/Batch/Free.antt =====
-- FreeBatchData of ThreadSafeBatchQueue (queue/thread_safe_batch_queue.hpp).
use native.Mathlib.Decide.{dec_lt}
use sas_libclient.Base.{
  ℕ, zero, suc, ◌+◌, ◌<◌, ◌≡◌, refl, ap, sym, ◌∙◌, false, ◌&&◌, inl, inr, Bool-cases, List, ◌∷◌, [],
  Option, none, some, ◌==◌, if◌then◌else◌, get_or, set, arith, u32,
}
use sas_libclient.Queues.Batch.{
  Item, BatchQueue, Turn, done, waits, failed_assert, finish_batch, pop_front, read_value,
  reset_batch, is_batch_finished,
}
use sas_libclient.Queues.Batch.Counted.{
  count_set, count_set_le, Counted, finish_batch-Counted, read-Counted,
}

module _ {A : Type 0} where
  -- The first slot that is set, from the slot `i` on.
  unfoldable pub first_set : ℕ → List (Option (Item A)) → Option (ℕ × Item A)
  first_set i [] = none
  first_set i (none ∷ xs) = first_set (i + 1) xs
  first_set i (some v ∷ xs) = some (i, v)

  -- The loops over the slots, with the values that are freed, in order. The wait is that on m_emptyCV;
  -- `failed_assert` at no fuel is no outcome of the code.
  unfoldable pub free_batch_data : ℕ → BatchQueue A → Turn (List (Item A) × BatchQueue A)
  unfolding first_set
  free_batch_data zero q = failed_assert
  free_batch_data (suc fuel) q =
      if q.items_to_read == 0 && q.active_producers == 0
      then done ([], q)
      else if q.items_to_read == 0
      then waits
      else elim (first_set 0 q.data_array) [
        | none ↦ free_batch_data fuel q
        | some (index, v) ↦
            freed v (free_batch_data fuel (finish_batch (read_value index (pop_front q))))
      ]
    where
      freed : Item A → Turn (List (Item A) × BatchQueue A) → Turn (List (Item A) × BatchQueue A)
      freed v (done (vs, q)) = done (v ∷ vs, q)
      freed v other = other

-- The values in the slots.
abbrev pub values : {A : Type 0} → List (Option A) → List A
values [] = []
values (none ∷ xs) = values xs
values (some x ∷ xs) = x ∷ values xs

module _ {A : Type 0} where
  first_set_lem :
      (i : ℕ) (xs : List (Option (Item A)))
      → 0 < count_set xs
      → (k : ℕ) × (v : Item A) × (first_set i xs ≡ some (i + k, v))
        × (get_or xs k none ≡ some v)
        × (values xs ≡ v ∷ values (set xs k none))
  unfolding first_set
  first_set_lem i [] h = absurd (omega arith)
  first_set_lem i (some v ∷ xs) h =
      let same : i ≡ i + 0 = omega arith in (0, v, ap (λ n. some (n, v)) same, refl, refl)
  first_set_lem i (none ∷ xs) h =
      let (k, v, e, held, shown) = first_set_lem (i + 1) xs h in
      let same : i + 1 + k ≡ i + suc k = omega arith in
      (suc k, v, e ∙ ap (λ n. some (n, v)) same, held, shown)

  values_none : (xs : List (Option (Item A))) → count_set xs ≡ 0 → values xs ≡ []
  values_none [] h = refl
  values_none (none ∷ xs) h = values_none xs h
  values_none (some x ∷ xs) h = absurd (omega arith)

  -- The queue after the value in a slot is read.
  abbrev after_read : ℕ → BatchQueue A → BatchQueue A
  after_read index q = finish_batch (read_value index (pop_front q))

  finish_batch_keeps :
      (q : BatchQueue A)
      → ((finish_batch q).data_array ≡ q.data_array)
        × ((finish_batch q).active_producers ≡ q.active_producers)
        × ((finish_batch q).items_to_read ≡ q.items_to_read)
  unfolding finish_batch reset_batch
  finish_batch_keeps q = elim (Bool-cases (is_batch_finished q)) [
    | inl e ↦ rw e (refl, refl, refl)
    | inr e ↦ rw e (refl, refl, refl)
  ]

  after_read-Counted :
      (q : BatchQueue A) (index : ℕ) (v : Item A)
      → Counted q
      → get_or q.data_array index none ≡ some v
      → Counted (after_read index q)
  unfolding pop_front read_value
  after_read-Counted q index v c e =
      finish_batch-Counted (read_value index (pop_front q)) (read-Counted q index v c e)

  after_read_keeps :
      (q : BatchQueue A) (index : ℕ)
      → ((after_read index q).data_array ≡ set q.data_array index none)
        × ((after_read index q).active_producers ≡ q.active_producers)
        × ((after_read index q).items_to_read ≡ u32 (q.items_to_read + 0xffff_ffff))
  unfolding pop_front read_value
  after_read_keeps q index = finish_batch_keeps (read_value index (pop_front q))

  free_end :
      (fuel : ℕ) (q : BatchQueue A)
      → q.active_producers ≡ 0
      → q.items_to_read ≡ 0
      → free_batch_data (suc fuel) q ≡ done ([], q)
  unfolding free_batch_data
  free_end fuel q over nothing = rw (free_batch_data, nothing, over) refl

  free_one :
      (fuel : ℕ) (q q' : BatchQueue A) (index : ℕ) (v : Item A) (vs : List (Item A))
      → 0 < q.items_to_read
      → first_set 0 q.data_array ≡ some (index, v)
      → free_batch_data fuel (after_read index q) ≡ done (vs, q')
      → free_batch_data (suc fuel) q ≡ done (v ∷ vs, q')
  unfolding free_batch_data
  free_one fuel q q' index v vs some_items found more =
      let nonzero : (q.items_to_read == 0) ≡ false = ground arith in rw (nonzero, found, more) refl

  -- When the producers of a ThreadSafeBatchQueue are gone, and m_itemsToRead is the number of slots
  -- that are set, fewer than 2^31, with as many entries in m_queue, FreeBatchData ends, with fuel
  -- above the number of items to read, after freeing the values of all set slots, in the order of
  -- the slots, and leaves no item to read.
  pub free_batch_data_lem :
      (fuel : ℕ) (q : BatchQueue A)
      → Counted q
      → q.active_producers ≡ 0
      → q.items_to_read < fuel
      → (q' : BatchQueue A) × (free_batch_data fuel q ≡ done (values q.data_array, q'))
        × (q'.items_to_read ≡ 0)
  free_batch_data_lem zero q c over enough = absurd (omega arith)
  free_batch_data_lem (suc fuel) q c over enough = elim (dec_lt 0 q.items_to_read) [
    | no nothing ↦
        let zero_items : q.items_to_read ≡ 0 = omega arith in
        (
          q,
          free_end fuel q over zero_items
              ∙ ap (λ vs. done (vs, q)) (sym (values_none q.data_array (c.counted ∙ zero_items))),
          zero_items,
        )
    | yes some_items ↦
        let (index, v, found, held, shown) =
          first_set_lem 0 q.data_array (omega (arith, c.counted)) in
        let plain : 0 + index ≡ index = omega arith in
        let (slots, active, items) = after_read_keeps q index in
        let (q', freed, empty) =
          free_batch_data_lem fuel (after_read index q) (after_read-Counted q index v c held)
            (active ∙ over) (omega (arith, items, c.slots, c.counted, count_set_le q.data_array)) in
        (
          q',
          free_one fuel q q' index v (values (after_read index q).data_array) some_items
                (found ∙ ap (λ n. some (n, v)) plain) freed
              ∙ ap (λ vs. done (vs, q')) (ap (λ xs. v ∷ values xs) slots ∙ sym shown),
          empty,
        )
  ]
