-- ===== src/Queues/Simple.antt =====
-- ThreadSafeSimpleQueue (queue/thread_safe_simple_queue.hpp): its operations, each under its mutex.
use sas_libclient.Base.{
  ℕ, ◌+◌, ◌-◌, Bool, true, false, ◌&&◌, List, [], ◌∷◌, ◌++◌, Option, none, some, leb, ◌==◌,
  if◌then◌else◌, length, u32, sub_ℕ, text, Text,
}
pub mod Threads
pub mod Turns
pub mod Safe
pub mod Drain

pub record Queue (A : Type 0) : Type 0 where
  pub items : List A
  pub capacity : ℕ
  pub producers : ℕ

module _ {A : Type 0} where
  unfoldable pub simple_queue : ℕ → ℕ → Queue A
  simple_queue capacity producers = record {
    items = [];
    capacity = capacity;
    producers = producers;
  }

  -- One turn of Push's loop with the lock held: `none` is the wait on m_fullCV.
  unfoldable pub push : A → Queue A → Option (Queue A)
  push value q =
      if leb q.capacity (length q.items)
      then none
      else some (record q { items = q.items ++ value ∷ [] })

-- One turn of Pop's loop: the wait on m_emptyCV, the exception, or the front.
pub data Popped (A : Type 0) : Type 0 where
  waits : Popped A
  empty : Popped A
  popped : A → Queue A → Popped A

module _ {A : Type 0} where
  unfoldable pub pop : Queue A → Popped A
  pop q = elim q.items [
    | [] ↦ if q.producers == 0 then empty else waits
    | x ∷ xs ↦ popped x (record q { items = xs })
  ]

  -- `m_producers--` on a uint32_t.
  unfoldable pub delete_producer : Queue A → Queue A
  delete_producer q = record q { producers = u32 (q.producers + 0xffff_ffff) }
