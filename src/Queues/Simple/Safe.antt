-- ===== src/Queues/Simple/Safe.antt =====
-- Bounds, order and wake-ups of ThreadSafeSimpleQueue (queue/thread_safe_simple_queue.hpp).
use mathlib.Core.Path.{subst}
use sas_libclient.Base.{
  ℕ, suc, ◌+◌, ◌≤◌, ◌<◌, ◌≡◌, refl, inl, inr, List, [], ◌∷◌, ◌++◌, Option, none, some, ◌==◌, length,
  arith, Bool-cases,
}
use sas_libclient.Queues.Simple.Threads.{
  System, Thread, Action, pushes, pops, deletes, pusher_wakes, popper_wakes, enter, system,
  push_turn, pop_turn, step, run,
}
use sas_libclient.Queues.Simple.Turns.{
  entered, IsSafe, system-IsSafe, push_turn-IsSafe, pop_turn-IsSafe, delete_turn-IsSafe,
}

module _ {A : Type 0} where
  -- The system that an action leaves, if anybody can take it.
  abbrev SafeAfter : Option (System A) → Type 0
  SafeAfter none = Unit {0}
  SafeAfter (some s) = IsSafe s

  after_push :
      (t : Thread) (v : A) (s : System A) (woken_left : Option ℕ)
      → IsSafe s
      → ((n : ℕ) → woken_left ≡ some n → s.push_woken ≤ suc n)
      → SafeAfter (elim woken_left [
        | none ↦ none
        | some n ↦ some (push_turn v (record s { push_woken = n }))
      ])
  after_push t v s none safe le = tt
  after_push t v s (some n) safe le = push_turn-IsSafe s safe n v (le n refl)

  after_pop :
      (s : System A) (woken_left : Option ℕ)
      → IsSafe s
      → ((n : ℕ) → woken_left ≡ some n → s.pop_woken ≤ suc n)
      → SafeAfter
          (elim woken_left [ none ↦ none | some n ↦ some (pop_turn (record s { pop_woken = n })) ])
  after_pop s none safe le = tt
  after_pop s (some n) safe le = pop_turn-IsSafe s safe n (le n refl)

  step-SafeAfter : (a : Action A) (s : System A) → IsSafe s → SafeAfter (step a s)
  unfolding step
  step-SafeAfter (pushes t v) s safe =
      after_push t v s (enter t s.push_woken) safe (λ n e. entered t s.push_woken n e)
  step-SafeAfter (pops t) s safe =
      after_pop s (enter t s.pop_woken) safe (λ n e. entered t s.pop_woken n e)
  step-SafeAfter deletes s safe = delete_turn-IsSafe s safe
  step-SafeAfter pusher_wakes s safe = elim (Bool-cases (s.push_sleeping == 0)) [
    | inl none_asleep ↦ rw none_asleep tt
    | inr asleep ↦ rw asleep (record {
      bounded = safe.bounded;
      in_order = safe.in_order;
      poppers = safe.poppers;
      pushers = λ p. omega (arith, safe.pushers (omega arith));
      producers = safe.producers;
    })
  ]
  step-SafeAfter popper_wakes s safe = elim (Bool-cases (s.pop_sleeping == 0)) [
    | inl none_asleep ↦ rw none_asleep tt
    | inr asleep ↦ rw asleep (record {
      bounded = safe.bounded;
      in_order = safe.in_order;
      poppers = λ p. omega (arith, safe.poppers (omega arith));
      pushers = safe.pushers;
      producers = λ p. safe.producers (omega arith);
    })
  ]

  run-SafeAfter : (actions : List (Action A)) (s : System A) → IsSafe s → SafeAfter (run actions s)
  unfolding run
  run-SafeAfter [] s safe = safe
  run-SafeAfter (a ∷ actions) s safe =
      on (step a s) (step-SafeAfter a s safe) (λ s' h. run-SafeAfter actions s' h)
    where
      on :
          (r : Option (System A))
          → SafeAfter r
          → ((s' : System A) → IsSafe s' → SafeAfter (run actions s'))
          → SafeAfter (elim r [ none ↦ none | some s' ↦ run actions s' ])
      on none h go = tt
      on (some s') h go = go s' h

  pub run-IsSafe :
      (capacity producers : ℕ) (actions : List (Action A)) (s : System A)
      → run actions (system capacity producers) ≡ some s
      → IsSafe s
  run-IsSafe capacity producers actions s e =
      subst SafeAfter e
        (run-SafeAfter actions (system capacity producers) (system-IsSafe capacity producers))

  module _ (capacity producers : ℕ) (actions : List (Action A)) (s : System A)
      (e : run actions (system capacity producers) ≡ some s) where
    -- Under every schedule of pushes, pops, producer removals and spurious wake-ups the values
    -- pushed into a ThreadSafeSimpleQueue are those popped followed by those in it, in order, and
    -- it never holds more than its capacity.
    pub run_fifo : (s.given ≡ s.taken ++ s.queue.items) × (length s.queue.items ≤ s.queue.capacity)
    run_fifo = let safe = run-IsSafe capacity producers actions s e in (safe.in_order, safe.bounded)

    -- No wake-up of a consumer is lost: under every schedule, while a consumer sleeps in Pop, there
    -- are at most as many items as there are woken consumers on the way back to the mutex, and a
    -- producer is left.
    pub sleeping_consumer :
        0 < s.pop_sleeping → (length s.queue.items ≤ s.pop_woken) × (0 < s.queue.producers)
    sleeping_consumer p =
        let safe = run-IsSafe capacity producers actions s e in (safe.poppers p, safe.producers p)

    -- No wake-up of a producer is lost: under every schedule, while a producer sleeps in Push, the
    -- items and the woken producers together are at least the capacity.
    pub sleeping_producer :
        0 < s.push_sleeping → s.queue.capacity ≤ length s.queue.items + s.push_woken
    sleeping_producer p = let safe = run-IsSafe capacity producers actions s e in safe.pushers p
