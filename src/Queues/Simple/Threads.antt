-- ===== src/Queues/Simple/Threads.antt =====
-- Threads at a ThreadSafeSimpleQueue: who sleeps on which condition variable, and who is on the way
-- back to the mutex.
use sas_libclient.Base.{
  ℕ, zero, suc, ◌+◌, ◌-◌, List, [], ◌∷◌, ◌++◌, Option, none, some, ◌==◌, if◌then◌else◌,
}
use sas_libclient.Queues.Simple.{
  Queue, simple_queue, push, waits, empty, popped, pop, delete_producer,
}

-- `given` and `taken` are all values pushed and popped so far.
pub record System (A : Type 0) : Type 0 where
  pub queue : Queue A
  pub push_sleeping : ℕ
  pub push_woken : ℕ
  pub pop_sleeping : ℕ
  pub pop_woken : ℕ
  pub given : List A
  pub taken : List A

-- A thread that calls, or one that wakes up in the wait.
pub data Thread : Type 0 where
  calling woken : Thread

pub data Action (A : Type 0) : Type 0 where
  pushes : Thread → A → Action A
  pops : Thread → Action A
  deletes : Action A
  -- A wake-up that nobody asked for.
  pusher_wakes popper_wakes : Action A

-- The count of woken threads without the one that goes on.
abbrev pub enter : Thread → ℕ → Option ℕ
enter calling n = some n
enter woken zero = none
enter woken (suc n) = some n

module _ {A : Type 0} where
  unfoldable pub system : ℕ → ℕ → System A
  system capacity producers = record {
    queue = simple_queue capacity producers;
    push_sleeping = 0;
    push_woken = 0;
    pop_sleeping = 0;
    pop_woken = 0;
    given = [];
    taken = [];
  }

  -- notify_one: one sleeper, if there is any.
  unfoldable pub notify_popper : System A → System A
  notify_popper s =
      if s.pop_sleeping == 0
      then s
      else record s { pop_sleeping = s.pop_sleeping - 1; pop_woken = s.pop_woken + 1 }

  unfoldable pub notify_pusher : System A → System A
  notify_pusher s =
      if s.push_sleeping == 0
      then s
      else record s { push_sleeping = s.push_sleeping - 1; push_woken = s.push_woken + 1 }

  -- notify_all
  unfoldable pub notify_poppers : System A → System A
  notify_poppers s = record s { pop_sleeping = 0; pop_woken = s.pop_woken + s.pop_sleeping }

  unfoldable pub push_turn : A → System A → System A
  unfolding notify_popper
  push_turn v s = elim (push v s.queue) [
    | none ↦ record s { push_sleeping = s.push_sleeping + 1 }
    | some q ↦ notify_popper (record s { queue = q; given = s.given ++ v ∷ [] })
  ]

  unfoldable pub pop_turn : System A → System A
  unfolding notify_pusher
  pop_turn s = elim (pop s.queue) [
    | waits ↦ record s { pop_sleeping = s.pop_sleeping + 1 }
    | empty ↦ s
    | popped x q ↦ notify_pusher (record s { queue = q; taken = s.taken ++ x ∷ [] })
  ]

  unfoldable pub delete_turn : System A → System A
  unfolding notify_poppers delete_producer
  delete_turn s =
      let q = delete_producer s.queue in
      if q.producers == 0 then notify_poppers (record s { queue = q }) else record s { queue = q }

  -- `none`: there is no such thread.
  unfoldable pub step : Action A → System A → Option (System A)
  unfolding push_turn pop_turn delete_turn
  step (pushes t v) s = elim (enter t s.push_woken) [
    | none ↦ none
    | some n ↦ some (push_turn v (record s { push_woken = n }))
  ]
  step (pops t) s = elim (enter t s.pop_woken) [
    | none ↦ none
    | some n ↦ some (pop_turn (record s { pop_woken = n }))
  ]
  step deletes s = some (delete_turn s)
  step pusher_wakes s =
      if s.push_sleeping == 0
      then none
      else some (record s { push_sleeping = s.push_sleeping - 1; push_woken = s.push_woken + 1 })
  step popper_wakes s =
      if s.pop_sleeping == 0
      then none
      else some (record s { pop_sleeping = s.pop_sleeping - 1; pop_woken = s.pop_woken + 1 })

  -- A schedule; an action that nobody can take ends it.
  unfoldable pub run : List (Action A) → System A → Option (System A)
  unfolding step
  run [] s = some s
  run (a ∷ rest) s = elim (step a s) [ none ↦ none | some s' ↦ run rest s' ]
