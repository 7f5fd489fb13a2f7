-- ===== src/Queues/Simple/Drain.antt =====
-- The end of a ThreadSafeSimpleQueue: its producers are gone, and the consumers go on popping
-- (queue/thread_safe_simple_queue.hpp).
use sas_libclient.Base.{
  ℕ, ◌≡◌, refl, ap, sym, ◌∙◌, inl, inr, Bool-cases, List, [], ◌∷◌, ◌++◌, some, length, replicate,
  ◌==◌, arith,
}
use native.Mathlib.Decide.{dec_lt}
use mathlib.Core.List.{append_assoc, append-nil}
use sas_libclient.Queues.Simple.{Queue, empty, pop}
use sas_libclient.Queues.Simple.Threads.{
  System, Action, pops, calling, system, notify_pusher, pop_turn, step, run,
}
use sas_libclient.Queues.Simple.Safe.{run_fifo, sleeping_consumer}

module _ {A : Type 0} where
  -- What a Pop leaves.
  record Taken (s s' : System A) (x : A) (xs : List A) : Type 0 where
    items : s'.queue.items ≡ xs
    producers : s'.queue.producers ≡ s.queue.producers
    taken : s'.taken ≡ s.taken ++ x ∷ []
    sleeping : s'.pop_sleeping ≡ s.pop_sleeping

  notified :
      (s : System A)
      → ((notify_pusher s).queue ≡ s.queue)
        × ((notify_pusher s).taken ≡ s.taken)
        × ((notify_pusher s).pop_sleeping ≡ s.pop_sleeping)
  unfolding notify_pusher
  notified s = elim (Bool-cases (s.push_sleeping == 0)) [
    | inl e ↦ rw e (refl, refl, refl)
    | inr e ↦ rw e (refl, refl, refl)
  ]

  pop_one :
      (s : System A) (x : A) (xs : List A)
      → s.queue.items ≡ x ∷ xs
      → (s' : System A) × (pop_turn s ≡ s') × Taken s s' x xs
  unfolding pop_turn pop
  pop_one s x xs e =
      let after : System A = record s {
        queue = record s.queue { items = xs };
        taken = s.taken ++ x ∷ [];
      } in
      let (queue, taken, sleeping) = notified after in
      (
        notify_pusher after,
        rw e refl,
        record {
          items = ap (λ (q : Queue A). q.items) queue;
          producers = ap (λ (q : Queue A). q.producers) queue;
          taken = taken;
          sleeping = sleeping;
        },
      )

  -- What all the Pops leave.
  record Drained (s s' : System A) (xs : List A) : Type 0 where
    items : s'.queue.items ≡ []
    producers : s'.queue.producers ≡ s.queue.producers
    taken : s'.taken ≡ s.taken ++ xs
    sleeping : s'.pop_sleeping ≡ s.pop_sleeping

  pop_all :
      (xs : List A) (s : System A)
      → s.queue.items ≡ xs
      → (s' : System A) × (run (replicate (length xs) (pops calling)) s ≡ some s') × Drained s s' xs
  unfolding run step
  pop_all [] s e = (
    s,
    refl,
    record { items = e; producers = refl; taken = sym (append-nil s.taken); sleeping = refl },
  )
  pop_all (x ∷ xs) s e =
      let (s1, one, t) = pop_one s x xs e in
      let (s2, more, d) = pop_all xs s1 t.items in
      (
        s2,
        ap (run (replicate (length xs) (pops calling))) one ∙ more,
        record {
          items = d.items;
          producers = d.producers ∙ t.producers;
          taken = d.taken ∙ ap (λ ys. ys ++ xs) t.taken ∙ append_assoc s.taken (x ∷ []) xs;
          sleeping = d.sleeping ∙ t.sleeping;
        },
      )

  pop_empty : (q : Queue A) → q.items ≡ [] → q.producers ≡ 0 → pop q ≡ empty
  unfolding pop
  pop_empty q nothing over = rw (nothing, over) refl

  module _ (capacity producers : ℕ) (actions : List (Action A)) (s : System A)
      (e : run actions (system capacity producers) ≡ some s) (over : s.queue.producers ≡ 0) where
    nobody_sleeps : s.pop_sleeping ≡ 0
    nobody_sleeps = elim (dec_lt 0 s.pop_sleeping) [
      | yes some_sleep ↦
          absurd
            (omega (arith, over, (sleeping_consumer capacity producers actions s e some_sleep).1))
      | no h ↦ omega arith
    ]

    -- When the producers are gone after some schedule, as many calls of Pop as there are items left
    -- all return, after them the consumers have all values that were ever pushed, in order, the
    -- next Pop throws, and no consumer sleeps.
    pub run_drained :
        (s' : System A) × (run (replicate (length s.queue.items) (pops calling)) s ≡ some s')
        × (s'.taken ≡ s.given)
        × (pop s'.queue ≡ empty)
        × (s'.pop_sleeping ≡ 0)
    run_drained =
        let (s', runs, d) = pop_all s.queue.items s refl in
        let (in_order, bounded) = run_fifo capacity producers actions s e in
        (
          s',
          runs,
          d.taken ∙ sym in_order,
          pop_empty s'.queue d.items (d.producers ∙ over),
          d.sleeping ∙ nobody_sleeps,
        )
