-- ===== src/Queues/Simple/Turns.antt =====
-- What one turn at a ThreadSafeSimpleQueue keeps (queue/thread_safe_simple_queue.hpp).
use mathlib.Core.List.{append_assoc}
use sas_libclient.Base.{
  ℕ, zero, suc, ◌+◌, ◌≤◌, ◌<◌, ◌≡◌, refl, ◌∙◌, ap, sym, true, false, ◌⊎◌, inl, inr, List, [], ◌∷◌,
  ◌++◌, none, some, leb, ◌==◌, length, length-append, arith, Bool-cases,
}
use sas_libclient.Queues.Simple.{
  Queue, simple_queue, push, waits, empty, popped, pop, delete_producer,
}
use sas_libclient.Queues.Simple.Threads.{
  System, Thread, calling, woken, enter, system, notify_popper, notify_pusher, notify_poppers,
  push_turn, pop_turn, delete_turn,
}

some_inj : {m n : ℕ} → some m ≡ some n → m ≡ n
some_inj e = cc

-- At most the thread itself is no longer counted as woken.
pub entered : (t : Thread) (m n : ℕ) → enter t m ≡ some n → m ≤ suc n
entered calling m n e = let e' : m ≡ n = some_inj e in omega arith
entered woken zero n e = cc
entered woken (suc m) n e = let e' : m ≡ n = some_inj e in omega arith

module _ {A : Type 0} where
  -- What holds before and after every turn. A thread sleeps only while nothing is there for it that
  -- a woken thread is not on the way to.
  pub record IsSafe (s : System A) : Type 0 where
    pub bounded : length s.queue.items ≤ s.queue.capacity
    pub in_order : s.given ≡ s.taken ++ s.queue.items
    pub poppers : 0 < s.pop_sleeping → length s.queue.items ≤ s.pop_woken
    pub pushers : 0 < s.push_sleeping → s.queue.capacity ≤ length s.queue.items + s.push_woken
    pub producers : 0 < s.pop_sleeping → 0 < s.queue.producers

  pub system-IsSafe : (capacity producers : ℕ) → IsSafe (system capacity producers)
  unfolding system simple_queue
  system-IsSafe capacity producers = record {
    bounded = omega arith;
    in_order = refl;
    poppers = λ p. omega arith;
    pushers = λ p. absurd (omega arith);
    producers = λ p. absurd (omega arith);
  }

  push_full : (v : A) (q : Queue A) → leb q.capacity (length q.items) ≡ true → push v q ≡ none
  unfolding push
  push_full v q e = rw e refl

  push_room :
      (v : A) (q : Queue A)
      → leb q.capacity (length q.items) ≡ false
      → push v q ≡ some (record q { items = q.items ++ v ∷ [] })
  unfolding push
  push_room v q e = rw e refl

  pop_over : (q : Queue A) → q.items ≡ [] → (q.producers == 0) ≡ true → pop q ≡ empty
  unfolding pop
  pop_over q e over = rw (e, over) refl

  pop_waits : (q : Queue A) → q.items ≡ [] → (q.producers == 0) ≡ false → pop q ≡ waits
  unfolding pop
  pop_waits q e open_still = rw (e, open_still) refl

  pop_first :
      (q : Queue A) (x : A) (xs : List A)
      → q.items ≡ x ∷ xs
      → pop q ≡ popped x (record q { items = xs })
  unfolding pop
  pop_first q x xs e = rw e refl

  items_cases : (xs : List A) → (xs ≡ []) ⊎ ((y : A) × (ys : List A) × (xs ≡ y ∷ ys))
  items_cases [] = inl refl
  items_cases (y ∷ ys) = inr (y, ys, refl)

  module _ (s : System A) (safe : IsSafe s) where
    pub push_turn-IsSafe :
        (n : ℕ) (v : A) → s.push_woken ≤ suc n → IsSafe (push_turn v (record s { push_woken = n }))
    push_turn-IsSafe n v le = elim (Bool-cases (leb s.queue.capacity (length s.queue.items))) [
      | inl full ↦
          unfold push_turn in
          rw (push_full v s.queue full, push_turn)
            (record {
              bounded = safe.bounded;
              in_order = safe.in_order;
              poppers = safe.poppers;
              pushers = λ p. ground arith;
              producers = safe.producers;
            })
      | inr room ↦
          let longer : length (s.queue.items ++ v ∷ []) ≡ length s.queue.items + 1 =
            length-append s.queue.items (v ∷ []) in
          let order =
            ap (λ xs. xs ++ v ∷ []) safe.in_order ∙ append_assoc s.taken s.queue.items (v ∷ []) in
          elim (Bool-cases (s.pop_sleeping == 0)) [
            | inl none_asleep ↦
                unfold push_turn notify_popper in
                rw (push_room v s.queue room, push_turn, none_asleep, notify_popper)
                  (record {
                    bounded = ground (arith, longer);
                    in_order = order;
                    poppers = λ p. absurd (ground arith);
                    pushers = λ p. omega (arith, longer, safe.pushers p, le);
                    producers = safe.producers;
                  })
            | inr asleep ↦
                unfold push_turn notify_popper in
                rw (push_room v s.queue room, push_turn, asleep, notify_popper)
                  (record {
                    bounded = ground (arith, longer);
                    in_order = order;
                    poppers = λ p. omega (arith, longer, safe.poppers (omega arith));
                    pushers = λ p. omega (arith, longer, safe.pushers p, le);
                    producers = λ p. safe.producers (omega arith);
                  })
          ]
    ]

    pub pop_turn-IsSafe :
        (n : ℕ) → s.pop_woken ≤ suc n → IsSafe (pop_turn (record s { pop_woken = n }))
    pop_turn-IsSafe n le = elim (items_cases s.queue.items) [
      | inl nil ↦ elim (Bool-cases (s.queue.producers == 0)) [
        | inl over ↦
            unfold pop_turn in
            rw (pop_over s.queue nil over, pop_turn)
              (record {
                bounded = safe.bounded;
                in_order = safe.in_order;
                poppers = λ p. absurd (ground (arith, safe.producers p));
                pushers = safe.pushers;
                producers = safe.producers;
              })
        | inr open_still ↦
            unfold pop_turn in
            rw (pop_waits s.queue nil open_still, pop_turn)
              (record {
                bounded = safe.bounded;
                in_order = safe.in_order;
                poppers = λ p. let none_left = ap length nil in omega (arith, none_left);
                pushers = safe.pushers;
                producers = λ p. ground arith;
              })
      ]
      | inr (x, xs, more) ↦
          let longer : length s.queue.items ≡ suc (length xs) = ap length more in
          let order =
            safe.in_order
            ∙ ap (λ ys. s.taken ++ ys) more
            ∙ sym (append_assoc s.taken (x ∷ []) xs) in
          elim (Bool-cases (s.push_sleeping == 0)) [
            | inl none_asleep ↦
                unfold pop_turn notify_pusher in
                rw (pop_first s.queue x xs more, pop_turn, none_asleep, notify_pusher)
                  (record {
                    bounded = omega (arith, longer, safe.bounded);
                    in_order = order;
                    poppers = λ p. omega (arith, longer, safe.poppers p, le);
                    pushers = λ p. absurd (ground arith);
                    producers = safe.producers;
                  })
            | inr asleep ↦
                unfold pop_turn notify_pusher in
                rw (pop_first s.queue x xs more, pop_turn, asleep, notify_pusher)
                  (record {
                    bounded = omega (arith, longer, safe.bounded);
                    in_order = order;
                    poppers = λ p. omega (arith, longer, safe.poppers p, le);
                    pushers = λ p. omega (arith, longer, safe.pushers (omega arith));
                    producers = safe.producers;
                  })
          ]
    ]

    pub delete_turn-IsSafe : IsSafe (delete_turn s)
    delete_turn-IsSafe = elim (Bool-cases ((delete_producer s.queue).producers == 0)) [
      | inl last ↦
          unfold delete_turn notify_poppers delete_producer in
          rw (last, delete_turn)
            (record {
              bounded = safe.bounded;
              in_order = safe.in_order;
              poppers = λ p. absurd (omega arith);
              pushers = safe.pushers;
              producers = λ p. absurd (omega arith);
            })
      | inr others ↦
          unfold delete_turn delete_producer in
          rw (others, delete_turn)
            (record {
              bounded = safe.bounded;
              in_order = safe.in_order;
              poppers = safe.poppers;
              pushers = safe.pushers;
              producers = λ p. ground arith;
            })
    ]
