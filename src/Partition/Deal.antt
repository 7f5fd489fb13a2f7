-- ===== src/Partition/Deal.antt =====
-- Which partitions each worker and each consumer gets.
use native.Mathlib.Decide.{dec_lt}
use sas_libclient.Base.{
  ℕ, zero, suc, ◌+◌, ◌*◌, ◌^◌, ◌≤◌, ◌<◌, ◌≡◌, ◌∙◌, List, [], ◌∷◌, ltb, if◌then◌else◌, length,
  get_elem?, get_elem?_above, get_elem?_below, ℤ, pos, ◌+ℤ◌, ◌-ℤ◌, ◌>>=◌, Option, none, some,
  Outcome, ok, arith, add_u64, pos_part, sym,
}
use sas_libclient.Partition.{worker_loop, worker_partitions, consumer_loop, consumer_partitions}

-- The `k`-th number of `w`, `w + n`, `w + 2n`, ..., while it is below `total`.
abbrev pub strided : ℕ → ℕ → ℕ → ℕ → Option ℤ
strided w n total k = if ltb (w + k * n) total then some (pos (w + k * n)) else none

-- `r` is a normal result whose `k`-th element is `at k`.
abbrev pub Lists : Outcome (List ℤ) → (ℕ → Option ℤ) → Type 0
Lists r at = (ps : List ℤ) × (r ≡ ok ps) × ((k : ℕ) → get_elem? ps k ≡ at k)

strided-suc : (i n t k : ℕ) → strided (i + n) n t k ≡ strided i n t (suc k)
strided-suc i n t k =
    let e : i + n + k * n ≡ i + suc k * n = omega arith in
    λ j. if ltb (e j) t then some (pos (e j)) else none

worker_loop-suc :
    (f i n t : ℕ)
    → t + n ≤ 2 ^ 31
    → i < t
    → worker_loop (suc f) (pos i) (pos n) (pos t)
      ≡ (worker_loop f (pos (i + n)) (pos n) (pos t) >>= λ rest. ok (pos i ∷ rest))
unfolding worker_loop ◌+ℤ◌
worker_loop-suc f i n t room h = ground arith

worker_loop-Lists :
    (f i n t : ℕ)
    → 0 < n
    → t + n ≤ 2 ^ 31
    → t < i + f
    → 0 < f
    → Lists (worker_loop f (pos i) (pos n) (pos t)) (strided i n t)
worker_loop-Lists zero i n t hn room fuel pf = absurd (omega arith)
worker_loop-Lists (suc f) i n t hn room fuel pf = elim (dec_lt i t) [
  | yes h ↦
      let (ps, e, at) = worker_loop-Lists f (i + n) n t hn room (omega arith) (omega arith) in
      (pos i ∷ ps, rw (worker_loop-suc f i n t room h, e), first h ps at)
  | no h ↦ ([], unfold worker_loop in ground arith, λ k. ground arith)
]
  where
    first :
        i < t
        → (ps : List ℤ) → ((k : ℕ) → get_elem? ps k ≡ strided (i + n) n t k)
        → (k : ℕ) → get_elem? (pos i ∷ ps) k ≡ strided i n t k
    first h ps at zero = ground arith
    first h ps at (suc k) = at k ∙ strided-suc i n t k

distance-le : (w total : ℕ) → total ≤ w + pos_part (pos total -ℤ pos w)
unfolding ◌-ℤ◌
distance-le w total = ground arith

worker_partitions_pos :
    (n w total : ℕ)
    → 0 < n
    → worker_partitions (pos n) (pos w) (pos total)
      ≡ worker_loop (suc (pos_part (pos total -ℤ pos w))) (pos w) (pos n) (pos total)
unfolding worker_partitions
worker_partitions_pos n w total hn = ground arith

-- WorkerPartitions returns the partitions w, w + n, w + 2n, ... below the total, in order, for a
-- positive number n of workers and a total that does not overflow an int.
pub worker_partitions-Lists :
    (n w total : ℕ)
    → 0 < n
    → total + n ≤ 2 ^ 31
    → Lists (worker_partitions (pos n) (pos w) (pos total)) (strided w n total)
worker_partitions-Lists n w total hn room =
    rw (worker_partitions_pos n w total hn)
      (worker_loop-Lists _ w n total hn room (omega (arith, distance-le w total)) (omega arith))

-- Every `n`-th element from place `c` on.
abbrev pub every : ℕ → ℕ → List ℤ → ℕ → Option ℤ
every c n ps k = get_elem? ps (c + k * n)

every-suc : (c n : ℕ) (ps : List ℤ) (k : ℕ) → every (c + n) n ps k ≡ every c n ps (suc k)
every-suc c n ps k = let e : c + n + k * n ≡ c + suc k * n = omega arith in λ j. get_elem? ps (e j)

consumer_loop-Lists :
    (f i n : ℕ) (ps : List ℤ)
    → 0 < n
    → length ps + n < 2 ^ 64
    → length ps < i + f
    → 0 < f
    → Lists (consumer_loop f i n ps) (every i n ps)
consumer_loop-Lists zero i n ps hn room fuel pf = absurd (omega arith)
consumer_loop-Lists (suc f) i n ps hn room fuel pf = elim (dec_lt i (length ps)) [
  | yes h ↦
      let (p, found) = get_elem?_below ps i h in
      let (rest, e, at) = consumer_loop-Lists f (i + n) n ps hn room (omega arith) (omega arith) in
      (p ∷ rest, returns h p found rest e, elements p found rest at)
  | no h ↦
      let out = get_elem?_above ps i (omega arith) in
      (
        [],
        unfold consumer_loop in rw (out, consumer_loop),
        λ k. sym (get_elem?_above ps (i + k * n) (omega arith)),
      )
]
  where
    returns :
        i < length ps
        → (p : ℤ) → get_elem? ps i ≡ some p
        → (rest : List ℤ) → consumer_loop f (i + n) n ps ≡ ok rest
        → consumer_loop (suc f) i n ps ≡ ok (p ∷ rest)
    returns h p found rest e =
        let sum : add_u64 i n ≡ i + n = omega arith in
        unfold consumer_loop in rw (found, consumer_loop, sum, e)

    elements :
        (p : ℤ)
        → get_elem? ps i ≡ some p
        → (rest : List ℤ) → ((k : ℕ) → get_elem? rest k ≡ every (i + n) n ps k)
        → (k : ℕ) → get_elem? (p ∷ rest) k ≡ every i n ps k
    elements p found rest at zero = let e : i + 0 * n ≡ i = omega arith in rw e (sym found)
    elements p found rest at (suc k) = at k ∙ every-suc i n ps k

consumer_partitions_pos :
    (n c : ℕ) (ps : List ℤ)
    → 0 < n
    → n < 2 ^ 64
    → c < 2 ^ 64
    → consumer_partitions (pos n) (pos c) ps ≡ consumer_loop (suc (length ps)) c n ps
unfolding consumer_partitions
consumer_partitions_pos n c ps hn hb hc = ground arith

-- ConsumerPartitions returns every n-th of the worker's partitions from place c on, in order, for a
-- positive number n of consumers.
pub consumer_partitions-Lists :
    (n c : ℕ) (ps : List ℤ)
    → 0 < n
    → c < 2 ^ 64
    → length ps + n < 2 ^ 64
    → Lists (consumer_partitions (pos n) (pos c) ps) (every c n ps)
consumer_partitions-Lists n c ps hn hc room =
    rw (consumer_partitions_pos n c ps hn (omega arith) hc)
      (consumer_loop-Lists _ c n ps hn room (omega arith) (omega arith))
