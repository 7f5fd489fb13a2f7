-- ===== src/Partition/Assign.antt =====
-- The table m_partition_consumer against the dealing of the partitions.
use native.Mathlib.Decide.{dec_lt}
use mathlib.Core.Path.{subst}
use native.Mathlib.Nat.{add-mul-mod_self_right, mod-eq_of_lt, mod-add-div', mul-div_cancel}
use sas_libclient.Base.{
  ℕ, ◌+◌, ◌*◌, ◌/◌, ◌%◌, ◌^◌, ◌≤◌, ◌<◌, ◌≡◌, ◌≢◌, ◌∙◌, ap, inl, inr, List, if◌then◌else◌, length,
  get_elem?, get_elem?_below, ℤ, pos, negsuc, some, ok, arith, sym, ◌==◌, ==_iff, Bool-cases,
}
use sas_libclient.Partition.{worker_partitions, partition_consumer}
use sas_libclient.Partition.Deal.{strided, worker_partitions-Lists}
use sas_libclient.Partition.Owned.{owner, Dealable, partition_consumer-Owned}

module _ (n w total : ℕ) (some_worker : 0 < n) where
  pub strided-below :
      (k : ℕ) (p : ℤ) → strided w n total k ≡ some p → (p ≡ pos (w + k * n)) × (w + k * n < total)
  strided-below k p e = ground arith

  pub strided-of-lt : (k : ℕ) → w + k * n < total → strided w n total k ≡ some (pos (w + k * n))
  strided-of-lt k h = ground arith

  stride_injective : (i j : ℕ) → w + i * n ≡ w + j * n → i ≡ j
  stride_injective i j e =
      sym (mul-div_cancel i some_worker)
      ∙ ap (λ (x : ℕ). x / n) (omega arith)
      ∙ mul-div_cancel j some_worker

  le-stride : (k : ℕ) → k ≤ w + k * n
  le-stride k = grind arith

  pub length_le_total :
      (ps : List ℤ) → ((k : ℕ) → get_elem? ps k ≡ strided w n total k) → length ps ≤ total
  length_le_total ps at = elim (dec_lt total (length ps)) [
    | no h ↦ omega arith
    | yes h ↦
        let (p, e) = get_elem?_below ps total h in
        let (_, lt) = strided-below total p (sym (at total) ∙ e) in
        absurd (omega (arith, le-stride total))
  ]

  worker-Dealable :
      (c : ℕ) (ps : List ℤ)
      → 0 < c
      → total + c < 2 ^ 64
      → ((k : ℕ) → get_elem? ps k ≡ strided w n total k)
      → Dealable c ps total
  worker-Dealable c ps hc room at = record {
    inside = λ k p e. let (q, lt) = strided-below k p (sym (at k) ∙ e) in (w + k * n, q, lt);
    once = λ i j q e f.
        let (p, _) = strided-below i (pos q) (sym (at i) ∙ e) in
        let (r, _) = strided-below j (pos q) (sym (at j) ∙ f) in
        stride_injective i j (ground arith);
    some_consumer = hc;
    no_wrap = omega (arith, length_le_total ps at);
  }

  -- For worker `w` of `n` with `c` consumers, the two dealing steps and the table are built without
  -- error; in the table partition `w + k * n` belongs to consumer `k % c`, and every partition of
  -- another worker to none (-1).
  pub worker_table :
      (c : ℕ)
      → 0 < c
      → c ≤ 2 ^ 31
      → total + n ≤ 2 ^ 31
      → (ps t : List ℤ) × (worker_partitions (pos n) (pos w) (pos total) ≡ ok ps)
        × (partition_consumer (pos c) ps total ≡ ok t)
        × (length t ≡ total)
        × ((k : ℕ) → w + k * n < total → owner t (w + k * n) ≡ pos (k % c))
        × ((q : ℕ) → ((k : ℕ) → w + k * n ≢ q) → owner t q ≡ negsuc 0)
  worker_table c hc small room =
      let (ps, dealt, at) = worker_partitions-Lists n w total some_worker room in
      let (t, table, size, owned, free) =
        partition_consumer-Owned c ps total (worker-Dealable c ps hc (omega arith) at) in
      (
        ps,
        t,
        dealt,
        table,
        size,
        λ k lt. owned k (w + k * n) (at k ∙ strided-of-lt k lt),
        λ q ne.
            free q
              λ k e. let (p, _) = strided-below k (pos q) (sym (at k) ∙ e) in ne k (ground arith),
      )

  -- For worker w of n and c consumers, with at most 2^31 partitions and workers together, both
  -- dealing functions and the table of partition owners are computed without an error and in
  -- bounds, and in the table partition q belongs to consumer (q / n) % c if q % n is w, and to none
  -- (-1) otherwise.
  pub worker_owner :
      (c q : ℕ)
      → 0 < c
      → c ≤ 2 ^ 31
      → total + n ≤ 2 ^ 31
      → w < n
      → q < total
      → (ps t : List ℤ) × (worker_partitions (pos n) (pos w) (pos total) ≡ ok ps)
        × (partition_consumer (pos c) ps total ≡ ok t)
        × (length t ≡ total)
        × (owner t q ≡ (if q % n == w then pos (q / n % c) else negsuc 0))
  worker_owner c q hc small room wn below =
      let (ps, t, dealt, table, size, mine, others) = worker_table c hc small room in
      (
        ps,
        t,
        dealt,
        table,
        size,
        elim (Bool-cases (q % n == w)) [
          | inl e ↦
              let rest : q % n ≡ w = (==_iff _ _).0 e in
              let place : w + q / n * n ≡ q =
                ap (λ r. r + q / n * n) (sym rest) ∙ mod-add-div' q n in
              rw e (
                subst (λ p. owner t p ≡ pos (q / n % c)) place
                  (mine (q / n) (omega (arith, place))))
          | inr e ↦ rw e (
              others q λ k eq.
                let rest : q % n ≡ w =
                  ap (λ p. p % n) (sym eq) ∙ add-mul-mod_self_right w k n ∙ mod-eq_of_lt wn in
                absurd (ground arith))
        ],
      )
