-- ===== src/Partition/Owned.antt =====
-- The owners that the loops of CreateChunkQueue write into m_partition_consumer
-- (queue/multi_pass_queue.cpp, queue/streaming_queue.cpp).
use native.Mathlib.Decide.{ℕ_discrete}
use mathlib.Core.Path.{subst}
use native.Mathlib.Nat.{div-add-mod', add-mul-mod_self_right, mod-eq_of_lt, mod-lt}
use sas_libclient.Base.{
  ℕ, zero, suc, ◌+◌, ◌*◌, ◌/◌, ◌%◌, ◌^◌, ◌<◌, ◌≡◌, ◌≢◌, refl, ◌∙◌, ap, inr, ◌⊎◌, List, [], ◌∷◌, ltb,
  if◌then◌else◌, length, get_elem?, get_or, set, get_or-set_self, get_or-set_ne, length-set, ℤ, pos,
  negsuc, Option, some, Outcome, ok, arith, sym, replicate, length-replicate,
}
use sas_libclient.Partition.{consumer_partitions, assign, assign_loop, partition_consumer}
use sas_libclient.Partition.Deal.{every, consumer_partitions-Lists}

-- The consumer of a partition; -1 is none.
abbrev pub owner : List ℤ → ℕ → ℤ
owner table p = get_or table p (negsuc 0)

-- All elements are indices of the table.
abbrev InRange : ℕ → List ℤ → Type 0
InRange n ps = (k : ℕ) (p : ℤ) → get_elem? ps k ≡ some p → (q : ℕ) × (p ≡ pos q) × (q < n)

record Assigned (mine : List ℤ) (c : ℤ) (table : List ℤ) (r : Outcome (List ℤ)) : Type 0 where
  out : List ℤ
  returns : r ≡ ok out
  same_length : length out ≡ length table
  hit : (k q : ℕ) → get_elem? mine k ≡ some (pos q) → owner out q ≡ c
  miss : (q : ℕ) → ((k : ℕ) → get_elem? mine k ≢ some (pos q)) → owner out q ≡ owner table q
  either : (q : ℕ) → (owner out q ≡ c) ⊎ (owner out q ≡ owner table q)

module _ (p : ℕ) (ps : List ℤ) (c : ℤ) (table : List ℤ) (below : p < length table) where
  Assigned-cons :
      Assigned ps c (set table p c) (assign ps c (set table p c))
      → Assigned (pos p ∷ ps) c table (assign (pos p ∷ ps) c table)
  Assigned-cons rest = record {
    out = rest.out;
    returns = unfold assign in ground (arith, rest.returns);
    same_length = rest.same_length ∙ length-set table p c;
    hit = hits;
    miss =
        λ q e. rest.miss q (λ k. e (suc k)) ∙ get_or-set_ne table p q c (negsuc 0) (other q (e 0));
    either = eithers;
  }
    where
      other : (q : ℕ) → ◌≢◌ {A = Option ℤ} (some (pos p)) (some (pos q)) → p ≢ q
      other q ne e = ne (ap (λ (n : ℕ). some (pos n)) e)

      eithers : (q : ℕ) → (owner rest.out q ≡ c) ⊎ (owner rest.out q ≡ owner table q)
      eithers q = elim (ℕ_discrete p q) [
        | yes e ↦ ground (arith, rest.either q, get_or-set_self table p c (negsuc 0) below)
        | no ne ↦ ground (arith, rest.either q, get_or-set_ne table p q c (negsuc 0) ne)
      ]

      hits : (k q : ℕ) → get_elem? (pos p ∷ ps) k ≡ some (pos q) → owner rest.out q ≡ c
      hits zero q e = ground (arith, rest.either q, get_or-set_self table p c (negsuc 0) below)
      hits (suc k) q e = rest.hit k q e

assign-Assigned :
    (mine : List ℤ) (c : ℤ) (table : List ℤ)
    → InRange (length table) mine
    → Assigned mine c table (assign mine c table)
assign-Assigned [] c table h = record {
  out = table;
  returns = unfold assign in refl;
  same_length = refl;
  hit = λ k q e. cc;
  miss = λ q e. refl;
  either = λ q. inr refl;
}
assign-Assigned (negsuc p ∷ ps) c table h = let (q, e, l) = h 0 (negsuc p) refl in cc
assign-Assigned (pos p ∷ ps) c table h =
    let (q, e, l) = h 0 (pos p) refl in
    Assigned-cons p ps c table (ground arith)
      (assign-Assigned ps c (set table p c) λ k. rw length-set (h (suc k)))

module _ (n : ℕ) (ps : List ℤ) (size : ℕ) where
  -- What the loop has done before consumer `c`: the partition at place `i` of the list belongs to
  -- consumer `i % n`, if that is below `c`; the others to none.
  record Owned (c : ℕ) (table : List ℤ) : Type 0 where
    length_eq : length table ≡ size
    dealt :
        (i q : ℕ)
        → get_elem? ps i ≡ some (pos q)
        → owner table q ≡ (if ltb (i % n) c then pos (i % n) else negsuc 0)
    free : (q : ℕ) → ((i : ℕ) → get_elem? ps i ≢ some (pos q)) → owner table q ≡ negsuc 0

  -- The worker's partitions are distinct and below `size`.
  pub record Dealable : Type 0 where
    pub inside : InRange size ps
    pub once : (i j q : ℕ) → get_elem? ps i ≡ some (pos q) → get_elem? ps j ≡ some (pos q) → i ≡ j
    pub some_consumer : 0 < n
    pub no_wrap : length ps + n < 2 ^ 64

  Owned-step :
      (c : ℕ) (table mine : List ℤ)
      → Dealable
      → c < n
      → ((k : ℕ) → get_elem? mine k ≡ every c n ps k)
      → Owned c table
      → (r : Outcome (List ℤ)) → Assigned mine (pos c) table r
      → (t : List ℤ) × (r ≡ ok t) × Owned (c + 1) t
  Owned-step c table mine d lt at o r a = (
    a.out,
    a.returns,
    record { length_eq = a.same_length ∙ o.length_eq; dealt = deals; free = frees },
  )
    where
      place : (i : ℕ) → i % n ≡ c → c + i / n * n ≡ i
      place i e = omega (arith, div-add-mod' i n)

      chosen : (i q : ℕ) → get_elem? ps i ≡ some (pos q) → i % n ≡ c → owner a.out q ≡ pos (i % n)
      chosen i q e m =
          a.hit (i / n) q (at (i / n) ∙ ap (get_elem? ps) (place i m) ∙ e) ∙ ap pos (sym m)

      passed : (i q : ℕ) → get_elem? ps i ≡ some (pos q) → i % n ≢ c → owner a.out q ≡ owner table q
      passed i q e ne = a.miss q λ k e'.
          let same : i ≡ c + k * n = d.once i (c + k * n) q e (sym (at k) ∙ e') in
          ne (ap (λ (x : ℕ). x % n) same ∙ add-mul-mod_self_right c k n ∙ mod-eq_of_lt lt)

      deals :
          (i q : ℕ)
          → get_elem? ps i ≡ some (pos q)
          → owner a.out q ≡ (if ltb (i % n) (c + 1) then pos (i % n) else negsuc 0)
      deals i q e = elim (ℕ_discrete (i % n) c) [
        | yes m ↦ ground (arith, chosen i q e m)
        | no ne ↦ ground (arith, passed i q e ne, o.dealt i q e)
      ]

      frees : (q : ℕ) → ((i : ℕ) → get_elem? ps i ≢ some (pos q)) → owner a.out q ≡ negsuc 0
      frees q ne = a.miss q (λ k e. ne (c + k * n) (sym (at k) ∙ e)) ∙ o.free q ne

  assign_loop-suc :
      (m c : ℕ) (table mine next : List ℤ) {t : List ℤ}
      → consumer_partitions (pos n) (pos c) ps ≡ ok mine
      → assign mine (pos c) table ≡ ok next
      → assign_loop m (c + 1) (pos n) ps next ≡ ok t
      → assign_loop (suc m) c (pos n) ps table ≡ ok t
  unfolding assign_loop
  assign_loop-suc m c table mine next dealt returns rest = rw (dealt, returns) rest

  assign_loop-Owned :
      (m c : ℕ) (table : List ℤ)
      → Dealable
      → c + m ≡ n
      → Owned c table
      → (t : List ℤ) × (assign_loop m c (pos n) ps table ≡ ok t) × Owned n t
  assign_loop-Owned zero c table d e o =
      let e' : c ≡ n = omega arith in
      (table, unfold assign_loop in refl, subst (λ k. Owned k table) e' o)
  assign_loop-Owned (suc m) c table d e o =
      let (mine, dealt, at) =
        consumer_partitions-Lists n c ps d.some_consumer (omega (arith, d.no_wrap)) d.no_wrap in
      let inside : InRange (length table) mine =
        λ k p found. rw o.length_eq (d.inside (c + k * n) p (sym (at k) ∙ found)) in
      let (next, returns, o') =
        Owned-step c table mine d (omega arith) at o _
          (assign-Assigned mine (pos c) table inside) in
      let (t, rest, done) = assign_loop-Owned m (c + 1) next d (omega arith) o' in
      (t, assign_loop-suc m c table mine next dealt returns rest, done)

owner-replicate : (m q : ℕ) → owner (replicate m (negsuc 0)) q ≡ negsuc 0
owner-replicate zero q = refl
owner-replicate (suc m) zero = refl
owner-replicate (suc m) (suc q) = owner-replicate m q

-- If the worker's partitions are distinct and below the number of partitions, the table is built
-- without an access out of bounds; in it the partition at place `i` of the worker's list belongs to
-- consumer `i % n`, and every partition that is not in the list to none (-1).
pub partition_consumer-Owned :
    (n : ℕ) (ps : List ℤ) (size : ℕ)
    → Dealable n ps size
    → (t : List ℤ) × (partition_consumer (pos n) ps size ≡ ok t)
      × (length t ≡ size)
      × ((i q : ℕ) → get_elem? ps i ≡ some (pos q) → owner t q ≡ pos (i % n))
      × ((q : ℕ) → ((i : ℕ) → get_elem? ps i ≢ some (pos q)) → owner t q ≡ negsuc 0)
unfolding partition_consumer
partition_consumer-Owned n ps size d =
    let (t, returns, o) =
      assign_loop-Owned n ps size n 0 (replicate size (negsuc 0)) d (omega arith) (record {
        length_eq = length-replicate size (negsuc 0);
        dealt = λ i q e. ground (arith, owner-replicate size q);
        free = λ q e. owner-replicate size q;
      }) in
    (
      t,
      returns,
      o.length_eq,
      λ i q e. ground (arith, o.dealt i q e, mod-lt i {m = n} d.some_consumer),
      o.free,
    )
