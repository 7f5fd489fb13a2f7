-- ===== src/Hdat/Ops.antt =====
-- What the operations of SuperChunk do while there is room.
use native.Mathlib.Decide.{dec_lt}
use sas_libclient.Base.{
  ◌⊎◌, inl, inr, sym, length-take, ℕ, ◌+◌, ◌^◌, ◌≤◌, ◌<◌, ◌≡◌, refl, true, false, List, some,
  add_u64, length, take, to_bytes, of_bytes, arith, ok,
}
use sas_libclient.Hdat.Memory.{Memory, store, fill, load, store_outside}
use sas_libclient.Hdat.SuperChunk.{SuperChunk, write_at, write, pad, write_typed, read}

-- `k` bytes on, over the block `m`.
abbrev pub put : ℕ → Memory → SuperChunk → SuperChunk
put k m s = record s {
  chunk = record s.chunk { mem = m; consumed_size = add_u64 s.consumed_size k };
  offset = s.offset + k;
}

-- `s'` is `s` moved on by `k` bytes, over a block with the bytes of `m`.
pub record Moved (k : ℕ) (m : Memory) (s s' : SuperChunk) : Type 0 where
  pub mem : (i : ℕ) → s'.mem i ≡ m i
  pub offset : s'.offset ≡ s.offset + k
  pub variable : s'.variable_offset ≡ s.variable_offset
  pub size : s'.size ≡ s.size
  pub row_count : s'.row_count ≡ s.row_count

module _ (s : SuperChunk) (k : ℕ) (small : s.size < 2 ^ 64) (room : s.offset + k ≤ s.size) where
  pub write_ok :
      (v : List ℕ)
      → 0 < k
      → k ≤ length v
      → write (some v) k s ≡ ok (put k (store s.mem s.offset (take k v)) s)
  unfolding write
  write_ok v p h = ground arith

  -- A copy of no bytes leaves the block alone, and `store` of no bytes does too.
  pub write_any_ok :
      (v : List ℕ)
      → k ≤ length v
      → (s' : SuperChunk) × (write (some v) k s ≡ ok s')
        × Moved k (store s.mem s.offset (take k v)) s s'
  write_any_ok v h = elim (dec_lt 0 k) [
    | yes p ↦ (
      put k (store s.mem s.offset (take k v)) s,
      write_ok v p h,
      record { mem = λ i. refl; offset = refl; variable = refl; size = refl; row_count = refl },
    )
    | no p ↦ (
      record s { offset = add_u64 s.offset k },
      unfold write in ground arith,
      record {
        mem = λ i. sym (store_outside s.mem s.offset (take k v) i (nothing i p));
        offset = omega arith;
        variable = refl;
        size = refl;
        row_count = refl;
      },
    )
  ]
    where
      nothing : (i : ℕ) → ¬ (0 < k) → (i < s.offset) ⊎ (s.offset + length (take k v) ≤ i)
      nothing i p = elim (dec_lt i s.offset) [
        | yes l ↦ inl l
        | no l ↦ inr (omega (arith, length-take k v))
      ]

  pub write_typed_ok :
      (n : ℕ) → write_typed k n s ≡ ok (put k (store s.mem s.offset (to_bytes k n)) s)
  unfolding write_typed
  write_typed_ok n = ground arith

  pub pad_gap_ok : (c : ℕ) → pad k false c s ≡ ok (put k s.mem s)
  unfolding pad
  pad_gap_ok c = ground arith

  pub pad-fill_ok : (c : ℕ) → pad k true c s ≡ ok (put k (fill s.mem s.offset k c) s)
  unfolding pad
  pad-fill_ok c = ground arith

  pub read_ok : read k s ≡ ok (of_bytes (load s.mem s.offset k), record s { offset = s.offset + k })
  unfolding read
  read_ok = ground arith

-- WriteAt inside the block moves nothing but bytes.
pub write_at_ok :
    (s : SuperChunk) (o k : ℕ) (v : List ℕ)
    → s.size < 2 ^ 64
    → o + k ≤ s.size
    → k ≤ length v
    → (s' : SuperChunk) × (write_at o (some v) k s ≡ ok s')
      × Moved 0 (store s.mem o (take k v)) s s'
write_at_ok s o k v small room h = elim (dec_lt 0 k) [
  | yes p ↦ (
    record s {
      chunk = record s.chunk {
        mem = store s.mem o (take k v);
        consumed_size = add_u64 s.consumed_size k;
      };
    },
    unfold write_at in ground arith,
    record {
      mem = λ i. refl;
      offset = omega arith;
      variable = refl;
      size = refl;
      row_count = refl;
    },
  )
  | no p ↦ (
    s,
    unfold write_at in ground arith,
    record {
      mem = λ i. sym (store_outside s.mem o (take k v) i (nothing i p));
      offset = omega arith;
      variable = refl;
      size = refl;
      row_count = refl;
    },
  )
]
  where
    nothing : (i : ℕ) → ¬ (0 < k) → (i < o) ⊎ (o + length (take k v) ≤ i)
    nothing i p = elim (dec_lt i o) [ yes l ↦ inl l | no l ↦ inr (omega (arith, length-take k v)) ]
