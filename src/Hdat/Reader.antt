-- ===== src/Hdat/Reader.antt =====
-- SuperChunkReader (hdat/chunk_reader.hpp, hdat/chunk_reader.cpp), and utils::IsNullBuffer.
use sas_libclient.Base.{
  ℕ, zero, suc, ◌-◌, ◌%◌, ◌^◌, ◌≡◌, refl, replicate, ==_self, Bool, true, false, ◌&&◌, ◌||◌, List,
  [], ◌∷◌, Option, none, some, leb, ltb, ◌==◌, if◌then◌else◌, add_u64, sub_u64, Text, text, Outcome,
  ok, fault, ◌>>=◌, ℤ, pos, negsuc, to_int, to_int_small, take, length, ap, ◌∙◌, ◌<◌, arith,
  Bool-cases, inl, inr,
}
use sas_libclient.Hdat.Memory.{load}
use sas_libclient.Hdat.Schema.{RowSchema, int64_null, int32_null}
use sas_libclient.Hdat.SuperChunk.{Chunk, SuperChunk, super_chunk, pad, read, ptr_at, read_aligned8}

pub record Reader : Type 0 where
  pub current : SuperChunk
  pub schema : RowSchema
  pub error : Text

-- Reset keeps the last error.
unfoldable pub reset : Chunk → RowSchema → Reader → Reader
reset chunk schema r = record r { current = super_chunk chunk; schema = schema }

-- The sum wraps.
unfoldable pub can_read : ℕ → ℕ → Reader → Bool
can_read offset len r = leb (add_u64 offset len) r.current.size

-- A read answers false (`none`), or gives a value. A number comes with its null flag.
abbrev pub Read : Type 0 → Type 0
Read A = Outcome (Option A × Reader)

abbrev refuse : {A : Type 0} → Text → Reader → Read A
refuse message r = ok (none, record r { error = message })

-- isnan of a double, on its bits: exponent all ones and a fraction that is not 0.
unfoldable pub is_nan : ℕ → Bool
is_nan bits = ltb 0x7ff0_0000_0000_0000 (bits % 2 ^ 63)

unfoldable pub read_float : Reader → Read (ℕ × Bool)
unfolding can_read
read_float r =
    if can_read r.current.offset 8 r
    then (read 8 r.current >>= λ p. ok (some (p.0, is_nan p.0), record r { current = p.1 }))
    else refuse (text "no space available to read Float") r

unfoldable pub read_int64 : Reader → Read (ℕ × Bool)
unfolding can_read
read_int64 r =
    if can_read r.current.offset 8 r
    then (read 8 r.current >>= λ p. ok (some (p.0, p.0 == int64_null), record r { current = p.1 }))
    else refuse (text "no space available to read Int64") r

unfoldable pub read_int32 : Reader → Read (ℕ × Bool)
unfolding can_read
read_int32 r =
    if can_read r.current.offset 8 r
    then (read 4 r.current >>= λ p.
        pad 4 false b' ' p.1 >>= λ s. ok (some (p.0, p.0 == int32_null), record r { current = s }))
    else refuse (text "no space available to read Int32") r

-- What goes out through the pointer arguments of ReadVariable and ReadFixed: only the null flag, or
-- a pointer into the block, a length and the flag.
pub data Slice : Type 0 where
  null_slice : Slice
  slice : ℕ → ℕ → Bool → Slice

-- The second half of ReadVariable, for the stored offset (from the end of the chunk) and length.
unfoldable pub read_slice : ℕ → ℕ → Reader → Read Slice
unfolding can_read
read_slice stored len r =
    let o = sub_u64 r.current.size stored in
    if can_read o len r
    then (ptr_at o r.current >>= λ p. ok (some (slice p len false), r))
    else refuse (text "no space available to read Variable") r

-- `assert(offset)` is compiled in only where `assertions` holds; RelWithDebInfo, the default of
-- build_and_test.sh, leaves it out.
unfoldable pub read_variable : Bool → Reader → Read Slice
unfolding can_read read_slice
read_variable assertions r =
    if can_read r.current.offset 16 r
    then (read 8 r.current >>= λ p.
        if assertions && p.0 == 0
        then fault
        else read 8 p.1 >>= λ q.
            if q.0 == 0
            then ok (some null_slice, record r { current = q.1 })
            else read_slice p.0 q.0 (record r { current = q.1 }))
    else refuse (text "no space available to read Variable length and offset") r

all_equal : ℕ → List ℕ → Bool
all_equal c [] = true
all_equal c (b ∷ bs) = b == c && all_equal c bs

-- IsNullBuffer of the bytes from `buff` on. The first byte is read in any case; the loop then makes
-- `size - 1` comparisons, and with a size that is not positive it ends at a byte that differs, or
-- takes 1 from the least int, which is undefined.
unfoldable pub is_null_buffer : List ℕ → ℤ → Outcome Bool
unfolding all_equal
is_null_buffer [] size = fault
is_null_buffer (b ∷ bs) size =
    if b == b' ' || b == 0
    then elim size [
      | pos zero ↦ runs_down (2 ^ 31 - 1)
      | pos (suc n) ↦ ok (all_equal b (take n bs))
      | negsuc n ↦ runs_down (2 ^ 31 - 2 - n)
    ]
    else ok false
  where
    runs_down : ℕ → Outcome Bool
    runs_down comparisons = if all_equal b (take comparisons bs) then fault else ok false

-- Bytes that are all blanks or all zero, or none at all.
unfoldable pub is_blank : List ℕ → Bool
unfolding all_equal
is_blank [] = true
is_blank (b ∷ bs) = (b == b' ' || b == 0) && all_equal b bs

-- The length goes through an `int` parameter of IsNullBuffer.
unfoldable pub read_fixed : ℕ → Reader → Read Slice
read_fixed len r =
    if len == 0
    then ok (some null_slice, r)
    else (read_aligned8 len r.current >>= λ (found, s). elim found [
      | none ↦ ok (none, record r { current = s })
      | some p ↦ is_null_buffer (load s.mem p len) (to_int len) >>= λ b.
          ok (some (slice p len b), record r { current = s })
    ])

all_equal-replicate : (c n : ℕ) → all_equal c (replicate n c) ≡ true
unfolding all_equal
all_equal-replicate c zero = refl
all_equal-replicate c (suc n) = rw (all_equal-replicate c n, ==_self c)

pub is_blank_zeros : (n : ℕ) → is_blank (replicate (suc n) 0) ≡ true
unfolding is_blank
is_blank_zeros n = rw (all_equal-replicate 0 n)

take_all : (n : ℕ) (bs : List ℕ) → length bs ≡ n → take n bs ≡ bs
take_all zero [] h = refl
take_all zero (b ∷ bs) h = absurd (omega arith)
take_all (suc n) [] h = absurd (omega arith)
take_all (suc n) (b ∷ bs) h = ap (λ (xs : List ℕ). b ∷ xs) (take_all n bs (omega arith))

is_null_buffer-pos :
    (b : ℕ) (bs : List ℕ) (n : ℕ)
    → length bs ≡ n
    → is_null_buffer (b ∷ bs) (pos (suc n)) ≡ ok (is_blank (b ∷ bs))
unfolding is_null_buffer is_blank
is_null_buffer-pos b bs n long = elim (Bool-cases (b == b' ' || b == 0)) [
  | inl e ↦ rw (e, take_all n bs long) refl
  | inr e ↦ rw e refl
]

-- On all bytes of a buffer whose size is an int, IsNullBuffer tells whether they are blank.
pub is_null_buffer_lem :
    (size : ℕ) (bs : List ℕ)
    → 0 < size
    → size < 2 ^ 31
    → length bs ≡ size
    → is_null_buffer bs (to_int size) ≡ ok (is_blank bs)
is_null_buffer_lem zero bs some_bytes small long = absurd (omega arith)
is_null_buffer_lem (suc n) [] some_bytes small long = absurd (omega arith)
is_null_buffer_lem (suc n) (b ∷ bs) some_bytes small long =
    ap (is_null_buffer (b ∷ bs)) (to_int_small (suc n) small)
    ∙ is_null_buffer-pos b bs n (omega arith)
