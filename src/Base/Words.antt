-- ===== src/Base/Words.antt =====
-- Unsigned words: wrap-around sums and differences, and their little-endian bytes.
use Prim.Native.Nat.{ℕ, zero, suc, ◌+◌, ◌-◌, ◌*◌, ◌/◌, ◌%◌, ◌^◌, ◌<◌}
use mathlib.Core.Path.{◌≡◌, refl, ap, ◌∙◌}
use mathlib.Core.List.{List, [], ◌∷◌}
use native.Mathlib.Omega.{arith}
use native.Mathlib.Nat.{pow-suc}
use sas_libclient.Base.Int.{ℤ, pos, negsuc}
use sas_libclient.Base.Tests.{ltb, lt→ltb, if◌then◌else◌}
use sas_libclient.Base.Lists.{length}

-- `uint64_t` and `uint32_t` arithmetic.
abbrev pub u64 : ℕ → ℕ
u64 n = n % 2 ^ 64

abbrev pub u32 : ℕ → ℕ
u32 n = n % 2 ^ 32

abbrev pub add_u64 : ℕ → ℕ → ℕ
add_u64 a b = (a + b) % 2 ^ 64

abbrev pub sub_u64 : ℕ → ℕ → ℕ
sub_u64 a b = (a + 2 ^ 64 - b) % 2 ^ 64

-- The conversion of a signed value to `uint64_t` or `uint32_t`: two's complement.
abbrev pub to_u64 : ℤ → ℕ
to_u64 (pos n) = n % 2 ^ 64
to_u64 (negsuc n) = 2 ^ 64 - 1 - n % 2 ^ 64

abbrev pub to_u32 : ℤ → ℕ
to_u32 (pos n) = n % 2 ^ 32
to_u32 (negsuc n) = 2 ^ 32 - 1 - n % 2 ^ 32

-- The conversion of an unsigned value to `int`.
abbrev pub to_int : ℕ → ℤ
to_int n = if ltb (n % 2 ^ 32) (2 ^ 31) then pos (n % 2 ^ 32) else negsuc (2 ^ 32 - 1 - n % 2 ^ 32)

-- The conversion of an unsigned value to `int64_t`.
abbrev pub to_int64 : ℕ → ℤ
to_int64 n =
    if ltb (n % 2 ^ 64) (2 ^ 63) then pos (n % 2 ^ 64) else negsuc (2 ^ 64 - 1 - n % 2 ^ 64)

pub to_int64_small : (n : ℕ) → n < 2 ^ 63 → to_int64 n ≡ pos n
to_int64_small n h = let same : n % 2 ^ 64 ≡ n = omega arith in rw (same, lt→ltb n (2 ^ 63) h) refl

pub to_int_small : (n : ℕ) → n < 2 ^ 31 → to_int n ≡ pos n
to_int_small n h = let same : n % 2 ^ 32 ≡ n = omega arith in rw (same, lt→ltb n (2 ^ 31) h) refl

pub to_u64-to_int : (n : ℕ) → n < 2 ^ 31 → to_u64 (to_int n) ≡ n
to_u64-to_int n h = let same : n % 2 ^ 64 ≡ n = omega arith in ap to_u64 (to_int_small n h) ∙ same

-- The object representation of a word of `k` bytes, least significant first.
unfoldable pub to_bytes : ℕ → ℕ → List ℕ
to_bytes zero n = []
to_bytes (suc k) n = n % 256 ∷ to_bytes k (n / 256)

unfoldable pub of_bytes : List ℕ → ℕ
of_bytes [] = 0
of_bytes (b ∷ bs) = b + 256 * of_bytes bs

pub length-to_bytes : (k n : ℕ) → length (to_bytes k n) ≡ k
unfolding to_bytes
length-to_bytes zero n = refl
length-to_bytes (suc k) n = ap suc (length-to_bytes k (n / 256))

pub of_bytes-to_bytes : (k n : ℕ) → n < 256 ^ k → of_bytes (to_bytes k n) ≡ n
unfolding to_bytes of_bytes
of_bytes-to_bytes zero n h = omega arith
of_bytes-to_bytes (suc k) n h =
    let ih = of_bytes-to_bytes k (n / 256) (omega (arith, pow-suc 256 k)) in omega (arith, ih)
