-- ===== src/Base/Bits.antt =====
-- `x & ~7` on 64-bit words as arithmetic (sizeofAligned8 of hdat/common.hpp).
use Prim.Native.Nat.{bit_and, digits, bit_and-bitwise, min}
use native.Mathlib.Nat.{pow-suc, le_refl}
use sas_libclient.Base.{ℕ, zero, suc, ◌-◌, ◌*◌, ◌/◌, ◌^◌, ◌<◌, ◌≤◌, ◌≡◌, refl, ◌∙◌, arith}

-- The binary digits of `a` and `b`, joined by "and", `n` digits at most.
abbrev and_digits : ℕ → ℕ → ℕ → ℕ
and_digits = digits (λ b. zero) min

-- Ones in all places keep the number.
and_digits_ones : (n k a : ℕ) → a ≤ n → a < 2 ^ k → and_digits n a (2 ^ k - 1) ≡ a
and_digits_ones zero k a h l = omega arith
and_digits_ones (suc n) k zero h l = refl
and_digits_ones (suc n) zero (suc a) h l = absurd (omega arith)
and_digits_ones (suc n) (suc k) (suc a) h l =
    let half : (2 ^ suc k - 1) / 2 ≡ 2 ^ k - 1 = omega (arith, pow-suc 2 k) in
    omega (
      arith,
      pow-suc 2 k,
      ap_half half,
      and_digits_ones n k (suc a / 2) (omega arith) (omega (arith, pow-suc 2 k)),
    )
  where
    ap_half :
        (2 ^ suc k - 1) / 2 ≡ 2 ^ k - 1
        → and_digits n (suc a / 2) ((2 ^ suc k - 1) / 2) ≡ and_digits n (suc a / 2) (2 ^ k - 1)
    ap_half e = λ i. and_digits n (suc a / 2) (e i)

clear_one : (n a : ℕ) → a ≤ n → a < 2 ^ 62 → and_digits n a (2 ^ 62 - 2) ≡ a / 2 * 2
clear_one zero a h l = omega arith
clear_one (suc n) zero h l = refl
clear_one (suc n) (suc a) h l =
    omega (arith, and_digits_ones n 61 (suc a / 2) (omega arith) (omega arith))

clear_two : (n a : ℕ) → a ≤ n → a < 2 ^ 63 → and_digits n a (2 ^ 63 - 4) ≡ a / 4 * 4
clear_two zero a h l = omega arith
clear_two (suc n) zero h l = refl
clear_two (suc n) (suc a) h l = omega (arith, clear_one n (suc a / 2) (omega arith) (omega arith))

clear_three : (n a : ℕ) → a ≤ n → a < 2 ^ 64 → and_digits n a (2 ^ 64 - 8) ≡ a / 8 * 8
clear_three zero a h l = omega arith
clear_three (suc n) zero h l = refl
clear_three (suc n) (suc a) h l = omega (arith, clear_two n (suc a / 2) (omega arith) (omega arith))

-- Clearing the three low bits of a word rounds it down to a multiple of eight.
pub bit_and_clear_three : (x : ℕ) → x < 2 ^ 64 → bit_and x (2 ^ 64 - 8) ≡ x / 8 * 8
bit_and_clear_three x h = (λ i. bit_and-bitwise x (2 ^ 64 - 8) i) ∙ clear_three x x (le_refl x) h
