-- ===== src/Base/Errors.antt =====
-- Exceptions, and results of code that may throw, abort or go out of bounds (s2_client_error.hpp).
use Prim.Native.Char.{code}
use Prim.Native.String.{String}
use Prim.Native.Nat.{ℕ, zero, suc, ◌+◌, ◌/◌, ◌%◌}
use sas_libclient.Base.Tests.{◌==◌, if◌then◌else◌}
use mathlib.Core.Bool.{Bool, true, false}
use mathlib.Core.List.{List, [], ◌∷◌}
use mathlib.Core.Path.{◌≡◌, refl}

-- A `std::string`: its bytes.
abbrev pub Text : Type 0
Text = List ℕ

-- The bytes of an ASCII literal. Shut, so that goals show the literal.
unfoldable pub text : String → Text
text String.[] = []
text (String.◌∷◌ c s) = code c ∷ text s

-- `compare` and `strcmp` find no difference.
unfoldable pub is_text : Text → Text → Bool
is_text [] [] = true
is_text (a ∷ cs) (b ∷ ds) = let rest = is_text cs ds in if a == b then rest else false
is_text _ _ = false

-- std::to_string of a number: its decimal digits. The fuel `n + 1` is more than the digits.
unfoldable pub digits : ℕ → ℕ → Text → Text
digits zero n acc = acc
digits (suc f) n acc =
    let rest = digits f (n / 10) ((n % 10 + b'0') ∷ acc) in
    if n / 10 == 0 then (n % 10 + b'0') ∷ acc else rest

unfoldable pub to_text : ℕ → Text
unfolding digits
to_text n = digits (n + 1) n []

to_text_runs : to_text 4090 ≡ text "4090"
unfolding to_text text
to_text_runs = refl

pub record S2ClientError : Type 0 where
  pub error_code : ℕ
  pub error_message : Text

-- What the code throws: `std::invalid_argument`, `std::out_of_range`, `std::bad_alloc` and its own.
pub data Exception : Type 0 where
  invalid_argument : Text → Exception
  out_of_range : Text → Exception
  bad_alloc : Exception
  s2_error : S2ClientError → Exception

-- `fault` is a failed assert, or an access out of bounds that C++ leaves undefined.
pub data Outcome {ℓ} (A : Type ℓ) : Type ℓ where
  ok : A → Outcome A
  throws : Exception → Outcome A
  fault : Outcome A

infixl 5 ◌>>=◌
abbrev pub ◌>>=◌ {ℓ κ} : {A : Type ℓ} {B : Type κ} → Outcome A → (A → Outcome B) → Outcome B
fault >>= next = fault
throws x >>= next = throws x
ok value >>= next = next value

-- S2C_ERROR_* of chunk_extern.h.
abbrev pub error_inv_arg : ℕ
error_inv_arg = 1

abbrev pub error_uns_data_type : ℕ
error_uns_data_type = 2

abbrev pub error_unknown_failure : ℕ
error_unknown_failure = 3

abbrev pub error_memory_allocation : ℕ
error_memory_allocation = 4

abbrev pub error_reader_failed : ℕ
error_reader_failed = 5

abbrev pub s2_throw {ℓ} : {A : Type ℓ} → ℕ → Text → Outcome A
s2_throw c m = throws (s2_error (record { error_code = c; error_message = m }))
