-- ===== src/Sql/Numbers.antt =====
-- Numbers in decimal, as std::to_string prints them and as they are read again.
use sas_libclient.Base.{
  ℕ, zero, suc, ◌+◌, ◌-◌, ◌*◌, ◌/◌, ◌%◌, ◌<◌, ◌≡◌, refl, Bool, true, false, ◌&&◌, [], ◌∷◌, ◌++◌,
  ◌==◌, leb, if◌then◌else◌, arith, Text, digits, to_text, Bool-cases, inl, inr,
}

abbrev pub is_digit : ℕ → Bool
is_digit c = leb b'0' c && leb c b'9'

-- The number whose digits so far stand for `n`, and what follows it.
unfoldable pub read_digits : ℕ → Text → ℕ × Text
read_digits n [] = (n, [])
read_digits n (c ∷ cs) =
    let rest = read_digits (n * 10 + (c - b'0')) cs in if is_digit c then rest else (n, c ∷ cs)

-- What may follow a number.
abbrev pub EndsDigits : Text → Type 0
EndsDigits [] = Unit {0}
EndsDigits (c ∷ cs) = is_digit c ≡ false

read_digits_step :
    (n d : ℕ) (acc : Text)
    → d < 10
    → read_digits n ((d + b'0') ∷ acc) ≡ read_digits (n * 10 + d) acc
unfolding read_digits
read_digits_step n d acc h =
    let digit : is_digit (d + b'0') ≡ true = ground arith in
    let value : d + b'0' - b'0' ≡ d = omega arith in rw (digit, value) refl

-- Reading after the digits of `n` goes on from `n`.
read_digits-digits :
    (fuel n : ℕ) (acc : Text) → n < fuel → read_digits 0 (digits fuel n acc) ≡ read_digits n acc
unfolding digits
read_digits-digits zero n acc h = absurd (omega arith)
read_digits-digits (suc fuel) n acc h = elim (Bool-cases (n / 10 == 0)) [
  | inl e ↦
      let same : 0 * 10 + n % 10 ≡ n = ground arith in
      rw e (rw (read_digits_step 0 (n % 10) acc (omega arith), same) refl)
  | inr e ↦
      let same : n / 10 * 10 + n % 10 ≡ n = omega arith in
      rw e (
        rw
          (
            read_digits-digits fuel (n / 10) ((n % 10 + b'0') ∷ acc) (ground arith),
            read_digits_step (n / 10) (n % 10) acc (omega arith),
            same,
          )
          refl)
]

digits-append :
    (fuel n : ℕ) (acc more : Text) → digits fuel n acc ++ more ≡ digits fuel n (acc ++ more)
unfolding digits
digits-append zero n acc more = refl
digits-append (suc fuel) n acc more = elim (Bool-cases (n / 10 == 0)) [
  | inl e ↦ rw e refl
  | inr e ↦ rw e (digits-append fuel (n / 10) ((n % 10 + b'0') ∷ acc) more)
]

read_digits-end : (n : ℕ) (more : Text) → EndsDigits more → read_digits n more ≡ (n, more)
unfolding read_digits
read_digits-end n [] h = refl
read_digits-end n (c ∷ cs) h = rw h refl

-- A number that is printed is read back.
pub read_digits-to_text :
    (n : ℕ) (more : Text) → EndsDigits more → read_digits 0 (to_text n ++ more) ≡ (n, more)
unfolding to_text
read_digits-to_text n more h =
    rw (digits-append (n + 1) n [] more, read_digits-digits (n + 1) n more (omega arith))
      (read_digits-end n more h)

-- The text of a number starts with a digit.
digits_head :
    (fuel n c : ℕ) (cs : Text)
    → is_digit c ≡ true
    → (d : ℕ) × (ds : Text) × (digits fuel n (c ∷ cs) ≡ d ∷ ds) × (is_digit d ≡ true)
unfolding digits
digits_head zero n c cs h = (c, cs, refl, h)
digits_head (suc fuel) n c cs h =
    let digit : is_digit (n % 10 + b'0') ≡ true = ground arith in
    elim (Bool-cases (n / 10 == 0)) [
      | inl e ↦ rw e (n % 10 + b'0', c ∷ cs, refl, digit)
      | inr e ↦ rw e (digits_head fuel (n / 10) (n % 10 + b'0') (c ∷ cs) digit)
    ]

digits_first :
    (fuel n : ℕ) → (d : ℕ) × (ds : Text) × (digits (suc fuel) n [] ≡ d ∷ ds) × (is_digit d ≡ true)
unfolding digits
digits_first fuel n =
    let digit : is_digit (n % 10 + b'0') ≡ true = ground arith in
    elim (Bool-cases (n / 10 == 0)) [
      | inl e ↦ rw e (n % 10 + b'0', [], refl, digit)
      | inr e ↦ rw e (digits_head fuel (n / 10) (n % 10 + b'0') [] digit)
    ]

pub to_text_head : (n : ℕ) → (d : ℕ) × (ds : Text) × (to_text n ≡ d ∷ ds) × (is_digit d ≡ true)
unfolding to_text
to_text_head n = let e : n + 1 ≡ suc n = omega arith in rw e (digits_first n n)
