-- ===== src/Sql/Versions.antt =====
-- CompareVersions (utils.cpp).
use sas_libclient.Base.{
  ℕ, suc, ◌+◌, ◌-◌, ◌≤◌, ◌≡◌, refl, Bool, true, false, ◌||◌, ◌&&◌, [], ◌∷◌, ◌++◌, Option, none,
  some, ◌==◌, ltb, leb, if◌then◌else◌, arith, Text, to_text, ℤ, pos, negsuc, sub_ℕ, ltb_ℤ, pos_part,
  neg_part, Outcome, ok, fault, ◌>>=◌, int_max, ap, ◌∙◌, le→leb, sym,
}
use mathlib.Core.List.{append-nil}
use sas_libclient.Sql.Numbers.{is_digit, read_digits, EndsDigits, read_digits-to_text, to_text_head}

-- isspace in the C locale.
is_space : ℕ → Bool
is_space c = c == b' ' || (leb 9 c && leb c 13)

skip_space : Text → Text
unfolding is_space
skip_space [] = []
skip_space (c ∷ cs) = let rest = skip_space cs in if is_space c then rest else c ∷ cs

-- A signed number up to `bound`; a value that does not fit is undefined.
in_range : ℕ → Bool → ℕ × Text → Outcome (Option (ℤ × Text))
in_range bound negative (n, more) =
    if negative
    then (if leb n (bound + 1) then ok (some (sub_ℕ 0 n, more)) else fault)
    else if leb n bound
    then ok (some (pos n, more))
    else fault

unsigned : ℕ → Bool → Text → Outcome (Option (ℤ × Text))
unfolding in_range
unsigned bound negative [] = ok none
unsigned bound negative (c ∷ cs) =
    if is_digit c then in_range bound negative (read_digits 0 (c ∷ cs)) else ok none

signed_at : ℕ → Text → Outcome (Option (ℤ × Text))
unfolding unsigned
signed_at bound [] = ok none
signed_at bound (c ∷ cs) =
    if c == b'-'
    then unsigned bound true cs
    else if c == b'+'
    then unsigned bound false cs
    else unsigned bound false (c ∷ cs)

-- The conversions %d and %lld of sscanf, for a type with the largest number `bound`: `none` where
-- the text does not match.
unfoldable pub scan_signed : ℕ → Text → Outcome (Option (ℤ × Text))
unfolding signed_at unsigned in_range skip_space is_space read_digits
scan_signed bound s = signed_at bound (skip_space s)

-- The conversion %d.
abbrev pub scan_int : Text → Outcome (Option (ℤ × Text))
scan_int s = scan_signed int_max s

-- A point of the format.
scan_point : Text → Option Text
scan_point [] = none
scan_point (c ∷ cs) = if c == b'.' then some cs else none

-- The three `int` variables after sscanf; `none` is one that it has not set.
abbrev Scanned : Type 0
Scanned = Option ℤ × Option ℤ × Option ℤ

scan_point_int : Text → Outcome (Option (ℤ × Text))
unfolding scan_point
scan_point_int s = elim (scan_point s) [ none ↦ ok none | some more ↦ scan_int more ]

pub scan_version : Text → Outcome Scanned
unfolding scan_signed scan_point scan_point_int
scan_version s = scan_int s >>= λ major. elim major [
  | none ↦ ok (none, none, none)
  | some (a, more) ↦ scan_point_int more >>= λ minor. elim minor [
    | none ↦ ok (some a, none, none)
    | some (b, more') ↦ scan_point_int more' >>= λ patch. elim patch [
      | none ↦ ok (some a, some b, none)
      | some (c, end) ↦ ok (some a, some b, some c)
    ]
  ]
]

-- To read a variable that is not set is undefined.
greater : Option ℤ → Option ℤ → Outcome Bool
greater (some a) (some b) = ok (ltb_ℤ b a)
greater _ _ = fault

abbrev same_int : ℤ → ℤ → Bool
same_int a b = pos_part a == pos_part b && neg_part a == neg_part b

same : Option ℤ → Option ℤ → Outcome Bool
same (some a) (some b) = ok (same_int a b)
same _ _ = fault

-- `&&`, which leaves its right side out if the left is false.
and_then : Outcome Bool → Outcome Bool → Outcome Bool
and_then l r = l >>= λ b. if b then r else ok false

compare_scanned : Scanned → Scanned → Outcome ℤ
unfolding greater same and_then
compare_scanned (major1, minor1, patch1) (major2, minor2, patch2) =
    greater major1 major2 >>= λ higher.
    if higher
    then ok (pos 1)
    else and_then (same major1 major2) (greater minor1 minor2) >>= λ higher.
        if higher
        then ok (pos 1)
        else and_then (same major1 major2) (and_then (same minor1 minor2) (greater patch1 patch2))
          >>= λ higher.
              if higher
              then ok (pos 1)
              else and_then (same major1 major2)
                  (and_then (same minor1 minor2) (same patch1 patch2))
                >>= λ equal. if equal then ok (pos 0) else ok (negsuc 0)

unfoldable pub compare_versions : Text → Text → Outcome ℤ
unfolding scan_version compare_scanned
compare_versions v1 v2 = scan_version v1 >>= λ s1. scan_version v2 >>= λ s2. compare_scanned s1 s2

-- A version of three numbers.
abbrev pub version : ℕ → ℕ → ℕ → Text
version major minor patch = to_text major ++ (b'.' ∷ (to_text minor ++ (b'.' ∷ to_text patch)))

-- 1, 0 or -1 for a number above, equal to or below another, by `next` if they are equal.
abbrev pub order : ℕ → ℕ → ℤ → ℤ
order a b next = if ltb b a then pos 1 else if a == b then next else negsuc 0

scan_digits :
    (bound c : ℕ) (cs : Text)
    → is_digit c ≡ true
    → scan_signed bound (c ∷ cs) ≡ in_range bound false (read_digits 0 (c ∷ cs))
unfolding scan_signed unsigned is_space signed_at
scan_digits bound c cs h =
    let no_space : is_space c ≡ false = ground arith in
    let no_minus : (c == b'-') ≡ false = ground arith in
    let no_plus : (c == b'+') ≡ false = ground arith in
    rw (no_space, skip_space) (rw (no_minus, no_plus, h) refl)

-- After a minus sign.
scan_minus :
    (bound c : ℕ) (cs : Text)
    → is_digit c ≡ true
    → scan_signed bound (b'-' ∷ c ∷ cs) ≡ in_range bound true (read_digits 0 (c ∷ cs))
unfolding scan_signed unsigned is_space signed_at skip_space
scan_minus bound c cs h = rw h refl

scan_after_head :
    (bound : ℕ) (s more : Text) (d : ℕ) (ds : Text)
    → s ≡ d ∷ ds
    → is_digit d ≡ true
    → (scan_signed bound (s ++ more) ≡ in_range bound false (read_digits 0 (s ++ more)))
      × (scan_signed bound (b'-' ∷ s ++ more) ≡ in_range bound true (read_digits 0 (s ++ more)))
scan_after_head bound s more d ds e h =
    rw e (scan_digits bound d (ds ++ more) h, scan_minus bound d (ds ++ more) h)

pub scan_signed-to_text :
    (bound n : ℕ) (more : Text)
    → n ≤ bound
    → EndsDigits more
    → scan_signed bound (to_text n ++ more) ≡ ok (some (pos n, more))
unfolding in_range
scan_signed-to_text bound n more h k =
    let (d, ds, e, digit) = to_text_head n in
    (scan_after_head bound (to_text n) more d ds e digit).0
    ∙ ap (in_range bound false) (read_digits-to_text n more k)
    ∙ rw (le→leb n bound h) refl

below_zero : (n : ℕ) → sub_ℕ 0 (suc n) ≡ negsuc n
below_zero n =
    let less : leb (suc n) 0 ≡ false = ground arith in
    let same : suc n - 0 - 1 ≡ n = omega arith in rw (less, same) refl

-- A negative number.
pub scan_signed-minus :
    (bound n : ℕ) (more : Text)
    → n ≤ bound
    → EndsDigits more
    → scan_signed bound (b'-' ∷ to_text (suc n) ++ more) ≡ ok (some (negsuc n, more))
unfolding in_range
scan_signed-minus bound n more h k =
    let (d, ds, e, digit) = to_text_head (suc n) in
    (scan_after_head bound (to_text (suc n)) more d ds e digit).1
    ∙ ap (in_range bound true) (read_digits-to_text (suc n) more k)
    ∙ rw (le→leb (suc n) (bound + 1) (omega arith))
        (ap (λ (z : ℤ). ok (some (z, more))) (below_zero n))

scan_int-to_text :
    (n : ℕ) (more : Text)
    → n ≤ int_max
    → EndsDigits more
    → scan_int (to_text n ++ more) ≡ ok (some (pos n, more))
scan_int-to_text = scan_signed-to_text int_max

scan_version-version :
    (a b c : ℕ)
    → a ≤ int_max
    → b ≤ int_max
    → c ≤ int_max
    → scan_version (version a b c) ≡ ok (some (pos a), some (pos b), some (pos c))
unfolding scan_version scan_point_int scan_point
scan_version-version a b c ha hb hc =
    let first = scan_int-to_text a (b'.' ∷ (to_text b ++ (b'.' ∷ to_text c))) ha refl in
    let second = scan_int-to_text b (b'.' ∷ to_text c) hb refl in
    let third : scan_int (to_text c) ≡ ok (some (pos c, [])) =
      ap scan_int (sym (append-nil (to_text c))) ∙ scan_int-to_text c [] hc tt in
    rw (first, second, third) refl

-- For two versions written as three decimal numbers with dots between them, each number below 2^31,
-- CompareVersions gives the sign of their order by the first number, then the second, then the
-- third.
pub compare_versions-version :
    (a b c a' b' c' : ℕ)
    → a ≤ int_max
    → b ≤ int_max
    → c ≤ int_max
    → a' ≤ int_max
    → b' ≤ int_max
    → c' ≤ int_max
    → compare_versions (version a b c) (version a' b' c')
      ≡ ok (order a a' (order b b' (order c c' (pos 0))))
unfolding compare_versions compare_scanned
compare_versions-version a b c a' b' c' ha hb hc ha' hb' hc' =
    rw (scan_version-version a b c ha hb hc, scan_version-version a' b' c' ha' hb' hc')
      (ground arith)
