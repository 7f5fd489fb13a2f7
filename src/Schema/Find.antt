-- ===== src/Schema/Find.antt =====
-- std::string as the parser of utils.cpp uses it: find, operator[], substr, stoi.
use sas_libclient.Base.{
  ℕ, zero, suc, ◌+◌, ◌-◌, ◌^◌, List, [], ◌∷◌, none, some, ◌==◌, ltb, if◌then◌else◌, length, take,
  get_elem?, Text, text, ℤ, Outcome, ok, throws, fault, invalid_argument, out_of_range,
}
use sas_libclient.Server.Answers.{starts_with}
use sas_libclient.Sql.Versions.{scan_int}

-- std::string::npos
abbrev pub npos : ℕ
npos = 2 ^ 64 - 1

abbrev pub drop {ℓ} : {A : Type ℓ} → ℕ → List A → List A
drop zero s = s
drop (suc n) [] = []
drop (suc n) (c ∷ cs) = drop n cs

-- From a text that stands at place `i`.
unfoldable pub find_from : ℕ → ℕ → Text → ℕ
find_from c i [] = npos
find_from c i (d ∷ ds) = let rest = find_from c (i + 1) ds in if d == c then i else rest

-- `s.find(c, pos)`
unfoldable pub find : ℕ → Text → ℕ → ℕ
unfolding find_from
find c s pos = find_from c pos (drop pos s)

unfoldable pub find_text_from : Text → ℕ → Text → ℕ
unfolding starts_with
find_text_from p i [] = npos
find_text_from p i (d ∷ ds) =
    let rest = find_text_from p (i + 1) ds in if starts_with p (d ∷ ds) then i else rest

-- `s.find(p, pos)` for a text that is not empty.
unfoldable pub find_text : Text → Text → ℕ → ℕ
unfolding find_text_from
find_text p s pos = find_text_from p pos (drop pos s)

-- `s[i]`: the place after the last has the character 0, and those after it are out of bounds.
unfoldable pub char_at : Text → ℕ → Outcome ℕ
char_at s i = elim (get_elem? s i) [ some c ↦ ok c | none ↦ if i == length s then ok 0 else fault ]

-- `s.substr(pos, n)`
unfoldable pub substr : Text → ℕ → ℕ → Outcome Text
substr s pos n =
    if ltb (length s) pos
    then throws (out_of_range (text "basic_string::substr"))
    else ok (take n (drop pos s))

-- `strndup(s.c_str() + pos, n)`, in bounds, of a text without the character 0.
unfoldable pub copy_name : Text → ℕ → ℕ → Outcome Text
copy_name s pos n = if ltb (length s) pos then fault else ok (take n (drop pos s))

-- stoi throws where sscanf finds no number, and where the number is no `int`.
unfoldable pub stoi : Text → Outcome ℤ
stoi s = elim (scan_int s) [
  | ok found ↦ elim found [ none ↦ throws (invalid_argument (text "stoi")) | some (n, end) ↦ ok n ]
  | throws e ↦ throws e
  | fault ↦ throws (out_of_range (text "stoi"))
]
