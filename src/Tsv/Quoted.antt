-- ===== src/Tsv/Quoted.antt =====
-- std::quoted with '"' and '\\', as ChunkToTSV prints strings, and the numbers that it prints.
use sas_libclient.Base.{
  ℕ, suc, ◌-◌, ◌^◌, ◌≡◌, refl, Bool, false, ◌||◌, [], ◌∷◌, ◌++◌, Option, none, some, ◌==◌, arith,
  if◌then◌else◌, ltb, Text, to_text, ℤ, pos, negsuc, Bool-cases, inl, inr,
}

abbrev special : ℕ → Bool
special c = c == b'"' || c == 0x5c

-- The characters with an escape before each quote and each escape, and the closing quote.
unfoldable pub quoted_rest : Text → Text
quoted_rest [] = b'"' ∷ []
quoted_rest (c ∷ cs) = let rest = quoted_rest cs in if special c then 0x5c ∷ c ∷ rest else c ∷ rest

unfoldable pub quoted : Text → Text
quoted s = b'"' ∷ quoted_rest s

-- What a reader of FIELDS ENCLOSED BY '"' ESCAPED BY '\\' takes off the front: a value and the rest
-- of the input.
unquoted_rest : Text → Option (Text × Text)
unquoted_rest [] = none
unquoted_rest (c ∷ []) = if c == b'"' then some ([], []) else none
unquoted_rest (c ∷ d ∷ cs) =
    let rest = unquoted_rest cs in
    let next = unquoted_rest (d ∷ cs) in
    if c == b'"'
    then some ([], d ∷ cs)
    else if c == 0x5c
    then elim rest [ none ↦ none | some (v, more) ↦ some (d ∷ v, more) ]
    else elim next [ none ↦ none | some (v, more) ↦ some (c ∷ v, more) ]

pub unquoted : Text → Option (Text × Text)
unfolding unquoted_rest
unquoted [] = none
unquoted (c ∷ cs) = if c == b'"' then unquoted_rest cs else none

-- The value with the quotes and escapes off is the value, whatever follows it.
plain :
    (c : ℕ) (xs v more : Text)
    → special c ≡ false
    → unquoted_rest xs ≡ some (v, more)
    → unquoted_rest (c ∷ xs) ≡ some (c ∷ v, more)
unfolding unquoted_rest
plain c [] v more p e = cc
plain c (d ∷ ds) v more p e =
    let no_quote : (c == b'"') ≡ false = ground arith in
    let no_escape : (c == 0x5c) ≡ false = ground arith in rw (no_quote, no_escape, e) refl

escaped :
    (c : ℕ) (xs v more : Text)
    → unquoted_rest xs ≡ some (v, more)
    → unquoted_rest (0x5c ∷ c ∷ xs) ≡ some (c ∷ v, more)
unfolding unquoted_rest
escaped c xs v more e = rw e refl

closing : (more : Text) → unquoted_rest (b'"' ∷ more) ≡ some ([], more)
unfolding unquoted_rest
closing [] = refl
closing (d ∷ ds) = refl

unquoted_rest-quoted_rest : (s more : Text) → unquoted_rest (quoted_rest s ++ more) ≡ some (s, more)
unfolding quoted_rest
unquoted_rest-quoted_rest [] more = closing more
unquoted_rest-quoted_rest (c ∷ cs) more = elim (Bool-cases (special c)) [
  | inl e ↦ rw e (escaped c (quoted_rest cs ++ more) cs more (unquoted_rest-quoted_rest cs more))
  | inr e ↦ rw e (plain c (quoted_rest cs ++ more) cs more e (unquoted_rest-quoted_rest cs more))
]

-- A string that ChunkToTSV prints with std::quoted is read back, by the rules ENCLOSED BY '"'
-- ESCAPED BY '\\', as the same string, with the rest of the line left over.
pub unquoted-quoted : (s more : Text) → unquoted (quoted s ++ more) ≡ some (s, more)
unfolding unquoted quoted
unquoted-quoted s more = unquoted_rest-quoted_rest s more

-- A signed integer in decimal.
unfoldable pub show_int : ℤ → Text
show_int (pos n) = to_text n
show_int (negsuc n) = b'-' ∷ to_text (suc n)

-- The value of a word of `k` bits in two's complement.
unfoldable pub signed : ℕ → ℕ → ℤ
signed k n = if ltb n (2 ^ (k - 1)) then pos n else negsuc (2 ^ k - 1 - n)
