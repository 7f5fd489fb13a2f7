-- ===== src/Sql/Names.antt =====
-- Names of tables and columns in SQL: QuotedName, JoinColumnNames and BuildSortKey (utils.cpp).
use sas_libclient.Base.{
  ℕ, zero, suc, ◌≤◌, ◌≡◌, refl, ap, Bool, true, false, ◌||◌, List, [], ◌∷◌, ◌++◌, Option, none,
  some, ◌==◌, arith, if◌then◌else◌, length, Text, Bool-cases, inl, inr, is_text, ◌<◌, ◌+◌, sym,
  length-append,
}
use mathlib.Core.List.{append_assoc, append-nil}

-- `std::quoted(name, '`', '`')` after the opening quote: a backtick is its own escape.
unfoldable pub quoted_name_rest : Text → Text
quoted_name_rest [] = b'`' ∷ []
quoted_name_rest (c ∷ cs) =
    let rest = quoted_name_rest cs in if c == b'`' then b'`' ∷ c ∷ rest else c ∷ rest

unfoldable pub quoted_name : Text → Text
quoted_name name = b'`' ∷ quoted_name_rest name

-- The loop of JoinColumnNames.
unfoldable pub join_more : List Text → Text
join_more [] = []
join_more (name ∷ names) = b',' ∷ quoted_name name ++ join_more names

unfoldable pub join_column_names : List Text → Text
unfolding join_more
join_column_names [] = []
join_column_names (name ∷ names) = quoted_name name ++ join_more names

-- `strcmp` finds the key among the columns.
abbrev pub has_name : Text → List Text → Bool
has_name key [] = false
has_name key (name ∷ names) = is_text key name || has_name key names

unfoldable pub build_sort_key : List Text → Text → Text
build_sort_key cols key =
    let result = join_column_names cols in
    if has_name key cols
    then result
    else (if length result == 0 then result else result ++ b',' ∷ []) ++ quoted_name key

-- How SQL reads a name between backticks, where two of them stand for one: the name, and the rest.
read_name_rest : Text → Option (Text × Text)
read_name_rest [] = none
read_name_rest (c ∷ []) = if c == b'`' then some ([], []) else none
read_name_rest (c ∷ d ∷ cs) =
    let rest = read_name_rest cs in
    let next = read_name_rest (d ∷ cs) in
    if c == b'`'
    then (if d == b'`'
        then elim rest [ none ↦ none | some (v, more) ↦ some (b'`' ∷ v, more) ]
        else some ([], d ∷ cs))
    else elim next [ none ↦ none | some (v, more) ↦ some (c ∷ v, more) ]

unfoldable pub read_name : Text → Option (Text × Text)
unfolding read_name_rest
read_name [] = none
read_name (c ∷ cs) = if c == b'`' then read_name_rest cs else none

-- Names with commas between them, at most `fuel + 1`.
pub read_names : ℕ → Text → Option (List Text × Text)
read_names zero s = none
read_names (suc fuel) s = elim (read_name s) [
  | none ↦ none
  | some (name, []) ↦ some (name ∷ [], [])
  | some (name, c ∷ more) ↦ elim (c == b',') [
    | true ↦ elim (read_names fuel more) [
      | none ↦ none
      | some (names, end) ↦ some (name ∷ names, end)
    ]
    | false ↦ some (name ∷ [], c ∷ more)
  ]
]

-- What may follow a name, so that it is not read on.
abbrev pub Ends : ℕ → Text → Type 0
Ends stop [] = Unit {0}
Ends stop (c ∷ cs) = (c == stop) ≡ false

plain :
    (c : ℕ) (xs v more : Text)
    → (c == b'`') ≡ false
    → read_name_rest xs ≡ some (v, more)
    → read_name_rest (c ∷ xs) ≡ some (c ∷ v, more)
unfolding read_name_rest
plain c [] v more p e = cc
plain c (d ∷ ds) v more p e = rw (p, e) refl

escaped :
    (c : ℕ) (xs v more : Text)
    → (c == b'`') ≡ true
    → read_name_rest xs ≡ some (v, more)
    → read_name_rest (b'`' ∷ c ∷ xs) ≡ some (c ∷ v, more)
unfolding read_name_rest
escaped c xs v more p e = let same : c ≡ b'`' = ground arith in rw (same, e) refl

closing : (more : Text) → Ends b'`' more → read_name_rest (b'`' ∷ more) ≡ some ([], more)
unfolding read_name_rest
closing [] h = refl
closing (d ∷ ds) h = rw h refl

read_name_rest-quoted_name_rest :
    (s more : Text) → Ends b'`' more → read_name_rest (quoted_name_rest s ++ more) ≡ some (s, more)
unfolding quoted_name_rest
read_name_rest-quoted_name_rest [] more h = closing more h
read_name_rest-quoted_name_rest (c ∷ cs) more h = elim (Bool-cases (c == b'`')) [
  | inl e ↦ rw e (
      escaped c (quoted_name_rest cs ++ more) cs more e (read_name_rest-quoted_name_rest cs more h))
  | inr e ↦
      rw e (
        plain c (quoted_name_rest cs ++ more) cs more e (read_name_rest-quoted_name_rest cs more h))
]

-- A quoted name is read back.
pub read_name-quoted_name :
    (s more : Text) → Ends b'`' more → read_name (quoted_name s ++ more) ≡ some (s, more)
unfolding read_name quoted_name
read_name-quoted_name s more h = read_name_rest-quoted_name_rest s more h

-- The names after the first.
join_more_tail :
    (names : List Text) (more : Text) → Ends b'`' more → Ends b'`' (join_more names ++ more)
unfolding join_more
join_more_tail [] more h = h
join_more_tail (name ∷ names) more h = refl

read_last :
    (fuel : ℕ) (name more : Text)
    → Ends b'`' more
    → Ends b',' more
    → read_names (suc fuel) (quoted_name name ++ more) ≡ some (name ∷ [], more)
unfolding read_names
read_last fuel name [] h k = rw (read_name-quoted_name name [] h, read_names) refl
read_last fuel name (c ∷ more) h k =
    rw (read_name-quoted_name name (c ∷ more) h, read_names) (rw (k, read_names) refl)

-- The names that JoinColumnNames joins are read back, whatever characters they have, if
-- neither a backtick nor a comma follows.
pub read_names-join :
    (fuel : ℕ) (name : Text) (names : List Text) (more : Text)
    → length names < fuel
    → Ends b'`' more
    → Ends b',' more
    → read_names fuel (join_column_names (name ∷ names) ++ more) ≡ some (name ∷ names, more)
unfolding join_column_names read_names
read_names-join zero name names more f h k = absurd (omega arith)
read_names-join (suc fuel) name [] more f h k =
    rw (append_assoc (quoted_name name) [] more) (read_last fuel name more h k)
read_names-join (suc fuel) name (next ∷ names) more f h k =
    rw (append_assoc (quoted_name name) (join_more (next ∷ names)) more) (
      rw
        (
          read_name-quoted_name name (b',' ∷ join_column_names (next ∷ names) ++ more) refl,
          read_names,
        )
        (rw (read_names-join fuel next names more (omega arith) h k) refl))

join_more-snoc :
    (names : List Text) (key : Text)
    → join_more (names ++ key ∷ []) ≡ join_more names ++ b',' ∷ quoted_name key
unfolding join_more
join_more-snoc [] key = ap (λ x. b',' ∷ x) (append-nil (quoted_name key))
join_more-snoc (name ∷ names) key = rw (join_more-snoc names key) (
    ap (λ x. b',' ∷ x)
      (sym (append_assoc (quoted_name name) (join_more names) (b',' ∷ quoted_name key))))

join-snoc :
    (name : Text) (names : List Text) (key : Text)
    → (join_column_names (name ∷ names) ++ b',' ∷ []) ++ quoted_name key
      ≡ join_column_names (name ∷ names ++ key ∷ [])
unfolding join_column_names
join-snoc name names key =
    rw
      (
        join_more-snoc names key,
        append_assoc (quoted_name name ++ join_more names) (b',' ∷ []) (quoted_name key),
        append_assoc (quoted_name name) (join_more names) (b',' ∷ quoted_name key),
      )
      refl

-- The columns to sort by: the key comes last, if it is not there yet.
abbrev pub sort_columns : List Text → Text → List Text
sort_columns cols key = if has_name key cols then cols else cols ++ key ∷ []

joined_length :
    (name : Text) (names : List Text) → (length (join_column_names (name ∷ names)) == 0) ≡ false
unfolding join_column_names quoted_name
joined_length name names = ground arith

build_sort_key_lem :
    (cols : List Text) (key : Text)
    → build_sort_key cols key ≡ join_column_names (sort_columns cols key)
unfolding build_sort_key
build_sort_key_lem [] key = unfold join_column_names join_more in sym (append-nil (quoted_name key))
build_sort_key_lem (name ∷ names) key = elim (Bool-cases (has_name key (name ∷ names))) [
  | inl e ↦ rw e refl
  | inr e ↦ rw (e, joined_length name names) (join-snoc name names key)
]

read_names-sort_columns :
    (fuel : ℕ) (cols : List Text) (more : Text)
    → 0 < length cols
    → length cols ≤ fuel
    → Ends b'`' more
    → Ends b',' more
    → read_names fuel (join_column_names cols ++ more) ≡ some (cols, more)
read_names-sort_columns fuel [] more p f h k = absurd (omega arith)
read_names-sort_columns fuel (name ∷ names) more p f h k =
    read_names-join fuel name names more (omega arith) h k

sort_columns_length :
    (cols : List Text) (key : Text)
    → (0 < length (sort_columns cols key)) × (length (sort_columns cols key) ≤ length cols + 1)
sort_columns_length [] key = omega arith
sort_columns_length (name ∷ names) key = elim (Bool-cases (has_name key (name ∷ names))) [
  | inl e ↦ rw e (omega arith)
  | inr e ↦ rw e (omega (arith, length-append (name ∷ names) (key ∷ [])))
]

-- The names that SQL reads in the sort key are the columns given, with the key column after them if
-- it is not one of them, if neither a backtick nor a comma follows.
pub read_names-build_sort_key :
    (fuel : ℕ) (cols : List Text) (key more : Text)
    → length cols < fuel
    → Ends b'`' more
    → Ends b',' more
    → read_names fuel (build_sort_key cols key ++ more) ≡ some (sort_columns cols key, more)
read_names-build_sort_key fuel cols key more f h k = rw (build_sort_key_lem cols key) (
    read_names-sort_columns fuel (sort_columns cols key) more (sort_columns_length cols key).0
      (omega (arith, (sort_columns_length cols key).1)) h k)
