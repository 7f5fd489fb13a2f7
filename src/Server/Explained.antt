-- ===== src/Server/Explained.antt =====
-- Which plans of EXPLAIN are simple (CheckExplainOperations of s2_connection.cpp).
use mathlib.Core.Logic.{◌↔◌}
use sas_libclient.Base.{
  ◌≡◌, ◌≢◌, refl, ap, ◌∙◌, Bool, true, false, ◌||◌, ◌&&◌, not, List, [], ◌∷◌, ◌++◌, some,
  if◌then◌else◌, ◌==◌, ==_iff, Text, text, is_text, map, Outcome, ok, inl, inr, Bool-cases,
}
use sas_libclient.Server.Answers.{Row, field, value, starts_with}
use sas_libclient.Server.Catalog.{check_rows, is_scan, operation}
use sas_libclient.Server.Planned.{false_ne_true, and_iff, In, has_name_iff}
use sas_libclient.Sql.Names.{has_name}

-- A text with a given beginning.
abbrev pub StartsWith : Text → Text → Type 0
StartsWith p s = (more : Text) × (s ≡ p ++ more)

-- The operations of a simple plan.
abbrev pub scans : List Text
scans = text "ColumnStoreScan" ∷ text "OrderedColumnStoreScan" ∷ text "ColumnStoreFilter" ∷ []

-- Nothing, or a blank and more.
abbrev pub EndsWord : Text → Type 0
EndsWord [] = Unit {0}
EndsWord (c ∷ cs) = c ≡ b' '

-- The first word of the line is one of these operations.
abbrev pub IsScanLine : Text → Type 0
IsScanLine line =
    (name : Text) × (more : Text) × In name scans × EndsWord more × (line ≡ name ++ more)

abbrev pub AllScans : List Text → Type 0
AllScans [] = Unit {0}
AllScans (line ∷ lines) = IsScanLine line × AllScans lines

-- All lines after the first one that begins with ResultTable are of these operations.
abbrev pub IsSimple : List Text → Type 0
IsSimple [] = Unit {0}
IsSimple (line ∷ lines) =
    (StartsWith (text "ResultTable") line → AllScans lines)
    × (¬ StartsWith (text "ResultTable") line → IsSimple lines)

starts_with_forth : (p s : Text) → starts_with p s ≡ true → StartsWith p s
unfolding starts_with
starts_with_forth [] s h = (s, refl)
starts_with_forth (c ∷ cs) [] h = elim (false_ne_true h) [ ]
starts_with_forth (c ∷ cs) (d ∷ ds) h = elim (Bool-cases (c == d)) [
  | inl e ↦
      let (more, same) = starts_with_forth cs ds (rw e at h) in
      let first : c ≡ d = (==_iff c d).0 e in (more, cc)
  | inr e ↦ elim (false_ne_true (rw e at h)) [ ]
]

starts_with_back : (p more : Text) → starts_with p (p ++ more) ≡ true
unfolding starts_with
starts_with_back [] more = refl
starts_with_back (c ∷ cs) more =
    let same : (c == c) ≡ true = (==_iff c c).1 refl in rw same (starts_with_back cs more)

not_StartsWith : (p s : Text) → starts_with p s ≡ false → ¬ StartsWith p s
not_StartsWith p s h (more, same) = false_ne_true (h_true p s more same h)
  where
    h_true : (p s more : Text) → s ≡ p ++ more → starts_with p s ≡ false → ◌≡◌ {A = Bool} false true
    h_true p s more same h = let t = starts_with_back p more in cc

-- What `find(" ")` cuts off.
operation-split : (line : Text) → (more : Text) × EndsWord more × (line ≡ operation line ++ more)
unfolding operation
operation-split [] = ([], tt, refl)
operation-split (c ∷ cs) = elim (Bool-cases (c == b' ')) [
  | inl e ↦ rw e (c ∷ cs, (==_iff c b' ').0 e, refl)
  | inr e ↦
      let (more, ends, same) = operation-split cs in
      rw e (more, ends, ap (λ (t : Text). c ∷ t) same)
]

no_blank : Text → Bool
no_blank [] = true
no_blank (c ∷ cs) = not (c == b' ') && no_blank cs

refuted : (b : Bool) → not b ≡ true → b ≡ false
refuted true h = elim (false_ne_true h) [ ]
refuted false h = refl

operation-append :
    (name more : Text) → no_blank name ≡ true → EndsWord more → operation (name ++ more) ≡ name
unfolding operation no_blank
operation-append [] [] h ends = refl
operation-append [] (c ∷ cs) h ends = rw ((==_iff c b' ').1 ends) refl
operation-append (c ∷ cs) more h ends =
    let (first, others) = (and_iff _ _).0 h in
    rw (refuted (c == b' ') first, operation-append cs more others ends) refl

scans-no_blank : (name : Text) → In name scans → no_blank name ≡ true
unfolding no_blank text
scans-no_blank name (inl e) = ap no_blank e
scans-no_blank name (inr (inl e)) = ap no_blank e
scans-no_blank name (inr (inr (inl e))) = ap no_blank e
scans-no_blank name (inr (inr (inr none))) = absurd none

or_nested : (a b c : Bool) → (a || b || c) ≡ (a || (b || (c || false)))
or_nested true true true = refl
or_nested true true false = refl
or_nested true false true = refl
or_nested true false false = refl
or_nested false true true = refl
or_nested false true false = refl
or_nested false false true = refl
or_nested false false false = refl

is_scan_lem : (op : Text) → is_scan op ≡ has_name op scans
unfolding is_scan
is_scan_lem op =
    or_nested (is_text op (text "ColumnStoreScan")) (is_text op (text "OrderedColumnStoreScan"))
      (is_text op (text "ColumnStoreFilter"))

is_scan_iff : (line : Text) → (is_scan (operation line) ≡ true) ↔ IsScanLine line
is_scan_iff line = (forth, back line)
  where
    forth : is_scan (operation line) ≡ true → IsScanLine line
    forth h =
        let (more, ends, same) = operation-split line in
        let listed : has_name (operation line) scans ≡ true =
          rw (is_scan_lem (operation line)) at h in
        (operation line, more, (has_name_iff (operation line) scans).0 listed, ends, same)

    back : (line : Text) → IsScanLine line → is_scan (operation line) ≡ true
    back line (name, more, listed, ends, same) =
        ap (λ l. is_scan (operation l)) same
        ∙ ap is_scan (operation-append name more (scans-no_blank name listed) ends)
        ∙ is_scan_lem name
        ∙ (has_name_iff name scans).1 listed

-- A row of EXPLAIN.
abbrev pub plan_row : Text → Row
plan_row line = some line ∷ []

ok_false_ne : ◌≢◌ {A = Outcome Bool} (ok false) (ok true)
ok_false_ne h = cc

scan_step :
    {P Q : Type 0} (scan : Bool) (rest : Outcome Bool)
    → (scan ≡ true) ↔ Q
    → (rest ≡ ok true) ↔ P
    → ((if not scan then ok false else rest) ≡ ok true) ↔ (Q × P)
scan_step true rest g h = (λ e. (g.0 refl, h.0 e), λ e. h.1 e.1)
scan_step false rest g h = (λ e. absurd (ok_false_ne e), λ e. absurd (false_ne_true (g.1 e.0)))

check_rows-scans :
    (lines : List Text) → (check_rows true (map plan_row lines) ≡ ok true) ↔ AllScans lines
unfolding check_rows value field
check_rows-scans [] = (λ h. tt, λ h. refl)
check_rows-scans (line ∷ lines) =
    scan_step (is_scan (operation line)) (check_rows true (map plan_row lines)) (is_scan_iff line)
      (check_rows-scans lines)

-- The check of the rows of EXPLAIN accepts a plan exactly if the first word of every row after the
-- first that begins with ResultTable, up to a blank or the end, is ColumnStoreScan,
-- OrderedColumnStoreScan or ColumnStoreFilter.
pub check_rows_lem :
    (lines : List Text) → (check_rows false (map plan_row lines) ≡ ok true) ↔ IsSimple lines
unfolding check_rows value field
check_rows_lem [] = (λ h. tt, λ h. refl)
check_rows_lem (line ∷ lines) = elim (Bool-cases (starts_with (text "ResultTable") line)) [
  | inl e ↦
      let here = starts_with_forth (text "ResultTable") line e in
      rw e (
        λ h. (λ s. (check_rows-scans lines).0 h, λ n. absurd (n here)),
        λ (s, n). (check_rows-scans lines).1 (s here),
      )
  | inr e ↦
      let not_here = not_StartsWith (text "ResultTable") line e in
      rw e (
        λ h. (λ s. absurd (not_here s), λ n. (check_rows_lem lines).0 h),
        λ (s, n). (check_rows_lem lines).1 (n not_here),
      )
]
