-- ===== src/Server/Planned.antt =====
-- When a query is read from the original table (GetParallelReadType of s2_connection.cpp).
use mathlib.Core.Logic.{◌↔◌}
use sas_libclient.Base.{
  ◌≡◌, ◌≢◌, refl, Bool, true, false, ◌||◌, ◌&&◌, List, [], ◌∷◌, ◌++◌, some, if◌then◌else◌, Text,
  is_text, ok, arith, ◌⊎◌, inl, inr, Bool-cases,
}
use sas_libclient.Server.Answers.{Server}
use sas_libclient.Server.Catalog.{TableKeys, get_table_keys, check_explain_operations}
use sas_libclient.Server.ReadType.{
  ParallelReadType, result_table, original_table, column_store_table, unknown, all_in,
  shard_key_fits, sort_key_fits, created_table, get_parallel_read_type,
}
use sas_libclient.Sql.Names.{has_name}
use sas_libclient.Sql.Queries.{Columns}

pub false_ne_true : ◌≢◌ {A = Bool} false true
false_ne_true h = cc

or_true : (b : Bool) → (b || true) ≡ true
or_true true = refl
or_true false = refl

pub and_iff : (a b : Bool) → ((a && b) ≡ true) ↔ ((a ≡ true) × (b ≡ true))
and_iff true b = (λ h. (refl, h), λ h. h.1)
and_iff false b = (λ h. elim (false_ne_true h) [ ], λ h. h.0)

is_text_iff : (a b : Text) → (is_text a b ≡ true) ↔ (a ≡ b)
unfolding is_text
is_text_iff [] [] = ground arith
is_text_iff [] (b ∷ ds) = ground arith
is_text_iff (a ∷ cs) [] = ground arith
is_text_iff (a ∷ cs) (b ∷ ds) = ground (arith, is_text_iff cs ds)

-- A text is one of a list.
abbrev pub In : Text → List Text → Type 0
In t [] = ⊥
In t (u ∷ us) = (t ≡ u) ⊎ In t us

abbrev pub AllIn : List Text → List Text → Type 0
AllIn [] us = Unit {0}
AllIn (t ∷ ts) us = In t us × AllIn ts us

-- The rows need not be moved: the shard key is not empty and within the columns to partition by, or
-- there are none of these.
abbrev pub ShardFits : Columns → List Text → Type 0
ShardFits by shard_key = (by ≡ []) ⊎ ((shard_key ≢ []) × AllIn shard_key by)

-- The rows have the order asked for.
abbrev pub SortFits : Columns → List Text → Type 0
SortFits order sort_key = (rest : List Text) × (sort_key ≡ order ++ rest)

In-of_or :
    (t u : Text) (us : List Text)
    → (has_name t us ≡ true → In t us)
    → has_name t (u ∷ us) ≡ true
    → In t (u ∷ us)
In-of_or t u us ih h = elim (Bool-cases (is_text t u)) [
  | inl e ↦ inl ((is_text_iff t u).0 e)
  | inr e ↦ inr (ih (rw e at h))
]

or_of_In :
    (t u : Text) (us : List Text)
    → (In t us → has_name t us ≡ true)
    → In t (u ∷ us)
    → has_name t (u ∷ us) ≡ true
or_of_In t u us ih (inl e) = rw ((is_text_iff t u).1 e) refl
or_of_In t u us ih (inr m) = rw (ih m) (or_true (is_text t u))

pub has_name_iff : (t : Text) (us : List Text) → (has_name t us ≡ true) ↔ In t us
has_name_iff t [] = (λ h. elim (false_ne_true h) [ ], λ h. elim h [ ])
has_name_iff t (u ∷ us) =
    (In-of_or t u us (has_name_iff t us).0, or_of_In t u us (has_name_iff t us).1)

all_in_iff : (ts us : List Text) → (all_in ts us ≡ true) ↔ AllIn ts us
unfolding all_in
all_in_iff [] us = (λ h. tt, λ h. refl)
all_in_iff (t ∷ ts) us = (
  λ h. let (a, b) = (and_iff _ _).0 h in ((has_name_iff t us).0 a, (all_in_iff ts us).0 b),
  λ m. (and_iff _ _).1 ((has_name_iff t us).1 m.0, (all_in_iff ts us).1 m.1),
)

no_shard_key : (b : Text) (by : Columns) → ShardFits (b ∷ by) [] → ◌≡◌ {A = Bool} false true
no_shard_key b by (inl e) = cc
no_shard_key b by (inr (ne, m)) = absurd (ne refl)

ShardFits-back :
    (b k : Text) (by ks : List Text) → ShardFits (b ∷ by) (k ∷ ks) → all_in (k ∷ ks) (b ∷ by) ≡ true
ShardFits-back b k by ks (inl e) = cc
ShardFits-back b k by ks (inr (ne, m)) = (all_in_iff (k ∷ ks) (b ∷ by)).1 m

shard_key_fits_iff :
    (by : Columns) (ks : List Text) → (shard_key_fits by ks ≡ true) ↔ ShardFits by ks
unfolding shard_key_fits all_in
shard_key_fits_iff [] ks = (λ h. inl refl, λ h. refl)
shard_key_fits_iff (b ∷ by) [] = (λ h. elim (false_ne_true h) [ ], λ h. no_shard_key b by h)
shard_key_fits_iff (b ∷ by) (k ∷ ks) = (
  λ h. inr (λ e. false_ne_true (cc), (all_in_iff (k ∷ ks) (b ∷ by)).0 h),
  ShardFits-back b k by ks,
)

SortFits-forth :
    (o k : Text) (order ks : List Text)
    → (sort_key_fits order ks ≡ true → SortFits order ks)
    → (is_text k o && sort_key_fits order ks) ≡ true
    → SortFits (o ∷ order) (k ∷ ks)
SortFits-forth o k order ks ih h =
    let (a, b) = (and_iff _ _).0 h in
    let same = (is_text_iff k o).0 a in let (rest, e) = ih b in (rest, cc)

SortFits-back :
    (o k : Text) (order ks : List Text)
    → (SortFits order ks → sort_key_fits order ks ≡ true)
    → SortFits (o ∷ order) (k ∷ ks)
    → (is_text k o && sort_key_fits order ks) ≡ true
SortFits-back o k order ks ih (rest, e) = (and_iff _ _).1 ((is_text_iff k o).1 (cc), ih (rest, cc))

sort_key_fits_iff :
    (order : Columns) (ks : List Text) → (sort_key_fits order ks ≡ true) ↔ SortFits order ks
unfolding sort_key_fits
sort_key_fits_iff [] ks = (λ h. (ks, refl), λ h. refl)
sort_key_fits_iff (o ∷ order) [] = (λ h. elim (false_ne_true h) [ ], λ h. let (rest, e) = h in cc)
sort_key_fits_iff (o ∷ order) (k ∷ ks) = (
  SortFits-forth o k order ks (sort_key_fits_iff order ks).0,
  SortFits-back o k order ks (sort_key_fits_iff order ks).1,
)

chosen_iff :
    (fits materialized : Bool)
    → ((if fits then original_table else created_table materialized) ≡ original_table)
      ↔ (fits ≡ true)
unfolding created_table
chosen_iff true m = (λ h. refl, λ h. refl)
chosen_iff false true = (λ h. cc, λ h. cc)
chosen_iff false false = (λ h. cc, λ h. cc)

chosen_else :
    (fits materialized : Bool)
    → (if fits then original_table else created_table materialized) ≢ original_table
    → (if fits then original_table else created_table materialized)
      ≡ (if materialized then column_store_table else result_table)
unfolding created_table
chosen_else true m h = absurd (h refl)
chosen_else false m h = refl

module _ (by order : Columns) (keys : TableKeys) (simple : Bool) where
  abbrev fits_all : Bool
  fits_all = shard_key_fits by keys.shard_key && sort_key_fits order keys.sort_key && simple

  fits_parts :
      fits_all ≡ true → ShardFits by keys.shard_key × SortFits order keys.sort_key × (simple ≡ true)
  fits_parts h =
      let (ab, c) = (and_iff _ _).0 h in
      let (a, b) = (and_iff _ _).0 ab in
      ((shard_key_fits_iff by keys.shard_key).0 a, (sort_key_fits_iff order keys.sort_key).0 b, c)

  fits_whole :
      ShardFits by keys.shard_key → SortFits order keys.sort_key → simple ≡ true → fits_all ≡ true
  fits_whole a b c = (and_iff _ _).1 (
    (and_iff _ _).1
        ((shard_key_fits_iff by keys.shard_key).1 a, (sort_key_fits_iff order keys.sort_key).1 b),
    c,
  )

-- When the keys of the source table and the plan of the query are answered, GetParallelReadType of
-- an unknown type gives the original table exactly if there are no columns to partition by or the
-- shard key is not empty and consists of such columns, the columns to sort by are the start of the
-- sort key, and the plan is simple; otherwise it gives a column store table if the table may be
-- materialized, and a result table if not.
pub get_parallel_read_type_lem :
    (server : Server) (db select table : Text) (materialized : Bool) (by order : Columns)
    (keys : TableKeys) (simple : Bool)
    → get_table_keys server db table ≡ ok keys
    → check_explain_operations server select ≡ ok simple
    → (type : ParallelReadType) × (get_parallel_read_type server db select
          (some table)
          materialized
          by
          order
          unknown
        ≡ ok type)
      × ((type ≡ original_table)
          ↔ (ShardFits by keys.shard_key × SortFits order keys.sort_key × (simple ≡ true)))
      × ((type ≢ original_table)
          → type ≡ (if materialized then column_store_table else result_table))
unfolding get_parallel_read_type created_table
get_parallel_read_type_lem server db select table materialized by order keys simple hk hs =
    let fits = shard_key_fits by keys.shard_key && sort_key_fits order keys.sort_key && simple in
    (
      if fits then original_table else created_table materialized,
      rw (hk, hs) refl,
      (
        λ h. fits_parts by order keys simple ((chosen_iff fits materialized).0 h),
        λ (shard, sort, e).
            (chosen_iff fits materialized).1 (fits_whole by order keys simple shard sort e),
      ),
      chosen_else fits materialized,
    )
