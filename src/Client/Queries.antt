-- ===== src/Client/Queries.antt =====
-- The queue and the query of every reader of CreateChunkQueue (queue/multi_pass_queue.cpp,
-- queue/streaming_queue.cpp).
use sas_libclient.Base.{
  ℕ, zero, suc, ◌+◌, ◌^◌, ◌<◌, ◌≤◌, ◌≡◌, ◌≢◌, refl, ap, sym, ◌∙◌, Bool, true, false, List, [], ◌∷◌,
  none, some, if◌then◌else◌, length, get_elem?, get_or, get_elem?_below, Text, text, ℤ, pos, negsuc,
  Outcome, ok, ◌>>=◌, arith, lt→ltb,
}
use mathlib.Core.Path.{subst}
use sas_libclient.Client.State.{Client}
use sas_libclient.Client.Readers.{NewReader, ReadQuery, query, Setup, consumer_of}
use sas_libclient.Client.Queues.{
  Request, queue_loop, multi_pass_query, streaming_query, reader_query,
}
use sas_libclient.Client.Created.{Ready, Fits, AllReady, AllFit}
use sas_libclient.Partition.Deal.{consumer_partitions-Lists}
use sas_libclient.Partition.Owned.{owner}
use sas_libclient.Server.Catalog.{TableKeys}
use sas_libclient.Server.ReadType.{
  ParallelReadType, result_table, original_table, column_store_table, unknown,
}
use sas_libclient.Sql.Queries.{make_read_result_table_query}
use sas_libclient.Sql.Versions.{compare_versions}

-- From lists to their elements.
none_ne_some : (p : ℤ) → none ≢ some p
none_ne_some p e = cc

pub AllReady-of-each :
    (s : Setup) (ps : List ℤ)
    → ((k : ℕ) (p : ℤ) → get_elem? ps k ≡ some p → Ready s p)
    → AllReady s ps
AllReady-of-each s [] each = tt
AllReady-of-each s (p ∷ ps) each = (each 0 p refl, AllReady-of-each s ps (λ k. each (suc k)))

pub AllFit-at :
    (s : Setup) (ps : List ℤ) (rs : List NewReader) (k : ℕ) (p : ℤ)
    → AllFit s ps rs
    → get_elem? ps k ≡ some p
    → (r : NewReader) × (get_elem? rs k ≡ some r) × Fits s p r
AllFit-at s [] rs k p fit e = absurd (none_ne_some p e)
AllFit-at s (q ∷ ps) [] k p fit e = elim fit [ ]
AllFit-at s (q ∷ ps) (r ∷ rs) zero p fit e =
    let same : q ≡ p = cc in (r, refl, subst (λ x. Fits s x r) same fit.0)
AllFit-at s (q ∷ ps) (r ∷ rs) (suc k) p fit e = AllFit-at s ps rs k p fit.1 e

pub AllFit-above :
    (s : Setup) (ps : List ℤ) (rs : List NewReader) (k : ℕ)
    → AllFit s ps rs
    → get_elem? ps k ≡ none
    → get_elem? rs k ≡ none
AllFit-above s [] [] k fit e = refl
AllFit-above s [] (r ∷ rs) k fit e = elim fit [ ]
AllFit-above s (q ∷ ps) [] k fit e = elim fit [ ]
AllFit-above s (q ∷ ps) (r ∷ rs) zero fit e = cc
AllFit-above s (q ∷ ps) (r ∷ rs) (suc k) fit e = AllFit-above s ps rs k fit.1 e

get_or-get_elem? : (xs : List ℤ) (i : ℕ) (x d : ℤ) → get_elem? xs i ≡ some x → get_or xs i d ≡ x
get_or-get_elem? [] i x d e = cc
get_or-get_elem? (y ∷ ys) zero x d e = cc
get_or-get_elem? (y ∷ ys) (suc i) x d e = get_or-get_elem? ys i x d e

-- The queue of a partition, from the table of owners.
pub consumer_of-owner :
    (table : List ℤ) (queues p m : ℕ)
    → p < length table
    → owner table p ≡ pos m
    → m < queues
    → consumer_of table queues p ≡ ok m
unfolding consumer_of
consumer_of-owner table queues p m below owned inside =
    let (x, e) = get_elem?_below table p below in
    let same : x ≡ pos m = sym (get_or-get_elem? table p x (negsuc 0) e) ∙ owned in
    rw (e ∙ ap (λ y. some y) same, consumer_of) (rw (lt→ltb m queues inside) refl)

-- A queue for each consumer.
pub queue_loop_total :
    (n c consumers : ℕ) (ps : List ℤ)
    → 0 < consumers
    → c + n ≤ 2 ^ 64
    → length ps + consumers < 2 ^ 64
    → (queues : List (List ℤ)) × (queue_loop n c (pos consumers) ps ≡ ok queues)
      × (length queues ≡ n)
unfolding queue_loop
queue_loop_total zero c consumers ps some_consumer room no_wrap = ([], refl, refl)
queue_loop_total (suc n) c consumers ps some_consumer room no_wrap =
    let (mine, dealt, at) =
      consumer_partitions-Lists consumers c ps some_consumer (omega arith) no_wrap in
    let (rest, returns, size) =
      queue_loop_total n (c + 1) consumers ps some_consumer (omega arith) no_wrap in
    (mine ∷ rest, rw (dealt, returns) refl, ap suc size)

pub ok_injective : (a b : List ℤ) → ok a ≡ ok b → a ≡ b
ok_injective a b e = cc

-- A read type that the code can make queries for.
abbrev pub Readable : ParallelReadType → Bool → Type 0
Readable result_table multi_pass = Unit {0}
Readable original_table multi_pass = Unit {0}
Readable column_store_table multi_pass = multi_pass ≡ true
Readable unknown multi_pass = ⊥

made_for : (m : Outcome ℤ) (q : Text) (order : ℤ) → m ≡ ok order → (m >>= λ o. ok q) ≡ ok q
made_for m q order e = rw e refl

result_query :
    (name version : Text) (order : ℤ) (p : ℕ)
    → compare_versions version (text "7.8.14") ≡ ok order
    → (q : Text) × (make_read_result_table_query name p version ≡ ok q)
unfolding make_read_result_table_query
result_query name version order p e =
    (_, made_for (compare_versions version (text "7.8.14")) _ order e)

multi_pass_query_total :
    (type : ParallelReadType) (r : Request) (keys : TableKeys) (version : Text) (order : ℤ) (p : ℕ)
    → Readable type true
    → compare_versions version (text "7.8.14") ≡ ok order
    → (q : Text) × (multi_pass_query type r keys version p ≡ ok (query q))
unfolding multi_pass_query
multi_pass_query_total result_table r keys version order p can e =
    let (q, made) = result_query r.result_table_name version order p e in (q, rw made refl)
multi_pass_query_total original_table r keys version order p can e = (_, refl)
multi_pass_query_total column_store_table r keys version order p can e = (_, refl)
multi_pass_query_total unknown r keys version order p can e = elim can [ ]

streaming_query_total :
    (type : ParallelReadType) (r : Request) (version : Text) (order : ℤ) (p : ℕ)
    → Readable type false
    → compare_versions version (text "7.8.14") ≡ ok order
    → (q : Text) × (streaming_query type r version p ≡ ok (query q))
unfolding streaming_query
streaming_query_total result_table r version order p can e =
    let (q, made) = result_query r.result_table_name version order p e in (q, rw made refl)
streaming_query_total original_table r version order p can e = (_, refl)
streaming_query_total column_store_table r version order p can e = cc
streaming_query_total unknown r version order p can e = elim can [ ]

chosen_query :
    (b : Bool) (m s : Outcome ReadQuery)
    → (b ≡ true → (q : Text) × (m ≡ ok (query q)))
    → (b ≡ false → (q : Text) × (s ≡ ok (query q)))
    → (q : Text) × ((if b then m else s) ≡ ok (query q))
chosen_query true m s f g = f refl
chosen_query false m s f g = g refl

pub reader_query_total :
    (r : Request) (keys : TableKeys) (client : Client) (order : ℤ) (p : ℕ)
    → Readable r.read_type r.is_multi_pass
    → compare_versions client.server_version (text "7.8.14") ≡ ok order
    → (q : Text) × (reader_query r keys client p ≡ ok (query q))
unfolding reader_query
reader_query_total r keys client order p can e =
    chosen_query r.is_multi_pass _ _
      (λ m.
        multi_pass_query_total r.read_type r keys client.server_version order p
          (subst (Readable r.read_type) m can) e)
      (λ m.
        streaming_query_total r.read_type r client.server_version order p
          (subst (Readable r.read_type) m can) e)
