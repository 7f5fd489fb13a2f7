-- ===== src/Queues/Collect.antt =====
-- ChunkQueue::Get and MultiPassQueue::GetById after an empty queue (queue/chunk_queue.hpp,
-- queue/multi_pass_queue.cpp), ChunkQueue::StopReaders, and FillCredentials (utils.cpp).
use sas_libclient.Base.{
  ℕ, ◌%◌, ◌≡◌, refl, ◌∙◌, Bool, true, false, not, ◌||◌, List, [], ◌∷◌, ◌++◌, map, Option, none,
  some, ◌==◌, if◌then◌else◌, length, get_elem?, Text, text, S2ClientError, error_reader_failed,
  Bool-cases, inl, inr, is_text,
}

-- The loop over the readers, with their errors as GetError gives them.
unfoldable pub collect_errors : List S2ClientError → S2ClientError → S2ClientError
collect_errors [] err = err
collect_errors (cur ∷ rest) err =
    if cur.error_code == 0
    then collect_errors rest err
    else collect_errors rest (record {
      error_code = error_reader_failed;
      error_message = err.error_message ++ (text " - " ++ (cur.error_message ++ b'\n' ∷ []));
    })

abbrev pub clear_error : S2ClientError
clear_error = record { error_code = 0; error_message = [] }

-- The `err` argument that Get hands back with a null chunk; SetError keeps it if it has a code.
unfoldable pub get_error : List S2ClientError → S2ClientError
get_error readers =
    let err = collect_errors readers clear_error in
    if err.error_code == 0
    then err
    else record err { error_message = text "Some readers failed:\n" ++ err.error_message }

-- A reader as StopReaders sees it: still active, asked to stop, told to drop its statement.
pub record ReaderFlags : Type 0 where
  pub active : Bool
  pub stop_reading : Bool
  pub discard_statement : Bool

-- `none` is a null pointer in m_readers.
unfoldable pub any_active : List (Option ReaderFlags) → Bool
any_active [] = false
any_active (none ∷ rest) = any_active rest
any_active (some r ∷ rest) = r.active || any_active rest

abbrev on_reader : (ReaderFlags → ReaderFlags) → Option ReaderFlags → Option ReaderFlags
on_reader f none = none
on_reader f (some r) = some (f r)

unfoldable pub stop_readers : List (Option ReaderFlags) → List (Option ReaderFlags)
unfolding any_active
stop_readers readers =
    let stopped = map (on_reader (λ r. record r { stop_reading = true })) readers in
    if any_active readers
    then map (on_reader (λ r. record r { discard_statement = true })) stopped
    else stopped

-- Some reader has an error.
abbrev pub any_failed : List S2ClientError → Bool
any_failed [] = false
any_failed (cur ∷ rest) = not (cur.error_code == 0) || any_failed rest

collect_errors-code :
    (readers : List S2ClientError) (err : S2ClientError)
    → (collect_errors readers err).error_code
      ≡ (if any_failed readers then error_reader_failed else err.error_code)
unfolding collect_errors
collect_errors-code [] err = refl
collect_errors-code (cur ∷ rest) err = elim (Bool-cases (cur.error_code == 0)) [
  | inl e ↦ rw e (collect_errors-code rest err)
  | inr e ↦ rw e (collect_errors-code rest _ ∙ same (any_failed rest))
]
  where
    same :
        (b : Bool) → (if b then error_reader_failed else error_reader_failed) ≡ error_reader_failed
    same true = refl
    same false = refl

-- The error that Get hands back with a null chunk has the code S2C_ERROR_READER_FAILED if some
-- reader has an error, and 0 otherwise.
pub get_error-code :
    (readers : List S2ClientError)
    → (get_error readers).error_code ≡ (if any_failed readers then error_reader_failed else 0)
unfolding get_error
get_error-code readers =
    let code = collect_errors-code readers clear_error in
    elim (Bool-cases ((collect_errors readers clear_error).error_code == 0)) [
      | inl e ↦ rw e code
      | inr e ↦ rw e code
    ]

pub record Credentials : Type 0 where
  pub host : Text
  pub port : ℕ
  pub db : Text
  pub user : Text
  pub password : Text
  pub ssl_ca : Option Text

pub record AggregatorNode : Type 0 where
  pub host : Text
  pub port : ℕ
  pub external_host : Text
  pub external_port : ℕ

-- The `int` partition is not negative.
unfoldable pub fill_credentials : List AggregatorNode → ℕ → Credentials → Credentials
unfolding is_text
fill_credentials [] partition creds = creds
fill_credentials (a ∷ rest) partition creds =
    elim (get_elem? (a ∷ rest) (partition % length (a ∷ rest))) [
      | none ↦ creds
      | some node ↦ tcp (
          if length node.external_host == 0
          then record creds { host = node.host; port = node.port }
          else record creds { host = node.external_host; port = node.external_port })
    ]
  where
    -- The MySQL client would take "localhost" for the unix socket.
    tcp : Credentials → Credentials
    tcp creds =
        if is_text creds.host (text "localhost")
        then record creds { host = text "127.0.0.1" }
        else creds
