-- ===== src/Server/Answers.antt =====
-- The answers of the database, as the MySQL client library hands them over: a parameter of
-- S2Connection's functions (s2_connection.cpp).
use sas_libclient.Base.{
  ℕ, Bool, true, false, List, [], ◌∷◌, Option, none, some, ◌==◌, if◌then◌else◌, get_elem?, Text,
  text, ℤ, Outcome, ok, throws, fault, ◌>>=◌, S2ClientError, s2_error, s2_throw,
  error_unknown_failure,
}
use sas_libclient.Queues.Collect.{Credentials}

-- A row of a stored result: its values, `none` for NULL.
abbrev pub Row : Type 0
Row = List (Option Text)

-- The answers as long as the database does not change. `failure` is what mysql_errno and mysql_error
-- give after a mysql_query that fails; `stored` is the result of mysql_store_result (`none` is a
-- null pointer), and `store_failure` the error after a null pointer; `affected_rows` counts rows.
pub record Server : Type 0 where
  pub failure : Text → Option S2ClientError
  pub stored : Text → Option (List Row)
  pub store_failure : Text → S2ClientError
  pub affected_rows : Text → ℤ
  -- mysql_init, mysql_real_connect and mysql_stmt_init of a new connection.
  pub can_init : Bool
  pub connect_failure : Credentials → Option S2ClientError
  pub statement_failure : Credentials → Option S2ClientError

-- S2Connection::Connect.
unfoldable pub connect : Server → Credentials → Outcome (Unit {0})
connect server creds =
    if server.can_init
    then elim (server.connect_failure creds) [
      | some e ↦ throws (s2_error e)
      | none ↦ elim (server.statement_failure creds) [ some e ↦ throws (s2_error e) | none ↦ ok tt ]
    ]
    else s2_throw error_unknown_failure (text "Failed to init a connection using MySQL C client")

-- `row[i]`; past the end it is out of bounds.
unfoldable pub field : ℕ → Row → Outcome (Option Text)
field i row = elim (get_elem? row i) [ none ↦ fault | some value ↦ ok value ]

-- `row[i]` where the code does not expect NULL, and would go through a null pointer.
unfoldable pub value : ℕ → Row → Outcome Text
unfolding field
value i row = field i row >>= λ v. elim v [ none ↦ fault | some s ↦ ok s ]

-- `mysql_query` and the exception that the callers make of its failure.
unfoldable pub mysql_query : Server → Text → Outcome (Unit {0})
mysql_query server query = elim (server.failure query) [
  | none ↦ ok tt
  | some e ↦ throws (s2_error e)
]

-- The rows of a query, with the exception for a null result.
unfoldable pub query_rows : Server → Text → S2ClientError → Outcome (List Row)
unfolding mysql_query
query_rows server query no_result = mysql_query server query >>= λ done.
    elim (server.stored query) [ none ↦ throws (s2_error no_result) | some rows ↦ ok rows ]

-- `strncmp(s, p, strlen(p)) == 0`
unfoldable pub starts_with : Text → Text → Bool
starts_with [] s = true
starts_with (c ∷ cs) [] = false
starts_with (c ∷ cs) (d ∷ ds) = let rest = starts_with cs ds in if c == d then rest else false
