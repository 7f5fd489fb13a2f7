-- ===== src/Client/RowRead.antt =====
-- A row that is asked for by its number, from the C function to the connection
-- (parallel_read.cpp, queue/multi_pass_queue.cpp, s2_connection.cpp).
use sas_libclient.Base.{
  ℕ, ◌<◌, ◌≡◌, ap, ◌∙◌, false, none, some, get_elem?, lt→leb, pos, ok, throws, S2ClientError,
  s2_error,
}
use sas_libclient.Client.Rows.{MultiPass, Outside, is_beyond}
use sas_libclient.Connection.SingleRow.{Answers}
use sas_libclient.Hdat.Memory.{Memory}
use sas_libclient.Queues.Collect.{Credentials, fill_credentials}
use sas_libclient.Server.Answers.{Server, connect}
use sas_libclient.Tsv.Field.{Field}

-- How the thread comes to a connection: it has one, the node of the partition can be connected to, or
-- the client's own node can.
pub data Reaches (env : Outside) (q : MultiPass) (partition thread : ℕ) : Credentials → Type 0 where
  cached :
      (c : Credentials)
      → get_elem? q.consumers thread ≡ some (some c)
      → Reaches env q partition thread c
  node :
      get_elem? q.consumers thread ≡ some none
      → connect env.server (fill_credentials q.aggregators partition q.credentials) ≡ ok tt
      → Reaches env q partition thread (fill_credentials q.aggregators partition q.credentials)
  own :
      (e : S2ClientError)
      → get_elem? q.consumers thread ≡ some none
      → connect env.server (fill_credentials q.aggregators partition q.credentials)
        ≡ throws (s2_error e)
      → connect env.server q.credentials ≡ ok tt
      → Reaches env q partition thread q.credentials

module _ (env : Outside) (q : MultiPass) (partition thread n : ℕ)
    (threads : q.consumer_threads_num ≡ pos n) (below : thread < n) where
  in_range : is_beyond q.consumer_threads_num thread ≡ false
  unfolding is_beyond
  in_range = ap (λ k. is_beyond k thread) threads ∙ lt→leb n thread below
