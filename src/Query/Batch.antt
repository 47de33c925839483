-- ===== src/Query/Batch.antt =====
-- src/handlers/query.rs, `run_batch_in_session`: the statements of a batch on one connection, the
-- session's pinned one if it has one. Threaded through are the connection, the two flags, the results
-- and the registry of cancel actions; elapsed times are left out of the results.
pub mod Sync
pub mod Handles
use tabularis_postgresql_plu.Query.Server.{Server, Result, ok, err, is_ok}
use tabularis_postgresql_plu.Query.Client.{
  QueryResult, QueryOutcome, exec_query_on_client, in_transaction_after_outcome,
}
use tabularis_postgresql_plu.Query.Pooled.{
  OneShot, unavailable, stalled, fresh, select_schema, exec_query_pooled_txn,
}
use tabularis_postgresql_plu.Cancel.{register, drop_guard}
use tabularis_postgresql_plu.Statement.Effect.{transaction_effect}
use tabularis_postgresql_plu.Statement.Shape.{returns_result_set, sets_session_local_state}
use tabularis_postgresql_plu.Base.{
  ℕ, ◌≡◌, refl, Bool, true, false, ◌&&◌, ◌||◌, not, List, [], ◌∷◌, ◌++◌, Option, none, some, Text,
  if◌then◌else◌, length, codes,
}

abbrev pub Handles : Type 0
Handles = List (ℕ × ℕ)

-- The arguments of the call, with the environment's one-shot connections: the one that the statement
-- behind `n` results gets.
pub record Call (S : Type 0) : Type 0 where
  pub table : ℕ → Text
  pub pooler : Bool
  pub limit : Option ℕ
  pub page : ℕ
  pub schema : Option Text
  pub request_id : Option ℕ
  pub oneshot : ℕ → OneShot S

-- The variables of the loop.
pub record Run (S : Type 0) : Type 0 where
  pub client : S
  pub in_transaction : Bool
  pub session_state_set : Bool
  pub results : List (Result Text QueryResult)
  pub handles : Handles

-- Where the connection is at the end: never acquired, kept in the session's slot, or back in the pool.
pub data Disposition (S : Type 0) : Type 0 where
  unacquired : Disposition S
  pinned : S → Disposition S
  pooled : S → Disposition S

pub record Outcome (S : Type 0) : Type 0 where
  pub reply : Result Text (List (Result Text QueryResult) × Bool)
  pub connection : Disposition S
  pub handles : Handles

module _ (srv : Server) where
  open srv use {Session, batch_execute, cancel_token}

  -- The registry behind a one-shot query: its guard is made and dropped inside.
  unfoldable pub oneshot_handles : Option ℕ → OneShot Session → Handles → Handles
  unfolding register drop_guard
  oneshot_handles id (unavailable e) h = h
  oneshot_handles id (stalled s) h = drop_guard id (register id (cancel_token s) h)
  oneshot_handles id (fresh s) h = drop_guard id (register id (cancel_token s) h)

  -- Behind a statement: the flags, and the result at the end of the list.
  unfoldable pub record_outcome :
      Run Session → Text → QueryOutcome × Session → Handles → Run Session
  unfolding in_transaction_after_outcome transaction_effect sets_session_local_state
  record_outcome r query (outcome, s) h = record {
    client = s;
    in_transaction =
        in_transaction_after_outcome (transaction_effect query) (is_ok outcome.result)
          r.in_transaction outcome.txn_aborted;
    session_state_set =
        (is_ok outcome.result && sets_session_local_state query) || r.session_state_set;
    results = r.results ++ outcome.result ∷ [];
    handles = h;
  }

  -- A statement on the connection of the batch.
  unfoldable pub on_client : Call Session → Run Session → Text → Bool → Run Session
  unfolding record_outcome exec_query_on_client
  on_client call r query pre_resolve_types =
      record_outcome r query
        (exec_query_on_client srv call.table query call.limit call.page call.pooler
          pre_resolve_types r.in_transaction r.client)
        r.handles

  -- A statement in a one-shot transaction of its own; the guard of the batch is dropped for its time.
  unfoldable pub on_oneshot : Call Session → Run Session → Text → Run Session
  unfolding record_outcome exec_query_pooled_txn oneshot_handles register drop_guard
  on_oneshot call r query =
      let shot = call.oneshot (length r.results) in
      record_outcome r query
        (
          record {
            result =
                exec_query_pooled_txn srv call.table query call.limit call.page call.schema shot;
            txn_aborted = false;
          },
          r.client,
        )
        (register call.request_id (cancel_token r.client)
          (oneshot_handles call.request_id shot (drop_guard call.request_id r.handles)))

  unfoldable pub run_statement : Call Session → Run Session → Text → Run Session
  unfolding on_client on_oneshot returns_result_set
  run_statement call r query =
      if call.pooler && returns_result_set call.table query
      then if r.in_transaction || r.session_state_set
        then on_client call r query true
        else on_oneshot call r query
      else on_client call r query (not call.pooler)

  unfoldable pub run_statements : Call Session → List Text → Run Session → Run Session
  unfolding run_statement
  run_statements call [] r = r
  run_statements call (query ∷ queries) r = run_statements call queries (run_statement call r query)

  -- Behind the loop: the guard is dropped, and an open transaction is pinned or rolled back.
  unfoldable pub settle : Option ℕ → Bool → Run Session → Outcome Session
  unfolding drop_guard
  settle id has_session r = record {
    reply = ok (r.results, r.in_transaction);
    connection =
        if r.in_transaction
        then if has_session
          then pinned r.client
          else pooled (batch_execute (codes "ROLLBACK") r.client).1
        else pooled r.client;
    handles = drop_guard id r.handles;
  }

  abbrev pub start : Session → Bool → Handles → Run Session
  start s reused h = record {
    client = s;
    in_transaction = reused;
    session_state_set = false;
    results = [];
    handles = h;
  }

  -- Behind the search path; its error leaves through `?`.
  unfoldable pub run_batch :
      Call Session → List Text → Bool → Handles → Result Text (Unit {0}) × Session → Outcome Session
  unfolding run_statements settle drop_guard
  run_batch call queries has_session h (err e, s) = record {
    reply = err e;
    connection = pooled s;
    handles = drop_guard call.request_id h;
  }
  run_batch call queries has_session h (ok _, s) =
      settle call.request_id has_session (run_statements call queries (start s false h))

  -- `pinned_client` is what the session's slot held, `acquired` what the pool gives otherwise.
  unfoldable pub run_batch_in_session :
      Call Session
      → List Text
      → Bool
      → Option Session
      → Result Text Session
      → Handles
      → Outcome Session
  unfolding run_batch run_statements settle select_schema register
  run_batch_in_session call queries has_session (some s) acquired h =
      settle call.request_id has_session
        (run_statements call queries (start s true (register call.request_id (cancel_token s) h)))
  run_batch_in_session call queries has_session none (err e) h = record {
    reply = err e;
    connection = unacquired;
    handles = h;
  }
  run_batch_in_session call queries has_session none (ok s) h =
      run_batch call queries has_session (register call.request_id (cancel_token s) h)
        (select_schema srv call.schema false s)
