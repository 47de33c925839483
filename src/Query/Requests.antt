-- ===== src/Query/Requests.antt =====
-- src/handlers/query.rs: the requests `execute_query`, `execute_query_batch` and `explain_query`, from
-- their parameters to the reply, and `exec_query`, a statement without a session. The environment gives
-- the connections and the elapsed times, as the 64 bits of the float that is shown.
pub mod Flag
use tabularis_postgresql_plu.Connections.{from_value, is_transaction_pooler}
use tabularis_postgresql_plu.Query.Server.{Server, Result, ok, err}
use tabularis_postgresql_plu.Query.Client.{Page, QueryResult, QueryOutcome, exec_query_on_client}
use tabularis_postgresql_plu.Query.Replies.{
  session_reply, batch_reply, result_reply, explain_reply, explain_sql,
}
use tabularis_postgresql_plu.Query.Pooled.{OneShot, select_schema, exec_query_pooled_txn}
use tabularis_postgresql_plu.Query.Batch.{
  Handles, Call, Disposition, unacquired, pooled, Outcome, oneshot_handles, run_batch_in_session,
}
use tabularis_postgresql_plu.Cancel.{register, drop_guard}
use tabularis_postgresql_plu.Statement.Shape.{returns_result_set}
use tabularis_postgresql_plu.Rpc.{ok_response, error_response}
use tabularis_postgresql_plu.Ddl.Requests.{items, inner_params}
use tabularis_postgresql_plu.Json.{
  float, pos_int, Value, null, bool, number, string, array, object, Items, nil, cons, Fields, end,
  field, get, get_str, as_str, as_u64, as_bool,
}
use tabularis_postgresql_plu.Base.{
  ℕ, suc, ◌^◌, ◌%◌, Bool, true, false, ◌&&◌, not, List, [], ◌∷◌, ◌++◌, Option, none, some, ◌>>=◌,
  Text, codes, get_or_else, if◌then◌else◌, is_some,
}

-- `as u32`.
unfoldable pub as_u32 : ℕ → ℕ
as_u32 n = n % 2 ^ 32

unfoldable pub limit_of : Value → Option ℕ
unfolding get as_u64 as_u32
limit_of params = do n ← get params (codes "limit") >>= as_u64; some (as_u32 n)

unfoldable pub page_of : Value → ℕ
unfolding get as_u64 as_u32
page_of params = as_u32 (get_or_else (get params (codes "page") >>= as_u64) 1)

-- `filter_map(as_str)`.
unfoldable pub strings_of : Items → List Text
strings_of nil = []
strings_of (cons (string s) vs) = s ∷ strings_of vs
strings_of (cons _ vs) = strings_of vs

unfoldable pub as_array : Value → Option Items
as_array (array vs) = some vs
as_array _ = none

unfoldable pub queries_of : Value → List Text
unfolding strings_of as_array get
queries_of params = strings_of (get_or_else (get params (codes "queries") >>= as_array) nil)

abbrev pub query_of : Value → Text
query_of params = get_or_else (get_str params (codes "query")) []

abbrev pub session_of : Value → Option Text
session_of params = get_str params (codes "session_id")

-- What a request meets: the slot of its session, the pool, the one-shot connections and the clock.
pub record Env (S : Type 0) : Type 0 where
  pub table : ℕ → Text
  pub oneshot : ℕ → OneShot S
  pub slot : Option S
  pub acquired : Result Text S
  pub elapsed : ℕ → ℕ
  pub handles : Handles

unfoldable pub call_of : {S : Type 0} → Env S → Value → Value → Option ℕ → ℕ → Call S
call_of env id params limit page = record {
  table = env.table;
  pooler = is_transaction_pooler (from_value (inner_params params));
  limit = limit;
  page = page;
  schema = get_str params (codes "schema");
  request_id = as_u64 id;
  oneshot = env.oneshot;
}

abbrev pub slot_of : {S : Type 0} → Option Text → Option S → Option S
slot_of none slot = none
slot_of (some sid) slot = slot

-- A statement without a session: its result, its connection, and the registry behind it.
pub record SingleRun (S : Type 0) : Type 0 where
  pub result : Result Text QueryResult
  pub connection : Disposition S
  pub handles : Handles

module _ (srv : Server) where
  open srv use {Session, cancel_token}

  unfoldable pub single_done : Option ℕ → Handles → QueryOutcome × Session → SingleRun Session
  unfolding drop_guard
  single_done id h (outcome, s) = record {
    result = outcome.result;
    connection = pooled s;
    handles = drop_guard id h;
  }

  -- Behind the search path.
  unfoldable pub single_on :
      Call Session → Text → Handles → Result Text (Unit {0}) × Session → SingleRun Session
  unfolding single_done exec_query_on_client drop_guard
  single_on call query h (err e, s) = record {
    result = err e;
    connection = pooled s;
    handles = drop_guard call.request_id h;
  }
  single_on call query h (ok _, s) = single_done call.request_id h (
      exec_query_on_client srv call.table query call.limit call.page call.pooler (not call.pooler)
        false s)

  unfoldable pub single_acquired :
      Call Session → Text → Handles → Result Text Session → SingleRun Session
  unfolding single_on select_schema register
  single_acquired call query h (err e) = record {
    result = err e;
    connection = unacquired;
    handles = h;
  }
  single_acquired call query h (ok s) =
      single_on call query (register call.request_id (cancel_token s) h)
        (select_schema srv call.schema false s)

  unfoldable pub exec_query :
      Call Session → Text → Result Text Session → Handles → SingleRun Session
  unfolding single_acquired exec_query_pooled_txn oneshot_handles returns_result_set
  exec_query call query acquired h =
      if call.pooler && returns_result_set call.table query
      then record {
        result =
            exec_query_pooled_txn srv call.table query call.limit call.page call.schema
              (call.oneshot 0);
        connection = unacquired;
        handles = oneshot_handles srv call.request_id (call.oneshot 0) h;
      }
      else single_acquired call query h acquired

  -- The batch of a request, with the slot of its session if it has one.
  unfoldable pub run_request : Env Session → Value → Value → List Text → Outcome Session
  unfolding run_batch_in_session call_of limit_of page_of get_str
  run_request env id params queries =
      run_batch_in_session srv (call_of env id params (limit_of params) (page_of params)) queries
        (is_some (session_of params)) (slot_of (session_of params) env.slot) env.acquired
        env.handles

  unfoldable pub execute_query_batch : Env Session → Value → Value → Value × Outcome Session
  unfolding run_request batch_reply queries_of get_str
  execute_query_batch env id params =
      let out = run_request env id params (queries_of params) in
      (batch_reply id env.elapsed (session_of params) out.reply, out)

  unfoldable pub execute_in_session : Env Session → Value → Value → Value × Outcome Session
  unfolding run_request session_reply get_str
  execute_in_session env id params =
      let out = run_request env id params (query_of params ∷ []) in
      (session_reply id out.reply, out)

  unfoldable pub execute_alone : Env Session → Value → Value → Value × SingleRun Session
  unfolding exec_query result_reply call_of limit_of page_of get_str
  execute_alone env id params =
      let out =
        exec_query (call_of env id params (limit_of params) (page_of params)) (query_of params)
          env.acquired env.handles in
      (result_reply id out.result, out)

  -- The reply of `execute_query`, by the two branches.
  unfoldable pub execute_query : Env Session → Value → Value → Value
  unfolding execute_in_session execute_alone get_str
  execute_query env id params =
      if is_some (session_of params)
      then (execute_in_session env id params).0
      else (execute_alone env id params).0

  unfoldable pub explain_query :
      (Value → Text) → Env Session → Value → Value → Value × SingleRun Session
  unfolding exec_query explain_reply explain_sql call_of get as_bool get_str
  explain_query to_string env id params =
      let analyze = get_or_else (get params (codes "analyze") >>= as_bool) false in
      let out =
        exec_query (call_of env id params none 1) (explain_sql analyze (query_of params))
          env.acquired env.handles in
      (explain_reply to_string id (query_of params) out.result, out)
