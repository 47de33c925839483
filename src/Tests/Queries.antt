-- ===== src/Tests/Queries.antt =====
-- Runs of the requests that execute statements.
use tabularis_postgresql_plu.Tests.Backend.{backend, fails_insert, call, begin_query, insert_query}
use tabularis_postgresql_plu.Query.Requests.{
  Env, exec_query, execute_in_session, execute_query_batch,
}
use tabularis_postgresql_plu.Query.Requests.Flag.{told_open, is_pinned, execute-told}
use tabularis_postgresql_plu.Query.Pooled.{fresh}
use tabularis_postgresql_plu.Query.Batch.{pooled}
use tabularis_postgresql_plu.Query.Server.{ok}
use tabularis_postgresql_plu.Statement.Keywords.{leading_keywords}
use tabularis_postgresql_plu.Statement.Effect.{in_transaction_after, transaction_effect}
use tabularis_postgresql_plu.Connections.{is_transaction_pooler, from_value}
use tabularis_postgresql_plu.Ddl.Requests.{inner_params}
use tabularis_postgresql_plu.Json.{
  pos_int, Value, number, string, array, object, nil, cons, end, field, get_str,
}
use tabularis_postgresql_plu.Base.{◌≡◌, refl, Bool, true, false, [], ◌∷◌, none, codes, text_eq}

abbrev env : Env Bool
env = record {
  table = λ c. c ∷ [];
  oneshot = λ _. fresh false;
  slot = none;
  acquired = ok false;
  elapsed = λ _. 0;
  handles = [];
}

abbrev params : Value
params = object (
    field (codes "query") (string begin_query) (
      field (codes "queries") (array (cons (string begin_query) (cons (string insert_query) nil)))
        (field (codes "session_id") (string (codes "tab")) end)))

abbrev id : Value
id = number (pos_int 4)

-- `BEGIN` leaves the transaction open, an `INSERT` that fails behind it ends it.
execute-told_example :
    (told_open (execute_in_session (backend fails_insert) env id params).0
      ≡ is_pinned (execute_in_session (backend fails_insert) env id params).1.connection)
    × (told_open (execute_query_batch (backend fails_insert) env id params).0
        ≡ is_pinned (execute_query_batch (backend fails_insert) env id params).1.connection)
unfolding get_str text_eq
execute-told_example = execute-told (backend fails_insert) env id params refl

told_begin : told_open (execute_in_session (backend fails_insert) env id params).0 ≡ true
unfolding told_open execute_in_session leading_keywords text_eq is_transaction_pooler from_value
    inner_params
told_begin = refl

-- A `BEGIN` without a session leaves its transaction open on the connection that the pool gets back.
begin_in_pool :
    (exec_query (backend fails_insert) call begin_query (ok false) []).connection ≡ pooled true
unfolding exec_query leading_keywords text_eq in_transaction_after transaction_effect
begin_in_pool = refl
