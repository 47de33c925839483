-- ===== src/Query/Client.antt =====
-- src/handlers/query.rs, `exec_query_on_client` and its helpers. The function of the source is cut at
-- its early returns: `write_on_client`, `pre_resolve`, `read_prepared`, `fetch_rows`, `fetched`, `rows_reply`, `full_result`.
mod Outcome
unfoldable pub use Outcome.*
use tabularis_postgresql_plu.Query.Server.{Server, Result, ok, err, Timed, elapsed, in_time}
use tabularis_postgresql_plu.Base.{
  ℕ, Bool, true, false, ◌&&◌, ◌||◌, not, List, [], ◌∷◌, ◌++◌, Option, none, some, Text, codes, map,
  ltb, if◌then◌else◌, length, take,
}
use tabularis_postgresql_plu.Json.{Value}
use tabularis_postgresql_plu.Pagination.{build_paginated_query}
use tabularis_postgresql_plu.Statement.Effect.{
  TransactionEffect, opens, closes, chains, unchanged, transaction_effect, in_transaction_after,
}
use tabularis_postgresql_plu.Statement.Shape.{returns_result_set, supports_trailing_limit_clause}

module _ (srv : Server) where
  open srv use {
    Session, Failure, Row, Statement, execute_typed, query_typed, prepare, batch_execute,
    query_in_time, prepare_in_time, statement_columns, row_columns, row_values, is_db_error,
    format_pg_error, format_query_error,
  }

  unfoldable pub error_aborted_open_txn : Failure → Bool → Bool
  unfolding error_aborts_open_txn_inner
  error_aborted_open_txn e in_transaction =
      error_aborts_open_txn_inner (is_db_error e) in_transaction

  -- Whether the handler rolls back after an execute-time error of `query`.
  unfoldable pub aborts : Failure → Text → Bool → Bool
  unfolding error_aborted_open_txn ends_transaction
  aborts e query in_transaction =
      error_aborted_open_txn e in_transaction && not (ends_transaction (transaction_effect query))

  -- `if txn_aborted { batch_execute("ROLLBACK") }`, whose failure is only logged.
  unfoldable pub rollback_if : Bool → Session → Session
  rollback_if true s = (batch_execute (codes "ROLLBACK") s).1
  rollback_if false s = s

  abbrev explain_abort : Text → Bool → Text
  explain_abort message aborted = if aborted then message ++ rolled_back else message

  -- The branch of a statement with no result set.
  unfoldable pub write_done : Text → Bool → Result Failure ℕ × Session → QueryOutcome × Session
  unfolding aborts rollback_if
  write_done query in_transaction (ok affected, s) = (
    succeeded (record {
      columns = [];
      rows = [];
      affected_rows = affected;
      truncated = false;
      pagination = none;
    }),
    s,
  )
  write_done query in_transaction (err e, s) =
      let aborted = aborts e query in_transaction in
      (failed (explain_abort (format_pg_error e) aborted) aborted, rollback_if aborted s)

  unfoldable pub write_on_client : Text → Bool → Session → QueryOutcome × Session
  unfolding write_done
  write_on_client query in_transaction s = write_done query in_transaction (execute_typed query s)

  -- The pre-resolve `prepare`.
  abbrev pub prepared_of : Result Failure Statement → Prepared Failure Statement
  prepared_of (ok stmt) = prepared stmt
  prepared_of (err e) = prepare_err e

  unfoldable pub pre_resolve : Text → Bool → Session → Prepared Failure Statement × Session
  pre_resolve final_query true s = let (r, s') = prepare final_query s in (prepared_of r, s')
  pre_resolve final_query false s = (skipped, s)

  abbrev timeout_message : Text
  timeout_message =
      codes
        "Query timed out after 90s. The pre-resolve `prepare` failed and the subsequent data fetch did not complete within the plugin's bound; the connection has been released. Re-run the query, or if it reproduces, check whether the result column types (enums, composites, extension types) are resolvable on this connection."

  abbrev names : Timed (Result Failure Statement) → List Text
  names (in_time (ok stmt)) = statement_columns stmt
  names (in_time (err e)) = []
  names elapsed = []

  abbrev names_now : Result Failure Statement → List Text
  names_now (ok stmt) = statement_columns stmt
  names_now (err e) = []

  -- The column names of an empty result.
  unfoldable pub discover_columns :
      Prepared Failure Statement → Bool → Text → Session → List Text × Session
  discover_columns (prepared stmt) pre_resolve_types final_query s = (statement_columns stmt, s)
  discover_columns skipped true final_query s =
      let (r, s') = prepare final_query s in (names_now r, s')
  discover_columns (prepare_err e) true final_query s =
      let (r, s') = prepare_in_time final_query s in (names r, s')
  discover_columns skipped false final_query s = ([], s)
  discover_columns (prepare_err e) false final_query s = ([], s)

  unfoldable pub full_result : Plan → ℕ → List Text → List Row → QueryOutcome
  full_result plan page columns rows =
      let truncated = elim (row_cap plan) as (λ _. Bool) [
        | none ↦ false
        | some c ↦ ltb c (length rows)
      ] in
      let kept : List Row = elim (row_cap plan) [
        | none ↦ rows
        | some c ↦ if truncated then take c rows else rows
      ] in
      succeeded (record {
        columns = columns;
        rows = map row_values kept;
        affected_rows = 0;
        truncated = truncated;
        pagination = page_of plan page truncated;
      })

  -- The reply for the rows of a fetch; `columns` of a non-empty result are those of its first row.
  unfoldable pub rows_reply :
      Plan → ℕ → Prepared Failure Statement → Bool → List Row → Session → QueryOutcome × Session
  unfolding discover_columns full_result
  rows_reply plan page prep pre_resolve_types [] s =
      let (columns, s') = discover_columns prep pre_resolve_types plan.final_query s in
      (
        succeeded (record {
          columns = columns;
          rows = [];
          affected_rows = 0;
          truncated = false;
          pagination = page_of plan page false;
        }),
        s',
      )
  rows_reply plan page prep pre_resolve_types (row ∷ rows) s =
      (full_result plan page (row_columns row) (row ∷ rows), s)

  -- The fetch: bounded in time if the pre-resolve failed.
  unfoldable pub fetch_rows :
      Prepared Failure Statement → Text → Session → Timed (Result Failure (List Row)) × Session
  fetch_rows (prepare_err e) final_query s = query_in_time final_query s
  fetch_rows skipped final_query s = let (r, s') = query_typed final_query s in (in_time r, s')
  fetch_rows (prepared stmt) final_query s =
      let (r, s') = query_typed final_query s in (in_time r, s')

  unfoldable pub fetched :
      Text
      → Bool
      → Bool
      → Bool
      → Plan
      → ℕ
      → Prepared Failure Statement
      → Timed (Result Failure (List Row)) × Session
      → QueryOutcome × Session
  unfolding rows_reply aborts rollback_if
  fetched query is_transaction_pooler pre_resolve_types in_transaction plan page prep (elapsed, s) =
      (failed timeout_message false, s)
  fetched query is_transaction_pooler pre_resolve_types in_transaction plan page prep
        (in_time (err e), s) =
      let aborted = aborts e query in_transaction in
      (
        failed (explain_abort (format_query_error e is_transaction_pooler) aborted) aborted,
        rollback_if aborted s,
      )
  fetched query is_transaction_pooler pre_resolve_types in_transaction plan page prep
        (in_time (ok rows), s) =
      rows_reply plan page prep pre_resolve_types rows s

  -- Behind the pre-resolve: its failure inside a transaction rolls back and returns.
  unfoldable pub read_prepared :
      Text
      → Bool
      → Bool
      → Bool
      → Plan
      → ℕ
      → Prepared Failure Statement × Session
      → QueryOutcome × Session
  unfolding fetched fetch_rows should_short_circuit_on_prepare_err
  read_prepared query is_transaction_pooler pre_resolve_types in_transaction plan page
        (prepare_err e, s) =
      if should_short_circuit_on_prepare_err in_transaction
      then (
        failed (format_query_error e is_transaction_pooler ++ rolled_back) true,
        (batch_execute (codes "ROLLBACK") s).1,
      )
      else fetched query is_transaction_pooler pre_resolve_types in_transaction plan page
          (prepare_err e) (fetch_rows (prepare_err e) plan.final_query s)
  read_prepared query is_transaction_pooler pre_resolve_types in_transaction plan page
        (skipped, s) =
      fetched query is_transaction_pooler pre_resolve_types in_transaction plan page skipped
        (fetch_rows skipped plan.final_query s)
  read_prepared query is_transaction_pooler pre_resolve_types in_transaction plan page
        (prepared stmt, s) =
      fetched query is_transaction_pooler pre_resolve_types in_transaction plan page (prepared stmt)
        (fetch_rows (prepared stmt) plan.final_query s)

  -- `exec_query_on_client`.
  unfoldable pub exec_query_on_client :
      (ℕ → Text) → Text → Option ℕ → ℕ → Bool → Bool → Bool → Session → QueryOutcome × Session
  unfolding write_on_client returns_result_set plan_query pre_resolve read_prepared
  exec_query_on_client table query limit page is_transaction_pooler pre_resolve_types in_transaction
        s =
      if returns_result_set table query
      then (let plan = plan_query table query limit page in
          read_prepared query is_transaction_pooler pre_resolve_types in_transaction plan page
            (pre_resolve plan.final_query pre_resolve_types s))
      else write_on_client query in_transaction s
