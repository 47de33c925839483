-- ===== src/Query/Pooled.antt =====
-- src/handlers/query.rs: the search path, and the pinned one-shot transaction that a transaction-mode
-- pooler needs (`exec_query_pooled_txn`, `pin_pooled_txn`, `run_pinned_body`).
use tabularis_postgresql_plu.Query.Server.{Server, Result, ok, err}
use tabularis_postgresql_plu.Query.Client.{QueryResult, exec_query_on_client}
use tabularis_postgresql_plu.Base.{
  ℕ, Bool, true, false, ◌++◌, Option, none, some, Text, codes, if◌then◌else◌, get_or_else, is_nil,
  trim,
}
use tabularis_postgresql_plu.Identifiers.{quote_identifier}

unfoldable pub build_search_path_sql : Text → Text → Bool → Text
unfolding quote_identifier trim
build_search_path_sql schema current local =
    let kw = if local then codes "SET LOCAL search_path TO" else codes "SET search_path TO" in
    if is_nil (trim current)
    then kw ++ (codes " " ++ quote_identifier schema)
    else kw ++ (codes " " ++ (quote_identifier schema ++ (codes ", " ++ current)))

-- The environment of one one-shot query: the pool fails, or it gives a connection on which the query
-- ends in time or outlasts the bound.
pub data OneShot {ℓ} (S : Type ℓ) : Type ℓ where
  unavailable : Text → OneShot S
  stalled : S → OneShot S
  fresh : S → OneShot S

module _ (srv : Server) where
  open srv use {
    Session, Failure, prepare, batch_execute, read_search_path, format_pg_error, format_query_error,
  }

  unfoldable pub set_path :
      Text → Bool → Result Failure (Option Text × Text) × Session → Result Text (Unit {0}) × Session
  unfolding build_search_path_sql
  set_path schema local (err e, s) =
      (err (codes "Failed to read search_path: " ++ format_pg_error e), s)
  set_path schema local (ok (snapshot, live), s) =
      let (r, s') =
        batch_execute (build_search_path_sql schema (get_or_else snapshot live) local) s in
      elim r [
        | ok _ ↦ (ok tt, s')
        | err e ↦ (err (codes "Failed to set search_path: " ++ format_pg_error e), s')
      ]

  -- `apply_search_path`, and with `true` `apply_search_path_local`.
  unfoldable pub apply_search_path : Text → Bool → Session → Result Text (Unit {0}) × Session
  unfolding set_path
  apply_search_path schema local s = set_path schema local (read_search_path s)

  -- `if let Some(s) = schema { apply_search_path(..)? }`.
  unfoldable pub select_schema : Option Text → Bool → Session → Result Text (Unit {0}) × Session
  unfolding apply_search_path
  select_schema none local s = (ok tt, s)
  select_schema (some schema) local s = apply_search_path schema local s

  -- Behind the search path: resolve the types, run the query, clear the statements again.
  unfoldable pub pinned_query :
      (ℕ → Text)
      → Text
      → Option ℕ
      → ℕ
      → Result Text (Unit {0}) × Session
      → Result Text QueryResult × Session
  unfolding exec_query_on_client
  pinned_query table query limit page (err e, s) = (err e, s)
  pinned_query table query limit page (ok _, s) =
      let (r, s') = prepare query s in
      elim r [
        | err e ↦ (err (format_query_error e true), s')
        | ok stmt ↦
            let (outcome, t) = exec_query_on_client srv table query limit page true false true s' in
            (outcome.result, (batch_execute (codes "DEALLOCATE ALL") t).1)
      ]

  unfoldable pub run_pinned_body :
      (ℕ → Text) → Text → Option ℕ → ℕ → Option Text → Session → Result Text QueryResult × Session
  unfolding select_schema pinned_query
  run_pinned_body table query limit page schema s =
      let (r, s') = batch_execute (codes "DEALLOCATE ALL") s in
      elim r [
        | err e ↦ (err (codes "DEALLOCATE ALL failed: " ++ format_pg_error e), s')
        | ok _ ↦ pinned_query table query limit page (select_schema schema true s')
      ]

  -- `COMMIT` behind a result, `ROLLBACK` behind an error.
  unfoldable pub end_pin : Result Text QueryResult × Session → Result Text QueryResult × Session
  end_pin (ok value, s) =
      let (r, s') = batch_execute (codes "COMMIT") s in
      elim r [
        | ok _ ↦ (ok value, s')
        | err e ↦ (err (codes "COMMIT failed: " ++ format_pg_error e), s')
      ]
  end_pin (err e, s) = (err e, (batch_execute (codes "ROLLBACK") s).1)

  unfoldable pub pin_pooled_txn :
      (ℕ → Text) → Text → Option ℕ → ℕ → Option Text → Session → Result Text QueryResult × Session
  unfolding run_pinned_body end_pin
  pin_pooled_txn table query limit page schema s =
      let (r, s') = batch_execute (codes "BEGIN") s in
      elim r [
        | err e ↦ (err (format_pg_error e), s')
        | ok _ ↦ end_pin (run_pinned_body table query limit page schema s')
      ]

  abbrev pooled_timeout_message : Text
  pooled_timeout_message =
      codes
        "Query timed out after 90s on a transaction-mode pooler. This is the known #160/#163 failure mode when the pooler can't track prepared statements for non-builtin result column types (custom enums, composites, extension types). For PgBouncer, set `max_prepared_statements > 0` in pgbouncer.ini; for poolers without that setting, use a direct/session connection or the pooler's session mode. See: https://www.pgbouncer.org/config.html#max_prepared_statements"

  -- The client and its pool are dropped at the end, so only the result is left.
  unfoldable pub exec_query_pooled_txn :
      (ℕ → Text) → Text → Option ℕ → ℕ → Option Text → OneShot Session → Result Text QueryResult
  unfolding pin_pooled_txn
  exec_query_pooled_txn table query limit page schema (unavailable e) = err e
  exec_query_pooled_txn table query limit page schema (stalled s) = err pooled_timeout_message
  exec_query_pooled_txn table query limit page schema (fresh s) =
      (pin_pooled_txn table query limit page schema s).0
