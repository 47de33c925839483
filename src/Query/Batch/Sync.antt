-- ===== src/Query/Batch/Sync.antt =====
-- The flag `in_transaction` of a batch against the backend: what is assumed of PostgreSQL, and that
-- the flag follows the backend through every statement.
pub mod Statements
pub mod Disposal
use tabularis_postgresql_plu.Query.Server.{Server, Result, ok, err, is_ok, Timed, elapsed, in_time}
use tabularis_postgresql_plu.Query.Client.{
  Plan, plan_query, QueryOutcome, ends_transaction, in_transaction_after_outcome,
}
use tabularis_postgresql_plu.Query.Pooled.{build_search_path_sql}
use tabularis_postgresql_plu.Query.Batch.{Call}
use tabularis_postgresql_plu.Statement.Keywords.{leading_keywords}
use tabularis_postgresql_plu.Statement.Effect.{unchanged, transaction_effect, in_transaction_after}
use tabularis_postgresql_plu.Statement.Shape.{returns_result_set}
use tabularis_postgresql_plu.Base.{◌≡◌, ◌≢◌, Bool, true, false, [], Text, codes}

module _ {S : Type 0} (block : S → Bool) where
  -- A statement that succeeds has its effect; one that fails outside a transaction opens none.
  abbrev pub Ran {ℓ κ} : {E : Type ℓ} {A : Type κ} → Text → Bool → Result E A × S → Type 0
  Ran q before (ok a, t) = block t ≡ in_transaction_after (transaction_effect q) true before
  Ran q before (err e, t) = before ≡ false → block t ≡ false

  -- A step that is no transaction control: it keeps the state if it succeeds.
  abbrev pub Kept {ℓ κ} : {E : Type ℓ} {A : Type κ} → Bool → Result E A × S → Type 0
  Kept before (ok a, t) = block t ≡ before
  Kept before (err e, t) = before ≡ false → block t ≡ false

  -- A failing statement leaves no transaction behind.
  abbrev pub Ended {ℓ κ} : {E : Type ℓ} {A : Type κ} → Result E A × S → Type 0
  Ended (ok a, t) = Unit {0}
  Ended (err e, t) = block t ≡ false

-- PostgreSQL's side: `block s` says that the backend of `s` lives and is inside a transaction block.
-- `ROLLBACK` leaves the block, and statements that are no transaction control neither enter nor
-- leave one.
pub record Transactions (srv : Server) : Type 0 where
  pub block : Server.Session srv → Bool
  pub executed :
      (q : Text) (s : Server.Session srv)
      → leading_keywords q 6 ≢ []
      → Ran block q (block s) (Server.execute_typed srv q s)
  pub queried :
      (q : Text) (s : Server.Session srv)
      → leading_keywords q 6 ≢ []
      → Ran block q (block s) (Server.query_typed srv q s)
  pub prepared_kept :
      (q : Text) (s : Server.Session srv) → Kept block (block s) (Server.prepare srv q s)
  pub queried_in_time :
      (q : Text) (s : Server.Session srv)
      → leading_keywords q 6 ≢ []
      → transaction_effect q ≡ unchanged
      → block s ≡ false
      → block (Server.query_in_time srv q s).1 ≡ false
  pub prepared_in_time :
      (q : Text) (s : Server.Session srv)
      → block s ≡ false
      → block (Server.prepare_in_time srv q s).1 ≡ false
  pub rolled_back :
      (s : Server.Session srv) → block (Server.batch_execute srv (codes "ROLLBACK") s).1 ≡ false
  pub path_read :
      (s : Server.Session srv) → block s ≡ false → block (Server.read_search_path srv s).1 ≡ false
  pub path_set :
      (schema current : Text) (s : Server.Session srv)
      → block s ≡ false
      → block (Server.batch_execute srv (build_search_path_sql schema current false) s).1 ≡ false

-- A statement that the flag can follow: it begins with a keyword; if it ends a transaction, it does
-- so even when it fails (a failing `COMMIT` rolls back); if it returns rows, neither it nor its
-- paginated form is transaction control.
pub record IsTame (srv : Server) (tx : Transactions srv) (call : Call (Server.Session srv))
    (q : Text) : Type 0 where
  pub named : leading_keywords q 6 ≢ []
  pub ended :
      ends_transaction (transaction_effect q) ≡ true
      → (s : Server.Session srv) → Ended (Transactions.block tx) (Server.execute_typed srv q s)
  pub calm : returns_result_set call.table q ≡ true → transaction_effect q ≡ unchanged
  pub final_named :
      returns_result_set call.table q ≡ true
      → leading_keywords (Plan.final_query (plan_query call.table q call.limit call.page)) 6 ≢ []
  pub final_calm :
      returns_result_set call.table q ≡ true
      → transaction_effect (Plan.final_query (plan_query call.table q call.limit call.page))
        ≡ unchanged

-- The flag behind an outcome is the state of the backend.
abbrev pub InSync : {S : Type 0} → (S → Bool) → Text → Bool → QueryOutcome × S → Type 0
InSync block q before (outcome, t) =
    block t
    ≡ in_transaction_after_outcome (transaction_effect q) (is_ok outcome.result) before
        outcome.txn_aborted
