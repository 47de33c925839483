-- ===== src/Query/Batch/Sync/Statements.antt =====
-- src/handlers/query.rs, `exec_query_on_client`: the flag follows the backend through one statement.
use tabularis_postgresql_plu.Query.Server.{Server, Result, ok, err, Timed, elapsed, in_time}
use tabularis_postgresql_plu.Query.Client.{
  QueryOutcome, Plan, Prepared, skipped, prepared, prepare_err, exec_query_on_client,
  in_transaction_after_outcome, ends_transaction, plan_query, write_done, write_on_client, aborts,
  rollback_if, fetched, fetch_rows, rows_reply, read_prepared, pre_resolve, prepared_of,
  full_result, discover_columns, error_aborted_open_txn, error_aborts_open_txn_inner,
  should_short_circuit_on_prepare_err,
}
use tabularis_postgresql_plu.Query.Batch.{Call}
use tabularis_postgresql_plu.Query.Batch.Sync.{Transactions, IsTame, InSync, Ran, Kept, Ended}
use tabularis_postgresql_plu.Statement.Effect.{
  TransactionEffect, unchanged, transaction_effect, in_transaction_after,
}
use tabularis_postgresql_plu.Statement.Keywords.{leading_keywords}
use tabularis_postgresql_plu.Statement.Shape.{returns_result_set}
use tabularis_postgresql_plu.Base.{
  ℕ, ◌≡◌, ◌≢◌, refl, sym, ◌∙◌, subst, Bool, true, false, ◌&&◌, not, List, [], ◌∷◌, Text, arith, inl,
  inr, Bool-cases,
}

module _ (srv : Server) (tx : Transactions srv) where
  open srv use {Session, Failure, Row, Statement, prepare}
  open tx use {
    block, executed, queried, prepared_kept, queried_in_time, prepared_in_time, rolled_back,
  }

  -- What `write_done` knows of the state behind a failing statement, effect by effect.
  failed_write :
      (e : Failure) (effect : TransactionEffect) (before : Bool) (s : Session)
      → (before ≡ false → block s ≡ false)
      → (ends_transaction effect ≡ true → block s ≡ false)
      → block
          (rollback_if srv (error_aborted_open_txn srv e before && not (ends_transaction effect)) s)
        ≡ in_transaction_after_outcome effect false before
            (error_aborted_open_txn srv e before && not (ends_transaction effect))
  unfolding error_aborted_open_txn error_aborts_open_txn_inner rollback_if ends_transaction
      in_transaction_after_outcome in_transaction_after
  failed_write e effect before s h k = ground (arith, rolled_back s)

  write_done-InSync :
      (q : Text) (before : Bool) (r : Result Failure ℕ × Session)
      → Ran block q before r
      → (ends_transaction (transaction_effect q) ≡ true → Ended block r)
      → InSync block q before (write_done srv q before r)
  unfolding write_done aborts in_transaction_after_outcome
  write_done-InSync q before (ok n, s) ran ended = ran
  write_done-InSync q before (err e, s) ran ended =
      failed_write e (transaction_effect q) before s ran ended

  unchanged-ends :
      {effect : TransactionEffect} → effect ≡ unchanged → ends_transaction effect ≡ true → ⊥
  unfolding ends_transaction
  unchanged-ends e h = ground (arith, e)

  -- What a fetch leaves behind: the state if it succeeds or runs out of time.
  abbrev Fetched : {A : Type 0} → Bool → Timed (Result Failure A) × Session → Type 0
  Fetched before (elapsed, t) = block t ≡ before
  Fetched before (in_time r, t) = Kept block before (r, t)

  -- The pre-resolve that goes with its switch and the flag, behind the test of its failure.
  abbrev Fits : Bool → Bool → Prepared Failure Statement → Type 0
  Fits before pre_resolve_types skipped = pre_resolve_types ≡ false
  Fits before pre_resolve_types (prepared stmt) = Unit {0}
  Fits before pre_resolve_types (prepare_err e) = before ≡ false

  Ran-Kept :
      {A : Type 0} (q : Text) (before : Bool) (r : Result Failure A × Session)
      → transaction_effect q ≡ unchanged
      → Ran block q before r
      → Kept block before r
  unfolding in_transaction_after
  Ran-Kept q before (ok a, t) e h = rw e at h
  Ran-Kept q before (err f, t) e h = h

  fetch_rows-Fetched :
      (pre : Bool) (prep : Prepared Failure Statement) (q : Text) (s : Session)
      → leading_keywords q 6 ≢ []
      → transaction_effect q ≡ unchanged
      → Fits (block s) pre prep
      → Fetched (block s) (fetch_rows srv prep q s)
  unfolding fetch_rows
  fetch_rows-Fetched pre skipped q s n e fits = Ran-Kept q (block s) _ e (queried q s n)
  fetch_rows-Fetched pre (prepared stmt) q s n e fits = Ran-Kept q (block s) _ e (queried q s n)
  fetch_rows-Fetched pre (prepare_err f) q s n e fits =
      timed (block s) _ fits (queried_in_time q s n e fits)
    where
      timed :
          {A : Type 0} (before : Bool) (r : Timed (Result Failure A) × Session)
          → before ≡ false
          → block r.1 ≡ false
          → Fetched before r
      timed before (elapsed, t) b h = h ∙ sym b
      timed before (in_time (ok a), t) b h = h ∙ sym b
      timed before (in_time (err g), t) b h = λ _. h

  discover_columns-block :
      (before pre : Bool) (prep : Prepared Failure Statement) (q : Text) (s : Session)
      → Fits before pre prep
      → block s ≡ before
      → block (discover_columns srv prep pre q s).1 ≡ before
  unfolding discover_columns
  discover_columns-block before pre (prepared stmt) q s fits h = h
  discover_columns-block before false skipped q s fits h = h
  discover_columns-block before true skipped q s fits h = absurd (ground arith)
  discover_columns-block before false (prepare_err e) q s fits h = h
  discover_columns-block before true (prepare_err e) q s fits h =
      prepared_in_time q s (h ∙ fits) ∙ sym fits

  module _ (q : Text) (calm : transaction_effect q ≡ unchanged) (pooler pre : Bool) (plan : Plan)
      (page : ℕ) where
    -- A success that changes nothing, and a failure without an abort outside a transaction.
    kept-InSync :
        (before : Bool) (r : QueryOutcome × Session)
        → r.0.txn_aborted ≡ false
        → block r.1 ≡ before
        → InSync block q before r
    unfolding in_transaction_after_outcome in_transaction_after
    kept-InSync before r a h = rw (a, calm) h

    rows_reply-InSync :
        (before : Bool) (prep : Prepared Failure Statement) (rows : List Row) (s : Session)
        → Fits before pre prep
        → block s ≡ before
        → InSync block q before (rows_reply srv plan page prep pre rows s)
    unfolding rows_reply full_result
    rows_reply-InSync before prep [] s fits h =
        kept-InSync before (rows_reply srv plan page prep pre [] s) refl
          (discover_columns-block before pre prep plan.final_query s fits h)
    rows_reply-InSync before prep (row ∷ rows) s fits h =
        kept-InSync before (rows_reply srv plan page prep pre (row ∷ rows) s) refl h

    fetched-InSync :
        (before : Bool) (prep : Prepared Failure Statement)
        (r : Timed (Result Failure (List Row)) × Session)
        → Fits before pre prep
        → Fetched before r
        → InSync block q before (fetched srv q pooler pre before plan page prep r)
    unfolding fetched aborts
    fetched-InSync before prep (elapsed, s) fits h =
        kept-InSync before (fetched srv q pooler pre before plan page prep (elapsed, s)) refl h
    fetched-InSync before prep (in_time (ok rows), s) fits h =
        rows_reply-InSync before prep rows s fits h
    fetched-InSync before prep (in_time (err e), s) fits h =
        failed_write e (transaction_effect q) before s h (λ ends. absurd (unchanged-ends calm ends))

    -- The outcome of the pre-resolve on a connection in the state `before`.
    abbrev Resolved : Bool → Prepared Failure Statement × Session → Type 0
    Resolved before (skipped, s) = (pre ≡ false) × (block s ≡ before)
    Resolved before (prepared stmt, s) = block s ≡ before
    Resolved before (prepare_err e, s) = before ≡ false → block s ≡ false

    fetched_after :
        (before : Bool) (prep : Prepared Failure Statement) (s : Session)
        → leading_keywords plan.final_query 6 ≢ []
        → transaction_effect plan.final_query ≡ unchanged
        → Fits before pre prep
        → block s ≡ before
        → InSync block q before (
            fetched srv q pooler pre before plan page prep (fetch_rows srv prep plan.final_query s))
    fetched_after before prep s n e fits h =
        fetched-InSync before prep (fetch_rows srv prep plan.final_query s) fits (
          subst (λ b. Fits b pre prep → Fetched b (fetch_rows srv prep plan.final_query s)) h
            (fetch_rows-Fetched pre prep plan.final_query s n e) fits)

    read_prepared-InSync :
        (before : Bool) (r : Prepared Failure Statement × Session)
        → leading_keywords plan.final_query 6 ≢ []
        → transaction_effect plan.final_query ≡ unchanged
        → Resolved before r
        → InSync block q before (read_prepared srv q pooler pre before plan page r)
    unfolding read_prepared should_short_circuit_on_prepare_err in_transaction_after_outcome
    read_prepared-InSync before (skipped, s) n e (fits, h) =
        fetched_after before skipped s n e fits h
    read_prepared-InSync before (prepared stmt, s) n e h =
        fetched_after before (prepared stmt) s n e tt h
    read_prepared-InSync true (prepare_err f, s) n e h = rolled_back s
    read_prepared-InSync false (prepare_err f, s) n e h =
        fetched_after false (prepare_err f) s n e refl (h refl)

  pre_resolve-Resolved :
      (q : Text) (calm : transaction_effect q ≡ unchanged) (pooler pre : Bool) (plan : Plan)
      (page : ℕ) (before : Bool) (s : Session)
      → block s ≡ before
      → Resolved q calm pooler pre plan page before (pre_resolve srv plan.final_query pre s)
  unfolding pre_resolve
  pre_resolve-Resolved q calm pooler false plan page before s h = (refl, h)
  pre_resolve-Resolved q calm pooler true plan page before s h =
      resolved (prepare plan.final_query s) (
        subst (λ b. Kept block b (prepare plan.final_query s)) h (prepared_kept plan.final_query s))
    where
      resolved :
          (r : Result Failure Statement × Session)
          → Kept block before r
          → Resolved q calm pooler true plan page before (let (o, t) = r in (prepared_of srv o, t))
      resolved (ok stmt, t) k = k
      resolved (err e, t) k = k

  -- The flag is the state of the backend behind every tame statement if it was so before, whether the
  -- statement succeeds, fails, or runs out of time, and with or without the type lookup.
  pub exec_query_on_client-InSync :
      (call : Call Session) (q : Text)
      → IsTame srv tx call q
      → (pre before : Bool) (s : Session) → block s ≡ before
      → InSync block q before
          (exec_query_on_client srv call.table q call.limit call.page call.pooler pre before s)
  unfolding exec_query_on_client write_on_client
  exec_query_on_client-InSync call q tame pre before s h =
      elim (Bool-cases (returns_result_set call.table q)) [
        | inl reads ↦ rw reads (
            read_prepared-InSync q (tame.calm reads) call.pooler pre
              (plan_query call.table q call.limit call.page) call.page before
              (pre_resolve srv (Plan.final_query (plan_query call.table q call.limit call.page)) pre
                s)
              (tame.final_named reads) (tame.final_calm reads)
              (pre_resolve-Resolved q (tame.calm reads) call.pooler pre
                (plan_query call.table q call.limit call.page) call.page before s h))
        | inr writes ↦ rw writes (
            write_done-InSync q before (Server.execute_typed srv q s)
              (subst (λ b. Ran block q b (Server.execute_typed srv q s)) h
                (executed q s tame.named))
              (λ e. tame.ended e s))
      ]
