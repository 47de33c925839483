-- ===== src/Query/Batch/Sync/Disposal.antt =====
-- src/handlers/query.rs, `run_batch_in_session`: the connection at the end of a batch. A connection in
-- a session's slot is inside a transaction, and one that goes back to the pool is not.
use tabularis_postgresql_plu.Query.Server.{Server, Result, ok, err}
use tabularis_postgresql_plu.Query.Client.{
  QueryOutcome, exec_query_on_client, in_transaction_after_outcome,
}
use tabularis_postgresql_plu.Query.Pooled.{
  build_search_path_sql, set_path, apply_search_path, select_schema,
}
use tabularis_postgresql_plu.Query.Batch.{
  Handles, Call, Run, Disposition, unacquired, pinned, pooled, Outcome, record_outcome, on_client,
  on_oneshot, run_statement, run_statements, settle, start, run_batch, run_batch_in_session,
}
use tabularis_postgresql_plu.Cancel.{register}
use tabularis_postgresql_plu.Query.Batch.Sync.{Transactions, IsTame, InSync}
use tabularis_postgresql_plu.Query.Batch.Sync.Statements.{exec_query_on_client-InSync}
use tabularis_postgresql_plu.Statement.Effect.{
  TransactionEffect, unchanged, transaction_effect, in_transaction_after,
}
use tabularis_postgresql_plu.Statement.Shape.{returns_result_set}
use tabularis_postgresql_plu.Base.{
  ℕ, ◌≡◌, refl, sym, ◌∙◌, Bool, true, false, ◌&&◌, ◌||◌, not, List, [], ◌∷◌, ◌++◌, Option, none,
  some, Text, codes, arith, inl, inr, Bool-cases, All, get_or_else,
}

module _ (srv : Server) (tx : Transactions srv) where
  open srv use {Session, batch_execute, cancel_token, Failure}
  open tx use {block, rolled_back, path_read, path_set}

  -- A pinned connection is inside a transaction, one in the pool is in none.
  abbrev pub IsClean : Disposition Session → Type 0
  IsClean unacquired = Unit {0}
  IsClean (pinned s) = block s ≡ true
  IsClean (pooled s) = block s ≡ false

  abbrev Follows : Run Session → Type 0
  Follows r = block r.client ≡ r.in_transaction

  record_outcome-Follows :
      (r : Run Session) (q : Text) (out : QueryOutcome × Session) (h : Handles)
      → InSync block q r.in_transaction out
      → Follows (record_outcome srv r q out h)
  unfolding record_outcome
  record_outcome-Follows r q (outcome, s) h k = k

  outcome_unchanged :
      (effect : TransactionEffect) (succeeded before : Bool)
      → effect ≡ unchanged
      → in_transaction_after_outcome effect succeeded before false ≡ before
  unfolding in_transaction_after_outcome in_transaction_after
  outcome_unchanged effect succeeded before e = rw e refl

  module _ (call : Call Session) where
    on_client-Follows :
        (r : Run Session) (q : Text) (pre : Bool)
        → IsTame srv tx call q
        → Follows r
        → Follows (on_client srv call r q pre)
    unfolding on_client
    on_client-Follows r q pre tame k =
        record_outcome-Follows r q
          (exec_query_on_client srv call.table q call.limit call.page call.pooler pre
            r.in_transaction r.client)
          r.handles (exec_query_on_client-InSync srv tx call q tame pre r.in_transaction r.client k)

    on_oneshot-Follows :
        (r : Run Session) (q : Text)
        → transaction_effect q ≡ unchanged
        → Follows r
        → Follows (on_oneshot srv call r q)
    unfolding on_oneshot record_outcome
    on_oneshot-Follows r q e k =
        k ∙ sym (outcome_unchanged (transaction_effect q) _ r.in_transaction e)

    run_statement-Follows :
        (r : Run Session) (q : Text)
        → IsTame srv tx call q
        → Follows r
        → Follows (run_statement srv call r q)
    unfolding run_statement
    run_statement-Follows r q tame k =
        elim (Bool-cases (call.pooler && returns_result_set call.table q)) [
          | inl routed ↦ elim (Bool-cases (r.in_transaction || r.session_state_set)) [
            | inl held ↦ rw (routed, held) (on_client-Follows r q true tame k)
            | inr free ↦
                rw (routed, free) (on_oneshot-Follows r q (tame.calm (ground (arith, routed))) k)
          ]
          | inr direct ↦ rw direct (on_client-Follows r q (not call.pooler) tame k)
        ]

    run_statements-Follows :
        (qs : List Text) (r : Run Session)
        → All (IsTame srv tx call) qs
        → Follows r
        → Follows (run_statements srv call qs r)
    unfolding run_statements
    run_statements-Follows [] r tame k = k
    run_statements-Follows (q ∷ qs) r (t, tame) k =
        run_statements-Follows qs (run_statement srv call r q) tame (run_statement-Follows r q t k)

  settle-IsClean :
      (id : Option ℕ) (has_session : Bool) (r : Run Session)
      → Follows r
      → IsClean ((settle srv id has_session r).connection)
  unfolding settle
  settle-IsClean id has_session r k = elim (Bool-cases r.in_transaction) [
    | inl open_txn ↦ elim (Bool-cases has_session) [
      | inl kept ↦ rw (open_txn, kept) (k ∙ open_txn)
      | inr dropped ↦ rw (open_txn, dropped) (rolled_back r.client)
    ]
    | inr idle ↦ rw idle (k ∙ idle)
  ]

  set_path-block :
      (schema : Text) (r : Result Failure (Option Text × Text) × Session)
      → block r.1 ≡ false
      → block (set_path srv schema false r).1 ≡ false
  unfolding set_path
  set_path-block schema (err e, s) h = h
  set_path-block schema (ok (snapshot, live), s) h =
      set_result (batch_execute (build_search_path_sql schema (get_or_else snapshot live) false) s)
        (path_set schema (get_or_else snapshot live) s h)
    where
      set_result :
          (r : Result Failure (Unit {0}) × Session)
          → block r.1 ≡ false
          → block
              (let (o, t) = r in
                elim o as (λ _. Result Text (Unit {0}) × Session) [
                  | ok _ ↦ (ok tt, t)
                  | err e ↦
                      (err (codes "Failed to set search_path: " ++ Server.format_pg_error srv e), t)
                ]).1
            ≡ false
      set_result (ok u, t) k = k
      set_result (err e, t) k = k

  pub select_schema-block :
      (schema : Option Text) (s : Session)
      → block s ≡ false
      → block (select_schema srv schema false s).1 ≡ false
  unfolding select_schema apply_search_path
  select_schema-block none s h = h
  select_schema-block (some schema) s h =
      set_path-block schema (Server.read_search_path srv s) (path_read s h)

  run_batch-IsClean :
      (call : Call Session) (qs : List Text) (has_session : Bool) (h : Handles)
      (r : Result Text (Unit {0}) × Session)
      → All (IsTame srv tx call) qs
      → block r.1 ≡ false
      → IsClean (Outcome.connection (run_batch srv call qs has_session h r))
  unfolding run_batch
  run_batch-IsClean call qs has_session h (err e, s) tame k = k
  run_batch-IsClean call qs has_session h (ok u, s) tame k =
      settle-IsClean call.request_id has_session (run_statements srv call qs (start srv s false h))
        (run_statements-Follows call qs (start srv s false h) tame k)

  -- The connection that the session's slot holds is inside a transaction.
  abbrev pub HoldsTransaction : Option Session → Type 0
  HoldsTransaction none = Unit {0}
  HoldsTransaction (some s) = block s ≡ true

  -- A connection that the pool gives out is in no transaction.
  abbrev pub GivesIdle : Result Text Session → Type 0
  GivesIdle (ok s) = block s ≡ false
  GivesIdle (err e) = Unit {0}

  -- A batch of tame statements keeps every connection in its place, whichever statements fail: a
  -- connection that goes back to the pool is never inside a transaction, and one that is kept in the
  -- session's slot always is, given that it was so before the batch.
  pub run_batch_in_session-IsClean :
      (call : Call Session) (qs : List Text) (has_session : Bool) (slot : Option Session)
      (acquired : Result Text Session) (h : Handles)
      → All (IsTame srv tx call) qs
      → HoldsTransaction slot
      → GivesIdle acquired
      → IsClean (Outcome.connection (run_batch_in_session srv call qs has_session slot acquired h))
  unfolding run_batch_in_session
  run_batch_in_session-IsClean call qs has_session (some s) acquired h tame holds idle =
      settle-IsClean call.request_id has_session (run_statements srv call qs begun)
        (run_statements-Follows call qs begun tame holds)
    where
      begun : Run Session
      begun = start srv s true (register call.request_id (cancel_token s) h)
  run_batch_in_session-IsClean call qs has_session none (err e) h tame holds idle = tt
  run_batch_in_session-IsClean call qs has_session none (ok s) h tame holds idle =
      run_batch-IsClean call qs has_session _ _ tame (select_schema-block call.schema s idle)
