-- ===== src/Tests/Backend.antt =====
-- A small backend: its state says whether a transaction block is open, and the statements that a test
-- names fail. Batches run on it.
use tabularis_postgresql_plu.Query.Server.{Server, Result, ok, err, Timed, in_time}
use tabularis_postgresql_plu.Query.Pooled.{build_search_path_sql, fresh}
use tabularis_postgresql_plu.Query.Client.{plan_query, ends_transaction, exec_query_on_client}
use tabularis_postgresql_plu.Query.Batch.{Call, Outcome, pooled, run_batch_in_session}
use tabularis_postgresql_plu.Query.Batch.Sync.{Transactions, IsTame, Ran, Kept, InSync}
use tabularis_postgresql_plu.Query.Batch.Sync.Statements.{exec_query_on_client-InSync}
use tabularis_postgresql_plu.Query.Batch.Sync.Disposal.{IsClean, run_batch_in_session-IsClean}
use tabularis_postgresql_plu.Query.Batch.Handles.{run_batch_in_session-handles}
use tabularis_postgresql_plu.Cancel.{find_action}
use tabularis_postgresql_plu.Statement.Effect.{transaction_effect, in_transaction_after, unchanged}
use tabularis_postgresql_plu.Statement.Keywords.{leading_keywords}
use tabularis_postgresql_plu.Statement.Shape.{returns_result_set}
use tabularis_postgresql_plu.Base.{
  ℕ, ◌≡◌, refl, Bool, true, false, ◌||◌, List, [], ◌∷◌, none, some, Text, codes, ◌==◌,
  if◌then◌else◌, arith, is_nil, trim, Bool-cases, inl, inr, starts_with, text_eq,
}

module _ (fails : Text → Bool) where
  -- The answer to a statement, with the state behind it.
  abbrev answer {ℓ} : {A : Type ℓ} → Bool → Text → A → Bool → Result (Unit {0}) A × Bool
  answer true q a s = (err tt, s)
  answer false q a s = (ok a, in_transaction_after (transaction_effect q) true s)

  abbrev batch_state : Text → Bool → Bool
  batch_state [] s = s
  batch_state (c ∷ q) s = if c == b'B' then true else if c == b'R' || c == b'C' then false else s

  abbrev timed {ℓ} : {A : Type ℓ} → A × Bool → Timed A × Bool
  timed (a, s) = (in_time a, s)

  abbrev pub backend : Server
  backend = record {
    Session = Bool;
    Failure = Unit {0};
    Row = Unit {0};
    Statement = Unit {0};
    execute_typed = λ q s. answer (fails q) q 1 s;
    query_typed = λ q s. answer (fails q) q (tt ∷ []) s;
    prepare = λ q s. if fails q then (err tt, s) else (ok tt, s);
    batch_execute = λ q s. (ok tt, batch_state q s);
    query_in_time = λ q s. timed (answer (fails q) q (tt ∷ []) s);
    prepare_in_time = λ q s. (in_time (ok tt), s);
    read_search_path = λ s. (ok (none, codes "public"), s);
    statement_columns = λ _. codes "a" ∷ [];
    row_columns = λ _. codes "a" ∷ [];
    row_values = λ _. [];
    cancel_token = λ _. 7;
    is_db_error = λ _. true;
    format_pg_error = λ _. codes "error";
    format_query_error = λ _ _. codes "error";
  }

  pub answer-Ran :
      {A : Type 0} (b : Bool) (q : Text) (a : A) (s : Bool) → Ran (λ t. t) q s (answer b q a s)
  answer-Ran true q a s = λ e. e
  answer-Ran false q a s = refl

  pub answer-idle :
      {A : Type 0} (b : Bool) (q : Text) (a : A) (s : Bool)
      → transaction_effect q ≡ unchanged
      → s ≡ false
      → (timed (answer b q a s)).1 ≡ false
  unfolding in_transaction_after
  answer-idle true q a s e h = h
  answer-idle false q a s e h = rw e h

  pub prepare-Kept :
      (b s : Bool)
      → Kept (λ t. t) {E = Unit {0}} {A = Unit {0}} s (if b then (err tt, s) else (ok tt, s))
  prepare-Kept true s = λ e. e
  prepare-Kept false s = refl

  pub path_set-idle :
      (schema current : Text) (s : Bool)
      → s ≡ false
      → batch_state (build_search_path_sql schema current false) s ≡ false
  unfolding build_search_path_sql
  path_set-idle schema current s h = elim (Bool-cases (is_nil (trim current))) [
    | inl e ↦ rw e h
    | inr e ↦ rw e h
  ]

  abbrev pub backend_transactions : Transactions backend
  backend_transactions = record {
    block = λ s. s;
    executed = λ q s _. answer-Ran (fails q) q 1 s;
    queried = λ q s _. answer-Ran (fails q) q (tt ∷ []) s;
    prepared_kept = λ q s. prepare-Kept (fails q) s;
    queried_in_time = λ q s _ e h. answer-idle (fails q) q (tt ∷ []) s e h;
    prepared_in_time = λ q s h. h;
    rolled_back = λ s. refl;
    path_read = λ s h. h;
    path_set = path_set-idle;
  }

abbrev pub fails_insert : Text → Bool
fails_insert q = starts_with q (codes "INSERT")

abbrev ascii : ℕ → Text
ascii c = c ∷ []

abbrev pub call : Call Bool
call = record {
  table = ascii;
  pooler = true;
  limit = some 10;
  page = 1;
  schema = some (codes "app");
  request_id = some 4;
  oneshot = λ _. fresh false;
}

abbrev pub begin_query : Text
begin_query = codes "BEGIN"

abbrev pub insert_query : Text
insert_query = codes "INSERT INTO t VALUES (1)"

abbrev select_query : Text
select_query = codes "SELECT 1"

pub begin-IsTame :
    IsTame (backend fails_insert) (backend_transactions fails_insert) call begin_query
unfolding leading_keywords transaction_effect returns_result_set ends_transaction text_eq
begin-IsTame = record {
  named = ground arith;
  ended = λ e s. absurd (ground (arith, e));
  calm = λ e. absurd (ground (arith, e));
  final_named = λ e. absurd (ground (arith, e));
  final_calm = λ e. absurd (ground (arith, e));
}

pub insert-IsTame :
    IsTame (backend fails_insert) (backend_transactions fails_insert) call insert_query
unfolding leading_keywords transaction_effect returns_result_set ends_transaction text_eq
insert-IsTame = record {
  named = ground arith;
  ended = λ e s. absurd (ground (arith, e));
  calm = λ e. refl;
  final_named = λ e. absurd (ground (arith, e));
  final_calm = λ e. absurd (ground (arith, e));
}

select-IsTame : IsTame (backend fails_insert) (backend_transactions fails_insert) call select_query
unfolding leading_keywords transaction_effect returns_result_set ends_transaction text_eq plan_query
select-IsTame = record {
  named = ground arith;
  ended = λ e s. absurd (ground (arith, e));
  calm = λ e. refl;
  final_named = λ e. ground arith;
  final_calm = λ e. refl;
}

exec_query_on_client-InSync_example :
    InSync
      (λ t. t)
      insert_query
      true
      (exec_query_on_client
        (backend fails_insert)
        ascii
        insert_query
        (some 10)
        1
        true
        true
        true
        true)
exec_query_on_client-InSync_example =
    exec_query_on_client-InSync (backend fails_insert) (backend_transactions fails_insert) call
      insert_query insert-IsTame true true true refl

-- A transaction that an `INSERT` aborts, and a read behind it: the connection is back in the pool, in
-- no transaction.
run_batch_in_session-IsClean_example :
    IsClean (backend fails_insert) (backend_transactions fails_insert) (
      Outcome.connection (
        run_batch_in_session
          (backend fails_insert)
          call
          (begin_query ∷ select_query ∷ insert_query ∷ select_query ∷ [])
          true
          none
          (ok false)
          []))
run_batch_in_session-IsClean_example =
    run_batch_in_session-IsClean (backend fails_insert) (backend_transactions fails_insert) call
      (begin_query ∷ select_query ∷ insert_query ∷ select_query ∷ []) true none (ok false) []
      (begin-IsTame, (select-IsTame, (insert-IsTame, (select-IsTame, tt)))) tt refl

abbrev other_requests : List (ℕ × ℕ)
other_requests = (3, 50) ∷ (5, 60) ∷ []

run_batch_in_session-handles_example :
    find_action 5 (
      Outcome.handles (
        run_batch_in_session
          (backend fails_insert)
          call
          (begin_query ∷ insert_query ∷ select_query ∷ [])
          true
          none
          (ok false)
          other_requests))
    ≡ find_action 5 other_requests
run_batch_in_session-handles_example =
    run_batch_in_session-handles (backend fails_insert) call
      (begin_query ∷ insert_query ∷ select_query ∷ []) true none (ok false) other_requests 5
      (unfold find_action in refl)

-- A `COMMIT` that fails without ending the transaction, as one with a syntax error does: the handler
-- takes the transaction for ended, and the connection goes back to the pool inside it.
abbrev fails_commit : Text → Bool
fails_commit q = starts_with q (codes "COMMIT nonsense")

pooled_inside_transaction :
    Outcome.connection (
      run_batch_in_session
        (backend fails_commit)
        call
        (begin_query ∷ codes "COMMIT nonsense" ∷ [])
        true
        none
        (ok false)
        [])
    ≡ pooled true
unfolding run_batch_in_session leading_keywords text_eq
pooled_inside_transaction = refl
