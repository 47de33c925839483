-- ===== src/Query/Client/Outcome.antt =====
-- src/handlers/query.rs, `exec_query_on_client`: its outcome, the tests on a failing statement, and the
-- plan of a statement.
use tabularis_postgresql_plu.Query.Server.{Result, ok, err}
use tabularis_postgresql_plu.Base.{
  ℕ, Bool, true, false, ◌||◌, not, List, Option, none, some, Text, codes, if◌then◌else◌,
}
use tabularis_postgresql_plu.Json.{Value}
use tabularis_postgresql_plu.Pagination.{build_paginated_query}
use tabularis_postgresql_plu.Statement.Effect.{
  TransactionEffect, opens, closes, chains, unchanged, in_transaction_after,
}
use tabularis_postgresql_plu.Statement.Shape.{supports_trailing_limit_clause}

-- The "pagination" object of a reply.
pub record Page : Type 0 where
  pub page : ℕ
  pub page_size : ℕ
  pub has_more : Bool

-- The reply's object, field by field ("total_rows" is always null).
pub record QueryResult : Type 0 where
  pub columns : List Text
  pub rows : List (List Value)
  pub affected_rows : ℕ
  pub truncated : Bool
  pub pagination : Option Page

pub record QueryOutcome : Type 0 where
  pub result : Result Text QueryResult
  pub txn_aborted : Bool

unfoldable pub should_short_circuit_on_prepare_err : Bool → Bool
should_short_circuit_on_prepare_err in_transaction = in_transaction

unfoldable pub error_aborts_open_txn_inner : Bool → Bool → Bool
error_aborts_open_txn_inner is_db_error in_transaction =
    if not in_transaction then false else is_db_error || true

unfoldable pub in_transaction_after_outcome : TransactionEffect → Bool → Bool → Bool → Bool
unfolding in_transaction_after
in_transaction_after_outcome effect succeeded before txn_aborted =
    if txn_aborted then false else in_transaction_after effect succeeded before

-- `matches!(effect, Closes | Chains)`.
unfoldable pub ends_transaction : TransactionEffect → Bool
ends_transaction closes = true
ends_transaction chains = true
ends_transaction opens = false
ends_transaction unchanged = false

abbrev pub rolled_back : Text
rolled_back =
    codes
      "\n\nThe transaction was rolled back (a statement in it failed with an error that aborted the transaction)."

abbrev pub failed : Text → Bool → QueryOutcome
failed message aborted = record { result = err message; txn_aborted = aborted }

abbrev pub succeeded : QueryResult → QueryOutcome
succeeded r = record { result = ok r; txn_aborted = false }

-- `(final_query, page_size)` with `is_paginated` and `manual_limit`.
pub record Plan : Type 0 where
  pub final_query : Text
  pub page_size : ℕ
  pub is_paginated : Bool
  pub manual_limit : Option ℕ

unfoldable pub plan_query : (ℕ → Text) → Text → Option ℕ → ℕ → Plan
unfolding supports_trailing_limit_clause build_paginated_query
plan_query table query none page = record {
  final_query = query;
  page_size = 0;
  is_paginated = false;
  manual_limit = none;
}
plan_query table query (some lim) page =
    if supports_trailing_limit_clause table query
    then record {
      final_query = build_paginated_query table query lim page;
      page_size = lim;
      is_paginated = true;
      manual_limit = none;
    }
    else record {
      final_query = query;
      page_size = 0;
      is_paginated = false;
      manual_limit = some lim;
    }

abbrev pub page_of : Plan → ℕ → Bool → Option Page
page_of plan page more =
    if plan.is_paginated
    then some (record { page = page; page_size = plan.page_size; has_more = more })
    else none

abbrev pub row_cap : Plan → Option ℕ
row_cap plan = if plan.is_paginated then some plan.page_size else plan.manual_limit

-- What the pre-resolve left behind.
pub data Prepared (F S : Type 0) : Type 0 where
  skipped : Prepared F S
  prepared : S → Prepared F S
  prepare_err : F → Prepared F S
