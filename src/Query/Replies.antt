-- ===== src/Query/Replies.antt =====
-- src/handlers/query.rs: the replies to the requests that run statements, as JSON. Elapsed times are the
-- 64 bits of the float that is shown.
use tabularis_postgresql_plu.Query.Server.{Result, ok, err}
use tabularis_postgresql_plu.Query.Client.{Page, QueryResult}
use tabularis_postgresql_plu.Rpc.{ok_response, error_response}
use tabularis_postgresql_plu.Ddl.Requests.{items}
use tabularis_postgresql_plu.Json.{
  float, pos_int, Value, null, bool, number, string, array, object, Items, nil, cons, end, field,
}
use tabularis_postgresql_plu.Base.{
  ℕ, suc, Bool, List, [], ◌∷◌, ◌++◌, Option, none, some, Text, codes, if◌then◌else◌,
}

unfoldable pub page_value : Option Page → Value
page_value none = null
page_value (some p) = object (
    field (codes "has_more") (bool p.has_more) (
      field (codes "page") (number (pos_int p.page)) (
        field (codes "page_size") (number (pos_int p.page_size))
          (field (codes "total_rows") null end))))

unfoldable pub values : List Value → Items
values [] = nil
values (v ∷ vs) = cons v (values vs)

unfoldable pub row_items : List (List Value) → Items
unfolding values
row_items [] = nil
row_items (r ∷ rs) = cons (array (values r)) (row_items rs)

unfoldable pub result_value : QueryResult → Value
unfolding page_value row_items items
result_value r = object (
    field (codes "affected_rows") (number (pos_int r.affected_rows)) (
      field (codes "columns") (array (items r.columns)) (
        field (codes "pagination") (page_value r.pagination) (
          field (codes "rows") (array (row_items r.rows))
            (field (codes "truncated") (bool r.truncated) end)))))

abbrev pub statement_members : Value → ℕ → Value → Value
statement_members error elapsed result = object (
    field (codes "error") error (
      field (codes "execution_time_ms") (number (float elapsed))
        (field (codes "result") result end)))

-- One entry of a batch's results.
unfoldable pub statement_value : ℕ → Result Text QueryResult → Value
unfolding result_value
statement_value elapsed (ok r) = statement_members null elapsed (result_value r)
statement_value elapsed (err e) = statement_members (string e) elapsed null

unfoldable pub statement_items : (ℕ → ℕ) → ℕ → List (Result Text QueryResult) → Items
unfolding statement_value
statement_items elapsed n [] = nil
statement_items elapsed n (r ∷ rs) =
    cons (statement_value (elapsed n) r) (statement_items elapsed (suc n) rs)

abbrev pub flagged : Text → Value → Bool → Value
flagged key v in_transaction =
    object (field (codes "in_transaction") (bool in_transaction) (field key v end))

-- `results.pop()`, and what the host gets of that statement.
unfoldable pub statement_reply : Value → Bool → Result Text QueryResult → Value
unfolding ok_response result_value
statement_reply id in_transaction (ok v) =
    ok_response id (flagged (codes "result") (result_value v) in_transaction)
statement_reply id in_transaction (err e) = ok_response id (
    object
      (field (codes "error") (string e) (field (codes "in_transaction") (bool in_transaction) end)))

unfoldable pub last_reply : Value → Bool → List (Result Text QueryResult) → Value
unfolding ok_response statement_reply
last_reply id in_transaction [] = ok_response id (flagged (codes "result") null in_transaction)
last_reply id in_transaction (r ∷ rs) = elim rs [
  | [] ↦ statement_reply id in_transaction r
  | s ∷ ts ↦ last_reply id in_transaction rs
]

unfoldable pub session_reply : Value → Result Text (List (Result Text QueryResult) × Bool) → Value
unfolding last_reply error_response
session_reply id (ok (results, in_transaction)) = last_reply id in_transaction results
session_reply id (err e) = error_response id 32602 e

unfoldable pub batch_reply :
    Value → (ℕ → ℕ) → Option Text → Result Text (List (Result Text QueryResult) × Bool) → Value
unfolding statement_items ok_response error_response
batch_reply id elapsed (some sid) (ok (results, in_transaction)) =
    ok_response id
      (flagged (codes "results") (array (statement_items elapsed 0 results)) in_transaction)
batch_reply id elapsed none (ok (results, in_transaction)) =
    ok_response id (array (statement_items elapsed 0 results))
batch_reply id elapsed session (err e) = error_response id 32602 e

unfoldable pub result_reply : Value → Result Text QueryResult → Value
unfolding result_value ok_response error_response
result_reply id (ok r) = ok_response id (result_value r)
result_reply id (err e) = error_response id 32602 e

unfoldable pub raw_explain_output : (Value → Text) → Value → Text → Value
raw_explain_output to_string plan_json original_query = object (
    field (codes "engine") (string (codes "postgres")) (
      field (codes "format") (string (codes "postgres-json")) (
        field (codes "original_query") (string original_query)
          (field (codes "payload") (string (to_string plan_json)) end))))

-- The first value of the first row.
unfoldable pub plan_of : QueryResult → Option Value
plan_of r = elim r.rows [ [] ↦ none | row ∷ rows ↦ elim row [ [] ↦ none | v ∷ vs ↦ some v ] ]

unfoldable pub explain_reply : (Value → Text) → Value → Text → Result Text QueryResult → Value
unfolding plan_of raw_explain_output result_reply result_value ok_response error_response
explain_reply to_string id query (ok r) = elim (plan_of r) [
  | some plan_json ↦ ok_response id (raw_explain_output to_string plan_json query)
  | none ↦ ok_response id (result_value r)
]
explain_reply to_string id query (err e) = error_response id 32602 e

unfoldable pub explain_sql : Bool → Text → Text
explain_sql analyze query =
    (if analyze
      then codes "EXPLAIN (FORMAT JSON, ANALYZE, BUFFERS) "
      else codes "EXPLAIN (FORMAT JSON) ")
    ++ query
