-- ===== src/Query/Server.antt =====
-- The backend connection, which tokio-postgres and PostgreSQL provide: a parameter of the model. An
-- operation takes the state of the connection and returns the new one with its result.
use tabularis_postgresql_plu.Base.{ℕ, Bool, List, Option, Text}
use tabularis_postgresql_plu.Json.{Value}

pub data Result {ℓ κ} (E : Type ℓ) (A : Type κ) : Type (ℓ ⊔ κ) where
  ok : A → Result E A
  err : E → Result E A

-- What `tokio::time::timeout` returns.
pub data Timed {ℓ} (A : Type ℓ) : Type ℓ where
  elapsed : Timed A
  in_time : A → Timed A

abbrev pub is_ok {ℓ κ} : {E : Type ℓ} {A : Type κ} → Result E A → Bool
is_ok (ok a) = Bool.true
is_ok (err e) = Bool.false

-- `format_pg_error`, `format_query_error` and `extract_value` are functions of the program over the
-- library's errors and rows; they enter here by the texts and values that they produce.
pub record Server : Type 1 where
  pub Session : Type 0
  pub Failure : Type 0
  pub Row : Type 0
  pub Statement : Type 0
  pub execute_typed : Text → Session → Result Failure ℕ × Session
  pub query_typed : Text → Session → Result Failure (List Row) × Session
  pub prepare : Text → Session → Result Failure Statement × Session
  pub batch_execute : Text → Session → Result Failure (Unit {0}) × Session
  pub query_in_time : Text → Session → Timed (Result Failure (List Row)) × Session
  pub prepare_in_time : Text → Session → Timed (Result Failure Statement) × Session
  -- `query_typed_one` on the two settings, and `try_get` of its columns.
  pub read_search_path : Session → Result Failure (Option Text × Text) × Session
  pub statement_columns : Statement → List Text
  pub row_columns : Row → List Text
  pub row_values : Row → List Value
  pub cancel_token : Session → ℕ
  pub is_db_error : Failure → Bool
  pub format_pg_error : Failure → Text
  pub format_query_error : Failure → Bool → Text
