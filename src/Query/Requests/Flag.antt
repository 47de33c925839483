-- ===== src/Query/Requests/Flag.antt =====
-- src/handlers/query.rs: what the host is told of the transaction of a session, against what becomes of
-- the session's connection.
use tabularis_postgresql_plu.Query.Server.{Server, Result, ok, err}
use tabularis_postgresql_plu.Query.Client.{QueryResult}
use tabularis_postgresql_plu.Query.Pooled.{select_schema}
use tabularis_postgresql_plu.Query.Batch.{
  Handles, Call, Run, Disposition, unacquired, pinned, pooled, Outcome, run_statements, settle,
  start, run_batch, run_batch_in_session,
}
use tabularis_postgresql_plu.Query.Replies.{statement_reply, last_reply, session_reply, batch_reply}
use tabularis_postgresql_plu.Query.Requests.{
  Env, call_of, limit_of, page_of, session_of, slot_of, queries_of, query_of, run_request,
  execute_query_batch, execute_in_session,
}
use tabularis_postgresql_plu.Cancel.{register}
use tabularis_postgresql_plu.Rpc.{ok_response, error_response}
use tabularis_postgresql_plu.Json.{Value, get, as_bool}
use tabularis_postgresql_plu.Base.{
  ℕ, ◌≡◌, refl, ◌∙◌, sym, Bool, true, false, Bool-cases, inl, inr, List, [], ◌∷◌, Option, none,
  some, ◌>>=◌, Text, codes, text_eq, get_or_else, is_some, arith,
}

-- The member `in_transaction` of a result, false in a reply that has none.
unfoldable pub told_open : Value → Bool
unfolding get as_bool
told_open v =
    get_or_else (get v (codes "result") >>= (λ r. get r (codes "in_transaction")) >>= as_bool) false

abbrev pub is_pinned : {S : Type 0} → Disposition S → Bool
is_pinned unacquired = false
is_pinned (pinned s) = true
is_pinned (pooled s) = false

abbrev Agrees :
    {S : Type 0} → Result Text (List (Result Text QueryResult) × Bool) → Disposition S → Type 0
Agrees (ok (results, in_transaction)) d = in_transaction ≡ is_pinned d
Agrees (err e) d = is_pinned d ≡ false

statement_reply-told :
    (id : Value) (b : Bool) (r : Result Text QueryResult) → told_open (statement_reply id b r) ≡ b
unfolding told_open statement_reply text_eq
statement_reply-told id b (ok v) = refl
statement_reply-told id b (err e) = refl

last_reply-told :
    (id : Value) (b : Bool) (rs : List (Result Text QueryResult))
    → told_open (last_reply id b rs) ≡ b
unfolding last_reply
last_reply-told id b [] = unfold told_open ok_response text_eq in refl
last_reply-told id b (r ∷ []) = statement_reply-told id b r
last_reply-told id b (r ∷ s ∷ rs) = last_reply-told id b (s ∷ rs)

session_reply-told :
    {S : Type 0} (id : Value) (r : Result Text (List (Result Text QueryResult) × Bool))
    (d : Disposition S)
    → Agrees r d
    → told_open (session_reply id r) ≡ is_pinned d
unfolding session_reply
session_reply-told id (ok (rs, b)) d h = last_reply-told id b rs ∙ h
session_reply-told id (err e) d h = unfold told_open error_response text_eq in sym h

batch_reply-told :
    {S : Type 0} (id : Value) (elapsed : ℕ → ℕ) (sid : Text)
    (r : Result Text (List (Result Text QueryResult) × Bool)) (d : Disposition S)
    → Agrees r d
    → told_open (batch_reply id elapsed (some sid) r) ≡ is_pinned d
unfolding batch_reply told_open ok_response error_response text_eq
batch_reply-told id elapsed sid (ok (rs, b)) d h = h
batch_reply-told id elapsed sid (err e) d h = sym h

module _ (srv : Server) where
  open srv use {Session, cancel_token}

  abbrev OutcomeAgrees : Outcome Session → Type 0
  OutcomeAgrees out = Agrees (out.reply) (out.connection)

  settle-Agrees : (id : Option ℕ) (r : Run Session) → OutcomeAgrees (settle srv id true r)
  unfolding settle
  settle-Agrees id r = elim (Bool-cases r.in_transaction) [
    | inl open_txn ↦ rw open_txn refl
    | inr idle ↦ rw idle refl
  ]

  run_batch-Agrees :
      (call : Call Session) (qs : List Text) (h : Handles) (r : Result Text (Unit {0}) × Session)
      → OutcomeAgrees (run_batch srv call qs true h r)
  unfolding run_batch
  run_batch-Agrees call qs h (err e, s) = refl
  run_batch-Agrees call qs h (ok u, s) =
      settle-Agrees call.request_id (run_statements srv call qs (start srv s false h))

  run_batch_in_session-Agrees :
      (call : Call Session) (qs : List Text) (slot : Option Session)
      (acquired : Result Text Session) (h : Handles)
      → OutcomeAgrees (run_batch_in_session srv call qs true slot acquired h)
  unfolding run_batch_in_session
  run_batch_in_session-Agrees call qs (some s) acquired h =
      settle-Agrees call.request_id (
        run_statements srv call qs (start srv s true (register call.request_id (cancel_token s) h)))
  run_batch_in_session-Agrees call qs none (err e) h = refl
  run_batch_in_session-Agrees call qs none (ok s) h =
      run_batch-Agrees call qs (register call.request_id (cancel_token s) h)
        (select_schema srv call.schema false s)

  run_request-Agrees :
      (env : Env Session) (id params : Value) (qs : List Text)
      → is_some (session_of params) ≡ true
      → OutcomeAgrees (run_request srv env id params qs)
  unfolding run_request
  run_request-Agrees env id params qs h = rw h (
      run_batch_in_session-Agrees (call_of env id params (limit_of params) (page_of params)) qs
        (slot_of (session_of params) env.slot) env.acquired env.handles)

  batch_reply-some :
      (id : Value) (elapsed : ℕ → ℕ) (session : Option Text)
      (r : Result Text (List (Result Text QueryResult) × Bool)) (d : Disposition Session)
      → is_some session ≡ true
      → Agrees r d
      → told_open (batch_reply id elapsed session r) ≡ is_pinned d
  batch_reply-some id elapsed none r d s h = absurd (ground (arith, s))
  batch_reply-some id elapsed (some sid) r d s h = batch_reply-told id elapsed sid r d h

  -- With a session, the reply to a statement or to a batch says that a transaction is open exactly when
  -- the session keeps its connection, on every path, errors included.
  pub execute-told :
      (env : Env Session) (id params : Value)
      → is_some (session_of params) ≡ true
      → (told_open (execute_in_session srv env id params).0
          ≡ is_pinned (execute_in_session srv env id params).1.connection)
        × (told_open (execute_query_batch srv env id params).0
            ≡ is_pinned (execute_query_batch srv env id params).1.connection)
  unfolding execute_in_session execute_query_batch
  execute-told env id params h = (
    session_reply-told id _ _ (run_request-Agrees env id params (query_of params ∷ []) h),
    batch_reply-some id env.elapsed (session_of params) _ _ h
        (run_request-Agrees env id params (queries_of params) h),
  )
